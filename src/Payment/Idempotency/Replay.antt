-- ===== src/Payment/Idempotency/Replay.antt =====
-- What a repeated request gets from tec-payment-service/src/middlewares/idempotency.middleware.ts.
use Prim.Native.String.{count}
use tec_core_backend.Base.{Option, none, some, List, [], ◌∷◌, String, ◌==◌, if◌then◌else◌}
use tec_core_backend.Payment.Idempotency.{
  IdempotencyStore, CachedResponse, Request, missing, one, many, is_invalid, first_key, cache_key,
  idempotency,
}

-- The key that a request uses, if its header is valid.
abbrev pub valid_key : Option String → Option String → Option String
valid_key user none = none
valid_key user (some key) = if is_invalid key then none else some (cache_key user key)

module _ {B S : Type 0} where
  abbrev pub key_of : Request B S → Option String
  key_of req = elim req.raw_key [
    | missing ↦ none
    | one key ↦ if count key == 0 then none else valid_key req.user (some key)
    | many keys ↦ valid_key req.user (first_key keys)
  ]

  module _ (I : IdempotencyStore (CachedResponse B) (λ e. e.expires_at)) where
    open I use {Store, get, set, holds}

    -- Requests one after the other.
    unfoldable pub run_requests : List (Request B S) → Store × S → Store × S
    run_requests [] w = w
    run_requests (q ∷ qs) w = run_requests qs (idempotency I q w).1

-- ===== src/Payment/Idempotency/Examples.antt =====
-- Tests of the middleware on two routes, and the theorem at those inputs.
use tec_core_backend.Base.{ℕ, ◌+◌, true, Option, some, List, [], ◌∷◌, ◌≡◌, refl}
use tec_core_backend.Payment.Idempotency.{
  IdempotencyStore, CachedResponse, Response, Request, RawKey, missing, one, many, text, number,
  texts, missing_key, invalid_key, answered, keep_headers, idempotency,
}
use tec_core_backend.Payment.Idempotency.Memory.{in_memory, find, delete}

abbrev store : IdempotencyStore (CachedResponse ℕ) (λ e. e.expires_at)
store = in_memory (λ e. e.expires_at)

abbrev created : Response ℕ
created = record {
  status_code = 201;
  headers =
      ("x-version", text "1")
      ∷ ("content-length", number "12")
      ∷ ("set-cookie", texts ("a" ∷ []))
      ∷ [];
  body = 7;
}

-- The state counts what the handlers have done.
abbrev create : ℕ → Option (Response ℕ) × ℕ
create n = (some created, n + 1)

abbrev approve : ℕ → Option (Response ℕ) × ℕ
approve n = (some (record { status_code = 200; headers = []; body = 8 }), n + 100)

abbrev request : ℕ → RawKey → (ℕ → Option (Response ℕ) × ℕ) → Request ℕ ℕ
request now key next = record {
  now = now;
  raw_key = key;
  user = some "alice";
  next = next;
  has_store = true;
}

abbrev others : List (Request ℕ ℕ)
others = request 60 missing create ∷ request 70 (many ("k2" ∷ "k1" ∷ [])) create ∷ []

keeps_headers : keep_headers created.headers ≡ ("x-version", "1") ∷ ("content-length", "12") ∷ []
unfolding keep_headers
keeps_headers = refl

refuses_without_key : (idempotency store (request 60 (one "") create) ([], 0)).0 ≡ missing_key
unfolding idempotency
refuses_without_key = refl

refuses_no_keys : (idempotency store (request 60 (many []) create) ([], 0)).0 ≡ invalid_key
unfolding idempotency
refuses_no_keys = refl

expires :
    (idempotency store
      (request 600052 (one "k1") create)
      (idempotency store (request 50 (one "k1") create) ([], 0)).1).0
    ≡ answered (some created)
unfolding idempotency find delete
expires = refl

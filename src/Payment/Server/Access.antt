-- ===== src/Payment/Server/Access.antt =====
-- Who gets to the handlers of the payment service, tec-payment-service/src/app.ts and
-- src/routes/payment.routes.ts.
use tec_core_backend.Base.{
  Bool, true, false, not, ◌&&◌, ◌||◌, Option, none, some, List, [], ◌∷◌, String, ◌≡◌, ◌⊎◌,
}
use tec_core_backend.Base.Text.{is_one_of}
use tec_core_backend.Payment.Idempotency.{IdempotencyStore, CachedResponse, Response}
use tec_core_backend.Payment.Server.{
  Endpoint, handle_incomplete, reconcile, Guard, needs_token, needs_key, limited_by, Route, Http,
  ServerEnv, webhook_paths, passes_key,
}
use tec_core_backend.Tokens.{is_signed_in, authenticate}

-- The endpoints of users, and the one of the other services.
unfoldable pub needs_user : Endpoint → Bool
needs_user handle_incomplete = false
needs_user reconcile = false
needs_user e = true

unfoldable pub is_internal : Endpoint → Bool
is_internal reconcile = true
is_internal e = false

-- The key is right, unless the path is one of Pi or there is no secret; so is the token on the
-- endpoints of users.
unfoldable pub is_allowed : ServerEnv → Http → Endpoint → Bool
is_allowed env req e =
    (is_one_of req.path webhook_paths || passes_key env.internal_secret req.internal_key)
    && ((not (needs_user e) || is_signed_in (authenticate env.tokens req.authorization))
        && (not (is_internal e) || passes_key env.internal_secret req.internal_key))

unfoldable has_token : List Guard → Bool
has_token [] = false
has_token (needs_token ∷ gs) = true
has_token (needs_key ∷ gs) = has_token gs
has_token (limited_by n ∷ gs) = has_token gs

unfoldable has_key : List Guard → Bool
has_key [] = false
has_key (needs_token ∷ gs) = has_key gs
has_key (needs_key ∷ gs) = true
has_key (limited_by n ∷ gs) = has_key gs

-- The guards of the route are those that its endpoint needs.
unfoldable is_covered : Route → Bool
is_covered r =
    (not (needs_user r.endpoint) || has_token r.guards)
    && (not (is_internal r.endpoint) || has_key r.guards)

unfoldable are_covered : List Route → Bool
are_covered [] = true
are_covered (r ∷ rs) = is_covered r && are_covered rs

-- The guards let the request pass, the limiters aside.
unfoldable passes_all : ServerEnv → Http → List Guard → Bool
passes_all env req [] = true
passes_all env req (needs_token ∷ gs) =
    is_signed_in (authenticate env.tokens req.authorization) && passes_all env req gs
passes_all env req (needs_key ∷ gs) =
    passes_key env.internal_secret req.internal_key && passes_all env req gs
passes_all env req (limited_by n ∷ gs) = passes_all env req gs

module _ {B S : Type 0} (I : IdempotencyStore (CachedResponse B) (λ e. e.expires_at))
    (handlers : Endpoint → Http → Option String → S → Option (Response B) × S) where
  -- Nothing has changed, or the request was allowed.
  abbrev pub IsAdmitted : ServerEnv → Http → Option Route → S → S → Type 0
  IsAdmitted env req none s s' = s' ≡ s
  IsAdmitted env req (some r) s s' = (s' ≡ s) ⊎ (is_allowed env req r.endpoint ≡ true)

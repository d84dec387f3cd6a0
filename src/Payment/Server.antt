-- ===== src/Payment/Server.antt =====
-- The way of a request through the payment service: the handlers of tec-payment-service/src/app.ts in
-- their order, and the routes of src/routes/payment.routes.ts with what stands in front of each
-- handler. The handlers themselves are a parameter here; Payment/Approval and its neighbours have them.
use tec_core_backend.Base.{
  ℕ, Bool, true, false, ◌&&◌, ◌||◌, not, Option, none, some, List, [], ◌∷◌, String, if◌then◌else◌,
}
use tec_core_backend.Base.Text.{◌===◌, is_one_of}
use tec_core_backend.Payment.Idempotency
use tec_core_backend.Payment.Idempotency.{IdempotencyStore, CachedResponse, Response, RawKey}
use tec_core_backend.Payment.RateLimit.{MemEntry, Hit, rate_limit}
use tec_core_backend.Tokens.{TokenEnv, Identity, signed_in, stranger, authenticate}
pub mod Access
mod Examples

pub data Limiter : Type 0 where
  payment_limiter initiate_limiter confirm_limiter cancel_limiter status_limiter : Limiter

pub data Endpoint : Type 0 where
  handle_incomplete create approve complete cancel fail resolve_incomplete history reconcile
        status :
      Endpoint

-- What stands in front of a handler; the validators are a part of the handlers.
pub data Guard : Type 0 where
  needs_token needs_key : Guard
  limited_by : Limiter → Guard

pub record Route : Type 0 where
  pub method : String
  pub pattern : String
  pub guards : List Guard
  -- Whether `idempotency` stands behind the guards.
  pub is_idempotent : Bool
  pub endpoint : Endpoint

abbrev pub user_route : String → String → Limiter → Bool → Endpoint → Route
user_route method pattern limiter is_idempotent endpoint = record {
  method = method;
  pattern = pattern;
  guards = needs_token ∷ limited_by limiter ∷ [];
  is_idempotent = is_idempotent;
  endpoint = endpoint;
}

-- `router`, in the order of the file.
abbrev pub payment_routes : List Route
payment_routes =
    (record {
      method = "POST";
      pattern = "/webhook/incomplete";
      guards = limited_by payment_limiter ∷ [];
      is_idempotent = false;
      endpoint = handle_incomplete;
    })
    ∷ user_route "POST" "/create" initiate_limiter true create
    ∷ user_route "POST" "/approve" payment_limiter true approve
    ∷ user_route "POST" "/complete" confirm_limiter true complete
    ∷ user_route "POST" "/cancel" cancel_limiter true cancel
    ∷ user_route "POST" "/fail" payment_limiter false fail
    ∷ user_route "POST" "/resolve-incomplete" payment_limiter false resolve_incomplete
    ∷ user_route "GET" "/history" status_limiter false history
    ∷ (record {
      method = "POST";
      pattern = "/reconcile";
      guards = needs_key ∷ limited_by payment_limiter ∷ [];
      is_idempotent = false;
      endpoint = reconcile;
    })
    ∷ user_route "GET" "/:id/status" status_limiter false status
    ∷ []

pub record Http : Type 0 where
  pub method : String
  pub path : String
  pub authorization : Option String
  pub internal_key : Option String
  pub idempotency_key : RawKey
  -- The address as the limiters take it, and `userId` of the body or the query.
  pub ip : String
  pub named_user : Option String

pub record ServerEnv : Type 0 where
  pub now : ℕ
  -- `INTERNAL_SECRET`, none if missing or empty.
  pub internal_secret : Option String
  pub tokens : TokenEnv
  -- Whether Express matches a path with a mount point and a pattern below it.
  pub matches : String → String → String → Bool
  -- Whether express-rate-limit refuses the request.
  pub is_limited : Http → Bool
  -- `rl:${ip}:${userId}` as a number.
  pub key_of : String → String → ℕ
  pub limit_of : Limiter → ℕ
  pub window : ℕ
  -- Whether the store of the idempotency keys takes a response.
  pub has_store : Bool

-- `WEBHOOK_PATHS`
abbrev pub webhook_paths : List String
webhook_paths =
    "/webhook/incomplete" ∷ "/payments/webhook/incomplete" ∷ "/api/payments/webhook/incomplete"
    ∷ "/payments/resolve-incomplete" ∷ "/api/payments/resolve-incomplete" ∷ []

-- `validateInternalKey`, which passes everything on without a secret.
unfoldable pub passes_key : Option String → Option String → Bool
passes_key none provided = true
passes_key (some secret) none = false
passes_key (some secret) (some provided) = provided === secret

abbrev pub route_matches : ServerEnv → String → Http → Route → Bool
route_matches env mount req r = req.method === r.method && env.matches mount r.pattern req.path

unfoldable pub find_route : (Route → Bool) → List Route → Option Route
find_route p [] = none
find_route p (r ∷ rs) = let rest = find_route p rs in if p r then some r else rest

-- `app.use('/payments', paymentRoutes)` and `app.use('/api/payments', paymentRoutes)`
unfoldable pub route_of : ServerEnv → Http → Option Route
route_of env req = elim (find_route (route_matches env "/payments" req) payment_routes) [
  | some r ↦ some r
  | none ↦ find_route (route_matches env "/api/payments" req) payment_routes
]

-- The user that a limiter counts for.
abbrev pub counted_user : Option String → Option String → String
counted_user (some u) named = u
counted_user none (some u) = u
counted_user none none = "anonymous"

abbrev pub hit_of : ServerEnv → Http → Option String → Hit
hit_of env req user = record {
  now = env.now;
  key = env.key_of req.ip (counted_user user req.named_user);
}

pub data Answer (B : Type 0) : Type 0 where
  from_idempotency : Idempotency.Reply B → Answer B
  from_handler : Option (Response B) → Answer B
  refused : ℕ → String → Answer B

module _ {B S : Type 0} (I : IdempotencyStore (CachedResponse B) (λ e. e.expires_at))
    (handlers : Endpoint → Http → Option String → S → Option (Response B) × S) where
  open I use {Store}

  -- The counters of the limiters, which they share, the store of the keys, and the rest.
  abbrev pub State : Type 0
  State = List (ℕ × MemEntry) × (Store × S)

  abbrev pub with_idempotency :
      ServerEnv → Endpoint → Http → Option String → Store × S → Answer B × (Store × S)
  with_idempotency env e req user w =
      let (r, w') =
        Idempotency.idempotency I
          (record {
            now = env.now;
            raw_key = req.idempotency_key;
            user = user;
            next = handlers e req user;
            has_store = env.has_store;
          })
          w in
      (from_idempotency r, w')

  abbrev pub keeping : List (ℕ × MemEntry) → Answer B × (Store × S) → Answer B × State
  keeping l (a, w) = (a, (l, w))

  abbrev pub answering : List (ℕ × MemEntry) → Store → Option (Response B) × S → Answer B × State
  answering l k (x, s) = (from_handler x, (l, (k, s)))

  unfoldable pub run_handler : ServerEnv → Route → Http → Option String → State → Answer B × State
  run_handler env r req user (l, (k, s)) =
      if r.is_idempotent
      then keeping l (with_idempotency env r.endpoint req user (k, s))
      else answering l k (handlers r.endpoint req user s)

  -- A signed-in user goes on.
  abbrev pub after_token : Identity → (Option String → Answer B × State) → State → Answer B × State
  after_token (stranger n code) next w = (refused n code, w)
  after_token (signed_in u) next w = next (some u)

  -- What stands in front of the handler of the route, from the first on.
  unfoldable pub run_guards :
      ServerEnv → Route → Http → List Guard → Option String → State → Answer B × State
  run_guards env r req [] user w = run_handler env r req user w
  run_guards env r req (needs_token ∷ gs) user w =
      after_token (authenticate env.tokens req.authorization) (λ u. run_guards env r req gs u w) w
  run_guards env r req (needs_key ∷ gs) user w =
      let rest = run_guards env r req gs user w in
      if passes_key env.internal_secret req.internal_key then rest else (refused 403 "FORBIDDEN", w)
  run_guards env r req (limited_by n ∷ gs) user (l, w) =
      let (passes, l') = rate_limit (env.limit_of n) env.window (hit_of env req user) l in
      let rest = run_guards env r req gs user (l', w) in
      if passes then rest else (refused 429 "RATE_LIMIT_EXCEEDED", (l', w))

  abbrev pub after_key : ServerEnv → Http → Option Route → State → Answer B × State
  after_key env req none w = (refused 404 "NOT_FOUND", w)
  after_key env req (some r) w = run_guards env r req r.guards none w

  -- A request that is not one for the health, the metrics or the readiness of the service.
  unfoldable pub serve : ServerEnv → Http → State → Answer B × State
  serve env req w =
      if env.is_limited req
      then (refused 429 "RATE_LIMIT_EXCEEDED", w)
      else if is_one_of req.path webhook_paths || passes_key env.internal_secret req.internal_key
      then after_key env req (route_of env req) w
      else (refused 403 "FORBIDDEN", w)

-- ===== src/Gateway/Requests.antt =====
-- Requests and replies of the gateway, and the check of tokens of
-- tec-api-gateway/src/middleware/jwt-auth.ts. Verifying a token is a parameter.
use tec_core_backend.Base.{ℕ, Bool, Option, none, some, List, [], ◌∷◌, String, if◌then◌else◌}
use tec_core_backend.Base.Text.{starts_with_any}
use tec_core_backend.Gateway.Replies.{
  Body, error_body, unauthorized, invalid_token, token_expired_code, internal_error,
}

pub record Request : Type 0 where
  pub method : String
  pub path : String
  -- `JSON.stringify(req.query)`
  pub query : String
  pub authorization : Option String
  pub internal_key : Option String
  -- The header `x-user-id`.
  pub user_id : Option String

pub record JwtPayload : Type 0 where
  -- `sub`, none if it is missing or empty.
  pub sub : Option String

-- What `verify` of jsonwebtoken does: it returns, or throws an error of one of these kinds.
pub data Verified : Type 0 where
  verified : JwtPayload → Verified
  token_expired token_invalid verify_failed : Verified

-- `PUBLIC_ROUTES`; the two regular expressions among them are prefixes too.
abbrev pub public_routes : List String
public_routes =
    "/health" ∷ "/ready" ∷ "/metrics" ∷ "/api/docs" ∷ "/api/docs.json" ∷ "/api/cache/stats"
    ∷ "/api/v1/auth/pi-login" ∷ "/api/auth/pi-login" ∷ "/api/v1/auth/refresh" ∷ "/api/auth/refresh"
    ∷ "/api/v1/commerce/subscriptions/plans" ∷ "/api/v1/payments/webhook" ∷ "/api/payments/webhook"
    ∷ []

-- `isPublicRoute`
unfoldable pub is_public_route : String → Bool
is_public_route path = starts_with_any path public_routes

-- What the gateway meets outside this code.
pub record Env : Type 0 where
  pub now : ℕ
  pub uptime : ℕ
  -- `JWT_SECRET`, none if it is missing or empty.
  pub jwt_secret : Option String
  -- `INTERNAL_SECRET`, none if it is missing or empty.
  pub internal_secret : Option String
  pub verify : String → String → Verified
  -- The text after `Bearer `, if the header starts so.
  pub bearer : String → Option String
  -- Whether Express matches a path with the mount points `/api/v1/<service>` and `/api/<service>`.
  pub mounts : String → String → Bool
  -- What the limiters of express-rate-limit say.
  pub is_limited : Request → Bool
  -- Whether swagger-ui answers, with which status.
  pub serve_docs : Request → Option ℕ
  -- The status that a service answers, none if it cannot be reached.
  pub proxy : String → Request → Option ℕ
  -- `${req.method}:${req.path}:${JSON.stringify(req.query)}`
  pub cache_key : Request → ℕ

-- What a middleware does: it answers, or passes the request on.
pub data Step : Type 0 where
  answer : ℕ → Body → Step
  next : Request → Step

abbrev pub accept : Request → Option String → Step
accept req none = answer 401 (error_body invalid_token)
accept req (some sub) = next (record req { user_id = some sub })

-- The `try` of `jwtAuthMiddleware`.
abbrev pub judge_token : Request → Verified → Step
judge_token req (verified payload) = accept req payload.sub
judge_token req token_expired = answer 401 (error_body token_expired_code)
judge_token req token_invalid = answer 401 (error_body invalid_token)
judge_token req verify_failed = answer 500 (error_body internal_error)

abbrev pub check_token : Env → Request → Option String → Step
check_token env req none = answer 401 (error_body unauthorized)
check_token env req (some token) = elim env.jwt_secret [
  | none ↦ answer 500 (error_body internal_error)
  | some secret ↦ judge_token req (env.verify secret token)
]

abbrev pub bearer_token : Env → Option String → Option String
bearer_token env none = none
bearer_token env (some header) = env.bearer header

-- `jwtAuthMiddleware`
unfoldable pub jwt_auth_middleware : Env → Request → Step
jwt_auth_middleware env req =
    if is_public_route req.path
    then next req
    else check_token env req (bearer_token env req.authorization)

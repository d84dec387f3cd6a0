-- ===== src/Gateway/Pipeline.antt =====
-- The way of a request through the gateway: the cache middleware of
-- tec-api-gateway/src/middleware/cache.middleware.ts, the handlers of tec-api-gateway/src/main.ts in
-- their order, and the routes of tec-api-gateway/src/modules/proxy/proxy.service.ts.
use tec_core_backend.Base.{
  ℕ, ◌+◌, ◌*◌, Bool, false, not, ◌&&◌, ◌||◌, Option, none, some, List, [], ◌∷◌, String, ◌==◌, ltb,
  length, if◌then◌else◌,
}
use tec_core_backend.Base.Text.{◌===◌, starts_with, starts_with_any}
use tec_core_backend.Gateway.Cache.{CacheEntry, JsMap, lru_get, lru_set}
use tec_core_backend.Gateway.Requests.{Request, Env, Step, answer, next, jwt_auth_middleware}
use tec_core_backend.Gateway.Replies.{
  Body, health_body, ready_body, stats_body, error_body, forbidden, rate_limited, bad_gateway,
  not_found,
}

-- `getCacheTTL`, in seconds.
unfoldable pub get_cache_ttl : String → Option ℕ
get_cache_ttl path =
    if path === "/health"
    then some 30
    else if path === "/ready"
    then some 30
    else if starts_with path "/api/v1/commerce/subscriptions/plans"
    then some 300
    else if starts_with path "/api/commerce/subscriptions/plans"
    then some 300
    else if starts_with path "/api/v1/analytics"
    then some 60
    else if starts_with path "/api/analytics"
    then some 60
    else none

-- `registerProxies`: the services with their aliases, each mounted at `/api/v1/` and at `/api/`.
abbrev pub services : List String
services =
    "assets" ∷ "auth" ∷ "payment" ∷ "payments" ∷ "wallet" ∷ "wallets" ∷ "identity" ∷ "notification"
    ∷ "storage" ∷ "kyc" ∷ "commerce" ∷ "realtime" ∷ "analytics" ∷ []

-- The first mounted service that Express matches the path with.
unfoldable pub find_service : (String → String → Bool) → String → List String → Option String
find_service mounts path [] = none
find_service mounts path (s ∷ ss) = if mounts path s then some s else find_service mounts path ss

-- What a request meets behind the cache middleware: an answer by `res.json`, one of another module
-- that is written without it, or the answer of a service, to which the user is passed on.
pub data Answer : Type 0 where
  json : ℕ → Body → Answer
  sent : ℕ → Answer
  piped : ℕ → String → Option String → Answer

-- `expressApp.get`, which also answers HEAD.
abbrev pub is_read : Request → Bool
is_read req = req.method === "GET" || req.method === "HEAD"

abbrev pub has_internal_key : Env → Request → Bool
has_internal_key env req = elim env.internal_secret [
  | none ↦ false
  | some secret ↦ elim req.internal_key [ none ↦ false | some key ↦ key === secret ]
]

-- The handler of `/api/cache/stats`.
abbrev pub cache_stats : Env → Request → JsMap → Answer
cache_stats env req m =
    if has_internal_key env req
    then json 200 (stats_body (length m))
    else json 403 (error_body forbidden)

-- The handlers of `/health` and `/ready`, and the last one.
abbrev pub local_handlers : Env → Request → Answer
local_handlers env req =
    if is_read req && req.path === "/health"
    then json 200 (health_body env.uptime)
    else if is_read req && req.path === "/ready"
    then json 200 ready_body
    else json 404 (error_body not_found)

abbrev pub proxied : Env → Request → Option String → Answer
proxied env req none = local_handlers env req
proxied env req (some service) = elim (env.proxy service req) [
  | none ↦ json 502 (error_body bad_gateway)
  | some status ↦ piped status service req.user_id
]

-- The paths that the limiter lets pass.
abbrev pub unlimited : List String
unlimited = "/health" ∷ "/ready" ∷ "/api/docs" ∷ "/api/docs.json" ∷ "/api/cache/stats" ∷ []

-- The limiters, and what stands behind them.
unfoldable pub limit_and_proxy : Env → Request → Answer
limit_and_proxy env req =
    if not (starts_with_any req.path unlimited) && env.is_limited req
    then json 429 (error_body rate_limited)
    else proxied env req (find_service env.mounts req.path services)

abbrev pub after_auth : Env → Step → Answer
after_auth env (answer status body) = json status body
after_auth env (next req) = limit_and_proxy env req

-- The handlers behind the cache middleware, in the order of `bootstrap`.
unfoldable pub route : Env → JsMap → Request → Answer
route env m req = elim (env.serve_docs req) [
  | some status ↦ sent status
  | none ↦
      if is_read req && req.path === "/api/cache/stats"
      then cache_stats env req m
      else after_auth env (jwt_auth_middleware env req)
]

pub data Reply : Type 0 where
  hit : Body → Reply
  answered : Answer → Reply

-- `MAX_CACHE_SIZE`
abbrev pub max_cache_size : ℕ
max_cache_size = 500

-- `res.json` of the middleware keeps the answers with status 200.
abbrev pub remember : Env → Request → ℕ → Answer → JsMap → JsMap
remember env req ttl (json status body) m =
    if status == 200
    then lru_set max_cache_size (env.cache_key req)
        (record { payload = body; expires_at = env.now + ttl * 1000 }) m
    else m
remember env req ttl a m = m

abbrev pub miss : Env → Request → ℕ → JsMap → Reply × JsMap
miss env req ttl m = let a = route env m req in (answered a, remember env req ttl a m)

abbrev pub use_entry : Env → Request → ℕ → Option CacheEntry → JsMap → Reply × JsMap
use_entry env req ttl none m = miss env req ttl m
use_entry env req ttl (some e) m =
    if ltb env.now e.expires_at then (hit e.payload, m) else miss env req ttl m

abbrev pub cached_route : Env → Request → JsMap → Option ℕ → Reply × JsMap
cached_route env req m none = (answered (route env m req), m)
cached_route env req m (some ttl) =
    let (found, m') = lru_get (env.cache_key req) m in use_entry env req ttl found m'

-- `cacheMiddleware`, in front of all other handlers.
unfoldable pub gateway : Env → Request → JsMap → Reply × JsMap
gateway env req m =
    if req.method === "GET"
    then cached_route env req m (get_cache_ttl req.path)
    else (answered (route env m req), m)

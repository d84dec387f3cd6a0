-- ===== src/Gateway/Examples.antt =====
-- Tests of the gateway on three requests, and the theorem at those inputs.
use tec_core_backend.Base.{ℕ, false, Option, none, some, [], ◌∷◌, String, ◌≡◌, refl, if◌then◌else◌}
use tec_core_backend.Base.Text.{◌===◌, starts_with, starts_with_any}
use tec_core_backend.Gateway.Replies.{health_body, error_body, unauthorized}
use tec_core_backend.Gateway.Cache.{find, delete, put, lru_get, lru_set}
use tec_core_backend.Gateway.Requests.{
  Request, Env, Verified, verified, token_invalid, is_public_route, jwt_auth_middleware,
}
use tec_core_backend.Gateway.Pipeline.{
  get_cache_ttl, find_service, json, piped, limit_and_proxy, route, hit, answered, gateway,
}
use tec_core_backend.Gateway.Guard.{IsGuarded, serve, gateway_guards}

abbrev get_request : String → Option String → Request
get_request path token = record {
  method = "GET";
  path = path;
  query = "{}";
  authorization = token;
  internal_key = none;
  user_id = some "mallory";
}

abbrev checks : String → String → Verified
checks secret token =
    if token === "good" then verified (record { sub = some "alice" }) else token_invalid

abbrev key_of : Request → ℕ
key_of req = if req.path === "/health" then 0 else 1

-- Tokens stand alone in the header, and each path is the name of its service.
abbrev env : Env
env = record {
  now = 5;
  uptime = 9;
  jwt_secret = some "secret";
  internal_secret = none;
  verify = checks;
  bearer = λ header. some header;
  mounts = λ path service. path === service;
  is_limited = λ req. false;
  serve_docs = λ req. none;
  proxy = λ service req. some 200;
  cache_key = key_of;
}

abbrev health : Request
health = get_request "/health" none

abbrev wallet : Request
wallet = get_request "wallet" (some "good")

passes_the_subject_on : (gateway env wallet []).0 ≡ answered (piped 200 "wallet" (some "alice"))
unfolding gateway route get_cache_ttl starts_with starts_with_any is_public_route
    jwt_auth_middleware limit_and_proxy find_service
passes_the_subject_on = refl

refuses_without_token :
    (gateway env (get_request "wallet" none) []).0 ≡ answered (json 401 (error_body unauthorized))
unfolding gateway route get_cache_ttl starts_with starts_with_any is_public_route
    jwt_auth_middleware limit_and_proxy find_service
refuses_without_token = refl

replays_health :
    (gateway (record env { uptime = 11 }) health (gateway env health []).1).0 ≡ hit (health_body 9)
unfolding gateway route get_cache_ttl starts_with starts_with_any is_public_route
    jwt_auth_middleware limit_and_proxy find_service lru_get lru_set find delete put
replays_health = refl

gateway_guards_example :
    IsGuarded env wallet (gateway env wallet (serve ((env, health) ∷ (env, wallet) ∷ []) [])).0
gateway_guards_example = gateway_guards ((env, health) ∷ (env, wallet) ∷ []) env wallet

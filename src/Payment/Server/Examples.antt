-- ===== src/Payment/Server/Examples.antt =====
-- Tests of the payment service as a server, over handlers that count their calls, and the theorem there.
use tec_core_backend.Base.{ℕ, suc, true, false, ◌&&◌, Option, none, some, [], String, ◌≡◌, refl}
use tec_core_backend.Base.Text.{◌===◌, is_one_of}
use tec_core_backend.Payment.Idempotency.{
  IdempotencyStore, CachedResponse, Response, one, missing, missing_key, answered, idempotency,
}
use tec_core_backend.Payment.Idempotency.Memory.{in_memory, find, delete}
use tec_core_backend.Payment.RateLimit.{lookup, increment, rate_limit}
use tec_core_backend.Payment.Server.{
  Endpoint, Http, ServerEnv, State, refused, from_idempotency, passes_key, find_route, route_of,
  run_handler, run_guards, serve,
}
use tec_core_backend.Tokens.{authenticate}

abbrev keys : IdempotencyStore (CachedResponse ℕ) (λ e. e.expires_at)
keys = in_memory (λ e. e.expires_at)

abbrev response : Response ℕ
response = record { status_code = 201; headers = []; body = 7 }

abbrev handlers : Endpoint → Http → Option String → ℕ → Option (Response ℕ) × ℕ
handlers e req user n = (some response, suc n)

-- The path of a test is the pattern that it matches.
abbrev env : ServerEnv
env = record {
  now = 50;
  internal_secret = some "key";
  tokens = record {
    jwt_secret = some "secret";
    bearer = λ header. some header;
    algorithm = λ token. some "HS256";
    verify = λ token secret. some (record { sub = some token; id = none; user_id = none });
  };
  matches = λ mount pattern path. mount === "/payments" && pattern === path;
  is_limited = λ req. false;
  key_of = λ ip user. 0;
  limit_of = λ l. 5;
  window = 60000;
  has_store = true;
}

abbrev creation : Http
creation = record {
  method = "POST";
  path = "/create";
  authorization = some "alice";
  internal_key = some "key";
  idempotency_key = one "k1";
  ip = "10.0.0.1";
  named_user = none;
}

abbrev fresh : State keys handlers
fresh = ([], ([], 0))

creates : (serve keys handlers env creation fresh).0 ≡ from_idempotency (answered (some response))
unfolding serve is_one_of passes_key route_of find_route run_guards run_handler authenticate
    rate_limit increment lookup idempotency find delete
creates = refl

needs_an_idempotency_key :
    (serve keys handlers env (record creation { idempotency_key = missing }) fresh).0
    ≡ from_idempotency missing_key
unfolding serve is_one_of passes_key route_of find_route run_guards run_handler authenticate
    rate_limit increment lookup idempotency find delete
needs_an_idempotency_key = refl

refuses_strangers :
    (serve keys handlers env (record creation { authorization = none }) fresh).0
    ≡ refused 401 "AUTHENTICATION_ERROR"
unfolding serve is_one_of passes_key route_of find_route run_guards authenticate
refuses_strangers = refl

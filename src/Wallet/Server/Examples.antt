-- ===== src/Wallet/Server/Examples.antt =====
-- Tests of the wallet service as a server, alone and behind the gateway, and the theorems there.
use tec_core_backend.Base.{ℕ, true, false, ◌&&◌, none, some, List, [], ◌∷◌, ◌≡◌, refl}
use tec_core_backend.Base.Text.{◌===◌, starts_with, starts_with_any}
use tec_core_backend.Base.Int.{pos, ltb_ℤ}
use tec_core_backend.Base.Table.{Table}
use tec_core_backend.Base.Table.Rows.{rows}
use tec_core_backend.Gateway.Pipeline
use tec_core_backend.Gateway.Requests
use tec_core_backend.Payment.RateLimit.{MemEntry}
use tec_core_backend.Wallet.Types.{Wallet, State, Env}
use tec_core_backend.Wallet.Credit.{add_funds_internal}
use tec_core_backend.Wallet.Limiter.{memory_store}
use tec_core_backend.Wallet.Server.{
  Call, HttpRequest, ServerEnv, replied, refused, has_valid_key, find_endpoint, endpoint_of, serve,
}
use tec_core_backend.Wallet.Server.Access.{IsGuarded, serve-IsGuarded}
use tec_core_backend.Wallet.Server.Mint.{Sent, from_wallet, path_rewrite, through, user_adds_funds}

abbrev wallet_table : Table Wallet
wallet_table = rows

-- The wallet 0 belongs to the user 5.
abbrev wallets : State (Table.Rows wallet_table)
wallets = record {
  wallets =
      (
        0,
        record {
          user_id = 5;
          wallet_address = none;
          wallet_type = "pi";
          balance = pos 70;
          currency = "PI";
          is_primary = true;
        },
      )
      ∷ [];
  entries = [];
  audits = [];
  processed = [];
}

abbrev env : Env
env = record {
  parse_float = λ t. some (pos 1000);
  has_fault = λ x. false;
  is_valid = true;
  supported = "PI" ∷ [];
  upper = λ t. t;
  user_id = none;
  number_less = ltb_ℤ;
}

-- The path of a test is the pattern that it matches.
abbrev server : ServerEnv
server = record {
  wallet = env;
  now = 0;
  internal_secret = some "key";
  tokens = record {
    jwt_secret = some "secret";
    bearer = λ header. some header;
    algorithm = λ token. some "HS256";
    verify = λ token secret. some (record { sub = some token; id = none; user_id = none });
  };
  matches = λ mount pattern path. mount === "/wallets" && pattern === path;
  key_of = λ ip user. 0;
  rate_limit_max = 5;
  rate_limit_window = 60000;
}

abbrev call : Call
call = record {
  link = record { user_id = 5; wallet_type = "pi"; wallet_address = none; currency = "PI" };
  funds = record { user_id = some 8; amount = some "1000"; currency = some "PI" };
  id = 0;
  from_wallet_id = 0;
  to_wallet_id = 1;
  amount = pos 30;
  asset_type = some "PI";
  body_user = none;
  query_user = none;
}

-- Mallory, who is not the user 5, withdraws from the wallet 0.
abbrev withdrawal : HttpRequest
withdrawal = record {
  path = "/:id/withdraw";
  authorization = some "mallory";
  internal_key = some "key";
  forwarded_for = none;
  remote_address = none;
  call = call;
}

abbrev store : List (ℕ × MemEntry)
store = []

without_key :
    (serve wallet_table memory_store server
      (record withdrawal { internal_key = none })
      (wallets, store)).0
    ≡ refused 403 "FORBIDDEN"
unfolding serve has_valid_key
without_key = refl

serve-IsGuarded_example :
    IsGuarded wallet_table memory_store server withdrawal
      (endpoint_of server "/:id/withdraw")
      wallets
      (serve wallet_table memory_store server withdrawal (wallets, store)).1.0
serve-IsGuarded_example =
    serve-IsGuarded wallet_table memory_store server withdrawal (wallets, store)

-- The gateway, with the secret of the wallet service and a token that stands alone in its header.
abbrev gateway_env : Requests.Env
gateway_env = record {
  now = 5;
  uptime = 9;
  jwt_secret = some "secret";
  internal_secret = some "key";
  verify = λ secret token. Requests.verified (record { sub = some token });
  bearer = λ header. some header;
  mounts = λ path service. service === "wallet";
  is_limited = λ req. false;
  serve_docs = λ req. none;
  proxy = λ service req. some 200;
  cache_key = λ req. 0;
}

abbrev request : Requests.Request
request = record {
  method = "POST";
  path = "/api/v1/wallet/internal/add-funds";
  query = "{}";
  authorization = some "mallory";
  internal_key = none;
  user_id = none;
}

abbrev sent : Sent
sent = record {
  call = call;
  forwarded_for = none;
  remote_address = none;
  rewrite = λ rules path. "/internal/add-funds";
}

user_adds_funds_example :
    through wallet_table memory_store gateway_env [] server sent request (wallets, store) ≡ (
      from_wallet (replied (add_funds_internal wallet_table env call.funds wallets).0),
      ((add_funds_internal wallet_table env call.funds wallets).1, store),
    )
unfolding Pipeline.route Pipeline.limit_and_proxy Pipeline.find_service Requests.jwt_auth_middleware
    Requests.is_public_route starts_with starts_with_any endpoint_of find_endpoint path_rewrite
user_adds_funds_example =
    user_adds_funds wallet_table memory_store gateway_env [] server sent request wallets store 200
      "mallory" "key" refl refl refl refl

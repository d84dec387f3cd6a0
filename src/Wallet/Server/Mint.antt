-- ===== src/Wallet/Server/Mint.antt =====
-- The wallet service behind the gateway: what the proxy of
-- tec-api-gateway/src/modules/proxy/proxy.service.ts writes on a request, and what it opens.
use tec_core_backend.Base.{
  ℕ, true, ◌||◌, Option, none, some, List, [], ◌∷◌, String, ◌≡◌, refl, if◌then◌else◌,
}
use tec_core_backend.Base.Text.{◌===◌, eq_iff}
use tec_core_backend.Base.Table.{Table}
use tec_core_backend.Gateway.Cache.{JsMap}
use tec_core_backend.Gateway.Pipeline
use tec_core_backend.Gateway.Requests
use tec_core_backend.Wallet.Types.{Wallet, State}
use tec_core_backend.Wallet.Credit.{add_funds_internal}
use tec_core_backend.Wallet.Limiter.{RateLimitStore}
use tec_core_backend.Wallet.Server.{
  Call, HttpRequest, ServerEnv, Answer, replied, has_valid_key, add_funds_endpoint, endpoint_of,
  is_financial, serve, handle,
}

-- `pathRewrite` of the service and of its alias.
unfoldable pub path_rewrite : String → List (String × String)
path_rewrite service =
    if service === "wallet"
    then ("^/api/v1/wallet", "/wallets") ∷ ("^/api/wallet", "/wallets") ∷ []
    else ("^/api/v1/wallets", "/wallets") ∷ ("^/api/wallets", "/wallets") ∷ []

-- What a client sends besides what the gateway reads, and how http-proxy-middleware rewrites a path.
pub record Sent : Type 0 where
  pub call : Call
  pub forwarded_for : Option (List String)
  pub remote_address : Option String
  pub rewrite : List (String × String) → String → String

-- The request that `onProxyReq` leaves: the key of the gateway stands over that of the client.
unfoldable pub on_proxy_req : Requests.Env → Sent → String → Requests.Request → HttpRequest
on_proxy_req env sent service req = record {
  path = sent.rewrite (path_rewrite service) req.path;
  authorization = req.authorization;
  internal_key = elim env.internal_secret [ none ↦ req.internal_key | some secret ↦ some secret ];
  forwarded_for = sent.forwarded_for;
  remote_address = sent.remote_address;
  call = sent.call;
}

-- An answer of the gateway, or of the wallet service.
pub data Outcome : Type 0 where
  from_gateway : Pipeline.Answer → Outcome
  from_wallet : Answer → Outcome

module _ (T : Table Wallet) (L : RateLimitStore) where
  open T use {Rows}
  open L use {Store}

  abbrev pub by_wallet : Answer × (State Rows × Store) → Outcome × (State Rows × Store)
  by_wallet (a, w) = (from_wallet a, w)

  abbrev pub forwarded :
      Requests.Env
      → ServerEnv
      → Sent
      → Requests.Request
      → State Rows × Store
      → Pipeline.Answer
      → Outcome × (State Rows × Store)
  forwarded genv env sent req w (Pipeline.piped status service user) =
      if service === "wallet" || service === "wallets"
      then by_wallet (serve T L env (on_proxy_req genv sent service req) w)
      else (from_gateway (Pipeline.piped status service user), w)
  forwarded genv env sent req w a = (from_gateway a, w)

  -- A POST request through the gateway.
  unfoldable pub through :
      Requests.Env
      → JsMap
      → ServerEnv
      → Sent
      → Requests.Request
      → State Rows × Store
      → Outcome × (State Rows × Store)
  through genv m env sent req w = forwarded genv env sent req w (Pipeline.route genv m req)

  serve_internal :
      (env : ServerEnv) (req : HttpRequest) (s : State Rows) (l : Store)
      → has_valid_key env.internal_secret req.internal_key ≡ true
      → endpoint_of env req.path ≡ some add_funds_endpoint
      → serve T L env req (s, l) ≡ (
        replied (add_funds_internal T env.wallet req.call.funds s).0,
        ((add_funds_internal T env.wallet req.call.funds s).1, l),
      )
  unfolding serve is_financial handle
  serve_internal env req s l key there = rw (key, there) refl

  proxied_key :
      (genv : Requests.Env) (env : ServerEnv) (sent : Sent) (req : Requests.Request)
      (service secret : String)
      → genv.internal_secret ≡ some secret
      → env.internal_secret ≡ some secret
      → has_valid_key env.internal_secret (on_proxy_req genv sent service req).internal_key ≡ true
  unfolding on_proxy_req has_valid_key
  proxied_key genv env sent req service secret key same =
      rw (key, same) ((eq_iff secret secret).1 refl)

  -- The internal endpoint that adds money to any wallet is open to every user: where the gateway
  -- passes a request on to the wallet service for the user of a token, with the secret of both,
  -- and the path is that of the endpoint, the answer and the state are those of
  -- `addFundsInternal` on the body of the client.
  pub user_adds_funds :
      (genv : Requests.Env) (m : JsMap) (env : ServerEnv) (sent : Sent) (req : Requests.Request)
      (s : State Rows) (l : Store) (status : ℕ) (user secret : String)
      → Pipeline.route genv m req ≡ Pipeline.piped status "wallet" (some user)
      → genv.internal_secret ≡ some secret
      → env.internal_secret ≡ some secret
      → endpoint_of env (sent.rewrite (path_rewrite "wallet") req.path) ≡ some add_funds_endpoint
      → through genv m env sent req (s, l) ≡ (
        from_wallet (replied (add_funds_internal T env.wallet sent.call.funds s).0),
        ((add_funds_internal T env.wallet sent.call.funds s).1, l),
      )
  unfolding through on_proxy_req
  user_adds_funds genv m env sent req s l status user secret passed key same there =
      rw
        (
          passed,
          serve_internal env (on_proxy_req genv sent "wallet" req) s l
              (proxied_key genv env sent req "wallet" secret key same) there,
        )
        refl

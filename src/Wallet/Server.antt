-- ===== src/Wallet/Server.antt =====
-- The way of a POST request through the wallet service: the handlers of tec-wallet-service/src/index.ts in
-- their order, the check of the internal key (src/middleware/internal-auth.ts), the routes
-- (src/routes/wallet.routes.ts) and the check of tokens (src/middlewares/jwt.middleware.ts).
use tec_core_backend.Base.{
  ℕ, Bool, true, false, ◌&&◌, Option, none, some, List, [], ◌∷◌, String, ◌==◌, if◌then◌else◌,
}
use tec_core_backend.Base.Int.{ℤ}
use tec_core_backend.Base.Text.{◌===◌}
use tec_core_backend.Base.Table.{Table}
use tec_core_backend.Tokens.{TokenEnv, Identity, signed_in, stranger, authenticate}
use tec_core_backend.Wallet.Types.{Wallet, State, Env, Reply}
use tec_core_backend.Wallet.Operations.{LinkBody, link_wallet, deposit, withdraw, transfer}
use tec_core_backend.Wallet.Credit.{FundsBody, add_funds_internal}
use tec_core_backend.Wallet.Limiter.{
  RateLimitStore, Caller, Limited, passes, retry_after, rate_limiter,
}
pub mod Access
pub mod Mint
mod Examples

-- What the handlers read of the parameters of the path and of the body.
pub record Call : Type 0 where
  pub link : LinkBody
  pub funds : FundsBody
  pub id : ℕ
  pub from_wallet_id : ℕ
  pub to_wallet_id : ℕ
  pub amount : ℤ
  pub asset_type : Option String
  -- The `userId` of the body and of the query.
  pub body_user : Option String
  pub query_user : Option String

pub record HttpRequest : Type 0 where
  pub path : String
  pub authorization : Option String
  pub internal_key : Option String
  pub forwarded_for : Option (List String)
  pub remote_address : Option String
  pub call : Call

-- What the service meets outside this code.
pub record ServerEnv : Type 0 where
  pub wallet : Env
  pub now : ℕ
  -- `INTERNAL_SECRET`, none if missing or empty.
  pub internal_secret : Option String
  pub tokens : TokenEnv
  -- Whether Express matches a path with a mount point and a pattern below it.
  pub matches : String → String → String → Bool
  -- The key `rl:${ip}:${userId}`, `RATE_LIMIT_MAX` and `RATE_LIMIT_WINDOW`.
  pub key_of : String → String → ℕ
  pub rate_limit_max : ℕ
  pub rate_limit_window : ℕ

-- An answer of a handler, or of what stands in front of it, with its status and code.
pub data Answer : Type 0 where
  replied : Reply → Answer
  refused : ℕ → String → Answer
  limited : ℕ → Answer

-- `validateInternalKey`: whether it passes the request on; if not, the answer is 403.
unfoldable pub has_valid_key : Option String → Option String → Bool
has_valid_key none provided = false
has_valid_key (some secret) none = false
has_valid_key (some secret) (some provided) = provided === secret

pub data Endpoint : Type 0 where
  add_funds_endpoint link_endpoint transfer_endpoint deposit_endpoint withdraw_endpoint : Endpoint

-- `router.post`, in the order of the file.
abbrev pub wallet_routes : List (String × Endpoint)
wallet_routes =
    ("/internal/add-funds", add_funds_endpoint)
    ∷ ("/link", link_endpoint)
    ∷ ("/transfer", transfer_endpoint)
    ∷ ("/:id/deposit", deposit_endpoint)
    ∷ ("/:id/withdraw", withdraw_endpoint)
    ∷ []

unfoldable pub find_endpoint : (String → Bool) → List (String × Endpoint) → Option Endpoint
find_endpoint matches [] = none
find_endpoint matches ((pattern, e) ∷ rs) =
    let rest = find_endpoint matches rs in if matches pattern then some e else rest

-- `app.use('/wallets', walletRoutes)` and `app.use('/api/wallets', walletRoutes)`
unfoldable pub endpoint_of : ServerEnv → String → Option Endpoint
endpoint_of env path = elim (find_endpoint (λ p. env.matches "/wallets" p path) wallet_routes) [
  | some e ↦ some e
  | none ↦ find_endpoint (λ p. env.matches "/api/wallets" p path) wallet_routes
]

-- The routes with `authenticate` and `financialRateLimiter`.
unfoldable pub is_financial : Endpoint → Bool
is_financial add_funds_endpoint = false
is_financial link_endpoint = false
is_financial transfer_endpoint = true
is_financial deposit_endpoint = true
is_financial withdraw_endpoint = true

module _ (T : Table Wallet) (L : RateLimitStore) where
  open T use {Rows}
  open L use {Store}

  -- The handler of the endpoint, with the `req.userId` that `authenticate` has written; a link and
  -- an internal credit do not read it.
  unfoldable pub handle : Env → Option String → Endpoint → Call → State Rows → Reply × State Rows
  handle env user add_funds_endpoint c s = add_funds_internal T env c.funds s
  handle env user link_endpoint c s = link_wallet T env c.link s
  handle env user transfer_endpoint c s =
      transfer T (record env { user_id = user }) c.from_wallet_id c.to_wallet_id c.amount
        c.asset_type s
  handle env user deposit_endpoint c s =
      deposit T (record env { user_id = user }) c.id c.amount c.asset_type s
  handle env user withdraw_endpoint c s =
      withdraw T (record env { user_id = user }) c.id c.amount c.asset_type s

  abbrev pub handled :
      ServerEnv
      → Option String
      → Endpoint
      → Call
      → State Rows × Store
      → Answer × (State Rows × Store)
  handled env user e c (s, l) = let (r, s') = handle env.wallet user e c s in (replied r, (s', l))

  abbrev pub caller : HttpRequest → String → Caller
  caller req user = record {
    forwarded_for = req.forwarded_for;
    remote_address = req.remote_address;
    user_id = some user;
    body_user = req.call.body_user;
    query_user = req.call.query_user;
  }

  -- What the limiter lets through is handled.
  abbrev pub after_limiter :
      ServerEnv
      → String
      → Endpoint
      → HttpRequest
      → State Rows
      → Limited × Store
      → Answer × (State Rows × Store)
  after_limiter env user e req s (passes, l) = handled env (some user) e req.call (s, l)
  after_limiter env user e req s (retry_after n, l) = (limited n, (s, l))

  abbrev pub after_authenticate :
      ServerEnv
      → Endpoint
      → HttpRequest
      → Identity
      → State Rows × Store
      → Answer × (State Rows × Store)
  after_authenticate env e req (stranger status code) w = (refused status code, w)
  after_authenticate env e req (signed_in user) (s, l) = after_limiter env user e req s (
      rate_limiter L env.key_of env.rate_limit_max env.rate_limit_window env.now (caller req user)
        l)

  abbrev pub after_key :
      ServerEnv → HttpRequest → Option Endpoint → State Rows × Store → Answer × (State Rows × Store)
  after_key env req none w = (refused 404 "NOT_FOUND", w)
  after_key env req (some e) w =
      if is_financial e
      then after_authenticate env e req (authenticate env.tokens req.authorization) w
      else handled env none e req.call w

  -- A POST request.
  unfoldable pub serve :
      ServerEnv → HttpRequest → State Rows × Store → Answer × (State Rows × Store)
  serve env req w =
      if has_valid_key env.internal_secret req.internal_key
      then after_key env req (endpoint_of env req.path) w
      else (refused 403 "FORBIDDEN", w)

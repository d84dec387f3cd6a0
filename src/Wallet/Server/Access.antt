-- ===== src/Wallet/Server/Access.antt =====
-- Who gets to the operations of the wallet service, tec-wallet-service/src/index.ts and
-- src/routes/wallet.routes.ts.
use tec_core_backend.Base.{
  Bool, true, false, not, ◌&&◌, ◌||◌, Option, none, some, String, ◌≡◌, ◌⊎◌, inl, inr, refl, ◌∙◌, ap,
  Bool-cases, arith,
}
use tec_core_backend.Base.Table.{Table}
use tec_core_backend.Tokens.{Identity, signed_in, stranger, is_signed_in, authenticate}
use tec_core_backend.Wallet.Types.{Wallet, State}
use tec_core_backend.Wallet.Limiter.{RateLimitStore, Limited, passes, retry_after}
use tec_core_backend.Wallet.Ledger.Accounts.{
  Request, link_request, deposit_request, withdraw_request, transfer_request, funds_request,
  run_request,
}
use tec_core_backend.Wallet.Server.{
  Call, HttpRequest, ServerEnv, has_valid_key, Endpoint, add_funds_endpoint, link_endpoint,
  transfer_endpoint, deposit_endpoint, withdraw_endpoint, endpoint_of, is_financial, handle,
  after_limiter, after_authenticate, after_key, serve,
}

-- The user that a check of a token has found.
abbrev pub user_of : Identity → Option String
user_of (signed_in user) = some user
user_of (stranger status code) = none

-- The operation that a call of the endpoint asks for; those with money of a user are asked for in
-- his name.
unfoldable pub asked : ServerEnv → Option String → Endpoint → Call → Request
asked env user add_funds_endpoint c = funds_request env.wallet c.funds
asked env user link_endpoint c = link_request env.wallet c.link
asked env user transfer_endpoint c =
    transfer_request (record env.wallet { user_id = user }) c.from_wallet_id c.to_wallet_id c.amount
      c.asset_type
asked env user deposit_endpoint c =
    deposit_request (record env.wallet { user_id = user }) c.id c.amount c.asset_type
asked env user withdraw_endpoint c =
    withdraw_request (record env.wallet { user_id = user }) c.id c.amount c.asset_type

-- A deposit, a withdrawal and a transfer are asked for with a token.
unfoldable pub needs_token : Endpoint → Bool
needs_token add_funds_endpoint = false
needs_token link_endpoint = false
needs_token transfer_endpoint = true
needs_token deposit_endpoint = true
needs_token withdraw_endpoint = true

-- The internal key is right and, for the operations with money of a user, so is the token.
unfoldable pub is_allowed : ServerEnv → HttpRequest → Endpoint → Bool
is_allowed env req e =
    has_valid_key env.internal_secret req.internal_key
    && (not (needs_token e) || is_signed_in (authenticate env.tokens req.authorization))

allowed_user :
    (env : ServerEnv) (req : HttpRequest) (e : Endpoint)
    → has_valid_key env.internal_secret req.internal_key ≡ true
    → is_signed_in (authenticate env.tokens req.authorization) ≡ true
    → is_allowed env req e ≡ true
unfolding is_allowed
allowed_user env req e key h = ground (arith, key, h)

allowed_service :
    (env : ServerEnv) (req : HttpRequest) (e : Endpoint)
    → has_valid_key env.internal_secret req.internal_key ≡ true
    → needs_token e ≡ false
    → is_allowed env req e ≡ true
unfolding is_allowed
allowed_service env req e key h = ground (arith, key, h)

public_route : (e : Endpoint) → is_financial e ≡ false → needs_token e ≡ false
unfolding is_financial needs_token
public_route add_funds_endpoint h = refl
public_route link_endpoint h = refl
public_route transfer_endpoint h = h
public_route deposit_endpoint h = h
public_route withdraw_endpoint h = h

-- What needs no token does not depend on the user of one.
asked_by_any :
    (env : ServerEnv) (e : Endpoint) (c : Call) (o o' : Option String)
    → needs_token e ≡ false
    → asked env o e c ≡ asked env o' e c
unfolding asked needs_token
asked_by_any env add_funds_endpoint c o o' h = refl
asked_by_any env link_endpoint c o o' h = refl
asked_by_any env transfer_endpoint c o o' h = ground (arith, h)
asked_by_any env deposit_endpoint c o o' h = ground (arith, h)
asked_by_any env withdraw_endpoint c o o' h = ground (arith, h)

module _ (T : Table Wallet) (L : RateLimitStore) where
  open T use {Rows}
  open L use {Store}

  handle-run :
      (env : ServerEnv) (user : Option String) (e : Endpoint) (c : Call) (s : State Rows)
      → (handle T L env.wallet user e c s).1 ≡ run_request T (asked env user e c) s
  unfolding handle asked run_request
  handle-run env user add_funds_endpoint c s = refl
  handle-run env user link_endpoint c s = refl
  handle-run env user transfer_endpoint c s = refl
  handle-run env user deposit_endpoint c s = refl
  handle-run env user withdraw_endpoint c s = refl

  -- Nothing has changed, or the request was allowed and its operation has run, in the name of the
  -- user of the token.
  abbrev pub IsGuarded :
      ServerEnv → HttpRequest → Option Endpoint → State Rows → State Rows → Type 0
  IsGuarded env req none s s' = s' ≡ s
  IsGuarded env req (some e) s s' =
      (s' ≡ s)
      ⊎ ((is_allowed env req e ≡ true)
          × (s'
              ≡ run_request T
                  (asked env (user_of (authenticate env.tokens req.authorization)) e req.call) s))

  unchanged-IsGuarded :
      (env : ServerEnv) (req : HttpRequest) (o : Option Endpoint) (s : State Rows)
      → IsGuarded env req o s s
  unchanged-IsGuarded env req none s = refl
  unchanged-IsGuarded env req (some e) s = inl refl

  limited-IsGuarded :
      (env : ServerEnv) (req : HttpRequest) (e : Endpoint) (user : String) (s : State Rows)
      (x : Limited × Store)
      → is_allowed env req e ≡ true
      → user_of (authenticate env.tokens req.authorization) ≡ some user
      → IsGuarded env req (some e) s (after_limiter T L env user e req s x).1.0
  limited-IsGuarded env req e user s (passes, l) ok who =
      inr (ok, rw who (handle-run env (some user) e req.call s))
  limited-IsGuarded env req e user s (retry_after n, l) ok who = inl refl

  user-IsGuarded :
      (env : ServerEnv) (req : HttpRequest) (e : Endpoint) (u : Identity) (w : State Rows × Store)
      → authenticate env.tokens req.authorization ≡ u
      → has_valid_key env.internal_secret req.internal_key ≡ true
      → IsGuarded env req (some e) w.0 (after_authenticate T L env e req u w).1.0
  unfolding is_signed_in
  user-IsGuarded env req e (stranger status code) w who key = inl refl
  user-IsGuarded env req e (signed_in u) (s, l) who key =
      limited-IsGuarded env req e u s _ (allowed_user env req e key (rw who refl)) (rw who refl)

  key-IsGuarded :
      (env : ServerEnv) (req : HttpRequest) (o : Option Endpoint) (w : State Rows × Store)
      → has_valid_key env.internal_secret req.internal_key ≡ true
      → IsGuarded env req o w.0 (after_key T L env req o w).1.0
  key-IsGuarded env req none w key = refl
  key-IsGuarded env req (some e) w key = elim (Bool-cases (is_financial e)) [
    | inl on ↦
        rw on (user-IsGuarded env req e (authenticate env.tokens req.authorization) w refl key)
    | inr off ↦ rw off (
        let free = public_route e off in
        inr (
          allowed_service env req e key free,
          ◌∙◌ (handle-run env none e req.call w.0) (
              ap (λ q. run_request T q w.0)
                (asked_by_any env e req.call none
                  (user_of (authenticate env.tokens req.authorization)) free)),
        ))
  ]

  -- A POST request changes the wallets, the ledger and the processed payments only by the operation
  -- that its path asks for, and only with the internal key; a deposit, a withdrawal and a
  -- transfer also need a token that verifies and names a user, and run in the name of that user.
  pub serve-IsGuarded :
      (env : ServerEnv) (req : HttpRequest) (w : State Rows × Store)
      → IsGuarded env req (endpoint_of env req.path) w.0 (serve T L env req w).1.0
  unfolding serve
  serve-IsGuarded env req w =
      elim (Bool-cases (has_valid_key env.internal_secret req.internal_key)) [
        | inl on ↦ rw on (key-IsGuarded env req (endpoint_of env req.path) w on)
        | inr off ↦ rw off (unchanged-IsGuarded env req (endpoint_of env req.path) w.0)
      ]

-- ===== src/Wallet/Operations.antt =====
-- The handlers of tec-wallet-service/src/controllers/wallet.controller.ts that change a wallet:
-- `linkWallet`, `deposit`, `withdraw`, `transfer`. A transaction runs with nothing else between its
-- steps. The balances that the audit log keeps are computed exactly, where the code uses floats.
use tec_core_backend.Base.{
  ℕ, Bool, true, false, not, ◌&&◌, ◌||◌, Option, none, some, List, [], ◌∷◌, String, ◌==◌, is_some,
}
use tec_core_backend.Base.Action.{
  ok, ◌>>=◌, ◌>>◌, pure, or_throw, throw_if, transaction, modify, get, run_try,
}
use tec_core_backend.Base.Int.{ℤ, pos, ◌+ℤ◌, ◌-ℤ◌}
use tec_core_backend.Base.Text.{◌===◌}
use tec_core_backend.Base.Table.{Table}
use tec_core_backend.Wallet.Types.{
  Wallet, deposit_entry, withdrawal_entry, debit_entry, credit_entry, deposit_action,
  withdraw_action, transfer_action, by_token, State, at_find, at_find_to, at_find_primary,
  at_create, at_audit, at_audit_to, at_update, at_update_to, at_entry, at_entry_to,
  validation_error, unsupported_currency, invalid_transfer, not_found, insufficient_balance,
  conflict, internal_error, failed, Env, Reply, success, failure, catch_error, Act, attempt,
  find_wallet, update_wallet, write_audit_log, create_entry, increment, decrement,
}

-- `supported.includes(asset)`
unfoldable pub includes : List String → String → Bool
includes [] c = false
includes (x ∷ xs) c = c === x || includes xs c

abbrev pub is_empty : List String → Bool
is_empty [] = true
is_empty (x ∷ xs) = false

-- `(assetType ?? 'PI').toUpperCase()`
abbrev pub resolve_asset : Env → Option String → String
resolve_asset env none = env.upper "PI"
resolve_asset env (some c) = env.upper c

-- `supported.length > 0 && !supported.includes(resolvedAsset)`
abbrev pub is_unsupported : Env → String → Bool
is_unsupported env asset = not (is_empty env.supported) && not (includes env.supported asset)

abbrev pub is_primary_of : ℕ → Wallet → Bool
is_primary_of user w = w.user_id == user && w.is_primary

abbrev pub has_address : ℕ → Wallet → Bool
has_address a w = elim w.wallet_address [ none ↦ false | some b ↦ b == a ]

-- The body of `POST /wallets/link`.
pub record LinkBody : Type 0 where
  pub user_id : ℕ
  pub wallet_type : String
  pub wallet_address : Option ℕ
  pub currency : String

module _ (T : Table Wallet) where
  open T use {Rows, find_first, create}

  -- A wallet with a balance of 0.
  unfoldable pub create_wallet : Env → Wallet → Act T (ℕ × Wallet)
  create_wallet env w = do
    attempt T env at_create
    s ← get
    let (id, rows) = create w s.wallets
    modify (λ (t : State Rows). record t { wallets = rows })
    pure (id, w)

  -- An address that a wallet has is a conflict.
  abbrev check_address : Env → Option ℕ → Act T (Unit {0})
  check_address env none s = (ok tt, s)
  check_address env (some a) s =
      (attempt T env at_find
          >> throw_if (is_some (find_first (has_address a) s.wallets)) (failed 409 conflict))
        s

  -- The first wallet of a user is the primary one.
  abbrev pub linked_wallet : LinkBody → Rows → Wallet
  linked_wallet body t = record {
    user_id = body.user_id;
    wallet_address = body.wallet_address;
    wallet_type = body.wallet_type;
    balance = pos 0;
    currency = body.currency;
    is_primary = not (is_some (find_first (is_primary_of body.user_id) t));
  }

  -- `linkWallet`: every throw is 500 `INTERNAL_ERROR`.
  unfoldable pub link_wallet : Env → LinkBody → State Rows → Reply × State Rows
  link_wallet env body =
      run_try (λ t s. (elim t [ failed n c ↦ failure n c | _ ↦ failure 500 internal_error ], s))
        do
          throw_if (not env.is_valid) (failed 400 validation_error)
          check_address env body.wallet_address
          attempt T env at_find_primary
          s ← get
          create_wallet env (linked_wallet body s.wallets)
          pure (success 201)

  -- The tests before the transaction of `deposit` and `withdraw`.
  abbrev pub check_request : Env → Option String → Act T (Unit {0})
  check_request env asset = do
    throw_if (not env.is_valid) (failed 400 validation_error)
    throw_if (is_unsupported env (resolve_asset env asset)) (failed 400 unsupported_currency)

  -- The transaction of `deposit`.
  unfoldable pub deposit_funds : Env → ℕ → ℤ → String → Act T (Unit {0})
  deposit_funds env id amount asset = transaction do
    w ← or_throw (← find_wallet T env at_find id) (failed 404 not_found)
    write_audit_log T env at_audit (record {
      action = deposit_action;
      author = by_token env.user_id;
      entity_id = id;
      before = w.balance;
      after = w.balance +ℤ amount;
    })
    update_wallet T env at_update id (increment T amount)
    create_entry T env at_entry
        (record { wallet_id = id; kind = deposit_entry; amount = amount; currency = asset })

  -- `deposit`
  unfoldable pub deposit : Env → ℕ → ℤ → Option String → State Rows → Reply × State Rows
  deposit env id amount asset =
      run_try (λ t s. (catch_error t, s))
        do
          check_request env asset
          deposit_funds env id amount (resolve_asset env asset)
          pure (success 200)

  -- The transaction of `withdraw`.
  unfoldable pub withdraw_funds : Env → ℕ → ℤ → String → Act T (Unit {0})
  withdraw_funds env id amount asset = transaction do
    w ← or_throw (← find_wallet T env at_find id) (failed 404 not_found)
    throw_if (env.number_less w.balance amount) (failed 422 insufficient_balance)
    write_audit_log T env at_audit (record {
      action = withdraw_action;
      author = by_token env.user_id;
      entity_id = id;
      before = w.balance;
      after = w.balance -ℤ amount;
    })
    update_wallet T env at_update id (decrement T amount)
    create_entry T env at_entry
        (record { wallet_id = id; kind = withdrawal_entry; amount = amount; currency = asset })

  -- `withdraw`
  unfoldable pub withdraw : Env → ℕ → ℤ → Option String → State Rows → Reply × State Rows
  withdraw env id amount asset =
      run_try (λ t s. (catch_error t, s))
        do
          check_request env asset
          withdraw_funds env id amount (resolve_asset env asset)
          pure (success 200)

  -- The transaction of `transfer`.
  unfoldable pub transfer_funds : Env → ℕ → ℕ → ℤ → String → Act T (Unit {0})
  transfer_funds env from to amount asset = transaction do
    source ← find_wallet T env at_find from
    target ← find_wallet T env at_find_to to
    x ← or_throw source (failed 404 not_found)
    y ← or_throw target (failed 404 not_found)
    throw_if (env.number_less x.balance amount) (failed 422 insufficient_balance)
    write_audit_log T env at_audit (record {
      action = transfer_action;
      author = by_token env.user_id;
      entity_id = from;
      before = x.balance;
      after = x.balance -ℤ amount;
    })
    write_audit_log T env at_audit_to (record {
      action = transfer_action;
      author = by_token env.user_id;
      entity_id = to;
      before = y.balance;
      after = y.balance +ℤ amount;
    })
    update_wallet T env at_update from (decrement T amount)
    update_wallet T env at_update_to to (increment T amount)
    create_entry T env at_entry
        (record { wallet_id = from; kind = debit_entry; amount = amount; currency = asset })
    create_entry T env at_entry_to
        (record { wallet_id = to; kind = credit_entry; amount = amount; currency = asset })

  -- `transfer`
  unfoldable pub transfer : Env → ℕ → ℕ → ℤ → Option String → State Rows → Reply × State Rows
  transfer env from to amount asset =
      run_try (λ t s. (catch_error t, s))
        do
          throw_if (not env.is_valid) (failed 400 validation_error)
          throw_if (from == to) (failed 400 invalid_transfer)
          throw_if (is_unsupported env (resolve_asset env asset)) (failed 400 unsupported_currency)
          transfer_funds env from to amount (resolve_asset env asset)
          pure (success 200)

-- ===== src/Wallet/Credit.antt =====
-- Money that comes in from payments: `addFundsInternal` of
-- tec-wallet-service/src/controllers/wallet.controller.ts, and `handlePaymentCompleted` and
-- `findOrCreateWallet` of tec-wallet-service/src/wallet/wallet.service.ts.
use tec_core_backend.Base.{
  ℕ, Bool, true, false, not, ◌&&◌, ◌||◌, Option, none, some, List, [], ◌∷◌, String, ◌==◌, is_some,
  if◌then◌else◌,
}
use tec_core_backend.Base.Action.{
  ok, ◌>>=◌, ◌>>◌, pure, or_throw, throw_if, transaction, modify, get, run_try,
}
use tec_core_backend.Base.Int.{ℤ, pos, ◌+ℤ◌, leb_ℤ}
use tec_core_backend.Base.Text.{◌===◌}
use tec_core_backend.Base.Table.{Table}
use tec_core_backend.Wallet.Types.{
  Wallet, deposit_entry, payment_entry, deposit_action, credit_action, by_body, State, at_find,
  at_find_primary, at_audit, at_update, at_entry, at_lock, at_check, validation_error,
  internal_error, Thrown, failed, invalid_event, Env, Reply, success, failure, Act, attempt,
  update_wallet, write_audit_log, create_entry, increment,
}
use tec_core_backend.Wallet.Operations.{is_primary_of, create_wallet}

-- `currency || 'PI'`
abbrev pub or_pi : String → String
or_pi c = if c === "" then "PI" else c

abbrev pub has_currency : ℕ → String → Wallet → Bool
has_currency user c w = w.user_id == user && w.currency === c

abbrev pub is_primary_in : ℕ → String → Wallet → Bool
is_primary_in user c w = has_currency user c w && w.is_primary

-- A wallet with a balance of 0 and no address.
abbrev pub empty_wallet : ℕ → String → String → Bool → Wallet
empty_wallet user type currency is_primary = record {
  user_id = user;
  wallet_address = none;
  wallet_type = type;
  balance = pos 0;
  currency = currency;
  is_primary = is_primary;
}

-- `tx.processedEvent.findUnique`
unfoldable pub is_processed : ℕ → List ℕ → Bool
is_processed k [] = false
is_processed k (x ∷ xs) = k == x || is_processed k xs

-- The body of `POST /internal/add-funds`; a missing or empty text is none.
pub record FundsBody : Type 0 where
  pub user_id : Option ℕ
  pub amount : Option String
  pub currency : Option String

-- The event `payment.completed`; a missing or empty id is none.
pub record PaymentCompletedEvent : Type 0 where
  pub payment_id : Option ℕ
  pub user_id : Option ℕ
  pub amount : ℤ
  pub currency : String

-- `currency = 'TEC'`, in upper case.
abbrev pub funds_currency : Env → Option String → String
funds_currency env none = env.upper "TEC"
funds_currency env (some c) = env.upper c

-- The early returns are 400 `VALIDATION_ERROR`, every throw is 500 `INTERNAL_ERROR`.
abbrev pub catch_funds : Thrown → Reply
catch_funds (failed n c) = failure n c
catch_funds e = failure 500 internal_error

module _ (T : Table Wallet) where
  open T use {Rows, find_first, create}

  -- The wallet that was found, or else one that is created.
  unfoldable pub existing_or : Option (ℕ × Wallet) → Act T (ℕ × Wallet) → Act T (ℕ × Wallet)
  existing_or none m s = m s
  existing_or (some e) m s = (ok e, s)

  -- The wallet of the user in the currency, which is created if it is missing: outside of any
  -- transaction.
  unfoldable pub wallet_for_funds : Env → ℕ → String → Act T (ℕ × Wallet)
  wallet_for_funds env user currency = do
    attempt T env at_find
    s ← get
    existing_or (find_first (has_currency user currency) s.wallets) do
      attempt T env at_find_primary
      t ← get
      create_wallet T env (
          empty_wallet user "internal" currency
            (not (is_some (find_first (is_primary_of user) t.wallets))))

  -- The transaction of `addFundsInternal`; the wallet is one of the user of the body.
  unfoldable pub book_funds : Env → ℕ → Wallet → ℤ → String → Act T (Unit {0})
  book_funds env id w amount currency = transaction do
    write_audit_log T env at_audit (record {
      action = deposit_action;
      author = by_body w.user_id;
      entity_id = id;
      before = w.balance;
      after = w.balance +ℤ amount;
    })
    update_wallet T env at_update id (increment T amount)
    create_entry T env at_entry
        (record { wallet_id = id; kind = deposit_entry; amount = amount; currency = currency })

  -- From the wallet to its balance.
  unfoldable pub fund_wallet : Env → String → ℕ → ℤ → Act T (Unit {0})
  fund_wallet env currency user amount = do
    e ← wallet_for_funds env user currency
    book_funds env e.0 e.1 amount currency

  -- `addFundsInternal`
  unfoldable pub add_funds_internal : Env → FundsBody → State Rows → Reply × State Rows
  add_funds_internal env body =
      run_try (λ t s. (catch_funds t, s))
        do
          user ← or_throw body.user_id (failed 400 validation_error)
          text ← or_throw body.amount (failed 400 validation_error)
          amount ← or_throw (env.parse_float text) (failed 400 validation_error)
          throw_if (leb_ℤ amount (pos 0)) (failed 400 validation_error)
          fund_wallet env (funds_currency env body.currency) user amount
          pure (success 200)

  -- `findOrCreateWallet`
  unfoldable pub find_or_create_wallet : Env → ℕ → String → Act T (ℕ × Wallet)
  find_or_create_wallet env user currency = do
    attempt T env at_find
    s ← get
    existing_or (find_first (is_primary_in user (or_pi currency)) s.wallets)
        (create_wallet T env (empty_wallet user "pi" (or_pi currency) true))

  -- Steps 4 to 6 of `handlePaymentCompleted`.
  unfoldable pub book_payment : Env → ℕ → Wallet → ℤ → String → Act T (Unit {0})
  book_payment env id w amount currency = do
    update_wallet T env at_update id (increment T amount)
    create_entry T env at_entry (record {
      wallet_id = id;
      kind = payment_entry;
      amount = amount;
      currency = or_pi currency;
    })
    write_audit_log T env at_audit (record {
      action = credit_action;
      author = by_body w.user_id;
      entity_id = id;
      before = w.balance;
      after = w.balance +ℤ amount;
    })

  -- Steps 2 to 6 of `handlePaymentCompleted`.
  unfoldable pub credit_payment : Env → ℕ → ℕ → ℤ → String → Act T (Unit {0})
  credit_payment env payment user amount currency = do
    attempt T env at_lock
    modify (λ (t : State Rows). record t { processed = payment ∷ t.processed })
    e ← find_or_create_wallet env user currency
    book_payment env e.0 e.1 amount currency

  -- `handlePaymentCompleted`
  unfoldable pub handle_payment_completed : Env → PaymentCompletedEvent → Act T (Unit {0})
  handle_payment_completed env event = do
    payment ← or_throw event.payment_id invalid_event
    user ← or_throw event.user_id invalid_event
    throw_if (leb_ℤ event.amount (pos 0)) invalid_event
    transaction do
      attempt T env at_check
      s ← get
      elim (is_processed payment s.processed) [
        | true ↦ pure tt
        | false ↦ credit_payment env payment user event.amount event.currency
      ]

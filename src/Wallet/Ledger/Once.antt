-- ===== src/Wallet/Ledger/Once.antt =====
-- A payment is credited once: the key in `processed_events` that `handlePaymentCompleted` of
-- tec-wallet-service/src/wallet/wallet.service.ts writes.
use tec_core_backend.Base.{ℕ, true, ◌||◌, some, List, [], ◌∷◌, String, ◌==◌, ◌≡◌, refl, arith}
use tec_core_backend.Base.Action.{Result, ok, err}
use tec_core_backend.Base.Int.{ℤ}
use tec_core_backend.Base.Table.{Table}
use tec_core_backend.Wallet.Types.{Wallet, Kind, deposit_entry, State, Thrown, Env}
use tec_core_backend.Wallet.Operations.{
  linked_wallet, link_wallet, deposit, withdraw, transfer, resolve_asset,
}
use tec_core_backend.Wallet.Credit.{
  PaymentCompletedEvent, is_processed, fund_wallet, book_funds, add_funds_internal, credit_payment,
  handle_payment_completed, funds_currency,
}
use tec_core_backend.Wallet.Ledger
use tec_core_backend.Wallet.Ledger.Accounts

module _ (T : Table Wallet) where
  open T use {Rows, find}

  abbrev pub Has : ℕ → State Rows → Type 0
  Has p s = is_processed p s.processed ≡ true

  posted-Has :
      (p id : ℕ) (kind : Kind) (amount : ℤ) (s : State Rows) (r : Result Thrown (Unit {0}))
      (s' : State Rows)
      → Ledger.HasPosted T id kind amount s (r, s')
      → Has p s
      → Has p s'
  posted-Has p id kind amount s (ok a) s' (x, e, added, same) h = rw same h
  posted-Has p id kind amount s (err x) s' e h = rw e h

  book_funds-Has :
      (env : Env) (currency : String) (p id : ℕ) (w : Wallet) (amount : ℤ) (s : State Rows)
      → Has p s
      → Has p (book_funds T env id w amount currency s).1
  book_funds-Has env currency p id w amount s h =
      posted-Has p id deposit_entry amount s _ _
        (Ledger.book_funds_lem T env id w amount currency s) h

  fund_wallet-Has :
      (env : Env) (currency : String) (p : ℕ) (s : State Rows)
      → Has p s
      → (user : ℕ) (amount : ℤ) → Has p (fund_wallet T env currency user amount s).1
  unfolding fund_wallet
  fund_wallet-Has env currency p s h user amount =
      grind
        (arith, Ledger.wallet_for_funds_lem T env user currency 0 s, book_funds-Has env currency p)

  -- A throw is taken back by the transaction around it.
  abbrev HasIfKept : ℕ → ℕ → State Rows → Result Thrown (Unit {0}) × State Rows → Type 0
  HasIfKept payment p s (ok a, s') =
      is_processed p s'.processed ≡ (p == payment || is_processed p s.processed)
  HasIfKept payment p s (err e, s') = Unit {0}

  credit_payment-Has :
      (env : Env) (p : ℕ) (s : State Rows) (payment user : ℕ) (amount : ℤ) (currency : String)
      → HasIfKept payment p s (credit_payment T env payment user amount currency s)
  unfolding credit_payment is_processed
  credit_payment-Has env p s payment user amount currency = grind (
    arith,
    Ledger.find_or_create_wallet_lem T env user currency 0
        (record s { processed = payment ∷ s.processed }),
    Ledger.book_payment_lem T env,
  )

  pub request-Has :
      (q : Accounts.Request) (p : ℕ) (s : State Rows) → Has p s → Has p (Accounts.run_request T q s)
  unfolding Accounts.run_request link_wallet deposit withdraw transfer add_funds_internal
      handle_payment_completed
  request-Has (Accounts.link_request env body) p s h =
      ground (arith, Ledger.create_wallet_lem T env (linked_wallet T body s.wallets) 0 s refl)
  request-Has (Accounts.deposit_request env id amount asset) p s h =
      ground (arith, Ledger.deposit_funds_lem T env id amount (resolve_asset env asset) s)
  request-Has (Accounts.withdraw_request env id amount asset) p s h =
      ground (arith, Ledger.withdraw_funds_lem T env id amount (resolve_asset env asset) s)
  request-Has (Accounts.transfer_request env from to amount asset) p s h =
      ground (arith, Ledger.transfer_funds_lem T env from to amount (resolve_asset env asset) s)
  request-Has (Accounts.funds_request env body) p s h =
      grind (arith, fund_wallet-Has env (funds_currency env body.currency) p s h)
  request-Has (Accounts.payment_request env event) p s h = grind (arith, credit_payment-Has env p s)

  requests-Has :
      (qs : List Accounts.Request) (p : ℕ) (s : State Rows)
      → Has p s
      → Has p (Accounts.run_requests T qs s)
  unfolding Accounts.run_requests
  requests-Has [] p s h = h
  requests-Has (q ∷ qs) p s h = requests-Has qs p (Accounts.run_request T q s) (request-Has q p s h)

  pub handled-Has :
      (env : Env) (event : PaymentCompletedEvent) (p : ℕ) (s : State Rows) (a : Unit {0})
      → event.payment_id ≡ some p
      → (handle_payment_completed T env event s).0 ≡ ok a
      → Has p (handle_payment_completed T env event s).1
  unfolding handle_payment_completed
  handled-Has env event p s a e h = grind (arith, credit_payment-Has env p s)

  again :
      (env : Env) (event : PaymentCompletedEvent) (p : ℕ) (s : State Rows)
      → event.payment_id ≡ some p
      → Has p s
      → (handle_payment_completed T env event s).1 ≡ s
  unfolding handle_payment_completed
  again env event p s e h = ground arith

  -- Once the event of a payment has been handled without a throw, and whatever operations run after
  -- that, any event of the same payment changes nothing.
  pub payment_credited_once :
      (env later : Env) (event repeated : PaymentCompletedEvent) (p : ℕ) (s : State Rows)
      (qs : List Accounts.Request)
      → event.payment_id ≡ some p
      → repeated.payment_id ≡ some p
      → (handle_payment_completed T env event s).0 ≡ ok tt
      → (handle_payment_completed T later repeated
          (Accounts.run_requests T qs (handle_payment_completed T env event s).1)).1
        ≡ Accounts.run_requests T qs (handle_payment_completed T env event s).1
  payment_credited_once env later event repeated p s qs e e' h =
      again later repeated p _ e' (requests-Has qs p _ (handled-Has env event p s tt e h))

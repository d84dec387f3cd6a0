-- ===== src/Wallet/Ledger/Payments.antt =====
-- One entry of the ledger for each processed payment, over any sequence of the operations of
-- tec-wallet-service/src/wallet/wallet.service.ts and src/controllers/wallet.controller.ts.
use tec_core_backend.Base.{
  ℕ, suc, Bool, true, false, not, ◌&&◌, List, [], ◌∷◌, String, ◌≡◌, refl, if◌then◌else◌, length,
  arith,
}
use tec_core_backend.Base.Action.{Result, ok, err}
use tec_core_backend.Base.Int.{ℤ}
use tec_core_backend.Base.Table.{Table}
use tec_core_backend.Wallet.Types.{
  Wallet, Kind, Entry, deposit_entry, withdrawal_entry, debit_entry, payment_entry, State, Thrown,
  Env,
}
use tec_core_backend.Wallet.Operations.{
  linked_wallet, link_wallet, deposit, withdraw, transfer, resolve_asset,
}
use tec_core_backend.Wallet.Credit.{
  PaymentCompletedEvent, is_processed, fund_wallet, book_funds, add_funds_internal, credit_payment,
  handle_payment_completed, funds_currency,
}
use tec_core_backend.Wallet.Ledger
use tec_core_backend.Wallet.Ledger.Accounts

-- No id stands in the list twice.
unfoldable pub is_once : List ℕ → Bool
is_once [] = true
is_once (p ∷ ps) = not (is_processed p ps) && is_once ps

unfoldable pub is_payment : Kind → Bool
is_payment payment_entry = true
is_payment k = false

-- The number of entries that credit a payment.
unfoldable pub payments : List Entry → ℕ
payments [] = 0
payments (e ∷ es) = if is_payment e.kind then suc (payments es) else payments es

Adds-payments :
    (id : ℕ) (kind : Kind) (amount : ℤ) (es es' : List Entry)
    → Ledger.Adds id kind amount es es'
    → payments es' ≡ (if is_payment kind then suc (payments es) else payments es)
unfolding payments
Adds-payments id kind amount es [] h = absurd h
Adds-payments id kind amount es (e ∷ rest) (a, b, c, d) = rw (b, d) refl

AddsBoth-payments :
    (from to : ℕ) (amount : ℤ) (es es' : List Entry)
    → Ledger.AddsBoth from to amount es es'
    → payments es' ≡ payments es
unfolding payments is_payment
AddsBoth-payments from to amount es [] h = absurd h
AddsBoth-payments from to amount es (e ∷ rest) (a, b, c, d) =
    rw b (Adds-payments from debit_entry amount es rest d)

module _ (T : Table Wallet) where
  open T use {Rows}

  -- Each processed payment stands once in `processed_events`, and has one entry of the ledger.
  abbrev pub IsCounted : State Rows → Type 0
  IsCounted s = (is_once s.processed ≡ true) × (payments s.entries ≡ length s.processed)

  posted-IsCounted :
      (id : ℕ) (kind : Kind) (amount : ℤ) (s : State Rows) (r : Result Thrown (Unit {0}))
      (s' : State Rows)
      → is_payment kind ≡ false
      → Ledger.HasPosted T id kind amount s (r, s')
      → IsCounted s
      → IsCounted s'
  posted-IsCounted id kind amount s (ok a) s' other (x, e, added, same) h =
      grind (arith, Adds-payments id kind amount s.entries s'.entries added)
  posted-IsCounted id kind amount s (err x) s' other e h = rw e h

  -- A throw is taken back by the transaction around it.
  abbrev CountedIfKept : State Rows → Result Thrown (Unit {0}) × State Rows → Type 0
  CountedIfKept s (ok a, s') = IsCounted s'
  CountedIfKept s (err e, s') = Unit {0}

  credit_payment-IsCounted :
      (env : Env) (s : State Rows) (payment user : ℕ) (amount : ℤ) (currency : String)
      → is_processed payment s.processed ≡ false
      → IsCounted s
      → CountedIfKept s (credit_payment T env payment user amount currency s)
  unfolding credit_payment is_once is_payment
  credit_payment-IsCounted env s payment user amount currency new h = grind (
    arith,
    Ledger.find_or_create_wallet_lem T env user currency 0
        (record s { processed = payment ∷ s.processed }),
    Ledger.book_payment_lem T env,
    Adds-payments,
  )

  book_funds-IsCounted :
      (env : Env) (currency : String) (id : ℕ) (w : Wallet) (amount : ℤ) (s : State Rows)
      → IsCounted s
      → IsCounted (book_funds T env id w amount currency s).1
  unfolding is_payment
  book_funds-IsCounted env currency id w amount s h =
      posted-IsCounted id deposit_entry amount s _ _ refl
        (Ledger.book_funds_lem T env id w amount currency s) h

  fund_wallet-IsCounted :
      (env : Env) (currency : String) (s : State Rows)
      → IsCounted s
      → (user : ℕ) (amount : ℤ) → IsCounted (fund_wallet T env currency user amount s).1
  unfolding fund_wallet
  fund_wallet-IsCounted env currency s h user amount = grind (
    arith,
    Ledger.wallet_for_funds_lem T env user currency 0 s,
    book_funds-IsCounted env currency,
  )

  pub handled-IsCounted :
      (env : Env) (event : PaymentCompletedEvent) (s : State Rows)
      → IsCounted s
      → IsCounted (handle_payment_completed T env event s).1
  unfolding handle_payment_completed
  handled-IsCounted env event s h = grind (arith, credit_payment-IsCounted env s)

  posts-IsCounted :
      (id : ℕ) (kind : Kind) (amount : ℤ) (s : State Rows)
      (o : Result Thrown (Unit {0}) × State Rows)
      → is_payment kind ≡ false
      → Ledger.HasPosted T id kind amount s o
      → IsCounted s
      → IsCounted o.1
  posts-IsCounted id kind amount s (r, s') = posted-IsCounted id kind amount s r s'

  transferred-IsCounted :
      (from to : ℕ) (amount : ℤ) (s : State Rows) (o : Result Thrown (Unit {0}) × State Rows)
      → Ledger.HasTransferred T from to amount s o
      → IsCounted s
      → IsCounted o.1
  unfolding payments is_payment
  transferred-IsCounted from to amount s (ok a, s') (x, y, z, added, same) h =
      grind (arith, AddsBoth-payments from to amount s.entries s'.entries added)
  transferred-IsCounted from to amount s (err e, s') same h = rw same h

  pub request-IsCounted :
      (q : Accounts.Request) (s : State Rows) → IsCounted s → IsCounted (Accounts.run_request T q s)
  unfolding Accounts.run_request link_wallet deposit withdraw transfer add_funds_internal is_payment
  request-IsCounted (Accounts.link_request env body) s h =
      ground (arith, Ledger.create_wallet_lem T env (linked_wallet T body s.wallets) 0 s refl)
  request-IsCounted (Accounts.deposit_request env id amount asset) s h = ground (
    arith,
    posts-IsCounted id deposit_entry amount s _ refl
        (Ledger.deposit_funds_lem T env id amount (resolve_asset env asset) s) h,
  )
  request-IsCounted (Accounts.withdraw_request env id amount asset) s h = ground (
    arith,
    posts-IsCounted id withdrawal_entry amount s _ refl
        (Ledger.withdraw_funds_lem T env id amount (resolve_asset env asset) s) h,
  )
  request-IsCounted (Accounts.transfer_request env from to amount asset) s h = ground (
    arith,
    transferred-IsCounted from to amount s _
        (Ledger.transfer_funds_lem T env from to amount (resolve_asset env asset) s) h,
  )
  request-IsCounted (Accounts.funds_request env body) s h =
      grind (arith, fund_wallet-IsCounted env (funds_currency env body.currency) s h)
  request-IsCounted (Accounts.payment_request env event) s h = handled-IsCounted env event s h

  -- Over any operations of the service: each processed payment stands once in the table that
  -- makes the consumer idempotent, and there are as many entries that credit a payment.
  pub run_requests-IsCounted :
      (qs : List Accounts.Request) (s : State Rows)
      → IsCounted s
      → IsCounted (Accounts.run_requests T qs s)
  unfolding Accounts.run_requests
  run_requests-IsCounted [] s h = h
  run_requests-IsCounted (q ∷ qs) s h =
      run_requests-IsCounted qs (Accounts.run_request T q s) (request-IsCounted q s h)

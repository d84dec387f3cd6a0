-- ===== src/Wallet/Ledger/Accounts.antt =====
-- The ledger and the balances of the wallet service, over any sequence of its operations
-- (tec-wallet-service/src/controllers/wallet.controller.ts, src/wallet/wallet.service.ts).
use tec_core_backend.Base.{ℕ, Option, List, [], ◌∷◌, String, ◌≡◌, refl, arith}
use tec_core_backend.Base.Action.{Result, ok, err}
use tec_core_backend.Base.Int.{ℤ}
use tec_core_backend.Base.Table.{Table}
use tec_core_backend.Wallet.Types.{
  Wallet, Kind, Entry, deposit_entry, withdrawal_entry, debit_entry, credit_entry, payment_entry,
  State, Thrown, Env,
}
use tec_core_backend.Wallet.Operations.{
  LinkBody, linked_wallet, link_wallet, deposit, withdraw, transfer, resolve_asset,
}
use tec_core_backend.Wallet.Credit.{
  FundsBody, PaymentCompletedEvent, book_funds, book_payment, credit_payment, fund_wallet,
  add_funds_internal, handle_payment_completed, funds_currency,
}
use tec_core_backend.Wallet.Ledger

-- A call of one operation of the service.
pub data Request : Type 0 where
  link_request : Env → LinkBody → Request
  deposit_request : Env → ℕ → ℤ → Option String → Request
  withdraw_request : Env → ℕ → ℤ → Option String → Request
  transfer_request : Env → ℕ → ℕ → ℤ → Option String → Request
  funds_request : Env → FundsBody → Request
  payment_request : Env → PaymentCompletedEvent → Request

module _ (T : Table Wallet) where
  open T use {Rows, find, update, create, find-update}

  unfoldable pub run_request : Request → State Rows → State Rows
  run_request (link_request env body) s = (link_wallet T env body s).1
  run_request (deposit_request env id amount asset) s = (deposit T env id amount asset s).1
  run_request (withdraw_request env id amount asset) s = (withdraw T env id amount asset s).1
  run_request (transfer_request env from to amount asset) s =
      (transfer T env from to amount asset s).1
  run_request (funds_request env body) s = (add_funds_internal T env body s).1
  run_request (payment_request env event) s = (handle_payment_completed T env event s).1

  unfoldable pub run_requests : List Request → State Rows → State Rows
  run_requests [] s = s
  run_requests (r ∷ rs) s = run_requests rs (run_request r s)

  -- The balance of the wallet is what its entries come to.
  abbrev pub IsBooked : ℕ → State Rows → Type 0
  IsBooked j s = Ledger.net j s.entries ≡ Ledger.balance_of (find j s.wallets)

  posted_books :
      (j id : ℕ) (kind : Kind) (amount : ℤ) (rows : Rows) (es es' : List Entry)
      → Ledger.IsThere (find id rows)
      → Ledger.Adds id kind amount es es'
      → Ledger.net j es ≡ Ledger.balance_of (find j rows)
      → Ledger.net j es' ≡ Ledger.balance_of (find j (update id (Ledger.posted kind amount) rows))
  unfolding Ledger.net
  posted_books j id kind amount rows es es' h a b =
      ground (arith, find-update j id (Ledger.posted kind amount) rows)

  posted-IsBooked :
      (j id : ℕ) (kind : Kind) (amount : ℤ) (s : State Rows) (r : Result Thrown (Unit {0}))
      (s' : State Rows)
      → Ledger.HasPosted T id kind amount s (r, s')
      → IsBooked j s
      → IsBooked j s'
  posted-IsBooked j id kind amount s (ok a) s' (there, rows_eq, added, rest) h =
      rw rows_eq (posted_books j id kind amount s.wallets s.entries s'.entries there added h)
  posted-IsBooked j id kind amount s (err e) s' h b = rw h b

  deposit-IsBooked :
      (env : Env) (id : ℕ) (amount : ℤ) (asset : Option String) (j : ℕ) (s : State Rows)
      → IsBooked j s
      → IsBooked j (deposit T env id amount asset s).1
  unfolding deposit
  deposit-IsBooked env id amount asset j s h = ground (
    arith,
    posted-IsBooked j id deposit_entry amount s _ _
        (Ledger.deposit_funds_lem T env id amount (resolve_asset env asset) s) h,
  )

  withdraw-IsBooked :
      (env : Env) (id : ℕ) (amount : ℤ) (asset : Option String) (j : ℕ) (s : State Rows)
      → IsBooked j s
      → IsBooked j (withdraw T env id amount asset s).1
  unfolding withdraw
  withdraw-IsBooked env id amount asset j s h = ground (
    arith,
    posted-IsBooked j id withdrawal_entry amount s _ _
        (Ledger.withdraw_funds_lem T env id amount (resolve_asset env asset) s) h,
  )

  both_books :
      (j from to : ℕ) (amount : ℤ) (rows : Rows) (es es' : List Entry)
      → Ledger.IsThere (find from rows)
      → Ledger.IsThere (find to rows)
      → Ledger.AddsBoth from to amount es es'
      → Ledger.net j es ≡ Ledger.balance_of (find j rows)
      → Ledger.net j es'
        ≡ Ledger.balance_of (
            find j (
              update to
                (Ledger.posted credit_entry amount)
                (update from (Ledger.posted debit_entry amount) rows)))
  both_books j from to amount rows es [] x y absent b = elim absent [ ]
  both_books j from to amount rows es (e ∷ es') x y (h, k, l, a) b =
      posted_books j to credit_entry amount (update from (Ledger.posted debit_entry amount) rows)
        es' (e ∷ es')
        (ground (arith, find-update to from (Ledger.posted debit_entry amount) rows, x, y))
        (h, k, l, refl) (posted_books j from debit_entry amount rows es es' x a b)

  transferred-IsBooked :
      (j from to : ℕ) (amount : ℤ) (s : State Rows) (r : Result Thrown (Unit {0})) (s' : State Rows)
      → Ledger.HasTransferred T from to amount s (r, s')
      → IsBooked j s
      → IsBooked j s'
  transferred-IsBooked j from to amount s (ok a) s' (x, y, e, added, rest) h =
      rw e (both_books j from to amount s.wallets s.entries s'.entries x y added h)
  transferred-IsBooked j from to amount s (err e) s' h b = rw h b

  transfer-IsBooked :
      (env : Env) (from to : ℕ) (amount : ℤ) (asset : Option String) (j : ℕ) (s : State Rows)
      → IsBooked j s
      → IsBooked j (transfer T env from to amount asset s).1
  unfolding transfer
  transfer-IsBooked env from to amount asset j s h = ground (
    arith,
    transferred-IsBooked j from to amount s _ _
        (Ledger.transfer_funds_lem T env from to amount (resolve_asset env asset) s) h,
  )

  link-IsBooked :
      (env : Env) (body : LinkBody) (j : ℕ) (s : State Rows)
      → IsBooked j s
      → IsBooked j (link_wallet T env body s).1
  unfolding link_wallet
  link-IsBooked env body j s h =
      ground (arith, Ledger.create_wallet_lem T env (linked_wallet T body s.wallets) j s refl)

  book_funds-IsBooked :
      (env : Env) (currency : String) (j id : ℕ) (w : Wallet) (amount : ℤ) (s : State Rows)
      → IsBooked j s
      → IsBooked j (book_funds T env id w amount currency s).1
  book_funds-IsBooked env currency j id w amount s h =
      posted-IsBooked j id deposit_entry amount s _ _
        (Ledger.book_funds_lem T env id w amount currency s) h

  fund_wallet-IsBooked :
      (env : Env) (currency : String) (j : ℕ) (s : State Rows)
      → IsBooked j s
      → (user : ℕ) (amount : ℤ) → IsBooked j (fund_wallet T env currency user amount s).1
  unfolding fund_wallet
  fund_wallet-IsBooked env currency j s h user amount = grind (
    arith,
    Ledger.wallet_for_funds_lem T env user currency j s,
    book_funds-IsBooked env currency j,
  )

  add_funds-IsBooked :
      (env : Env) (body : FundsBody) (j : ℕ) (s : State Rows)
      → IsBooked j s
      → IsBooked j (add_funds_internal T env body s).1
  unfolding add_funds_internal
  add_funds-IsBooked env body j s h =
      grind (arith, fund_wallet-IsBooked env (funds_currency env body.currency) j s h)

  -- A throw is taken back by the transaction around it.
  abbrev IsBookedIfKept : ℕ → Result Thrown (Unit {0}) × State Rows → Type 0
  IsBookedIfKept j (ok a, s) = IsBooked j s
  IsBookedIfKept j (err e, s) = Unit {0}

  book_payment-IsBooked :
      (env : Env) (currency : String) (j id : ℕ) (w : Wallet) (amount : ℤ) (s : State Rows)
      → IsBooked j s
      → IsBookedIfKept j (book_payment T env id w amount currency s)
  book_payment-IsBooked env currency j id w amount s h =
      paid _ _ (Ledger.book_payment_lem T env id w amount currency s)
    where
      paid :
          (r : Result Thrown (Unit {0})) (s' : State Rows)
          → Ledger.HasPaid T id amount s (r, s')
          → IsBookedIfKept j (r, s')
      paid (ok a) s' k = posted-IsBooked j id payment_entry amount s (ok a) s' k h
      paid (err e) s' k = tt

  credit_payment-IsBooked :
      (env : Env) (j : ℕ) (s : State Rows)
      → IsBooked j s
      → (payment user : ℕ) (amount : ℤ) (currency : String)
      → IsBookedIfKept j (credit_payment T env payment user amount currency s)
  unfolding credit_payment
  credit_payment-IsBooked env j s h payment user amount currency = grind (
    arith,
    Ledger.find_or_create_wallet_lem T env user currency j
        (record s { processed = payment ∷ s.processed }),
    book_payment-IsBooked env currency j,
  )

  payment-IsBooked :
      (env : Env) (event : PaymentCompletedEvent) (j : ℕ) (s : State Rows)
      → IsBooked j s
      → IsBooked j (handle_payment_completed T env event s).1
  unfolding handle_payment_completed
  payment-IsBooked env event j s h = grind (arith, credit_payment-IsBooked env j s h)

  request-IsBooked :
      (q : Request) (j : ℕ) (s : State Rows) → IsBooked j s → IsBooked j (run_request q s)
  unfolding run_request
  request-IsBooked (link_request env body) j s h = link-IsBooked env body j s h
  request-IsBooked (deposit_request env id amount asset) j s h =
      deposit-IsBooked env id amount asset j s h
  request-IsBooked (withdraw_request env id amount asset) j s h =
      withdraw-IsBooked env id amount asset j s h
  request-IsBooked (transfer_request env from to amount asset) j s h =
      transfer-IsBooked env from to amount asset j s h
  request-IsBooked (funds_request env body) j s h = add_funds-IsBooked env body j s h
  request-IsBooked (payment_request env event) j s h = payment-IsBooked env event j s h

  -- Any sequence of links, deposits, withdrawals, transfers, internal credits and payment events, with
  -- any inputs and whatever database calls fail, keeps the balance of every wallet equal to what its
  -- entries in the ledger come to (0 for a wallet that is not there).
  pub run_requests-IsBooked :
      (qs : List Request) (j : ℕ) (s : State Rows) → IsBooked j s → IsBooked j (run_requests qs s)
  unfolding run_requests
  run_requests-IsBooked [] j s h = h
  run_requests-IsBooked (q ∷ qs) j s h =
      run_requests-IsBooked qs j (run_request q s) (request-IsBooked q j s h)

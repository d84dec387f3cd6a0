-- ===== src/Wallet/Ledger/Solvency.antt =====
-- No operation of the wallet service leaves a wallet with less than 0
-- (tec-wallet-service/src/controllers/wallet.controller.ts, src/wallet/wallet.service.ts).
use tec_core_backend.Base.{ℕ, List, [], ◌∷◌, String, refl, inl, inr, All, Bool-cases, arith}
use tec_core_backend.Base.Action.{Result, ok, err, ◌>>=◌}
use tec_core_backend.Base.Int.{ℤ, pos, ◌≤ℤ◌}
use tec_core_backend.Base.Table.{Table}
use tec_core_backend.Wallet.Types.{
  Wallet, deposit_entry, payment_entry, State, Thrown, Env, at_lock,
}
use tec_core_backend.Wallet.Operations.{LinkBody, linked_wallet, link_wallet}
use tec_core_backend.Wallet.Credit.{
  FundsBody, PaymentCompletedEvent, wallet_for_funds, book_funds, find_or_create_wallet,
  book_payment, credit_payment, fund_wallet, add_funds_internal, handle_payment_completed,
  funds_currency,
}
use tec_core_backend.Wallet.Ledger
use tec_core_backend.Wallet.Ledger.Covered
use tec_core_backend.Wallet.Ledger.Accounts
use tec_core_backend.Wallet.Ledger.Balances.{
  IsSolvent, posted_solvent, posted-IsSolvent, gain, gain_CanPost, deposit-IsSolvent,
  withdraw-IsSolvent, transfer-IsSolvent,
}

-- A deposit is not below 0; a withdrawal or a transfer is from 0 to 10^15 units, and its test of doubles
-- is right for decimals of 15 digits.
abbrev pub HasAmount : Accounts.Request → Type 0
HasAmount (Accounts.deposit_request env id amount asset) = pos 0 ≤ℤ amount
HasAmount (Accounts.withdraw_request env id amount asset) =
    Covered.IsExact env × Covered.IsAmount amount
HasAmount (Accounts.transfer_request env from to amount asset) =
    Covered.IsExact env × Covered.IsAmount amount
HasAmount q = Unit {0}

module _ (T : Table Wallet) where
  open T use {Rows, find, update, create, find-update}

  link-IsSolvent :
      (env : Env) (body : LinkBody) (s : State Rows)
      → IsSolvent T s
      → IsSolvent T (link_wallet T env body s).1
  unfolding link_wallet
  link-IsSolvent env body s k j =
      ground (arith, k j, Ledger.create_wallet_lem T env (linked_wallet T body s.wallets) j s refl)

  -- The call changes no balance.
  wallet-IsSolvent :
      (s : State Rows) (r : Result Thrown (ℕ × Wallet)) (s' : State Rows) (j : ℕ)
      → Ledger.HasWallet T j s (r, s')
      → IsSolvent T s
      → pos 0 ≤ℤ Ledger.balance_of (find j s'.wallets)
  wallet-IsSolvent s (ok w) s' j (x, e, rest, same) k = rw e (k j)
  wallet-IsSolvent s (err x) s' j e k = rw e (k j)

  book_funds-IsSolvent :
      (env : Env) (currency : String) (amount : ℤ) (s : State Rows)
      → pos 0 ≤ℤ amount
      → IsSolvent T s
      → (j id : ℕ) (w : Wallet)
      → pos 0 ≤ℤ Ledger.balance_of (find j (book_funds T env id w amount currency s).1.wallets)
  book_funds-IsSolvent env currency amount s h k j id w =
      posted-IsSolvent T id deposit_entry amount s _ _
        (Ledger.book_funds_lem T env id w amount currency s)
        (gain_CanPost T amount (find id s.wallets) _ h (k id)) k j

  fund_wallet-IsSolvent :
      (env : Env) (currency : String) (s : State Rows)
      → IsSolvent T s
      → (j user : ℕ) (amount : ℤ) → pos 0 ≤ℤ amount
      → pos 0 ≤ℤ Ledger.balance_of (find j (fund_wallet T env currency user amount s).1.wallets)
  unfolding fund_wallet
  fund_wallet-IsSolvent env currency s k j user amount h =
      let solvent : IsSolvent T (wallet_for_funds T env user currency s).1 =
        λ i. wallet-IsSolvent s _ _ i (Ledger.wallet_for_funds_lem T env user currency i s) k in
      funded _ _ solvent
    where
      funded :
          (r : Result Thrown (ℕ × Wallet)) (t : State Rows)
          → IsSolvent T t
          → pos 0
            ≤ℤ Ledger.balance_of (
                find j
                  (◌>>=◌
                    (λ (u : State Rows). (r, t))
                    (λ e. book_funds T env e.0 e.1 amount currency)
                    s).1.wallets)
      funded (ok e) t l = book_funds-IsSolvent env currency amount t h l j e.0 e.1
      funded (err x) t l = l j

  add_funds-IsSolvent :
      (env : Env) (body : FundsBody) (s : State Rows)
      → IsSolvent T s
      → IsSolvent T (add_funds_internal T env body s).1
  unfolding add_funds_internal
  add_funds-IsSolvent env body s k j =
      grind (arith, k j, fund_wallet-IsSolvent env (funds_currency env body.currency) s k j)

  -- A throw is taken back by the transaction around it.
  abbrev IsSolventIfKept : ℕ → Result Thrown (Unit {0}) × State Rows → Type 0
  IsSolventIfKept j (ok a, s) = pos 0 ≤ℤ Ledger.balance_of (find j s.wallets)
  IsSolventIfKept j (err e, s) = Unit {0}

  paid-IsSolvent :
      (id : ℕ) (amount : ℤ) (s : State Rows) (r : Result Thrown (Unit {0})) (s' : State Rows)
      → Ledger.HasPaid T id amount s (r, s')
      → pos 0 ≤ℤ amount
      → IsSolvent T s
      → (j : ℕ) → IsSolventIfKept j (r, s')
  unfolding Ledger.book
  paid-IsSolvent id amount s (ok a) s' (x, e, added, same) h k j =
      rw e (posted_solvent T id payment_entry amount s.wallets x (gain T amount _ h (k id)) j (k j))
  paid-IsSolvent id amount s (err x) s' e h k j = tt

  book_payment-IsSolvent :
      (env : Env) (currency : String) (amount : ℤ) (s : State Rows)
      → pos 0 ≤ℤ amount
      → IsSolvent T s
      → (j id : ℕ) (w : Wallet) → IsSolventIfKept j (book_payment T env id w amount currency s)
  book_payment-IsSolvent env currency amount s h k j id w =
      paid-IsSolvent id amount s _ _ (Ledger.book_payment_lem T env id w amount currency s) h k j

  credit_payment-IsSolvent :
      (env : Env) (s : State Rows)
      → IsSolvent T s
      → (j payment user : ℕ) (amount : ℤ) (currency : String) → pos 0 ≤ℤ amount
      → IsSolventIfKept j (credit_payment T env payment user amount currency s)
  unfolding credit_payment
  credit_payment-IsSolvent env s k j payment user amount currency h =
      let locked : State Rows = record s { processed = payment ∷ s.processed } in
      let solvent : IsSolvent T (find_or_create_wallet T env user currency locked).1 = λ i.
        wallet-IsSolvent locked _ _ i
          (Ledger.find_or_create_wallet_lem T env user currency i locked) k in
      elim (Bool-cases (env.has_fault at_lock)) [
        | inl e ↦ rw e tt
        | inr e ↦ rw e (credited _ _ solvent)
      ]
    where
      credited :
          (r : Result Thrown (ℕ × Wallet)) (t : State Rows)
          → IsSolvent T t
          → IsSolventIfKept j (
              ◌>>=◌
                (λ (u : State Rows). (r, t))
                (λ e. book_payment T env e.0 e.1 amount currency)
                s)
      credited (ok e) t l = book_payment-IsSolvent env currency amount t h l j e.0 e.1
      credited (err x) t l = tt

  payment-IsSolvent :
      (env : Env) (event : PaymentCompletedEvent) (s : State Rows)
      → IsSolvent T s
      → IsSolvent T (handle_payment_completed T env event s).1
  unfolding handle_payment_completed
  payment-IsSolvent env event s k j = grind (arith, k j, credit_payment-IsSolvent env s k j)

  request-IsSolvent :
      (q : Accounts.Request) (s : State Rows)
      → HasAmount q
      → IsSolvent T s
      → IsSolvent T (Accounts.run_request T q s)
  unfolding Accounts.run_request
  request-IsSolvent (Accounts.link_request env body) s h k = link-IsSolvent env body s k
  request-IsSolvent (Accounts.deposit_request env id amount asset) s h k =
      deposit-IsSolvent T env id amount asset s h k
  request-IsSolvent (Accounts.withdraw_request env id amount asset) s h k =
      withdraw-IsSolvent T env id amount asset s h.0 h.1 k
  request-IsSolvent (Accounts.transfer_request env from to amount asset) s h k =
      transfer-IsSolvent T env from to amount asset s h.0 h.1 k
  request-IsSolvent (Accounts.funds_request env body) s h k = add_funds-IsSolvent env body s k
  request-IsSolvent (Accounts.payment_request env event) s h k = payment-IsSolvent env event s k

  -- Where no wallet has less than 0, no wallet has less than 0 after any sequence of links,
  -- deposits, withdrawals, transfers, internal credits and payment events, whatever database calls
  -- fail, where deposits are not below 0 (the validators of the routes ask for more), withdrawals
  -- and transfers are of 0 to 10^15 units of 10^-8, and their test of doubles is right for
  -- a balance and an amount in that range, the decimals of 15 digits.
  pub run_requests-IsSolvent :
      (qs : List Accounts.Request) (s : State Rows)
      → All HasAmount qs
      → IsSolvent T s
      → IsSolvent T (Accounts.run_requests T qs s)
  unfolding Accounts.run_requests
  run_requests-IsSolvent [] s h k = k
  run_requests-IsSolvent (q ∷ qs) s (h, hs) k =
      run_requests-IsSolvent qs (Accounts.run_request T q s) hs (request-IsSolvent q s h k)

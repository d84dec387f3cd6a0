-- ===== src/Wallet/Ledger/Credits.antt =====
-- What `handlePaymentCompleted` of tec-wallet-service/src/wallet/wallet.service.ts credits when no
-- call of the database fails.
use tec_core_backend.Base.{
  ℕ, false, none, some, List, [], ◌∷◌, String, ◌==◌, ◌≡◌, ◌⊎◌, inl, inr, if◌then◌else◌,
  Option-cases, arith,
}
use tec_core_backend.Base.Action.{Result, ok, err, ◌>>=◌}
use tec_core_backend.Base.Int.{ℤ, pos, ◌+ℤ◌, leb_ℤ}
use tec_core_backend.Base.Table.{Table}
use tec_core_backend.Wallet.Types.{Wallet, Entry, payment_entry, State, Thrown, Env, increment}
use tec_core_backend.Wallet.Operations.{create_wallet}
use tec_core_backend.Wallet.Credit.{
  PaymentCompletedEvent, is_processed, is_primary_in, or_pi, existing_or, find_or_create_wallet,
  book_payment, credit_payment, handle_payment_completed,
}
use tec_core_backend.Wallet.Ledger

-- The same requests, where every call of the database succeeds.
abbrev pub faultless : Env → Env
faultless env = record env { has_fault = λ site. false }

module _ (T : Table Wallet) where
  open T use {Rows, find, find_first, update, find-update}

  -- One entry is new, for the amount, and its wallet has the amount more, for the wallet `j`.
  abbrev pub HasGained : ℕ → ℤ → State Rows → List Entry → State Rows → Type 0
  HasGained j amount s [] s' = ⊥
  HasGained j amount s (e ∷ es) s' =
      (es ≡ s.entries)
      × (e.kind ≡ payment_entry)
      × (e.amount ≡ amount)
      × (Ledger.balance_of (find j s'.wallets) ≡ (
          if j == e.wallet_id
          then Ledger.balance_of (find j s.wallets) +ℤ amount
          else Ledger.balance_of (find j s.wallets)))

  abbrev pub IsCredited : ℕ → ℤ → State Rows → Result Thrown (Unit {0}) × State Rows → Type 0
  IsCredited j amount s (ok a, s') = HasGained j amount s s'.entries s'
  IsCredited j amount s (err e, s') = ⊥

  abbrev IsOk : Result Thrown (ℕ × Wallet) → Type 0
  IsOk (ok e) = Unit {0}
  IsOk (err e) = ⊥

  find_or_create-IsOk :
      (env : Env) (user : ℕ) (currency : String) (s : State Rows)
      → IsOk (find_or_create_wallet T (faultless env) user currency s).0
  unfolding find_or_create_wallet existing_or create_wallet
  find_or_create-IsOk env user currency s =
      found (Option-cases (find_first (is_primary_in user (or_pi currency)) s.wallets))
    where
      found :
          (find_first (is_primary_in user (or_pi currency)) s.wallets ≡ none)
            ⊎ ((x : ℕ × Wallet) × (find_first (is_primary_in user (or_pi currency)) s.wallets
                  ≡ some x))
          → IsOk (find_or_create_wallet T (faultless env) user currency s).0
      found (inl e) = rw (e, find_or_create_wallet, existing_or) tt
      found (inr (x, e)) = rw (e, find_or_create_wallet, existing_or) tt

  book_payment-IsCredited :
      (env : Env) (id : ℕ) (w : Wallet) (amount : ℤ) (currency : String) (j : ℕ) (s : State Rows)
      → find id s.wallets ≡ some w
      → IsCredited j amount s (book_payment T (faultless env) id w amount currency s)
  unfolding book_payment
  book_payment-IsCredited env id w amount currency j s here =
      ground (arith, here, find-update j id (increment T amount) s.wallets)

  credit_payment-IsCredited :
      (env : Env) (j : ℕ) (s : State Rows) (payment user : ℕ) (amount : ℤ) (currency : String)
      → IsCredited j amount s (credit_payment T (faultless env) payment user amount currency s)
  unfolding credit_payment
  credit_payment-IsCredited env j s payment user amount currency =
      let locked : State Rows = record s { processed = payment ∷ s.processed } in
      credited _ _ (find_or_create-IsOk env user currency locked)
        (Ledger.find_or_create_wallet_lem T (faultless env) user currency j locked)
    where
      credited :
          (r : Result Thrown (ℕ × Wallet)) (t : State Rows)
          → IsOk r
          → Ledger.HasWallet T j (record s { processed = payment ∷ s.processed }) (r, t)
          → IsCredited j amount s (
              ◌>>=◌
                (λ (u : State Rows). (r, t))
                (λ e. book_payment T (faultless env) e.0 e.1 amount currency)
                s)
      credited (ok e) t o (here, same, entries, rest) =
          ground (
            arith,
            here,
            same,
            entries,
            book_payment-IsCredited env e.0 e.1 amount currency j t here,
          )
      credited (err x) t o h = elim o [ ]

  -- An event of a payment that was not handled before, with a user and an amount above 0, is handled
  -- without a throw where no call of the database fails: one wallet has the amount more, with an
  -- entry for it in the ledger, and no other balance has changed.
  pub handle_payment_completed-IsCredited :
      (env : Env) (event : PaymentCompletedEvent) (p user j : ℕ) (s : State Rows)
      → event.payment_id ≡ some p
      → event.user_id ≡ some user
      → leb_ℤ event.amount (pos 0) ≡ false
      → is_processed p s.processed ≡ false
      → IsCredited j event.amount s (handle_payment_completed T (faultless env) event s)
  unfolding handle_payment_completed
  handle_payment_completed-IsCredited env event p user j s has_id has_user positive new = ground (
    arith,
    has_id,
    has_user,
    positive,
    new,
    credit_payment-IsCredited env j s p user event.amount event.currency,
  )

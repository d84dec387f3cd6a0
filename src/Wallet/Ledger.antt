-- ===== src/Wallet/Ledger.antt =====
-- What each transaction of the wallet service does to its tables.
use tec_core_backend.Base.{
  ℕ, Bool, true, false, Option, none, some, List, [], ◌∷◌, String, ◌==◌, ◌≡◌, refl, not, is_some,
  Bool-cases, Option-cases, ◌⊎◌, inl, inr, if◌then◌else◌, arith,
}
use tec_core_backend.Base.Action.{Result, ok, err}
use tec_core_backend.Base.Int.{ℤ, pos, ◌+ℤ◌, ◌-ℤ◌}
use tec_core_backend.Base.Table.{Table}
use tec_core_backend.Wallet.Types.{
  Wallet, Kind, Entry, deposit_entry, withdrawal_entry, debit_entry, credit_entry, payment_entry,
  State, Thrown, Env, Reply, increment, decrement, Act, at_find, at_find_primary,
}
use tec_core_backend.Wallet.Operations.{
  is_primary_of, create_wallet, deposit_funds, withdraw_funds, transfer_funds,
}
use tec_core_backend.Wallet.Credit.{
  existing_or, wallet_for_funds, book_funds, find_or_create_wallet, book_payment, has_currency,
  is_primary_in, or_pi, empty_wallet,
}
pub mod Accounts
pub mod Covered
pub mod Balances
pub mod Solvency
pub mod Once
pub mod Credits
pub mod Transfers
pub mod Payments

-- The ledger has the entry, and nothing else of it has changed.
abbrev pub Adds : ℕ → Kind → ℤ → List Entry → List Entry → Type 0
Adds id kind amount es [] = ⊥
Adds id kind amount es (e ∷ rest) =
    (e.wallet_id ≡ id) × (e.kind ≡ kind) × (e.amount ≡ amount) × (rest ≡ es)

-- The ledger has the two entries of a transfer, and nothing else of it has changed.
abbrev pub AddsBoth : ℕ → ℕ → ℤ → List Entry → List Entry → Type 0
AddsBoth from to amount es [] = ⊥
AddsBoth from to amount es (e ∷ rest) =
    (e.wallet_id ≡ to)
    × (e.kind ≡ credit_entry)
    × (e.amount ≡ amount)
    × Adds from debit_entry amount es rest

-- The balance of a wallet, 0 if there is none.
abbrev pub balance_of : Option Wallet → ℤ
balance_of none = pos 0
balance_of (some w) = w.balance

abbrev pub IsThere : Option Wallet → Type 0
IsThere none = ⊥
IsThere (some w) = Unit {0}

-- What an entry does to a balance.
unfoldable pub book : Kind → ℤ → ℤ → ℤ
book deposit_entry amount b = b +ℤ amount
book withdrawal_entry amount b = b -ℤ amount
book debit_entry amount b = b -ℤ amount
book credit_entry amount b = b +ℤ amount
book payment_entry amount b = b +ℤ amount

-- What the entries of a wallet come to, from the oldest to the newest.
unfoldable pub net : ℕ → List Entry → ℤ
net j [] = pos 0
net j (e ∷ es) = if j == e.wallet_id then book e.kind e.amount (net j es) else net j es

abbrev pub posted : Kind → ℤ → Wallet → Wallet
posted kind amount w = record w { balance = book kind amount w.balance }

module _ (T : Table Wallet) where
  open T use {
    Rows, find, update, create, find-update, find-create, create_fresh, find_first,
    find_first_sound,
  }

  -- The wallet was there and its balance has changed with the entry, or nothing has changed.
  abbrev pub HasPosted : ℕ → Kind → ℤ → State Rows → Result Thrown (Unit {0}) × State Rows → Type 0
  HasPosted id kind amount s (ok a, s') =
      IsThere (find id s.wallets)
      × (s'.wallets ≡ update id (posted kind amount) s.wallets)
      × Adds id kind amount s.entries s'.entries
      × (s'.processed ≡ s.processed)
  HasPosted id kind amount s (err e, s') = s' ≡ s

  pub deposit_funds_lem :
      (env : Env) (id : ℕ) (amount : ℤ) (asset : String) (s : State Rows)
      → HasPosted id deposit_entry amount s (deposit_funds T env id amount asset s)
  unfolding deposit_funds book
  deposit_funds_lem env id amount asset s = ground arith

  pub withdraw_funds_lem :
      (env : Env) (id : ℕ) (amount : ℤ) (asset : String) (s : State Rows)
      → HasPosted id withdrawal_entry amount s (withdraw_funds T env id amount asset s)
  unfolding withdraw_funds book
  withdraw_funds_lem env id amount asset s = ground arith

  pub book_funds_lem :
      (env : Env) (id : ℕ) (w : Wallet) (amount : ℤ) (asset : String) (s : State Rows)
      → HasPosted id deposit_entry amount s (book_funds T env id w amount asset s)
  unfolding book_funds book
  book_funds_lem env id w amount asset s = ground arith

  -- As `HasPosted`, but what was written before a throw stays, for the transaction around it.
  abbrev pub HasPaid : ℕ → ℤ → State Rows → Result Thrown (Unit {0}) × State Rows → Type 0
  HasPaid id amount s (ok a, s') =
      IsThere (find id s.wallets)
      × (s'.wallets ≡ update id (posted payment_entry amount) s.wallets)
      × Adds id payment_entry amount s.entries s'.entries
      × (s'.processed ≡ s.processed)
  HasPaid id amount s (err e, s') = Unit {0}

  pub book_payment_lem :
      (env : Env) (id : ℕ) (w : Wallet) (amount : ℤ) (currency : String) (s : State Rows)
      → HasPaid id amount s (book_payment T env id w amount currency s)
  unfolding book_payment book
  book_payment_lem env id w amount currency s = ground arith

  -- Both wallets were there, the first has paid the amount and the second has received it, or
  -- nothing has changed.
  abbrev pub HasTransferred :
      ℕ → ℕ → ℤ → State Rows → Result Thrown (Unit {0}) × State Rows → Type 0
  HasTransferred from to amount s (ok a, s') =
      IsThere (find from s.wallets)
      × IsThere (find to s.wallets)
      × (s'.wallets
          ≡ update to (posted credit_entry amount)
              (update from (posted debit_entry amount) s.wallets))
      × AddsBoth from to amount s.entries s'.entries
      × (s'.processed ≡ s.processed)
  HasTransferred from to amount s (err e, s') = s' ≡ s

  pub transfer_funds_lem :
      (env : Env) (from to : ℕ) (amount : ℤ) (asset : String) (s : State Rows)
      → HasTransferred from to amount s (transfer_funds T env from to amount asset s)
  unfolding transfer_funds book
  transfer_funds_lem env from to amount asset s = ground arith

  -- The returned wallet is there, and no balance, no entry and no processed payment has changed; or
  -- nothing has changed.
  abbrev pub HasWallet : ℕ → State Rows → Result Thrown (ℕ × Wallet) × State Rows → Type 0
  HasWallet j s (ok e, s') =
      (find e.0 s'.wallets ≡ some e.1)
      × (balance_of (find j s'.wallets) ≡ balance_of (find j s.wallets))
      × (s'.entries ≡ s.entries)
      × (s'.processed ≡ s.processed)
  HasWallet j s (err e, s') = s' ≡ s

  pub create_wallet_lem :
      (env : Env) (w : Wallet) (j : ℕ) (s : State Rows)
      → w.balance ≡ pos 0
      → HasWallet j s (create_wallet T env w s)
  unfolding create_wallet
  create_wallet_lem env w j s h = ground (
    arith,
    find-create j w s.wallets,
    find-create (create w s.wallets).0 w s.wallets,
    create_fresh w s.wallets,
  )

  existing_or_lem :
      (p : Wallet → Bool) (m : Act T (ℕ × Wallet)) (j : ℕ) (s : State Rows)
      → HasWallet j s (m s)
      → HasWallet j s (existing_or T (find_first p s.wallets) m s)
  unfolding existing_or
  existing_or_lem p m j s h = elim (Option-cases (find_first p s.wallets)) [
    | inl e ↦ rw e h
    | inr (x, e) ↦ rw e ((find_first_sound p s.wallets x.0 x.1 e).0, refl, refl, refl)
  ]

  pub wallet_for_funds_lem :
      (env : Env) (user : ℕ) (currency : String) (j : ℕ) (s : State Rows)
      → HasWallet j s (wallet_for_funds T env user currency s)
  unfolding wallet_for_funds
  wallet_for_funds_lem env user currency j s =
      let w =
        empty_wallet user "internal" currency
          (not (is_some (find_first (is_primary_of user) s.wallets))) in
      elim (Bool-cases (env.has_fault at_find)) [
        | inl e ↦ rw e refl
        | inr e ↦ rw e (
            existing_or_lem (has_currency user currency) _ j s
              (elim (Bool-cases (env.has_fault at_find_primary)) [
                | inl e' ↦ rw e' refl
                | inr e' ↦ rw e' (create_wallet_lem env w j s refl)
              ]))
      ]

  pub find_or_create_wallet_lem :
      (env : Env) (user : ℕ) (currency : String) (j : ℕ) (s : State Rows)
      → HasWallet j s (find_or_create_wallet T env user currency s)
  unfolding find_or_create_wallet
  find_or_create_wallet_lem env user currency j s =
      let w = empty_wallet user "pi" (or_pi currency) true in
      elim (Bool-cases (env.has_fault at_find)) [
        | inl e ↦ rw e refl
        | inr e ↦ rw e (
            existing_or_lem (is_primary_in user (or_pi currency)) (create_wallet T env w) j s
              (create_wallet_lem env w j s refl))
      ]

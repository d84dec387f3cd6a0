-- ===== src/Wallet/Ledger/Covered.antt =====
-- What a withdrawal and a transfer that succeed have tested, in doubles, and when that is enough
-- (tec-wallet-service/src/controllers/wallet.controller.ts).
use tec_core_backend.Base.{ℕ, false, Option, String, ◌≡◌, inl, inr, Bool-cases, arith}
use tec_core_backend.Base.Action.{Result, ok, err}
use tec_core_backend.Base.Int.{ℤ, pos, ltb_ℤ, leb_ℤ, ◌≤ℤ◌}
use tec_core_backend.Base.Table.{Table}
use tec_core_backend.Wallet.Types.{Wallet, State, Thrown, Env}
use tec_core_backend.Wallet.Operations.{withdraw_funds, transfer_funds}
use tec_core_backend.Wallet.Ledger.{balance_of}

-- The transaction takes no more than there is.
abbrev pub HasCovered : ℤ → Option Wallet → Result Thrown (Unit {0}) → Type 0
HasCovered amount o (ok a) = amount ≤ℤ balance_of o
HasCovered amount o (err e) = Unit {0}

-- As `HasCovered`, by the test of doubles.
abbrev HasTested : Env → ℤ → Option Wallet → Result Thrown (Unit {0}) → Type 0
HasTested env amount o (ok a) = env.number_less (balance_of o) amount ≡ false
HasTested env amount o (err e) = Unit {0}

-- 10^15 units of 10^-8, the decimals that have 15 digits.
abbrev pub most_exact : ℕ
most_exact = 1000000000000000

-- An amount from 0 to 10^15 units.
abbrev pub IsAmount : ℤ → Type 0
IsAmount a = (pos 0 ≤ℤ a) × (a ≤ℤ pos most_exact)

-- The test of doubles is right for decimals of 15 digits, which a double tells apart.
abbrev pub IsExact : Env → Type 0
IsExact env = (b : ℤ) → (a : ℤ) → IsAmount b → IsAmount a → env.number_less b a ≡ ltb_ℤ b a

-- A larger balance covers the amount whatever the test says.
tested-HasCovered :
    (env : Env) (amount : ℤ) (o : Option Wallet) (r : Result Thrown (Unit {0}))
    → IsExact env
    → IsAmount amount
    → pos 0 ≤ℤ balance_of o
    → HasTested env amount o r
    → HasCovered amount o r
tested-HasCovered env amount o (err e) exact may h test = tt
tested-HasCovered env amount o (ok a) exact may h test =
    elim (Bool-cases (leb_ℤ (balance_of o) (pos most_exact))) [
      | inl small ↦
          ground (arith, small, test, exact (balance_of o) amount (h, ground (arith, small)) may)
      | inr large ↦ ground (arith, large, may)
    ]

module _ (T : Table Wallet) where
  open T use {Rows, find, find-update}

  withdraw_funds_tested :
      (env : Env) (id : ℕ) (amount : ℤ) (asset : String) (s : State Rows)
      → HasTested env amount (find id s.wallets) (withdraw_funds T env id amount asset s).0
  unfolding withdraw_funds
  withdraw_funds_tested env id amount asset s = ground arith

  pub withdraw_funds_covered :
      (env : Env) (id : ℕ) (amount : ℤ) (asset : String) (s : State Rows)
      → IsExact env
      → IsAmount amount
      → pos 0 ≤ℤ balance_of (find id s.wallets)
      → HasCovered amount (find id s.wallets) (withdraw_funds T env id amount asset s).0
  withdraw_funds_covered env id amount asset s exact may h =
      tested-HasCovered env amount (find id s.wallets) _ exact may h
        (withdraw_funds_tested env id amount asset s)

  transfer_funds_tested :
      (env : Env) (from to : ℕ) (amount : ℤ) (asset : String) (s : State Rows)
      → HasTested env amount (find from s.wallets) (transfer_funds T env from to amount asset s).0
  unfolding transfer_funds
  transfer_funds_tested env from to amount asset s = ground (arith, find-update to from)

  pub transfer_funds_covered :
      (env : Env) (from to : ℕ) (amount : ℤ) (asset : String) (s : State Rows)
      → IsExact env
      → IsAmount amount
      → pos 0 ≤ℤ balance_of (find from s.wallets)
      → HasCovered amount (find from s.wallets) (transfer_funds T env from to amount asset s).0
  transfer_funds_covered env from to amount asset s exact may h =
      tested-HasCovered env amount (find from s.wallets) _ exact may h
        (transfer_funds_tested env from to amount asset s)

-- ===== src/Wallet/Ledger/Transfers.antt =====
-- What `transfer` of tec-wallet-service/src/controllers/wallet.controller.ts does to every wallet.
use tec_core_backend.Base.{ℕ, false, Option, String, ◌==◌, ◌≡◌, if◌then◌else◌, arith}
use tec_core_backend.Base.Int.{ℤ, pos, ◌≤ℤ◌}
use tec_core_backend.Base.Table.{Table}
use tec_core_backend.Wallet.Types.{
  Wallet, debit_entry, credit_entry, State, Env, Reply, success, failure, increment, decrement,
}
use tec_core_backend.Wallet.Operations.{transfer, resolve_asset}
use tec_core_backend.Wallet.Ledger
use tec_core_backend.Wallet.Ledger.Covered
use mathlib.Core.Option

module _ (T : Table Wallet) where
  open T use {Rows, find, update, find-update}

  -- The outcome of a transfer, for the wallet `j`.
  abbrev pub IsTransfer : ℕ → ℕ → ℤ → ℕ → State Rows → Reply × State Rows → Type 0
  IsTransfer from to amount j s (success n, s') =
      ((from == to) ≡ false)
      × (amount ≤ℤ Ledger.balance_of (find from s.wallets))
      × (find j s'.wallets ≡ (
          if j == from
          then Option.map (decrement T amount) (find from s.wallets)
          else if j == to
          then Option.map (increment T amount) (find to s.wallets)
          else find j s.wallets))
  IsTransfer from to amount j s (failure n c, s') = s' ≡ s

  -- A transfer that succeeds is between different wallets, the first had the amount, and has it less,
  -- the second has it more, and no other wallet has changed; a transfer that fails, on any test or
  -- any call of the database, has changed nothing. The amount is of 0 to 10^15 units of 10^-8, the first
  -- wallet has no less than 0, and the test of doubles is right for decimals of 15 digits.
  pub transfer_exact :
      (env : Env) (from to : ℕ) (amount : ℤ) (asset : Option String) (s : State Rows) (j : ℕ)
      → Covered.IsExact env
      → Covered.IsAmount amount
      → pos 0 ≤ℤ Ledger.balance_of (find from s.wallets)
      → IsTransfer from to amount j s (transfer T env from to amount asset s)
  unfolding transfer Ledger.book
  transfer_exact env from to amount asset s j exact may h = ground (
    arith,
    Ledger.transfer_funds_lem T env from to amount (resolve_asset env asset) s,
    Covered.transfer_funds_covered T env from to amount (resolve_asset env asset) s exact may h,
    find-update j from (Ledger.posted debit_entry amount) s.wallets,
    find-update to from (Ledger.posted debit_entry amount) s.wallets,
    find-update j to (Ledger.posted credit_entry amount)
        (update from (Ledger.posted debit_entry amount) s.wallets),
  )

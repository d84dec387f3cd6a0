-- ===== src/Wallet/Ledger/Balances.antt =====
-- No deposit, withdrawal or transfer leaves a wallet with less than 0
-- (tec-wallet-service/src/controllers/wallet.controller.ts).
use tec_core_backend.Base.{ℕ, Option, String, arith}
use tec_core_backend.Base.Action.{Result, ok, err}
use tec_core_backend.Base.Int.{ℤ, pos, ◌≤ℤ◌, int_laws}
use tec_core_backend.Base.Table.{Table}
use tec_core_backend.Wallet.Types.{
  Wallet, Kind, deposit_entry, withdrawal_entry, debit_entry, State, Thrown, Env,
}
use tec_core_backend.Wallet.Operations.{deposit, withdraw, transfer, resolve_asset}
use tec_core_backend.Wallet.Ledger
use tec_core_backend.Wallet.Ledger.Covered

module _ (T : Table Wallet) where
  open T use {Rows, find, update, create, find-update}

  abbrev pub IsSolvent : State Rows → Type 0
  IsSolvent s = (j : ℕ) → pos 0 ≤ℤ Ledger.balance_of (find j s.wallets)

  -- Where the call returns, the entry leaves at least 0.
  abbrev pub CanPost : Kind → ℤ → Option Wallet → Result Thrown (Unit {0}) → Type 0
  CanPost kind amount o (ok a) = pos 0 ≤ℤ Ledger.book kind amount (Ledger.balance_of o)
  CanPost kind amount o (err e) = Unit {0}

  pub posted_solvent :
      (id : ℕ) (kind : Kind) (amount : ℤ) (rows : Rows)
      → Ledger.IsThere (find id rows)
      → pos 0 ≤ℤ Ledger.book kind amount (Ledger.balance_of (find id rows))
      → (j : ℕ) → pos 0 ≤ℤ Ledger.balance_of (find j rows)
      → pos 0 ≤ℤ Ledger.balance_of (find j (update id (Ledger.posted kind amount) rows))
  posted_solvent id kind amount rows there may j h =
      ground (arith, find-update j id (Ledger.posted kind amount) rows)

  pub posted-IsSolvent :
      (id : ℕ) (kind : Kind) (amount : ℤ) (s : State Rows) (r : Result Thrown (Unit {0}))
      (s' : State Rows)
      → Ledger.HasPosted T id kind amount s (r, s')
      → CanPost kind amount (find id s.wallets) r
      → IsSolvent s
      → IsSolvent s'
  posted-IsSolvent id kind amount s (ok a) s' (there, e, added, same) may h j =
      rw e (posted_solvent id kind amount s.wallets there may j (h j))
  posted-IsSolvent id kind amount s (err x) s' e may h j = rw e (h j)

  pub gain :
      (amount b : ℤ) → pos 0 ≤ℤ amount → pos 0 ≤ℤ b → pos 0 ≤ℤ Ledger.book deposit_entry amount b
  unfolding Ledger.book
  gain amount b h k = omega int_laws

  pub loss : (amount b : ℤ) → amount ≤ℤ b → pos 0 ≤ℤ Ledger.book withdrawal_entry amount b
  unfolding Ledger.book
  loss amount b h = omega int_laws

  pub gain_CanPost :
      (amount : ℤ) (o : Option Wallet) (r : Result Thrown (Unit {0}))
      → pos 0 ≤ℤ amount
      → pos 0 ≤ℤ Ledger.balance_of o
      → CanPost deposit_entry amount o r
  gain_CanPost amount o (ok a) h k = gain amount (Ledger.balance_of o) h k
  gain_CanPost amount o (err e) h k = tt

  pub loss_CanPost :
      (amount : ℤ) (o : Option Wallet) (r : Result Thrown (Unit {0}))
      → Covered.HasCovered amount o r
      → CanPost withdrawal_entry amount o r
  loss_CanPost amount o (ok a) h = loss amount (Ledger.balance_of o) h
  loss_CanPost amount o (err e) h = tt

  pub deposit-IsSolvent :
      (env : Env) (id : ℕ) (amount : ℤ) (asset : Option String) (s : State Rows)
      → pos 0 ≤ℤ amount
      → IsSolvent s
      → IsSolvent (deposit T env id amount asset s).1
  unfolding deposit
  deposit-IsSolvent env id amount asset s h k j = ground (
    arith,
    k j,
    posted-IsSolvent id deposit_entry amount s _ _
        (Ledger.deposit_funds_lem T env id amount (resolve_asset env asset) s)
        (gain_CanPost amount (find id s.wallets) _ h (k id)) k j,
  )

  pub withdraw-IsSolvent :
      (env : Env) (id : ℕ) (amount : ℤ) (asset : Option String) (s : State Rows)
      → Covered.IsExact env
      → Covered.IsAmount amount
      → IsSolvent s
      → IsSolvent (withdraw T env id amount asset s).1
  unfolding withdraw
  withdraw-IsSolvent env id amount asset s exact may k j = ground (
    arith,
    k j,
    posted-IsSolvent id withdrawal_entry amount s _ _
        (Ledger.withdraw_funds_lem T env id amount (resolve_asset env asset) s)
        (loss_CanPost amount (find id s.wallets) _ (
          Covered.withdraw_funds_covered T env id amount (resolve_asset env asset) s exact may
            (k id)))
        k j,
  )

  transferred-IsSolvent :
      (from to : ℕ) (amount : ℤ) (s : State Rows) (r : Result Thrown (Unit {0})) (s' : State Rows)
      → Ledger.HasTransferred T from to amount s (r, s')
      → Covered.HasCovered amount (find from s.wallets) r
      → pos 0 ≤ℤ amount
      → IsSolvent s
      → IsSolvent s'
  unfolding Ledger.book
  transferred-IsSolvent from to amount s (ok a) s' (x, y, e, added, same) c h k j =
      let paid = posted_solvent from withdrawal_entry amount s.wallets x (loss amount _ c) in
      rw e (
        posted_solvent to deposit_entry amount
          (update from (Ledger.posted debit_entry amount) s.wallets)
          (ground (arith, find-update to from (Ledger.posted debit_entry amount) s.wallets, x, y))
          (gain amount _ h (paid to (k to))) j (paid j (k j)))
  transferred-IsSolvent from to amount s (err x) s' e c h k j = rw e (k j)

  pub transfer-IsSolvent :
      (env : Env) (from to : ℕ) (amount : ℤ) (asset : Option String) (s : State Rows)
      → Covered.IsExact env
      → Covered.IsAmount amount
      → IsSolvent s
      → IsSolvent (transfer T env from to amount asset s).1
  unfolding transfer
  transfer-IsSolvent env from to amount asset s exact may k j = ground (
    arith,
    k j,
    transferred-IsSolvent from to amount s _ _
        (Ledger.transfer_funds_lem T env from to amount (resolve_asset env asset) s)
        (Covered.transfer_funds_covered T env from to amount (resolve_asset env asset) s exact may
          (k from))
        may.0 k j,
  )

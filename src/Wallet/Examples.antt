-- ===== src/Wallet/Examples.antt =====
-- Tests of the wallet service on a table of three wallets, and the theorems at those inputs.
use tec_core_backend.Base.{ℕ, none, some, List, [], ◌∷◌, ◌≡◌, refl, arith}
use tec_core_backend.Base.Int.{pos, ◌+ℤ◌, ◌-ℤ◌, ◌≤ℤ◌}
use tec_core_backend.Base.Table.{Table}
use tec_core_backend.Wallet.Samples.{pi_wallet, wallet_table, start, env, event}
use tec_core_backend.Wallet.Types.{State, failure, insufficient_balance}
use tec_core_backend.Wallet.Operations.{
  includes, create_wallet, transfer, transfer_funds, deposit, deposit_funds, withdraw,
  withdraw_funds,
}
use tec_core_backend.Wallet.Credit.{
  is_processed, existing_or, find_or_create_wallet, book_payment, credit_payment,
  handle_payment_completed,
}
use tec_core_backend.Wallet.Ledger
use tec_core_backend.Wallet.Ledger.Covered
use tec_core_backend.Wallet.Ledger.Accounts.{
  Request, withdraw_request, transfer_request, payment_request, run_request, run_requests,
  run_requests-IsBooked,
}
use tec_core_backend.Wallet.Ledger.Solvency.{run_requests-IsSolvent}
use tec_core_backend.Wallet.Ledger.Transfers.{transfer_exact, IsTransfer}
use tec_core_backend.Wallet.Ledger.Credits.{
  faultless, IsCredited, handle_payment_completed-IsCredited,
}
use tec_core_backend.Wallet.Ledger.Once.{payment_credited_once}

abbrev day : List Request
day =
    payment_request env event
    ∷ transfer_request env 0 1 (pos 10) none
    ∷ withdraw_request env 1 (pos 4) (some "PI")
    ∷ withdraw_request env 1 (pos 40) none
    ∷ payment_request env event
    ∷ []

abbrev evening : State (Table.Rows wallet_table)
evening = run_requests wallet_table day start

day_ends :
    evening.wallets
    ≡ (1, record (pi_wallet 7) { balance = pos 6 })
      ∷ (0, record (pi_wallet 5) { balance = pos 20 })
      ∷ []
unfolding run_requests run_request deposit deposit_funds withdraw withdraw_funds transfer
    transfer_funds handle_payment_completed credit_payment find_or_create_wallet existing_or
    book_payment create_wallet is_processed includes ◌+ℤ◌ ◌-ℤ◌
day_ends = refl

too_much : (withdraw wallet_table env 0 (pos 21) none evening).0 ≡ failure 422 insufficient_balance
unfolding run_requests run_request deposit deposit_funds withdraw withdraw_funds transfer
    transfer_funds handle_payment_completed credit_payment find_or_create_wallet existing_or
    book_payment create_wallet is_processed includes ◌+ℤ◌ ◌-ℤ◌
too_much = refl

run_requests-IsBooked_example : Ledger.net 1 evening.entries ≡ pos 6
unfolding Ledger.net Ledger.book run_requests run_request deposit deposit_funds withdraw
    withdraw_funds transfer transfer_funds handle_payment_completed credit_payment
    find_or_create_wallet existing_or book_payment create_wallet is_processed includes ◌+ℤ◌ ◌-ℤ◌
run_requests-IsBooked_example = run_requests-IsBooked wallet_table day 1 start refl

env-IsExact : Covered.IsExact env
env-IsExact b a hb ha = refl

evening_balance : pos 0 ≤ℤ Ledger.balance_of (Table.find wallet_table 0 evening.wallets)
evening_balance = rw day_ends (ground arith)

transfer_exact_example :
    IsTransfer wallet_table 0 1
      (pos 5)
      1
      evening
      (transfer wallet_table env 0 1 (pos 5) none evening)
transfer_exact_example =
    transfer_exact wallet_table env 0 1 (pos 5) none evening 1 env-IsExact
      (ground arith, ground arith) evening_balance

start-IsSolvent : (j : ℕ) → pos 0 ≤ℤ Ledger.balance_of (Table.find wallet_table j start.wallets)
start-IsSolvent j = ground arith

run_requests-IsSolvent_example :
    pos 0 ≤ℤ Ledger.balance_of (Table.find wallet_table 1 evening.wallets)
run_requests-IsSolvent_example =
    run_requests-IsSolvent wallet_table day start
      (
        tt,
        (
          (env-IsExact, (ground arith, ground arith)),
          (
            (env-IsExact, (ground arith, ground arith)),
            ((env-IsExact, (ground arith, ground arith)), (tt, tt)),
          ),
        ),
      )
      start-IsSolvent 1

payment_credited_once_example :
    (handle_payment_completed wallet_table env event
      (run_requests wallet_table day (handle_payment_completed wallet_table env event start).1)).1
    ≡ run_requests wallet_table day (handle_payment_completed wallet_table env event start).1
unfolding run_requests run_request deposit deposit_funds withdraw withdraw_funds transfer
    transfer_funds handle_payment_completed credit_payment find_or_create_wallet existing_or
    book_payment create_wallet is_processed includes ◌+ℤ◌ ◌-ℤ◌
payment_credited_once_example =
    payment_credited_once wallet_table env env event event 9 start day refl refl refl

handle_payment_completed-IsCredited_example :
    IsCredited wallet_table 0
      (pos 30)
      start
      (handle_payment_completed wallet_table (faultless env) event start)
unfolding is_processed
handle_payment_completed-IsCredited_example =
    handle_payment_completed-IsCredited wallet_table env event 9 5 0 start refl refl refl refl

-- ===== src/Wallet/Reads/Examples.antt =====
-- Tests of the reading handlers of the wallet service, and the theorems at those inputs.
use tec_core_backend.Base.{none, some, List, [], ◌∷◌, ◌≡◌, refl, arith}
use tec_core_backend.Base.Int.{pos, ◌+ℤ◌, ◌-ℤ◌}
use tec_core_backend.Base.Pages.{total_pages, read_on}
use tec_core_backend.Base.Text.{is_one_of}
use tec_core_backend.Base.Table.{Table}
use tec_core_backend.Wallet.Samples.{wallet_table, start, env, event}
use tec_core_backend.Wallet.Types.{
  Entry, payment_entry, debit_entry, State, validation_error, failure,
}
use tec_core_backend.Wallet.Operations.{includes, create_wallet, transfer, transfer_funds}
use tec_core_backend.Wallet.Credit.{
  is_processed, existing_or, find_or_create_wallet, book_payment, credit_payment,
  handle_payment_completed,
}
use tec_core_backend.Wallet.Ledger
use tec_core_backend.Wallet.Ledger.Accounts.{
  Request, transfer_request, payment_request, run_request, run_requests,
}
use tec_core_backend.Wallet.Reads.{
  refused, get_wallet_balance, get_wallet_transactions, request_page,
}
use tec_core_backend.Wallet.Reads.Statement.{whole, Shows, statement-balance}
use tec_core_backend.Wallet.Reads.Filters.{HidesPayments, typed_query-HidesPayments}

abbrev day : List Request
day = payment_request env event ∷ transfer_request env 0 1 (pos 10) none ∷ []

abbrev evening : State (Table.Rows wallet_table)
evening = run_requests wallet_table day start

two_entries :
    read_on (request_page wallet_table env 0 (record whole { limit = some 1 }) evening) 3 1
    ≡ some (
        (record { wallet_id = 0; kind = debit_entry; amount = pos 10; currency = "PI" })
        ∷ (record { wallet_id = 0; kind = payment_entry; amount = pos 30; currency = "PI" })
        ∷ [])
unfolding read_on get_wallet_transactions total_pages run_requests run_request transfer
    transfer_funds includes handle_payment_completed credit_payment is_processed
    find_or_create_wallet existing_or create_wallet book_payment ◌+ℤ◌ ◌-ℤ◌
two_entries = refl

unknown_type :
    (get_wallet_transactions wallet_table env 0 (record whole { type = some "credit" }) evening).0
    ≡ refused (failure 400 validation_error)
unfolding get_wallet_transactions is_one_of
unknown_type = refl

statement-balance_example :
    (es : List Entry) × (read_on (request_page wallet_table env 0 whole evening) 5 1 ≡ some es)
    × Shows
        (Ledger.net 0 es)
        (Table.find wallet_table 0 evening.wallets)
        (get_wallet_balance wallet_table env 0 evening).0
    × (Ledger.net 0 es ≡ Ledger.balance_of (Table.find wallet_table 0 evening.wallets))
unfolding Ledger.net run_requests run_request transfer transfer_funds includes
    handle_payment_completed credit_payment is_processed find_or_create_wallet existing_or
    create_wallet book_payment ◌+ℤ◌ ◌-ℤ◌
statement-balance_example =
    statement-balance wallet_table env 0 refl (λ x. refl) day start 5 refl (omega arith)

typed_query-HidesPayments_example :
    HidesPayments
      (get_wallet_transactions wallet_table env 0
        (record whole { type = some "payment" })
        evening).0
typed_query-HidesPayments_example =
    typed_query-HidesPayments wallet_table env 0 (record whole { type = some "payment" }) "payment"
      evening refl

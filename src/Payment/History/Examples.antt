-- ===== src/Payment/History/Examples.antt =====
-- Tests of the payment history on a sorted list of rows, and its theorem there.
use mathlib.Core.List
use tec_core_backend.Base.Lists.{take, drop}
use tec_core_backend.Base.{ℕ, ◌≡◌, refl, none, some, List, [], ◌∷◌}
use tec_core_backend.Base.Pages.{read_on}
use tec_core_backend.Base.Table.Listing.{Lists}
use tec_core_backend.Base.Table.Rows.{rows}
use tec_core_backend.Base.Table.Sorted.{sorted_rows}
use tec_core_backend.Payment.PiApi.{reset}
use tec_core_backend.Payment.Samples.{env, a_payment}
use tec_core_backend.Payment.Types.{created, completed, Payment, State, validation_error, failure}
use tec_core_backend.Payment.History.{
  HistoryQuery, is_wanted, row_of, refused, get_payment_history, request_page,
}

-- The user 7 has four payments, and another user one.
abbrev kept : State (List (ℕ × Payment))
kept = record {
  payments =
      (4, a_payment 7 created 10)
      ∷ (3, a_payment 7 completed 30)
      ∷ (2, a_payment 8 completed 20)
      ∷ (1, a_payment 7 completed 20)
      ∷ (0, a_payment 7 completed 40)
      ∷ [];
  audits = [];
  events = [];
  circuit = reset;
}

abbrev query : HistoryQuery
query = record {
  page = none;
  limit = some 2;
  status = some completed;
  payment_method = none;
  from = none;
  to = none;
  sort = none;
}

abbrev completed_payments : List (ℕ × Payment)
completed_payments =
    (0, a_payment 7 completed 40)
    ∷ (3, a_payment 7 completed 30)
    ∷ (1, a_payment 7 completed 20)
    ∷ []

read_two_pages :
    read_on (request_page rows (sorted_rows Payment.created_at) env query kept) 4 1
    ≡ some (List.map row_of completed_payments)
unfolding read_on get_payment_history is_wanted take drop
read_two_pages = refl

limit_refused :
    (get_payment_history rows
      (sorted_rows Payment.created_at)
      env
      (record query { limit = some 101 })
      kept).0
    ≡ refused (failure 400 validation_error)
unfolding get_payment_history
limit_refused = refl

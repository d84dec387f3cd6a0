-- ===== src/Bus/Examples.antt =====
-- Tests of the event bus on a stream that is two lists, and the theorems at those inputs.
use tec_core_backend.Base.Lists.{take, drop}
use tec_core_backend.Base.{
  ℕ, Bool, true, false, Option, none, some, List, [], ◌∷◌, ◌++◌, ◌==◌, ◌≡◌, refl, if◌then◌else◌,
  arith,
}
use tec_core_backend.Base.Ids.{is_in, remove}
use tec_core_backend.Base.Int.{pos, ltb_ℤ}
use tec_core_backend.Base.Table.{Table}
use tec_core_backend.Base.Table.Rows.{rows}
use tec_core_backend.Bus.{
  StreamGroup, Attempt, added, turn, started, process_message, process_messages,
  process_pending_messages, read_turn, step, run, pending_count,
}
use tec_core_backend.Bus.Drain.{turns}
use tec_core_backend.Bus.Credit
use tec_core_backend.Wallet.Ledger.Payments.{is_once, payments}
use tec_core_backend.Bus.Credit.{is_credited}
use tec_core_backend.Bus.Paid.{all_well, every_payment_credited}
use tec_core_backend.Wallet.Types.{State, Wallet, Env}
use tec_core_backend.Wallet.Credit.{PaymentCompletedEvent}

-- What is unread, and what is pending.
abbrev list_group : StreamGroup
list_group = record {
  Group = List ℕ × List ℕ;
  unread = λ g. g.0;
  pending = λ g. g.1;
  add = λ i g. (g.0 ++ i ∷ [], g.1);
  read_new = λ n g. (take n g.0, (drop n g.0, g.1 ++ take n g.0));
  read_pending = λ n g. take n g.1;
  ack = λ i g. (g.0, remove i g.1);
  unread-add = λ i g. refl;
  pending-add = λ i g. refl;
  read_new_result = λ n g. refl;
  unread-read_new = λ n g. refl;
  pending-read_new = λ n g. refl;
  read_pending_result = λ n g. refl;
  unread-ack = λ i g. refl;
  pending-ack = λ i g. refl;
}

-- A handler that throws if it is told to, and else keeps its payload.
abbrev keep : Bool → ℕ → List ℕ → Bool × List ℕ
keep throws p s = if throws then (false, s) else (true, p ∷ s)

abbrev calm : ℕ → Attempt Bool
calm i = record { env = false; has_ack = true }

-- The handler throws at the entry 2.
abbrev troubled : ℕ → Attempt Bool
troubled i = record { env = i == 2; has_ack = true }

abbrev data_of : ℕ → Option ℕ
data_of i = some i

abbrev two_waiting : (List ℕ × List ℕ) × List ℕ
two_waiting = ((1 ∷ 2 ∷ [], []), [])

-- The entry 2 fails in a turn, the next turns leave it alone, and a start handles it.
failed_once :
    run list_group data_of keep (turn troubled 10 ∷ added 3 ∷ turn calm 10 ∷ []) two_waiting
    ≡ (([], 2 ∷ []), 3 ∷ 1 ∷ [])
unfolding run step read_turn process_messages process_message take drop remove
failed_once = refl

handled_at_start :
    run list_group data_of keep (started calm 100 ∷ []) (([], 2 ∷ []), []) ≡ (([], []), 2 ∷ [])
unfolding run step process_pending_messages process_messages process_message take remove
handled_at_start = refl

abbrev stopped : (List ℕ × List ℕ) × List ℕ
stopped = ((1 ∷ 2 ∷ [], 3 ∷ []), [])

abbrev wallet_table : Table Wallet
wallet_table = rows

abbrev new_service : State (Table.Rows wallet_table)
new_service = record { wallets = []; entries = []; audits = []; processed = [] }

-- Every database call works, or none does.
abbrev database : Bool → Env
database fails = record {
  parse_float = λ t. none;
  has_fault = λ x. fails;
  is_valid = true;
  supported = "PI" ∷ [];
  upper = λ t. t;
  user_id = none;
  number_less = ltb_ℤ;
}

abbrev paid : ℕ → PaymentCompletedEvent
paid i = record { payment_id = some i; user_id = some 5; amount = pos 30; currency = "PI" }

abbrev paid_event : ℕ → Option PaymentCompletedEvent
paid_event i = some (paid i)

abbrev at_all : Bool → ℕ → Attempt Env
at_all fails i = record { env = database fails; has_ack = true }

-- Two payments are added; the database is down at the first turn; the consumer starts again.
abbrev bad_day : List Credit.Work
bad_day =
    Credit.consumed (added 1)
    ∷ Credit.consumed (added 2)
    ∷ Credit.consumed (turn (at_all true) 10)
    ∷ Credit.consumed (started (at_all false) 100)
    ∷ []

work_all-IsSettled_example :
    Credit.IsSettled wallet_table list_group paid_event 1
      (paid 1)
      (Credit.work_all wallet_table list_group paid_event bad_day ((1 ∷ [], []), new_service))
unfolding is_in is_once payments
work_all-IsSettled_example =
    Credit.work_all-IsSettled wallet_table list_group paid_event bad_day 1 (paid 1)
      ((1 ∷ [], []), new_service) refl (refl, (refl, refl))

abbrev waiting : (List ℕ × List ℕ) × State (Table.Rows wallet_table)
waiting = ((1 ∷ 2 ∷ [], 3 ∷ []), new_service)

every_payment_credited_example :
    is_credited wallet_table
      (paid 2)
      (run list_group paid_event
        (Credit.handler wallet_table)
        (started (all_well wallet_table list_group paid_event (λ i. database true)) pending_count
          ∷ turns (all_well wallet_table list_group paid_event (λ i. database true)) 1)
        waiting).1
    ≡ true
unfolding is_in
every_payment_credited_example =
    every_payment_credited wallet_table list_group paid_event (λ i. database true) paid 1 2 waiting
      (λ j. refl) (λ j. refl) (omega arith) (omega arith) refl

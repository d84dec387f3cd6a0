-- ===== src/Payment/Outbox/Examples.antt =====
-- Tests of the outbox worker on one event, and the theorems at those inputs.
use tec_core_backend.Base.Lists.{take}
use tec_core_backend.Base.{ℕ, true, false, List, [], ◌∷◌, ◌≡◌, refl, arith}
use tec_core_backend.Base.Table.{Table}
use tec_core_backend.Base.Table.Rows.{rows}
use tec_core_backend.Payment.Outbox.{
  OutboxEvent, State, Poll, is_due, insert_by_age, sort_by_age, new_event, failed_event,
  retry_delay, mark_event_failed, publish_event, publish_events, process_outbox_events,
}
use tec_core_backend.Payment.Outbox.Delivery.{is_open, run_polls, run_polls_never_fail}

abbrev outbox : Table OutboxEvent
outbox = rows

abbrev start : State (Table.Rows outbox)
start = record { events = (0, new_event 100 "payments" 7) ∷ []; stream = []; is_running = false }

-- A poll where `xadd` throws.
abbrev bad : ℕ → Poll
bad now = record {
  now = now;
  has_query_fault = false;
  is_ready = λ id. true;
  has_xadd_fault = λ id. true;
  has_publish_fault = λ id. false;
  has_fail_fault = λ id. false;
}

abbrev good : ℕ → Poll
good now = record (bad now) { has_xadd_fault = λ id. false }

abbrev five : List Poll
five = bad 100 ∷ bad 1100 ∷ bad 3100 ∷ bad 7100 ∷ bad 15100 ∷ []

abbrev tired : OutboxEvent
tired = record (new_event 100 "payments" 7) { attempts = 5; next_retry = 31100 }

five_polls : (run_polls outbox five start).events ≡ (0, tired) ∷ []
unfolding run_polls process_outbox_events publish_events publish_event mark_event_failed
    failed_event retry_delay is_due sort_by_age insert_by_age take
five_polls = refl

start-open : (j : ℕ) → is_open (Table.find outbox j start.events) ≡ true
start-open j = ground arith

run_polls_never_fail_example :
    is_open (Table.find outbox 0 (run_polls outbox five start).events) ≡ true
run_polls_never_fail_example = run_polls_never_fail outbox five start start-open 0

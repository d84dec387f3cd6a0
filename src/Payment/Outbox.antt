-- ===== src/Payment/Outbox.antt =====
-- The outbox of the payment service (tec-payment-service/src/services/outbox.service.ts and
-- outbox.worker.ts): events are rows that a worker, which polls, publishes on a Redis stream.
-- Redis and the clock are parameters of a poll. A poll runs to its end before the next one starts.
use tec_core_backend.Base.{
  ℕ, zero, suc, ◌+◌, ◌*◌, ◌^◌, min, Bool, true, false, ◌&&◌, Option, none, some, List, [], ◌∷◌,
  String, ltb, leb, if◌then◌else◌,
}
use tec_core_backend.Base.Lists.{take}
use tec_core_backend.Base.Table.{Table}
pub mod Batch
pub mod Delivery
mod Examples

pub data OutboxStatus : Type 0 where
  pending published failed : OutboxStatus

-- A row of the table; the payload is opaque, and the text of the last error is left out.
pub record OutboxEvent : Type 0 where
  pub stream_name : String
  pub payload : ℕ
  pub status : OutboxStatus
  pub attempts : ℕ
  pub max_attempts : ℕ
  pub next_retry : ℕ
  pub created_at : ℕ
  pub published_at : Option ℕ

-- The table, the ids that have been added to the streams, the newest first, and `isRunning`.
pub record State (E : Type 0) : Type 0 where
  pub events : E
  pub stream : List ℕ
  pub is_running : Bool

-- What a poll meets: the clock, whether the query fails, and for each event whether Redis is there
-- and ready, and whether `xadd` and the updates of the row throw.
pub record Poll : Type 0 where
  pub now : ℕ
  pub has_query_fault : Bool
  pub is_ready : ℕ → Bool
  pub has_xadd_fault : ℕ → Bool
  pub has_publish_fault : ℕ → Bool
  pub has_fail_fault : ℕ → Bool

abbrev pub is_pending : OutboxStatus → Bool
is_pending pending = true
is_pending published = false
is_pending failed = false

-- The `where` clause of the worker.
unfoldable pub is_due : ℕ → OutboxEvent → Bool
is_due now e = is_pending e.status && (leb e.next_retry now && ltb e.attempts 5)

-- `orderBy: { created_at: 'asc' }`
unfoldable pub insert_by_age : ℕ × OutboxEvent → List (ℕ × OutboxEvent) → List (ℕ × OutboxEvent)
insert_by_age x [] = x ∷ []
insert_by_age x (y ∷ ys) =
    let rest = insert_by_age x ys in
    if leb x.1.created_at y.1.created_at then x ∷ y ∷ ys else y ∷ rest

unfoldable pub sort_by_age : List (ℕ × OutboxEvent) → List (ℕ × OutboxEvent)
sort_by_age [] = []
sort_by_age (x ∷ xs) = insert_by_age x (sort_by_age xs)

-- `saveOutboxEvent` and `saveOutboxEventDirect`; the other columns have the defaults of the schema.
abbrev pub new_event : ℕ → String → ℕ → OutboxEvent
new_event now stream_name payload = record {
  stream_name = stream_name;
  payload = payload;
  status = pending;
  attempts = 0;
  max_attempts = 5;
  next_retry = now;
  created_at = now;
  published_at = none;
}

-- The row that `markEventPublished` writes.
abbrev pub published_event : ℕ → OutboxEvent → OutboxEvent
published_event now e = record e { status = published; published_at = some now }

-- `Math.min(1000 * 2 ** attempts, 60000)`
unfoldable pub retry_delay : ℕ → ℕ
retry_delay attempts = min (1000 * 2 ^ attempts) 60000

-- The row that `markEventFailed` writes; `attempts` and `max_attempts` are those that were read.
unfoldable pub failed_event : ℕ → ℕ → ℕ → OutboxEvent → OutboxEvent
failed_event now attempts max_attempts e = record e {
  status = if leb max_attempts attempts then failed else pending;
  attempts = attempts + 1;
  next_retry = now + retry_delay attempts;
}

module _ (T : Table OutboxEvent) where
  open T use {Rows, find_many, update, create}

  unfoldable pub save_outbox_event : ℕ → String → ℕ → State Rows → State Rows
  save_outbox_event now stream_name payload s = record s {
    events = (create (new_event now stream_name payload) s.events).1;
  }

  -- `markEventFailed`, whose throw is swallowed.
  unfoldable pub mark_event_failed : Poll → ℕ × OutboxEvent → State Rows → State Rows
  mark_event_failed p (id, e) s =
      if p.has_fail_fault id
      then s
      else record s { events = update id (failed_event p.now e.attempts e.max_attempts) s.events }

  abbrev pub added : ℕ → State Rows → State Rows
  added id s = record s { stream = id ∷ s.stream }

  -- The `try` of the loop, after the tests of the connection.
  unfoldable pub publish_event : Poll → ℕ × OutboxEvent → State Rows → State Rows
  publish_event p (id, e) s =
      if p.has_xadd_fault id
      then mark_event_failed p (id, e) s
      else if p.has_publish_fault id
      then mark_event_failed p (id, e) (added id s)
      else record (added id s) { events = update id (published_event p.now) s.events }

  -- The loop, which breaks where Redis is not there or not ready.
  unfoldable pub publish_events : Poll → List (ℕ × OutboxEvent) → State Rows → State Rows
  publish_events p [] s = s
  publish_events p (x ∷ xs) s =
      let rest = publish_events p xs (publish_event p x s) in if p.is_ready x.0 then rest else s

  -- `processOutboxEvents`
  unfoldable pub process_outbox_events : Poll → State Rows → State Rows
  process_outbox_events p s =
      if s.is_running
      then s
      else if p.has_query_fault
      then s
      else publish_events p (take 10 (sort_by_age (find_many (is_due p.now) s.events))) s

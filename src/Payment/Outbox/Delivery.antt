-- ===== src/Payment/Outbox/Delivery.antt =====
-- What polls of the outbox worker do to the events
-- (tec-payment-service/src/services/outbox.worker.ts, outbox.service.ts).
use tec_core_backend.Base.Lists.{take, take-All}
use tec_core_backend.Base.{
  ℕ, ◌≤◌, ◌<◌, Bool, true, false, not, ◌&&◌, ◌||◌, Option, none, some, List, [], ◌∷◌, leb, ◌==◌,
  ◌≡◌, refl, All, arith,
}
use tec_core_backend.Base.Table.{Table}
use tec_core_backend.Payment.Outbox.{
  OutboxStatus, published, failed, OutboxEvent, State, Poll, is_due, sort_by_age, published_event,
  failed_event, mark_event_failed, publish_event, publish_events, process_outbox_events,
}
use tec_core_backend.Payment.Outbox.Batch.{sort-All}

-- `includes` of the stream.
abbrev pub is_added : ℕ → List ℕ → Bool
is_added j [] = false
is_added j (k ∷ ks) = j == k || is_added j ks

abbrev has_published : OutboxStatus → Bool
has_published published = true
has_published s = false

abbrev has_failed : OutboxStatus → Bool
has_failed failed = true
has_failed s = false

abbrev pub is_published : Option OutboxEvent → Bool
is_published none = false
is_published (some e) = has_published e.status

-- An event that may be tried often enough, and has not failed.
abbrev pub is_open : Option OutboxEvent → Bool
is_open none = true
is_open (some e) = leb 5 e.max_attempts && not (has_failed e.status)

module _ (T : Table OutboxEvent) where
  open T use {Rows, find, find_many, update, create, find-update, find_many_sound}

  unfoldable pub run_polls : List Poll → State Rows → State Rows
  run_polls [] s = s
  run_polls (p ∷ ps) s = run_polls ps (process_outbox_events T p s)

  -- The events that a poll works on are due.
  abbrev IsBatch : ℕ → Rows → List (ℕ × OutboxEvent) → Type 0
  IsBatch now t xs = All (λ x. (find x.0 t ≡ some x.1) × (is_due now x.1 ≡ true)) xs

  batch_lem :
      (now : ℕ) (t : Rows) → IsBatch now t (take 10 (sort_by_age (find_many (is_due now) t)))
  batch_lem now t = take-All _ 10 _ (sort-All _ _ (find_many_sound (is_due now) t))

  -- A published event has been added to its stream.
  abbrev pub is_traced : ℕ → State Rows → Bool
  is_traced j s = not (is_published (find j s.events)) || is_added j s.stream

  publish_event-traced :
      (p : Poll) (x : ℕ × OutboxEvent) (j : ℕ) (s : State Rows)
      → is_traced j s ≡ true
      → is_traced j (publish_event T p x s) ≡ true
  unfolding publish_event mark_event_failed failed_event
  publish_event-traced p x j s h = ground (
    arith,
    find-update j x.0 (published_event p.now) s.events,
    find-update j x.0 (failed_event p.now x.1.attempts x.1.max_attempts) s.events,
  )

  publish_events-traced :
      (p : Poll) (xs : List (ℕ × OutboxEvent)) (j : ℕ) (s : State Rows)
      → is_traced j s ≡ true
      → is_traced j (publish_events T p xs s) ≡ true
  unfolding publish_events
  publish_events-traced p [] j s h = h
  publish_events-traced p (x ∷ xs) j s h =
      ground (
        arith,
        publish_events-traced p xs j (publish_event T p x s) (publish_event-traced p x j s h),
      )

  poll-traced :
      (p : Poll) (j : ℕ) (s : State Rows)
      → is_traced j s ≡ true
      → is_traced j (process_outbox_events T p s) ≡ true
  unfolding process_outbox_events
  poll-traced p j s h = ground (
    arith,
    publish_events-traced p (take 10 (sort_by_age (find_many (is_due p.now) s.events))) j s h,
  )

  -- Over any sequence of polls, whatever fails in them, an event that is marked published has been
  -- added to its stream.
  pub run_polls-traced :
      (ps : List Poll) (j : ℕ) (s : State Rows)
      → is_traced j s ≡ true
      → is_traced j (run_polls ps s) ≡ true
  unfolding run_polls
  run_polls-traced [] j s h = h
  run_polls-traced (p ∷ ps) j s h =
      run_polls-traced ps j (process_outbox_events T p s) (poll-traced p j s h)

  publish_event-open :
      (p : Poll) (x : ℕ × OutboxEvent) (j : ℕ) (s : State Rows)
      → x.1.attempts < x.1.max_attempts
      → is_open (find j s.events) ≡ true
      → is_open (find j (publish_event T p x s).events) ≡ true
  unfolding publish_event mark_event_failed failed_event
  publish_event-open p x j s lt h = ground (
    arith,
    find-update j x.0 (published_event p.now) s.events,
    find-update j x.0 (failed_event p.now x.1.attempts x.1.max_attempts) s.events,
  )

  publish_events-open :
      (p : Poll) (xs : List (ℕ × OutboxEvent)) (j : ℕ) (s : State Rows)
      → All (λ x. x.1.attempts < x.1.max_attempts) xs
      → is_open (find j s.events) ≡ true
      → is_open (find j (publish_events T p xs s).events) ≡ true
  unfolding publish_events
  publish_events-open p [] j s b h = h
  publish_events-open p (x ∷ xs) j s (lt, b) h = ground (
    arith,
    h,
    publish_events-open p xs j (publish_event T p x s) b (publish_event-open p x j s lt h),
  )

  -- A due event of an open table has attempts left.
  batch_open :
      (now : ℕ) (t : Rows) (xs : List (ℕ × OutboxEvent))
      → ((j : ℕ) → is_open (find j t) ≡ true)
      → IsBatch now t xs
      → All (λ x. x.1.attempts < x.1.max_attempts) xs
  unfolding is_due
  batch_open now t [] h b = tt
  batch_open now t (x ∷ xs) h ((e, d), b) = (ground (arith, h x.0), batch_open now t xs h b)

  poll-open :
      (p : Poll) (s : State Rows)
      → ((j : ℕ) → is_open (find j s.events) ≡ true)
      → (j : ℕ) → is_open (find j (process_outbox_events T p s).events) ≡ true
  unfolding process_outbox_events
  poll-open p s h j = ground (
    arith,
    publish_events-open p _ j s (batch_open p.now s.events _ h (batch_lem p.now s.events)) (h j),
    h j,
  )

  -- Where no event has failed and every event may be tried 5 times or more (the default of the schema
  -- is 5), no sequence of polls, whatever fails in them, ever marks an event as failed.
  pub run_polls_never_fail :
      (ps : List Poll) (s : State Rows)
      → ((i : ℕ) → is_open (find i s.events) ≡ true)
      → (j : ℕ) → is_open (find j (run_polls ps s).events) ≡ true
  unfolding run_polls
  run_polls_never_fail [] s h j = h j
  run_polls_never_fail (p ∷ ps) s h j =
      run_polls_never_fail ps (process_outbox_events T p s) (poll-open p s h) j

  publish_event-other :
      (p : Poll) (x : ℕ × OutboxEvent) (j : ℕ) (s : State Rows)
      → (j == x.0) ≡ false
      → find j (publish_event T p x s).events ≡ find j s.events
  unfolding publish_event mark_event_failed
  publish_event-other p x j s ne = ground (
    arith,
    find-update j x.0 (published_event p.now) s.events,
    find-update j x.0 (failed_event p.now x.1.attempts x.1.max_attempts) s.events,
  )

  publish_events-other :
      (p : Poll) (xs : List (ℕ × OutboxEvent)) (j : ℕ) (s : State Rows)
      → All (λ x. (j == x.0) ≡ false) xs
      → find j (publish_events T p xs s).events ≡ find j s.events
  unfolding publish_events
  publish_events-other p [] j s b = refl
  publish_events-other p (x ∷ xs) j s (ne, b) =
      ground (
        arith,
        publish_event-other p x j s ne,
        publish_events-other p xs j (publish_event T p x s) b,
      )

  batch_other :
      (now : ℕ) (t : Rows) (xs : List (ℕ × OutboxEvent)) (j : ℕ) (e : OutboxEvent)
      → find j t ≡ some e
      → is_due now e ≡ false
      → IsBatch now t xs
      → All (λ x. (j == x.0) ≡ false) xs
  batch_other now t [] j e here late b = tt
  batch_other now t (x ∷ xs) j e here late ((h, d), b) =
      (ground arith, batch_other now t xs j e here late b)

  exhausted : (now : ℕ) (e : OutboxEvent) → 5 ≤ e.attempts → is_due now e ≡ false
  unfolding is_due
  exhausted now e h = ground arith

  poll_stuck :
      (p : Poll) (j : ℕ) (e : OutboxEvent) (s : State Rows)
      → find j s.events ≡ some e
      → 5 ≤ e.attempts
      → find j (process_outbox_events T p s).events ≡ some e
  unfolding process_outbox_events
  poll_stuck p j e s here h = ground (
    arith,
    publish_events-other p _ j s
        (batch_other p.now s.events _ j e here (exhausted p.now e h) (batch_lem p.now s.events)),
    here,
  )

  -- An event that has had 5 attempts is never changed by any sequence of polls again: a pending one
  -- stays pending and is neither published nor marked as failed.
  pub run_polls_stuck :
      (ps : List Poll) (j : ℕ) (e : OutboxEvent) (s : State Rows)
      → find j s.events ≡ some e
      → 5 ≤ e.attempts
      → find j (run_polls ps s).events ≡ some e
  unfolding run_polls
  run_polls_stuck [] j e s here h = here
  run_polls_stuck (p ∷ ps) j e s here h =
      run_polls_stuck ps j e (process_outbox_events T p s) (poll_stuck p j e s here h) h

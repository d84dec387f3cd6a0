-- ===== src/Bus/Drain.antt =====
-- What shared/src/event-bus/index.ts promises about the end of an entry: when the stream is emptied, and
-- when an entry stays pending.
use tec_core_backend.Base.Lists.{take, drop, length-drop, length-take, take_all}
use tec_core_backend.Base.{
  ℕ, zero, suc, ◌*◌, ◌≤◌, Bool, true, false, not, ◌&&◌, Option, some, List, [], ◌∷◌, ◌==◌, ◌≡◌,
  refl, ap, ◌∙◌, length, Bool-cases, Option-cases, inl, inr, arith,
}
use tec_core_backend.Base.Ids.{
  is_in, remove, remove_all, is_in-append, is_in-remove, is_in-take-drop, none_left,
  remove_all_empties,
}
use tec_core_backend.Bus.{
  StreamGroup, Attempt, Event, added, turn, started, batch_size, pending_count, process_message,
  process_messages, process_pending_messages, read_turn, step, run,
}

-- The event is no start and does not add the entry.
unfoldable pub is_apart : {E : Type 0} → ℕ → Event E → Bool
is_apart i (added j) = not (i == j)
is_apart i (turn met most) = true
is_apart i (started met most) = false

unfoldable pub are_apart : {E : Type 0} → ℕ → List (Event E) → Bool
are_apart i [] = true
are_apart i (e ∷ es) = is_apart i e && are_apart i es

-- A number of turns that nothing stops.
unfoldable pub turns : {E : Type 0} → (ℕ → Attempt E) → ℕ → List (Event E)
turns met zero = []
turns met (suc n) = turn met batch_size ∷ turns met n

module _ {E P S : Type 0} (R : StreamGroup) (data_of : ℕ → Option P)
    (handler : E → P → S → Bool × S) where
  open R use {
    Group, unread, pending, unread-add, pending-add, read_new_result, unread-read_new,
    pending-read_new, read_pending_result, unread-ack, pending-ack,
  }

  -- The entry was read and has no acknowledgement.
  abbrev pub is_stuck : ℕ → Group × S → Bool
  is_stuck i (g, s) = is_in i (pending g) && not (is_in i (unread g))

  message-stuck :
      (a : Attempt E) (i j : ℕ) (w : Group × S)
      → (i == j) ≡ false
      → is_stuck i w ≡ true
      → is_stuck i (process_message R data_of handler a j w) ≡ true
  unfolding process_message
  message-stuck a i j (g, s) other h = elim (Option-cases (data_of j)) [
    | inl gone ↦ rw (process_message, gone) h
    | inr (q, there) ↦
        rw (process_message, there)
          (elim (Bool-cases ((handler a.env q s).0 && a.has_ack)) [
            | inr e ↦ rw e h
            | inl e ↦
                rw e (rw (unread-ack j g, pending-ack j g, is_in-remove i j (pending g), other) h)
          ])
  ]

  messages-stuck :
      (met : ℕ → Attempt E) (i : ℕ) (is : List ℕ) (w : Group × S)
      → is_in i is ≡ false
      → is_stuck i w ≡ true
      → is_stuck i (process_messages R data_of handler met is w) ≡ true
  unfolding process_messages is_in
  messages-stuck met i [] w apart h = h
  messages-stuck met i (j ∷ is) w apart h =
      messages-stuck met i is (process_message R data_of handler (met j) j w)
        (ground (arith, apart)) (message-stuck (met j) i j w (ground (arith, apart)) h)

  is_in-take-take :
      (i m n : ℕ) (js : List ℕ) → is_in i js ≡ false → is_in i (take m (take n js)) ≡ false
  is_in-take-take i m n js h =
      ground (arith, h, is_in-take-drop i n js, is_in-take-drop i m (take n js))

  step-stuck :
      (e : Event E) (i : ℕ) (w : Group × S)
      → is_apart i e ≡ true
      → is_stuck i w ≡ true
      → is_stuck i (step R data_of handler e w) ≡ true
  unfolding step read_turn is_apart is_in
  step-stuck (added j) i (g, s) apart h =
      rw (unread-add j g, pending-add j g, is_in-append i (unread g) (j ∷ []))
        (ground (arith, h, apart))
  step-stuck (turn met most) i (g, s) apart h =
      messages-stuck met i (take most (StreamGroup.read_new R batch_size g).0)
        ((StreamGroup.read_new R batch_size g).1, s)
        (rw (read_new_result batch_size g)
          (is_in-take-take i most batch_size (unread g) (ground (arith, h))))
        (rw
          (
            unread-read_new batch_size g,
            pending-read_new batch_size g,
            is_in-append i (pending g) (take batch_size (unread g)),
          )
          (ground (arith, h, is_in-take-drop i batch_size (unread g))))
  step-stuck (started met most) i w apart h = absurd (ground (arith, apart))

  -- An entry that was read and not acknowledged is pending as long as the consumer is not started
  -- again and the entry is not added once more: whatever the turns of its loop meet, they do not
  -- try it again.
  pub never_retried :
      (es : List (Event E)) (i : ℕ) (w : Group × S)
      → are_apart i es ≡ true
      → is_stuck i w ≡ true
      → is_in i (pending (run R data_of handler es w).0) ≡ true
  unfolding run are_apart
  never_retried [] i w apart h = ground (arith, h)
  never_retried (e ∷ es) i w apart h =
      never_retried es i (step R data_of handler e w) (ground (arith, apart))
        (step-stuck e i w (ground (arith, apart)) h)

  -- Nothing goes wrong.
  module _ (met : ℕ → Attempt E) (acks : (i : ℕ) → (met i).has_ack ≡ true) (payload : ℕ → P)
      (there : (i : ℕ) → data_of i ≡ some (payload i))
      (returns : (i : ℕ) (s : S) → (handler (met i).env (payload i) s).0 ≡ true) where
    message_removes :
        (i : ℕ) (w : Group × S)
        → ((unread (process_message R data_of handler (met i) i w).0 ≡ unread w.0)
            × (pending (process_message R data_of handler (met i) i w).0 ≡ remove i (pending w.0)))
    unfolding process_message
    message_removes i (g, s) =
        rw (process_message, there i, returns i s, acks i) (unread-ack i g, pending-ack i g)

    messages_remove :
        (is : List ℕ) (w : Group × S)
        → ((unread (process_messages R data_of handler met is w).0 ≡ unread w.0)
            × (pending (process_messages R data_of handler met is w).0
                ≡ remove_all is (pending w.0)))
    unfolding process_messages remove_all
    messages_remove [] w = (refl, refl)
    messages_remove (i ∷ is) w =
        let w' = process_message R data_of handler (met i) i w in
        let one = message_removes i w in
        let rest = messages_remove is w' in (rest.0 ∙ one.0, rest.1 ∙ ap (remove_all is) one.1)

    turn_empties :
        (w : Group × S)
        → pending w.0 ≡ []
        → ((unread (read_turn R data_of handler met batch_size w).0 ≡ drop batch_size (unread w.0))
            × (pending (read_turn R data_of handler met batch_size w).0 ≡ []))
    unfolding read_turn
    turn_empties (g, s) nothing =
        let (is, g') = StreamGroup.read_new R batch_size g in
        let first = take batch_size (unread g) in
        let all_taken : take batch_size is ≡ first =
          rw (read_new_result batch_size g)
            (take_all batch_size first (length-take batch_size (unread g))) in
        let held : pending g' ≡ first = rw (pending-read_new batch_size g, nothing) refl in
        let effect = messages_remove (take batch_size is) (g', s) in
        (
          effect.0 ∙ unread-read_new batch_size g,
          effect.1 ∙ rw (held, all_taken) (remove_all_empties first first (λ k within. within)),
        )

    start_empties :
        (w : Group × S)
        → length (pending w.0) ≤ pending_count
        → ((unread (process_pending_messages R data_of handler met pending_count w).0 ≡ unread w.0)
            × (pending (process_pending_messages R data_of handler met pending_count w).0 ≡ []))
    unfolding process_pending_messages
    start_empties (g, s) few =
        let all_taken : take pending_count (StreamGroup.read_pending R pending_count g)
            ≡ pending g =
          rw (read_pending_result pending_count g, take_all pending_count (pending g) few)
            (take_all pending_count (pending g) few) in
        let effect =
          messages_remove (take pending_count (StreamGroup.read_pending R pending_count g))
            (g, s) in
        (
          effect.0,
          effect.1 ∙ rw all_taken (remove_all_empties (pending g) (pending g) (λ k within. within)),
        )

    turns_empty :
        (n : ℕ) (w : Group × S)
        → pending w.0 ≡ []
        → length (unread w.0) ≤ n * batch_size
        → ((unread (run R data_of handler (turns met n) w).0 ≡ [])
            × (pending (run R data_of handler (turns met n) w).0 ≡ []))
    unfolding run turns step
    turns_empty zero (g, s) nothing few = (none_left (unread g) (omega arith), nothing)
    turns_empty (suc n) w nothing few =
        let one = turn_empties w nothing in
        turns_empty n (read_turn R data_of handler met batch_size w) one.1
          (rw one.0 (omega (arith, length-drop batch_size (unread w.0))))

    -- A handler that returns for each entry, with every payload and acknowledgement good and at most as many
    -- entries pending as one read gives: a start and as many turns as the unread entries fill
    -- leave no entry unread and none pending.
    pub start_drains :
        (n : ℕ) (w : Group × S)
        → length (pending w.0) ≤ pending_count
        → length (unread w.0) ≤ n * batch_size
        → ((unread (run R data_of handler (started met pending_count ∷ turns met n) w).0 ≡ [])
            × (pending (run R data_of handler (started met pending_count ∷ turns met n) w).0 ≡ []))
    unfolding run step
    start_drains n w few little =
        let start = start_empties w few in
        turns_empty n (process_pending_messages R data_of handler met pending_count w) start.1
          (rw start.0 little)

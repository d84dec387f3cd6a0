-- ===== src/Bus/Delivery.antt =====
-- That no entry of a stream is lost on the way through shared/src/event-bus/index.ts, and when one is not
-- tried again.
use tec_core_backend.Base.Lists.{take}
use tec_core_backend.Base.{
  ℕ, Bool, true, ◌||◌, Option, some, List, [], ◌∷◌, ◌==◌, ◌≡◌, sym, subst, ==_iff, Bool-cases,
  Option-cases, inl, inr, arith,
}
use tec_core_backend.Base.Ids.{is_in, is_in-append, is_in-remove, is_in-take-drop}
use tec_core_backend.Bus.{
  StreamGroup, Attempt, Event, added, turn, started, batch_size, pending_count, process_message,
  process_messages, process_pending_messages, read_turn, step, run,
}

-- A handler that says by a mark in its state what it has done, and takes no mark away.
pub record Marks {E P S : Type 0} (handler : E → P → S → Bool × S) : Type 0 where
  pub is_done : P → S → Bool
  pub done-returned :
      (env : E) (p : P) (s : S) → (handler env p s).0 ≡ true → is_done p (handler env p s).1 ≡ true
  pub done-kept :
      (env : E) (p q : P) (s : S) → is_done q s ≡ true → is_done q (handler env p s).1 ≡ true

module _ {E P S : Type 0} (R : StreamGroup) (data_of : ℕ → Option P)
    (handler : E → P → S → Bool × S) (M : Marks handler) where
  open R use {
    Group, unread, pending, unread-add, pending-add, read_new_result, unread-read_new,
    pending-read_new, unread-ack, pending-ack,
  }
  open M use {is_done, done-returned, done-kept}

  -- The entry waits to be read, or waits for its acknowledgement, or its payload is done.
  abbrev pub is_accounted : ℕ → P → Group × S → Bool
  is_accounted i p (g, s) = is_in i (unread g) || (is_in i (pending g) || is_done p s)

  message-accounted :
      (a : Attempt E) (i j : ℕ) (p : P) (w : Group × S)
      → data_of i ≡ some p
      → is_accounted i p w ≡ true
      → is_accounted i p (process_message R data_of handler a j w) ≡ true
  unfolding process_message
  message-accounted a i j p (g, s) here h = elim (Option-cases (data_of j)) [
    | inl gone ↦ rw (process_message, gone) h
    | inr (q, there) ↦
        rw (process_message, there)
          (elim (Bool-cases (handler a.env q s).0) [
            | inr throws ↦ rw throws (ground (arith, h, done-kept a.env q p s))
            | inl returns ↦ rw returns (elim (Bool-cases a.has_ack) [
              | inr unacked ↦ rw unacked (ground (arith, h, done-kept a.env q p s))
              | inl acked ↦ rw acked (
                  rw (unread-ack j g, pending-ack j g, is_in-remove i j (pending g))
                    (elim (Bool-cases (i == j)) [
                      | inr other ↦ rw other (ground (arith, h, done-kept a.env q p s))
                      | inl same ↦
                          let found : data_of i ≡ some q =
                            subst (λ x. data_of x ≡ some q) (sym ((==_iff i j).0 same)) there in
                          ground (arith, here, found, done-returned a.env q s returns)
                    ]))
            ])
          ])
  ]

  messages-accounted :
      (met : ℕ → Attempt E) (i : ℕ) (p : P) (is : List ℕ) (w : Group × S)
      → data_of i ≡ some p
      → is_accounted i p w ≡ true
      → is_accounted i p (process_messages R data_of handler met is w) ≡ true
  unfolding process_messages
  messages-accounted met i p [] w here h = h
  messages-accounted met i p (j ∷ is) w here h =
      messages-accounted met i p is (process_message R data_of handler (met j) j w) here
        (message-accounted (met j) i j p w here h)

  pub step-accounted :
      (e : Event E) (i : ℕ) (p : P) (w : Group × S)
      → data_of i ≡ some p
      → is_accounted i p w ≡ true
      → is_accounted i p (step R data_of handler e w) ≡ true
  unfolding step read_turn process_pending_messages
  step-accounted (added j) i p (g, s) here h =
      rw (unread-add j g, pending-add j g, is_in-append i (unread g) (j ∷ [])) (ground (arith, h))
  step-accounted (turn met most) i p (g, s) here h =
      messages-accounted met i p (take most (StreamGroup.read_new R batch_size g).0)
        ((StreamGroup.read_new R batch_size g).1, s) here
        (rw
          (
            unread-read_new batch_size g,
            pending-read_new batch_size g,
            is_in-append i (pending g) (take batch_size (unread g)),
          )
          (ground (arith, h, is_in-take-drop i batch_size (unread g))))
  step-accounted (started met most) i p (g, s) here h =
      messages-accounted met i p (take most (StreamGroup.read_pending R pending_count g)) (g, s)
        here h

  -- Whatever happens to a stream and its consumer, with any failures of the handler and of the
  -- acknowledgements, any stops in the middle of a batch and any restarts: an entry with a payload
  -- that waits to be read or acknowledged still does, or the handler has done its payload.
  pub run-accounted :
      (es : List (Event E)) (i : ℕ) (p : P) (w : Group × S)
      → data_of i ≡ some p
      → is_accounted i p w ≡ true
      → is_accounted i p (run R data_of handler es w) ≡ true
  unfolding run
  run-accounted [] i p w here h = h
  run-accounted (e ∷ es) i p w here h =
      run-accounted es i p (step R data_of handler e w) here (step-accounted e i p w here h)

-- What every call of the handler keeps, the consumer keeps.
module _ {E P S : Type 0} (R : StreamGroup) (data_of : ℕ → Option P)
    (handler : E → P → S → Bool × S) (Keeps : S → Type 0)
    (kept : (env : E) (p : P) (s : S) → Keeps s → Keeps (handler env p s).1) where
  open R use {Group}

  message-kept :
      (a : Attempt E) (j : ℕ) (w : Group × S)
      → Keeps w.1
      → Keeps (process_message R data_of handler a j w).1
  unfolding process_message
  message-kept a j (g, s) h = elim (Option-cases (data_of j)) [
    | inl gone ↦ rw (process_message, gone) h
    | inr (q, there) ↦ rw (process_message, there) (kept a.env q s h)
  ]

  messages-kept :
      (met : ℕ → Attempt E) (is : List ℕ) (w : Group × S)
      → Keeps w.1
      → Keeps (process_messages R data_of handler met is w).1
  unfolding process_messages
  messages-kept met [] w h = h
  messages-kept met (j ∷ is) w h =
      messages-kept met is (process_message R data_of handler (met j) j w)
        (message-kept (met j) j w h)

  pub step-kept : (e : Event E) (w : Group × S) → Keeps w.1 → Keeps (step R data_of handler e w).1
  unfolding step read_turn process_pending_messages
  step-kept (added j) (g, s) h = h
  step-kept (turn met most) (g, s) h =
      messages-kept met (take most (StreamGroup.read_new R batch_size g).0)
        ((StreamGroup.read_new R batch_size g).1, s) h
  step-kept (started met most) (g, s) h =
      messages-kept met (take most (StreamGroup.read_pending R pending_count g)) (g, s) h

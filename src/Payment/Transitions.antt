-- ===== src/Payment/Transitions.antt =====
-- What each handler does to the table of payments.

use tec_core_backend.Base.{ℕ, ◌≡◌, ◌↔◌, ◌⊎◌, true, Option, none, some, String, arith}
use tec_core_backend.Base.Action.{Result, ok, err}
use tec_core_backend.Base.Table.{Table}
use tec_core_backend.Payment.Types.{
  Status, created, approved, completed, cancelled, failed, Payment, State, Thrown, Env, Site,
  at_find, at_update, at_log, Reply, payment_reply, is_failure, throws_failure,
  is_transition_allowed, object, set_field, id_value, get_metadata_object,
}
use tec_core_backend.Payment.Calls.{move_payment}
use tec_core_backend.Payment.Approval.{
  approved_payment, begin_approval, approve_on_pi, approve_payment,
}
use tec_core_backend.Payment.Completion.{
  begin_completion, complete_on_pi, completed_payment, complete_payment,
}
use tec_core_backend.Payment.Closing.{
  failed_payment, cancelled_payment, cancel_payment, fail_payment,
}

-- The diagram of the states: what may go to the given state.
abbrev pub MayBecome : Status → Status → Type 0
MayBecome approved from = from ≡ created
MayBecome completed from = from ≡ approved
MayBecome cancelled from = (from ≡ created) ⊎ (from ≡ approved)
MayBecome failed from = (from ≡ created) ⊎ (from ≡ approved)
MayBecome to from = ⊥

-- The table of the code is the diagram.
pub is_transition_allowed_iff :
    (from to : Status) → (is_transition_allowed from to ≡ true) ↔ MayBecome to from
unfolding is_transition_allowed
is_transition_allowed_iff from created = (λ h. ground arith, λ h. elim h [ ])
is_transition_allowed_iff from to = (λ h. ground arith, λ h. ground arith)

allowed-approved : (from : Status) → is_transition_allowed from approved ≡ true → from ≡ created
allowed-approved from = (is_transition_allowed_iff from approved).0

allowed-completed : (from : Status) → is_transition_allowed from completed ≡ true → from ≡ approved
allowed-completed from = (is_transition_allowed_iff from completed).0

allowed-cancelled :
    (from : Status)
    → is_transition_allowed from cancelled ≡ true
    → (from ≡ created) ⊎ (from ≡ approved)
allowed-cancelled from = (is_transition_allowed_iff from cancelled).0

allowed-failed :
    (from : Status)
    → is_transition_allowed from failed ≡ true
    → (from ≡ created) ⊎ (from ≡ approved)
allowed-failed from = (is_transition_allowed_iff from failed).0

module _ (T : Table Payment) where
  open T use {Rows, find, update, create}

  -- What the transaction has done: the row was there and might go to the state, the call returns
  -- the changed row and the table has it; or the call throws, and nothing has changed.
  abbrev pub HasMoved :
      ℕ → Status → (Payment → Payment) → State Rows → Result Thrown Payment × State Rows → Type 0
  HasMoved id to change s (ok q, s') =
      ((p : Payment) × (find id s.payments ≡ some p)
        × (is_transition_allowed p.status to ≡ true)
        × (q ≡ change p))
      × (s' ≡ record s { payments = update id change s.payments })
  HasMoved id to change s (err e, s') = (throws_failure e ≡ true) × (s' ≡ s)

  -- The transaction changes the row, if that is allowed, or throws and changes nothing.
  pub move_payment_lem :
      (env : Env Rows) (id : ℕ) (to : Status) (change : Payment → Payment) (s : State Rows)
      → HasMoved id to change s (move_payment T env id to change s)
  unfolding move_payment
  move_payment_lem env id to change s = ground arith

  -- The payment as it becomes: in the new state, for the same user and with the same money.
  abbrev pub Becomes : Status → Payment → Payment → Type 0
  Becomes to p q =
      (q.status ≡ to)
      × (q.user_id ≡ p.user_id)
      × (q.amount ≡ p.amount)
      × (q.currency ≡ p.currency)
      × (q.method ≡ p.method)

  -- A reply and the table that a handler leaves, where `before` is the table that it found and `now`
  -- the one that other requests have left it: with a payment in the reply, the row was there and
  -- might go to the state, the reply has the row in that state, and only that row has changed; with an error, the handler has changed
  -- nothing.
  abbrev pub HasTransition : Rows → Rows → ℕ → Status → (Payment → Payment) → Reply → Rows → Type 0
  HasTransition before now id to change (payment_reply n q) after =
      ((p : Payment) × (find id now ≡ some p)
        × MayBecome to p.status
        × (q ≡ change p)
        × Becomes to p q)
      × (n ≡ 200)
      × (after ≡ update id change now)
  HasTransition before now id to change r after =
      (is_failure r ≡ true) × ((after ≡ before) ⊎ (after ≡ now))

  -- The first part of a handler returns the row that it read, after which other requests have run,
  -- or it throws a failure and has changed no payment.
  abbrev pub HasBegun :
      Env Rows → ℕ → Status → State Rows → Result Thrown Payment × State Rows → Type 0
  HasBegun env id to s (ok p, s') =
      (find id s.payments ≡ some p)
      × (is_transition_allowed p.status to ≡ true)
      × (s'.payments ≡ env.meanwhile s.payments)
  HasBegun env id to s (err e, s') = (throws_failure e ≡ true) × (s'.payments ≡ s.payments)

  begin_completion_lem :
      (env : Env Rows) (id : ℕ) (s : State Rows)
      → HasBegun env id completed s (begin_completion T env id s)
  unfolding begin_completion
  begin_completion_lem env id s = ground arith

  begin_approval_lem :
      (env : Env Rows) (id : ℕ) (pi_id : Option ℕ) (s : State Rows)
      → HasBegun env id approved s (begin_approval T env id pi_id s)
  unfolding begin_approval
  begin_approval_lem env id pi_id s = ground arith

  -- A Pi call changes no payment, and throws a failure if it throws.
  abbrev pub HasCalled : State Rows → Result Thrown (Unit {0}) × State Rows → Type 0
  HasCalled s (ok u, s') = s'.payments ≡ s.payments
  HasCalled s (err e, s') = (throws_failure e ≡ true) × (s'.payments ≡ s.payments)

  complete_on_pi_lem :
      (env : Env Rows) (p : Payment) (s : State Rows) → HasCalled s (complete_on_pi T env p s)
  unfolding complete_on_pi
  complete_on_pi_lem env p s = ground arith

  approve_on_pi_lem :
      (env : Env Rows) (p : Payment) (pi_id : Option ℕ) (s : State Rows)
      → HasCalled s (approve_on_pi T env p pi_id s)
  unfolding approve_on_pi
  approve_on_pi_lem env p pi_id s = ground arith

  -- Whatever faults it meets, whatever the Pi API answers and whatever other requests do while it
  -- waits: if `completePayment` replies with a payment, the status is 200, the row was `approved`
  -- after those requests and only that row has changed: to the payment of the reply, which is
  -- `completed` and has the same user, amount, currency and method; else it replies with an error and
  -- has changed no payment.
  pub complete_payment-HasTransition :
      (env : Env Rows) (id : ℕ) (tx_id : Option ℕ) (s : State Rows)
      → let (r, s') = complete_payment T env id tx_id s in
        HasTransition s.payments
          (env.meanwhile s.payments)
          id
          completed
          (λ p. record p {
            status = completed;
            transaction_id = tx_id;
            completed_at = some env.now;
            metadata =
                object
                  (set_field "transaction_id" (id_value tx_id) (get_metadata_object p.metadata));
          })
          r
          s'.payments
  unfolding complete_payment
  complete_payment-HasTransition env id tx_id s = grind (
    arith,
    allowed-completed,
    begin_completion_lem env id s,
    complete_on_pi_lem env,
    move_payment_lem env id completed (completed_payment T env tx_id),
  )

  -- Whatever faults it meets: if `cancelPayment` replies with a payment, the status is 200, the row
  -- was `created` or `approved` and only that row has changed, to `cancelled`; else it replies with
  -- an error and has changed no payment.
  pub cancel_payment-HasTransition :
      (env : Env Rows) (id : ℕ) (s : State Rows)
      → let (r, s') = cancel_payment T env id s in
        HasTransition s.payments s.payments id cancelled (cancelled_payment T env) r s'.payments
  unfolding cancel_payment
  cancel_payment-HasTransition env id s =
      grind (arith, allowed-cancelled, move_payment_lem env id cancelled (cancelled_payment T env))

  -- If no other request changes the table meanwhile: if `approvePayment` replies with a payment, the
  -- status is 200, the row was `created` and only that row has changed, to `approved`; else it
  -- replies with an error and has changed no payment.
  pub approve_payment-HasTransition :
      (env : Env Rows) (id : ℕ) (pi_id : Option ℕ) (s : State Rows)
      → env.meanwhile s.payments ≡ s.payments
      → let (r, s') = approve_payment T env id pi_id s in
        HasTransition s.payments s.payments id approved (approved_payment T env pi_id) r s'.payments
  unfolding approve_payment
  approve_payment-HasTransition env id pi_id s alone =
      grind (arith, allowed-approved, begin_approval_lem env id pi_id s, approve_on_pi_lem env)

  -- If no other request changes the table meanwhile and the row is there: if `failPayment` replies
  -- with a payment, the status is 200, the row was `created` or `approved` and only that row has
  -- changed, to `failed`; else it replies with an error and has changed no payment.
  pub fail_payment-HasTransition :
      (env : Env Rows) (id : ℕ) (reason : Option String) (p : Payment) (s : State Rows)
      → env.meanwhile s.payments ≡ s.payments
      → find id s.payments ≡ some p
      → let (r, s') = fail_payment T env id reason s in
        HasTransition s.payments s.payments id failed
          (failed_payment T env p.metadata reason)
          r
          s'.payments
  unfolding fail_payment
  fail_payment-HasTransition env id reason p s alone found = ground (arith, allowed-failed p.status)

  -- Without the row `failPayment` changes no payment.
  pub fail_missing :
      (env : Env Rows) (id : ℕ) (reason : Option String) (s : State Rows)
      → find id s.payments ≡ none
      → (fail_payment T env id reason s).1.payments ≡ s.payments
  unfolding fail_payment
  fail_missing env id reason s gone = ground arith

  -- The test of `approvePayment` may be out of date when it writes: without a fault and without a
  -- call of Pi, a payment that was `created` when it was read becomes `approved` whatever other
  -- requests have made of its row meanwhile, cancelled and completed ones included.
  pub approve_payment_overwrites :
      (env : Env Rows) (id : ℕ) (p q : Payment) (s : State Rows)
      → env.is_valid ≡ true
      → ((site : Site) → env.fault site ≡ none)
      → find id s.payments ≡ some p
      → p.status ≡ created
      → find id (env.meanwhile s.payments) ≡ some q
      → find id (approve_payment T env id none s).1.payments
        ≡ some (record q { status = approved; approved_at = some env.now })
  unfolding approve_payment begin_approval approve_on_pi is_transition_allowed
  approve_payment_overwrites env id p q s valid works found st later = ground (
    arith,
    works at_find,
    works at_update,
    works at_log,
    T.find-update id id (approved_payment T env none) (env.meanwhile s.payments),
  )

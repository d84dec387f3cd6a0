-- ===== src/Payment/Requests.antt =====
-- Sequences of the requests by which users move their payments, one after the other. The
-- resolution with Pi, which overrides a closed payment, is no such request (Payment/Resolution).

use tec_core_backend.Base.{
  ℕ, ◌≡◌, refl, inl, inr, Bool, true, false, Option, some, List, [], ◌∷◌, String, arith,
  Option-cases,
}
use tec_core_backend.Base.Table.{Table}
use tec_core_backend.Payment.Types.{
  Status, created, approved, completed, cancelled, failed, Payment, State, Env, Reply,
  payment_reply, failure, resolved, acknowledged,
}
use tec_core_backend.Payment.Approval.{
  CreateBody, create_payment, new_payment, approve_payment, approved_payment,
}
use tec_core_backend.Payment.Completion.{complete_payment, completed_payment}
use tec_core_backend.Payment.Closing.{
  cancel_payment, cancelled_payment, fail_payment, failed_payment,
}
use tec_core_backend.Payment.Transitions.{
  MayBecome, HasTransition, complete_payment-HasTransition, cancel_payment-HasTransition,
  approve_payment-HasTransition, fail_payment-HasTransition, fail_missing,
}

abbrev pub is_terminal : Status → Bool
is_terminal completed = true
is_terminal cancelled = true
is_terminal failed = true
is_terminal st = false

not_terminal : (to from : Status) → MayBecome to from → is_terminal from ≡ false
not_terminal created from h = elim h [ ]
not_terminal to from h = ground arith

module _ (T : Table Payment) where
  open T use {Rows, find, update, create, find-update, create_fresh, find-create}

  -- A request that creates, approves, completes, cancels or fails a payment, with what it meets.
  pub data Request : Type 0 where
    create_request : Env Rows → ℕ → CreateBody → Request
    approve_request : Env Rows → ℕ → Option ℕ → Request
    complete_request : Env Rows → ℕ → Option ℕ → Request
    cancel_request : Env Rows → ℕ → Request
    fail_request : Env Rows → ℕ → Option String → Request

  -- No other request runs while this one waits.
  abbrev pub alone : Env Rows → Env Rows
  alone env = record env { meanwhile = λ t. t }

  unfoldable pub run_request : Request → State Rows → State Rows
  run_request (create_request env most body) s = (create_payment T (alone env) most body s).1
  run_request (approve_request env id pi_id) s = (approve_payment T (alone env) id pi_id s).1
  run_request (complete_request env id tx_id) s = (complete_payment T (alone env) id tx_id s).1
  run_request (cancel_request env id) s = (cancel_payment T (alone env) id s).1
  run_request (fail_request env id reason) s = (fail_payment T (alone env) id reason s).1

  unfoldable pub run_requests : List Request → State Rows → State Rows
  run_requests [] s = s
  run_requests (r ∷ rs) s = run_requests rs (run_request r s)

  HasTransition-terminal :
      (before : Rows) (id : ℕ) (to : Status) (change : Payment → Payment) (r : Reply) (after : Rows)
      (j : ℕ) (p : Payment)
      → HasTransition T before before id to change r after
      → find j before ≡ some p
      → is_terminal p.status ≡ true
      → find j after ≡ some p
  HasTransition-terminal before id to change r after j p h found t = transition_of r h
    where
      transition_of :
          (r' : Reply) → HasTransition T before before id to change r' after → find j after ≡ some p
      transition_of (payment_reply n q) ((x, here, may, made, becomes), ok_status, e) = rw e (
          rw (find-update j id change before)
            (ground (arith, here, found, t, not_terminal to x.status may)))
      transition_of (failure n c) (f, e) = ground arith
      transition_of (resolved a) (f, e) = cc
      transition_of acknowledged (f, e) = cc

  create_payment-terminal :
      (env : Env Rows) (most : ℕ) (body : CreateBody) (s : State Rows) (j : ℕ) (p : Payment)
      → find j s.payments ≡ some p
      → find j (create_payment T env most body s).1.payments ≡ some p
  unfolding create_payment
  create_payment-terminal env most body s j p found = ground (
    arith,
    find-create j (new_payment T env body) s.payments,
    create_fresh (new_payment T env body) s.payments,
  )

  request_keeps :
      (q : Request) (s : State Rows) (j : ℕ) (p : Payment)
      → find j s.payments ≡ some p
      → is_terminal p.status ≡ true
      → find j (run_request q s).payments ≡ some p
  unfolding run_request
  request_keeps (create_request env most body) s j p found t =
      create_payment-terminal (alone env) most body s j p found
  request_keeps (approve_request env id pi_id) s j p found t =
      HasTransition-terminal s.payments id approved (approved_payment T (alone env) pi_id) _ _ j p
        (approve_payment-HasTransition T (alone env) id pi_id s refl) found t
  request_keeps (complete_request env id tx_id) s j p found t =
      HasTransition-terminal s.payments id completed (completed_payment T (alone env) tx_id) _ _ j p
        (complete_payment-HasTransition T (alone env) id tx_id s) found t
  request_keeps (cancel_request env id) s j p found t =
      HasTransition-terminal s.payments id cancelled (cancelled_payment T (alone env)) _ _ j p
        (cancel_payment-HasTransition T (alone env) id s) found t
  request_keeps (fail_request env id reason) s j p found t =
      elim (Option-cases (find id s.payments)) [
        | inl gone ↦ rw (fail_missing T (alone env) id reason s gone) found
        | inr (x, here) ↦
            HasTransition-terminal s.payments id failed
              (failed_payment T (alone env) x.metadata reason) _ _ j p
              (fail_payment-HasTransition T (alone env) id reason x s refl here) found t
      ]

  -- Requests to create, approve, complete, cancel or fail a payment that run one after the other, with
  -- any bodies and whatever faults they meet, leave a completed, cancelled or failed payment exactly
  -- as it is.
  pub run_requests-terminal :
      (qs : List Request) (s : State Rows) (j : ℕ) (p : Payment)
      → find j s.payments ≡ some p
      → is_terminal p.status ≡ true
      → find j (run_requests qs s).payments ≡ some p
  unfolding run_requests
  run_requests-terminal [] s j p found t = found
  run_requests-terminal (q ∷ qs) s j p found t =
      run_requests-terminal qs (run_request q s) j p (request_keeps q s j p found t) t

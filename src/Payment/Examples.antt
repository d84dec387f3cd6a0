-- ===== src/Payment/Examples.antt =====
-- Runs of the payment service on concrete tables, and its theorems at them.
use mathlib.Core.Option
use tec_core_backend.Base.{
  ℕ, ◌≡◌, ◌↔◌, ◌⊎◌, refl, true, false, none, some, List, [], ◌∷◌, ◌≡◌, ◌==◌, if◌then◌else◌,
}
use tec_core_backend.Base.Table.Rows.{rows}
use tec_core_backend.Payment.PiApi.{
  Net, response, unreachable, PiOp, network, judge, Circuit, reset, attempts, delay, call_pi_api,
}
use tec_core_backend.Payment.PiApi.Breaker.{IsUnanswered}
use tec_core_backend.Payment.Types.{
  Status, created, approved, completed, cancelled, failed, pi, Payment, object, State, Env,
  is_transition_allowed,
}
use tec_core_backend.Payment.Calls.{move_payment}
use tec_core_backend.Payment.Approval.{approve_payment}
use tec_core_backend.Payment.Completion.{
  begin_completion, complete_on_pi, complete_payment, completed_payment,
}
use tec_core_backend.Payment.Transitions.{
  MayBecome, is_transition_allowed_iff, HasTransition, complete_payment-HasTransition,
  approve_payment_overwrites,
}
use tec_core_backend.Payment.Requests.{
  Request, approve_request, complete_request, cancel_request, fail_request, run_requests,
  run_requests-terminal,
}
use tec_core_backend.Payment.Reconciliation.{Thresholds, reconcile_stale_payments}
use tec_core_backend.Payment.Reconciliation.Exact.{settle, reconcile_exact}
use tec_core_backend.Payment.Webhook.{handle_incomplete_payment}
use tec_core_backend.Payment.Webhook.Effect.{
  completed_by_webhook, IsApprovedIn, webhook_effect, webhook_unknown,
}
use tec_core_backend.Payment.Resolution.{PiPayment}

abbrev Kept : Type 0
Kept = List (ℕ × Payment)

-- A network that never answers, on two attempts.
abbrev dead : Net
dead = record {
  has_api_key = true;
  max_retries = 2;
  fetch = λ attempt. unreachable;
  now = 100;
  now_after = 200;
}

-- A network that answers at the second attempt.
abbrev slow : Net
slow = record {
  has_api_key = true;
  max_retries = 3;
  fetch = λ attempt. if attempt == 2 then response 200 else response 503;
  now = 60300;
  now_after = 60400;
}

abbrev env : Env Kept
env = record {
  fault = λ site. none;
  net = slow;
  has_app_id = true;
  is_sandbox = false;
  now = 500;
  meanwhile = λ t. t;
  user = some 7;
  is_valid = true;
}

abbrev a_payment : Status → Payment
a_payment st = record {
  user_id = 7;
  amount = 12;
  currency = "PI";
  method = pi;
  status = st;
  pi_payment_id = some 31;
  transaction_id = none;
  metadata = object [];
  created_at = 3;
  approved_at = none;
  completed_at = none;
  failed_at = none;
  cancelled_at = none;
  deleted_at = none;
}

abbrev with_status : Status → State Kept
with_status st = record {
  payments = (4, a_payment st) ∷ [];
  audits = [];
  events = [];
  circuit = reset;
}

-- Other requests cancel the payment meanwhile.
abbrev raced : Env Kept
raced = record env { meanwhile = λ t. (4, a_payment cancelled) ∷ [] }

complete_raced :
    (complete_payment rows raced 4 (some 9) (with_status approved)).1.payments
    ≡ (4, a_payment cancelled) ∷ []
unfolding complete_payment begin_completion complete_on_pi move_payment call_pi_api attempts judge
    delay
complete_raced = refl

created_is_approvable :
    (is_transition_allowed cancelled approved ≡ true) ↔ MayBecome approved cancelled
created_is_approvable = is_transition_allowed_iff cancelled approved

dead-IsUnanswered : IsUnanswered dead
unfolding attempts judge delay
dead-IsUnanswered = (refl, (network, refl))

abbrev four_calls : List (Net × PiOp)
four_calls =
    (dead, PiOp.approve) ∷ (dead, PiOp.complete) ∷ (dead, PiOp.cancel) ∷ (dead, PiOp.approve) ∷ []

abbrev tripped : Circuit
tripped = record { failures = 5; open_until = 60200 }

complete_payment-HasTransition_example :
    let (r, s') = complete_payment rows raced 4 (some 9) (with_status approved) in
    HasTransition rows
      ((4, a_payment approved) ∷ [])
      ((4, a_payment cancelled) ∷ [])
      4
      completed
      (completed_payment rows raced (some 9))
      r
      s'.payments
complete_payment-HasTransition_example =
    complete_payment-HasTransition rows raced 4 (some 9) (with_status approved)

approve_payment_overwrites_example :
    rows.find 4 (approve_payment rows raced 4 none (with_status created)).1.payments
    ≡ some (record (a_payment cancelled) { status = approved; approved_at = some 500 })
approve_payment_overwrites_example =
    approve_payment_overwrites rows raced 4 (a_payment created) (a_payment cancelled)
      (with_status created) refl (λ site. refl) refl refl refl

abbrev requests : List (Request rows)
requests =
    approve_request env 4 (some 31)
    ∷ complete_request env 4 (some 9)
    ∷ cancel_request env 4
    ∷ fail_request env 4 none
    ∷ []

run_requests-terminal_example :
    rows.find 4 (run_requests rows requests (with_status cancelled)).payments
    ≡ some (a_payment cancelled)
run_requests-terminal_example =
    run_requests-terminal rows requests (with_status cancelled) 4 (a_payment cancelled) refl refl

abbrev limits : Thresholds
limits = record { created_ms = 100; approved_ms = 400 }

reconcile_exact_example :
    rows.find 4 (reconcile_stale_payments rows limits env (with_status created)).1.payments
    ≡ Option.map (settle rows limits 500) (some (a_payment created))
reconcile_exact_example =
    reconcile_exact rows limits env (with_status created) 4 (λ site. refl) refl

webhook_effect_example :
    let after =
      (handle_incomplete_payment rows raced true
        (some 31)
        none
        (with_status approved)).1.payments in
    let now : Kept = (4, a_payment cancelled) ∷ [] in
    (after ≡ (4, a_payment approved) ∷ [])
    ⊎ ((approved ≡ approved)
        × (true ≡ true)
        × ((after ≡ now)
            ⊎ ((after ≡ rows.update 4 (λ q. record q { status = failed; failed_at = some 500 }) now)
                ⊎ (IsApprovedIn rows now 4
                    × (after ≡ rows.update 4 (completed_by_webhook rows 500 none) now)))))
webhook_effect_example =
    webhook_effect rows raced true 31 none (with_status approved) 4 (a_payment approved) refl

unknown_payment :
    (handle_incomplete_payment rows env true (some 32) none (with_status approved)).1.payments
    ≡ (4, a_payment approved) ∷ []
unknown_payment = webhook_unknown rows env true 32 none (with_status approved) refl

-- Pi says that the payment was cancelled.
abbrev told : PiPayment
told = record {
  developer_approved = true;
  transaction_verified = false;
  developer_completed = false;
  is_cancelled = true;
  user_cancelled = false;
  txid = none;
}

-- Another payment is created meanwhile.
abbrev joined : Env Kept
joined = record env { meanwhile = λ t. (4, a_payment completed) ∷ (9, a_payment created) ∷ [] }

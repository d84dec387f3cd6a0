-- ===== src/Payment/Diagram.antt =====
-- The handlers of tec-payment-service/src/controllers/payment.controller.ts that move a payment, together.
use tec_core_backend.Base.{ℕ, ◌≡◌, Option, some, String}
use tec_core_backend.Base.Table.{Table}
use tec_core_backend.Payment.Types.{Payment, State, Env, approved, cancelled, failed}
use tec_core_backend.Payment.Approval.{approve_payment, approved_payment}
use tec_core_backend.Payment.Closing.{
  cancel_payment, cancelled_payment, fail_payment, failed_payment,
}
use tec_core_backend.Payment.Transitions.{
  HasTransition, approve_payment-HasTransition, cancel_payment-HasTransition,
  fail_payment-HasTransition,
}

module _ (T : Table Payment) where
  open T use {Rows, find}

  -- If the row is there and no other request changes the table meanwhile, whatever faults they meet and
  -- whatever the Pi API answers: where `approvePayment`, `cancelPayment` or `failPayment` replies with a
  -- payment, the status is 200, the row was in a state from which the diagram allows `approved`,
  -- `cancelled` or `failed`, and only that row has changed, to that state; else it replies with an
  -- error and has changed no payment.
  pub handlers-HasTransition :
      (env : Env Rows) (id : ℕ) (pi_id : Option ℕ) (reason : Option String) (p : Payment)
      (s : State Rows)
      → env.meanwhile s.payments ≡ s.payments
      → find id s.payments ≡ some p
      → HasTransition T s.payments s.payments id approved
          (approved_payment T env pi_id)
          (approve_payment T env id pi_id s).0
          (approve_payment T env id pi_id s).1.payments
        × HasTransition T s.payments s.payments id cancelled
            (cancelled_payment T env)
            (cancel_payment T env id s).0
            (cancel_payment T env id s).1.payments
        × HasTransition T s.payments s.payments id failed
            (failed_payment T env p.metadata reason)
            (fail_payment T env id reason s).0
            (fail_payment T env id reason s).1.payments
  handlers-HasTransition env id pi_id reason p s alone found = (
    approve_payment-HasTransition T env id pi_id s alone,
    cancel_payment-HasTransition T env id s,
    fail_payment-HasTransition T env id reason p s alone found,
  )

-- ===== src/Payment/Webhook.antt =====
-- `handleIncompletePayment` (tec-payment-service/src/controllers/webhook.controller.ts): Pi tells
-- of a payment that it has not seen completed. Whether the signature is valid is given
-- here; Signature has its test.
pub mod Effect
pub mod Signature
mod Examples
use tec_core_backend.Base.{
  ℕ, Bool, true, false, not, ◌&&◌, ◌||◌, Option, none, some, ◌==◌, is_some, if◌then◌else◌,
}
use tec_core_backend.Base.Action.{
  Result, ok, err, ◌>>=◌, ◌>>◌, pure, throw, or_throw, throw_if, transaction, modify, get, run_try,
}
use tec_core_backend.Base.Table.{Table}
use tec_core_backend.Payment.PiApi.{PiOp, PiError, call_pi_api}
use tec_core_backend.Payment.Types.{
  id_value, Status, approved, completed, failed, Value, text, object, Payment, payment_confirmed,
  payment_failed, payment_webhook_received, State, DbError, p1xxx, unavailable, at_find,
  at_find_again, at_update, at_create, validation_error, unauthorized, database_unavailable,
  internal_error, Reply, acknowledged, failure, Thrown, reply, db, Env, get_metadata_object,
  set_field,
}
use tec_core_backend.Payment.Calls.{
  Act, attempt, create_audit_log, update_payment, interleave, audit_payment,
}

abbrev pub has_pi_id : ℕ → Payment → Bool
has_pi_id pi_id p = elim p.pi_payment_id [ none ↦ false | some x ↦ x == pi_id ]

abbrev pub is_approved : Status → Bool
is_approved approved = true
is_approved st = false

-- The last tests of the `catch` clause.
abbrev pub catch_webhook : Thrown → Reply
catch_webhook (reply r) = r
catch_webhook (db unavailable) = failure 503 database_unavailable
catch_webhook (db p1xxx) = failure 503 database_unavailable
catch_webhook t = failure 500 internal_error

module _ (T : Table Payment) where
  open T use {Rows, find, find_first}

  abbrev pub webhook_failed : Env Rows → Payment → Payment
  webhook_failed env p = record p { status = failed; failed_at = some env.now }

  abbrev pub webhook_completed : Env Rows → Option ℕ → Payment → Payment
  webhook_completed env tx_id p = record p {
    status = completed;
    completed_at = some env.now;
    transaction_id = tx_id;
    metadata = object (
        set_field "completed_via" (text "webhook")
          (set_field "transaction_id" (id_value tx_id) (get_metadata_object p.metadata)));
  }

  -- `prisma.payment.findFirst` by the Pi payment id, and the audit entry of the event.
  unfoldable pub find_announced : Env Rows → ℕ → Act T (Option (ℕ × Payment))
  unfolding create_audit_log
  find_announced env pi_id = do
    attempt T env at_find
    s ← get
    let found = find_first (has_pi_id pi_id) s.payments
    modify (
        create_audit_log T env (elim found [ none ↦ none | some (id, p) ↦ some p.user_id ])
          (elim found [ none ↦ none | some (id, p) ↦ some id ]) payment_webhook_received)
    pure found

  -- The call of Pi: an error fails the payment, and the webhook is acknowledged.
  unfoldable pub complete_announced : Env Rows → ℕ → Payment → Act T (Unit {0})
  unfolding create_audit_log
  complete_announced env id p s =
      let (r, c) = call_pi_api env.net PiOp.complete s.circuit in
      let s' : State Rows = record s { circuit = c } in
      elim r [
        | ok u ↦ (ok tt, s')
        | err e ↦
            (do
              q ← update_payment T env at_update id (webhook_failed env)
              audit_payment T env id p payment_failed
              throw (reply acknowledged))
              s'
      ]

  -- `{ status: 'approved' }` read again inside the transaction; anything else ends the handler.
  unfoldable pub settle_announced : Env Rows → ℕ → Option ℕ → Act T Payment
  settle_announced env id tx_id = transaction do
    attempt T env at_find_again
    s ← get
    p ← or_throw (find id s.payments) (reply acknowledged)
    throw_if (not (is_approved p.status)) (reply acknowledged)
    update_payment T env at_update id (webhook_completed env tx_id)

  -- `handleIncompletePayment`
  unfoldable pub handle_incomplete_payment :
      Env Rows → Bool → Option ℕ → Option ℕ → State Rows → Reply × State Rows
  unfolding create_audit_log
  handle_incomplete_payment env signature_valid pi_id tx_id =
      run_try (λ t s. (catch_webhook t, s))
        do
          throw_if (not signature_valid) (reply (failure 401 unauthorized))
          key ← or_throw pi_id (reply (failure 400 validation_error))
          (id, p) ← or_throw (← find_announced env key) (reply acknowledged)
          throw_if (not (is_approved p.status)) (reply acknowledged)
          interleave T env
          complete_announced env id p
          q ← settle_announced env id tx_id
          audit_payment T env id q payment_confirmed
          pure acknowledged

-- ===== src/Payment/Closing.antt =====
-- `cancelPayment`, `failPayment` and `getPaymentStatus`.
use tec_core_backend.Base.{ℕ, not, Option, none, some, List, String}
use tec_core_backend.Base.Action.{◌>>=◌, ◌>>◌, pure, or_throw, throw_if, run_try}
use tec_core_backend.Base.Table.{Table}
use tec_core_backend.Payment.Types.{
  cancelled, failed, Value, text, Metadata, object, Payment, payment_cancelled, payment_failed,
  State, p2025, at_find, at_update, validation_error, not_found, invalid_status, payment_modified,
  Reply, payment_reply, failure, Thrown, reply, db, missing, invalid_transition, Env,
  get_metadata_object, set_field, is_transition_allowed,
}
use tec_core_backend.Payment.Calls.{
  catch_rest, create_audit_log, find_payment, update_payment, interleave, audit_payment,
  move_payment,
}

module _ (T : Table Payment) where
  open T use {Rows, find, update, create}

  abbrev pub cancelled_payment : Env Rows → Payment → Payment
  cancelled_payment env p = record p { status = cancelled; cancelled_at = some env.now }

  abbrev pub catch_cancel : Thrown → State Rows → Reply × State Rows
  catch_cancel missing s = (failure 404 not_found, s)
  catch_cancel (invalid_transition from) s = (failure 409 invalid_status, s)
  catch_cancel (db p2025) s = (failure 410 payment_modified, s)
  catch_cancel t s = (catch_rest t, s)

  -- `cancelPayment`
  unfoldable pub cancel_payment : Env Rows → ℕ → State Rows → Reply × State Rows
  unfolding create_audit_log
  cancel_payment env id = run_try catch_cancel do
    throw_if (not env.is_valid) (reply (failure 400 validation_error))
    q ← move_payment T env id cancelled (cancelled_payment env)
    audit_payment T env id q payment_cancelled
    pure (payment_reply 200 q)

  -- `...(reason ? { failure_reason: reason } : {})`
  abbrev pub with_reason : Option String → List (String × Value) → List (String × Value)
  with_reason none fields = fields
  with_reason (some reason) fields = set_field "failure_reason" (text reason) fields

  abbrev pub failed_payment : Env Rows → Metadata → Option String → Payment → Payment
  failed_payment env metadata reason p = record p {
    status = failed;
    failed_at = some env.now;
    metadata = object (with_reason reason (get_metadata_object metadata));
  }

  abbrev pub catch_fail : Thrown → State Rows → Reply × State Rows
  catch_fail (db p2025) s = (failure 410 payment_modified, s)
  catch_fail t s = (catch_rest t, s)

  -- `failPayment`
  unfoldable pub fail_payment : Env Rows → ℕ → Option String → State Rows → Reply × State Rows
  unfolding create_audit_log is_transition_allowed get_metadata_object set_field
  fail_payment env id reason = run_try catch_fail do
    throw_if (not env.is_valid) (reply (failure 400 validation_error))
    p ← or_throw (← find_payment T env at_find id) (reply (failure 404 not_found))
    throw_if (not (is_transition_allowed p.status failed)) (reply (failure 409 invalid_status))
    interleave T env
    q ← update_payment T env at_update id (failed_payment env p.metadata reason)
    audit_payment T env id p payment_failed
    pure (payment_reply 200 q)

  -- `getPaymentStatus`; the columns that `select` names are read as the whole row.
  unfoldable pub get_payment_status : Env Rows → ℕ → State Rows → Reply × State Rows
  get_payment_status env id =
      run_try (λ t s. (catch_rest t, s))
        do
          throw_if (not env.is_valid) (reply (failure 400 validation_error))
          p ← or_throw (← find_payment T env at_find id) (reply (failure 404 not_found))
          pure (payment_reply 200 p)

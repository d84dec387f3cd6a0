-- ===== src/Payment/Completion.antt =====
-- `completePayment`.
use tec_core_backend.Base.{ℕ, not, ◌&&◌, ◌||◌, Option, some, ◌∷◌, is_some, if◌then◌else◌}
use tec_core_backend.Base.Action.{◌>>=◌, ◌>>◌, pure, or_throw, throw_if, modify, run_try}
use tec_core_backend.Base.Table.{Table}
use tec_core_backend.Payment.PiApi.{PiOp}
use tec_core_backend.Payment.Types.{
  id_value, completed, object, Payment, payment_confirmed, invalid_transition_attempt, State, p2025,
  at_find, at_publish, validation_error, service_not_configured, not_found, invalid_status,
  payment_modified, Reply, payment_reply, failure, Thrown, reply, db, missing, invalid_transition,
  Env, get_metadata_object, set_field,
}
use tec_core_backend.Payment.Calls.{
  catch_rest, Act, create_audit_log, find_payment, interleave, call_pi, audit_payment,
  require_transition, is_pi, move_payment,
}

module _ (T : Table Payment) where
  open T use {Rows, find, update, create}

  abbrev pub completed_payment : Env Rows → Option ℕ → Payment → Payment
  completed_payment env tx_id p = record p {
    status = completed;
    completed_at = some env.now;
    transaction_id = tx_id;
    metadata =
        object (set_field "transaction_id" (id_value tx_id) (get_metadata_object p.metadata));
  }

  -- The Pi call of `completePayment`, for a Pi payment with an id outside the sandbox.
  unfoldable pub complete_on_pi : Env Rows → Payment → Act T (Unit {0})
  complete_on_pi env p =
      if is_pi p.method && is_some p.pi_payment_id && not env.is_sandbox
      then throw_if (not env.net.has_api_key || not env.has_app_id)
          (reply (failure 503 service_not_configured))
        >> call_pi T env PiOp.complete
      else pure tt

  -- The event that follows the reply: only a Pi payment has one, and a fault is swallowed.
  abbrev pub emit_completed : Env Rows → ℕ → Payment → Option ℕ → State Rows → State Rows
  emit_completed env id q pi_id s =
      if is_pi q.method && not (is_some (env.fault at_publish))
      then record s {
        events =
            (record {
              payment_id = id;
              user_id = q.user_id;
              amount = q.amount;
              currency = q.currency;
              pi_payment_id = pi_id;
            })
            ∷ s.events;
      }
      else s

  abbrev pub catch_complete : Env Rows → ℕ → Thrown → State Rows → Reply × State Rows
  catch_complete env id missing s = (failure 404 not_found, s)
  catch_complete env id (invalid_transition from) s = (
    failure 409 invalid_status,
    create_audit_log T env env.user (some id) invalid_transition_attempt s,
  )
  catch_complete env id (db p2025) s = (failure 410 payment_modified, s)
  catch_complete env id t s = (catch_rest t, s)

  -- `completePayment` up to its Pi call: the row that was read.
  unfoldable pub begin_completion : Env Rows → ℕ → Act T Payment
  unfolding create_audit_log
  begin_completion env id = do
    throw_if (not env.is_valid) (reply (failure 400 validation_error))
    p ← or_throw (← find_payment T env at_find id) (reply (failure 404 not_found))
    require_transition T env id p completed
    interleave T env
    pure p

  -- `completePayment`
  unfoldable pub complete_payment : Env Rows → ℕ → Option ℕ → State Rows → Reply × State Rows
  unfolding create_audit_log
  complete_payment env id tx_id = run_try (catch_complete env id) do
    p ← begin_completion env id
    complete_on_pi env p
    q ← move_payment T env id completed (completed_payment env tx_id)
    audit_payment T env id q payment_confirmed
    modify (emit_completed env id q p.pi_payment_id)
    pure (payment_reply 200 q)

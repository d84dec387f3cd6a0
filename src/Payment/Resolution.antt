-- ===== src/Payment/Resolution.antt =====
-- `resolveIncompletePayment`
-- (tec-payment-service/src/controllers/payment.controller.ts): the state of a payment on the Pi
-- Network decides that of the local row.
pub mod Agreement
use tec_core_backend.Base.{
  ℕ, Bool, true, false, not, ◌&&◌, ◌||◌, Option, none, some, List, if◌then◌else◌,
}
use tec_core_backend.Base.Action.{
  Result, ok, err, ◌>>=◌, ◌>>◌, pure, throw, or_throw, throw_if, modify, get, run_try,
}
use tec_core_backend.Base.Table.{Table}
use tec_core_backend.Payment.PiApi.{PiOp, call_pi_api}
use tec_core_backend.Payment.Types.{
  or_keep, Status, completed, cancelled, Payment, State, DbError, at_find, at_update,
  validation_error, service_not_configured, pi_api_error, complete_failed, internal_error, Reply,
  resolved, Resolution, completed_now, already_completed, cancelled_on_pi, no_action_needed,
  failure, Thrown, reply, Env,
}
use tec_core_backend.Payment.Calls.{Act, attempt, interleave, update_payment}
use tec_core_backend.Payment.Webhook.{has_pi_id}

-- The `status` object of the Pi API, and the transaction's id.
pub record PiPayment : Type 0 where
  pub developer_approved : Bool
  pub transaction_verified : Bool
  pub developer_completed : Bool
  pub is_cancelled : Bool
  pub user_cancelled : Bool
  pub txid : Option ℕ

abbrev pub is_completed : Status → Bool
is_completed completed = true
is_completed st = false

abbrev pub is_cancelled_status : Status → Bool
is_cancelled_status cancelled = true
is_cancelled_status st = false

-- An early return in the `catch` clause of the whole handler.
abbrev pub catch_resolve : Thrown → Reply
catch_resolve (reply r) = r
catch_resolve t = failure 500 internal_error

module _ (T : Table Payment) where
  open T use {Rows, find_first}

  abbrev pub resolved_completed : Env Rows → Option ℕ → Payment → Payment
  resolved_completed env txid p = record p {
    status = completed;
    transaction_id = or_keep txid p.transaction_id;
    completed_at = some env.now;
  }

  abbrev pub resolved_cancelled : Env Rows → Payment → Payment
  resolved_cancelled env p = record p { status = cancelled; cancelled_at = some env.now }

  -- `localPayment && localPayment.status !== ...`: the row that is to be changed.
  abbrev pub update_local :
      Env Rows → (Status → Bool) → (Payment → Payment) → Option (ℕ × Payment) → Act T (Unit {0})
  update_local env is_done change none = pure tt
  update_local env is_done change (some (id, p)) =
      if is_done p.status then pure tt else update_payment T env at_update id change >> pure tt

  -- Case A, inside its own `try`: any error becomes 500 `COMPLETE_FAILED`. Other requests run while
  -- the handler waits for Pi.
  unfoldable pub force_complete : Env Rows → PiPayment → Option (ℕ × Payment) → Act T Reply
  force_complete env data_of_pi row s = elim data_of_pi.txid [
    | none ↦ (ok (failure 502 pi_api_error), s)
    | some txid ↦
        let (r, c) = call_pi_api env.net PiOp.complete s.circuit in
        let s' : State Rows = record s { circuit = c; payments = env.meanwhile s.payments } in
        elim r [
          | err e ↦ (ok (failure 500 complete_failed), s')
          | ok u ↦
              let (done, s'') =
                update_local env is_completed (resolved_completed env (some txid)) row s' in
              elim done [
                | ok v ↦ (ok (resolved completed_now), s'')
                | err e ↦ (ok (failure 500 complete_failed), s'')
              ]
        ]
  ]

  -- Case C: a failed cancellation on Pi is only logged. Other requests run while the handler waits.
  abbrev pub force_cancel : Env Rows → Option (ℕ × Payment) → Act T Reply
  force_cancel env row s =
      let (r, c) = call_pi_api env.net PiOp.cancel s.circuit in
      let s' : State Rows = record s { circuit = c; payments = env.meanwhile s.payments } in
      (update_local env is_cancelled_status (resolved_cancelled env) row
          >> pure (resolved cancelled_on_pi))
        s'

  -- The three cases, in order.
  unfoldable pub reconcile_local : Env Rows → PiPayment → Option (ℕ × Payment) → Act T Reply
  unfolding force_complete
  reconcile_local env pi row =
      if pi.developer_approved && pi.transaction_verified && not pi.developer_completed
      then force_complete env pi row
      else if pi.developer_completed
      then interleave T env
        >> update_local env is_completed (resolved_completed env pi.txid) row
        >> pure (resolved already_completed)
      else if not pi.transaction_verified || pi.is_cancelled || pi.user_cancelled
      then force_cancel env row
      else pure (resolved no_action_needed)

  -- `resolveIncompletePayment`; `answer` is what `piGetPayment` returns, nothing if it throws.
  unfoldable pub resolve_incomplete_payment :
      Env Rows → ℕ → Option PiPayment → State Rows → Reply × State Rows
  unfolding reconcile_local
  resolve_incomplete_payment env pi_id answer =
      run_try (λ t s. (catch_resolve t, s))
        do
          throw_if (not env.is_valid) (reply (failure 400 validation_error))
          throw_if (not env.net.has_api_key) (reply (failure 503 service_not_configured))
          pi ← or_throw answer (reply (failure 502 pi_api_error))
          attempt T env at_find
          s ← get
          reconcile_local env pi (find_first (has_pi_id pi_id) s.payments)

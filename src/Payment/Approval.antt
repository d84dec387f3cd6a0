-- ===== src/Payment/Approval.antt =====
-- `createPayment` and `approvePayment`.
use tec_core_backend.Base.{
  ℕ, not, ◌&&◌, ◌||◌, Option, none, some, [], String, ltb, is_some, if◌then◌else◌,
}
use tec_core_backend.Base.Action.{◌>>=◌, ◌>>◌, pure, or_throw, throw_if, modify, get, run_try}
use tec_core_backend.Base.Table.{Table}
use tec_core_backend.Payment.PiApi.{PiOp}
use tec_core_backend.Payment.Types.{
  or_keep, created, approved, Method, Metadata, object, Payment, payment_initiated,
  payment_approved, State, p2002, p2003, p2025, at_find, at_update, at_create, validation_error,
  duplicate_payment, invalid_user, service_not_configured, not_found, payment_modified,
  duplicate_pi_payment, Reply, payment_reply, failure, Thrown, reply, db, Env,
}
use tec_core_backend.Payment.Calls.{
  catch_rest, Act, attempt, create_audit_log, find_payment, update_payment, interleave, call_pi,
  audit_payment, require_transition, is_pi,
}

-- The body of `POST /create`.
pub record CreateBody : Type 0 where
  pub user_id : ℕ
  pub amount : ℕ
  -- `currency = 'PI'`
  pub currency : Option String
  pub payment_method : Method
  -- `metadata || {}`
  pub metadata : Option Metadata

module _ (T : Table Payment) where
  open T use {Rows, find, update, create}

  abbrev pub new_payment : Env Rows → CreateBody → Payment
  new_payment env body = record {
    user_id = body.user_id;
    amount = body.amount;
    currency = elim body.currency [ none ↦ "PI" | some c ↦ c ];
    method = body.payment_method;
    status = created;
    pi_payment_id = none;
    transaction_id = none;
    metadata = elim body.metadata [ none ↦ object [] | some m ↦ m ];
    created_at = env.now;
    approved_at = none;
    completed_at = none;
    failed_at = none;
    cancelled_at = none;
    deleted_at = none;
  }

  abbrev pub catch_create : Thrown → State Rows → Reply × State Rows
  catch_create (db p2002) s = (failure 409 duplicate_payment, s)
  catch_create (db p2003) s = (failure 400 invalid_user, s)
  catch_create t s = (catch_rest t, s)

  -- `createPayment`
  unfoldable pub create_payment : Env Rows → ℕ → CreateBody → State Rows → Reply × State Rows
  unfolding create_audit_log
  create_payment env max_amount body = run_try catch_create do
    throw_if (not env.is_valid) (reply (failure 400 validation_error))
    throw_if (ltb max_amount body.amount) (reply (failure 400 validation_error))
    attempt T env at_create
    s ← get
    let (id, rows) = create (new_payment env body) s.payments
    modify (λ (t : State Rows). record t { payments = rows })
    modify (create_audit_log T env (some body.user_id) (some id) payment_initiated)
    pure (payment_reply 201 (new_payment env body))

  abbrev pub approved_payment : Env Rows → Option ℕ → Payment → Payment
  approved_payment env pi_id p = record p {
    status = approved;
    pi_payment_id = or_keep pi_id p.pi_payment_id;
    approved_at = some env.now;
  }

  -- The Pi call of `approvePayment`, for a Pi payment with an id outside the sandbox.
  unfoldable pub approve_on_pi : Env Rows → Payment → Option ℕ → Act T (Unit {0})
  approve_on_pi env p pi_id =
      if is_pi p.method && is_some pi_id && not env.is_sandbox
      then call_pi T env PiOp.approve
      else pure tt

  abbrev pub catch_approve : Thrown → State Rows → Reply × State Rows
  catch_approve (db p2025) s = (failure 410 payment_modified, s)
  catch_approve (db p2002) s = (failure 409 duplicate_pi_payment, s)
  catch_approve t s = (catch_rest t, s)

  -- `approvePayment` up to its Pi call: the row that was read.
  unfoldable pub begin_approval : Env Rows → ℕ → Option ℕ → Act T Payment
  unfolding create_audit_log
  begin_approval env id pi_id = do
    throw_if (not env.is_valid) (reply (failure 400 validation_error))
    throw_if (is_some pi_id && (not env.net.has_api_key || not env.has_app_id))
        (reply (failure 503 service_not_configured))
    p ← or_throw (← find_payment T env at_find id) (reply (failure 404 not_found))
    require_transition T env id p approved
    interleave T env
    pure p

  -- `approvePayment`
  unfoldable pub approve_payment : Env Rows → ℕ → Option ℕ → State Rows → Reply × State Rows
  unfolding create_audit_log
  approve_payment env id pi_id = run_try catch_approve do
    p ← begin_approval env id pi_id
    approve_on_pi env p pi_id
    q ← update_payment T env at_update id (approved_payment env pi_id)
    audit_payment T env id p payment_approved
    pure (payment_reply 200 q)

-- ===== src/Payment/Calls.antt =====
-- The calls that the handlers of tec-payment-service/src/controllers/payment.controller.ts share:
-- the database, the audit log, the Pi client, and the tests of a payment's state. A handler is its
-- whole `try` block with its `catch` clause: a function of what the request meets and of the
-- state. The audit entries, which the code does not wait for, are written at once; only logging is
-- left out.
use tec_core_backend.Base.{ℕ, Bool, true, false, not, Option, none, some, ◌∷◌, if◌then◌else◌}
use tec_core_backend.Base.Action.{
  ok, err, Action, ◌>>=◌, ◌>>◌, pure, throw, or_throw, throw_if, transaction, modify,
}
use tec_core_backend.Base.Table.{Table}
use tec_core_backend.Payment.PiApi.{PiOp, call_pi_api}
use tec_core_backend.Payment.Types.{
  Status, Method, pi, Payment, AuditEvent, invalid_transition_attempt, State, p2025, unavailable,
  Site, at_find_again, at_update, at_log, database_unavailable, internal_error, invalid_status,
  pi_code, Reply, failure, Thrown, reply, db, missing, invalid_transition, Env,
  is_transition_allowed,
}

-- `error instanceof PrismaClientInitializationError || ...`, the last test of every `catch`.
abbrev pub catch_rest : Thrown → Reply
catch_rest (reply r) = r
catch_rest (db unavailable) = failure 503 database_unavailable
catch_rest _ = failure 500 internal_error

abbrev pub is_pi : Method → Bool
is_pi pi = true
is_pi m = false

module _ (T : Table Payment) where
  open T use {Rows, find, update, create}

  abbrev pub Act : Type 0 → Type 0
  Act A = Action (State Rows) Thrown A

  -- A call of the database throws if it meets a fault.
  abbrev pub attempt : Env Rows → Site → Act (Unit {0})
  attempt env site s = elim (env.fault site) [ none ↦ (ok tt, s) | some e ↦ (err (db e), s) ]

  -- `createAuditLog`: a fault is swallowed.
  unfoldable pub create_audit_log :
      Env Rows → Option ℕ → Option ℕ → AuditEvent → State Rows → State Rows
  create_audit_log env user_id payment_id event s = elim (env.fault at_log) [
    | none ↦ record s {
      audits = (record { user_id = user_id; payment_id = payment_id; event = event }) ∷ s.audits;
    }
    | some e ↦ s
  ]

  abbrev pub find_payment : Env Rows → Site → ℕ → Act (Option Payment)
  find_payment env site id s = (attempt env site >> pure (find id s.payments)) s

  -- `prisma.payment.update`: P2025 if the row is not there.
  abbrev pub update_payment : Env Rows → Site → ℕ → (Payment → Payment) → Act Payment
  update_payment env site id change s =
      (do
        attempt env site
        p ← or_throw (find id s.payments) (db p2025)
        modify (λ (t : State Rows). record t { payments = update id change t.payments })
        pure (change p))
        s

  -- While a handler waits, other requests run.
  abbrev pub interleave : Env Rows → Act (Unit {0})
  interleave env = modify (λ (t : State Rows). record t { payments = env.meanwhile t.payments })

  -- The Pi call of a handler: an error of the client becomes the reply.
  abbrev pub call_pi : Env Rows → PiOp → Act (Unit {0})
  call_pi env op s =
      let (r, c) = call_pi_api env.net op s.circuit in
      elim r [
        | ok u ↦ (ok tt, record s { circuit = c })
        | err e ↦ (err (reply (failure e.http_status (pi_code e.code))), record s { circuit = c })
      ]

  -- Throws the reply 409 `INVALID_STATUS`.
  abbrev pub refuse_status : Act (Unit {0})
  refuse_status = throw (reply (failure 409 invalid_status))

  abbrev pub audit_payment : Env Rows → ℕ → Payment → AuditEvent → Act (Unit {0})
  audit_payment env id p event = modify (create_audit_log env (some p.user_id) (some id) event)

  -- The test of `approvePayment` and `completePayment`, with its audit entry.
  abbrev pub require_transition : Env Rows → ℕ → Payment → Status → Act (Unit {0})
  require_transition env id p to =
      if is_transition_allowed p.status to
      then pure tt
      else audit_payment env id p invalid_transition_attempt >> refuse_status

  -- The row of a payment that may still go to the given status, read inside a transaction.
  abbrev pub find_movable : Env Rows → ℕ → Status → Act Payment
  find_movable env id to = do
    p ← or_throw (← find_payment env at_find_again id) missing
    throw_if (not (is_transition_allowed p.status to)) (invalid_transition p.status)
    pure p

  -- The transaction of `completePayment` and `cancelPayment`: reads the row again, and changes it
  -- if its state allows that.
  unfoldable pub move_payment : Env Rows → ℕ → Status → (Payment → Payment) → Act Payment
  unfolding is_transition_allowed
  move_payment env id to change =
      transaction do p ← find_movable env id to; update_payment env at_update id change

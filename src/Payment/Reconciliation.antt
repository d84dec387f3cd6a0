-- ===== src/Payment/Reconciliation.antt =====
-- `reconcileStalePayments` (tec-payment-service/src/services/reconciliation.service.ts): payments
-- that have waited too long become `failed`.
pub mod Exact
use tec_core_backend.Base.{
  ℕ, ◌+◌, ◌≡◌, refl, Bool, true, false, not, ◌&&◌, ◌||◌, Option, none, some, List, [], ◌∷◌, ◌++◌,
  ltb, is_some, length, if◌then◌else◌,
}
use tec_core_backend.Base.Action.{Result, ok, err}
use tec_core_backend.Base.Table.{Table}
use tec_core_backend.Payment.Types.{
  Status, created, approved, failed, Payment, Metadata, object, flag, a_status, number, text, Audit,
  payment_reconciled, State, DbError, at_find, at_row, Env, internal_error, Reply, failure,
}
use tec_core_backend.Payment.Calls.{create_audit_log}

-- `env.RECONCILE_CREATED_THRESHOLD_MS` and `env.RECONCILE_APPROVED_THRESHOLD_MS`
pub record Thresholds : Type 0 where
  pub created_ms : ℕ
  pub approved_ms : ℕ

-- `ReconciliationDetail`
pub record Detail : Type 0 where
  pub id : ℕ
  pub original_status : Status
  pub reconciled_at : ℕ

-- `t < now - threshold`
abbrev pub is_before : ℕ → ℕ → ℕ → Bool
is_before now threshold t = ltb (t + threshold) now

-- `{ approved_at: { lt: cutoff } }` or `{ approved_at: null, created_at: { lt: cutoff } }`
abbrev pub approved_before : ℕ → ℕ → Option ℕ → ℕ → Bool
approved_before now threshold (some t) created_at = is_before now threshold t
approved_before now threshold none created_at = is_before now threshold created_at

abbrev pub waits_too_long : Thresholds → ℕ → Status → Payment → Bool
waits_too_long limits now created p = is_before now limits.created_ms p.created_at
waits_too_long limits now approved p =
    approved_before now limits.approved_ms p.approved_at p.created_at
waits_too_long limits now st p = false

-- The `where` clause of the query.
unfoldable pub is_stale : Thresholds → ℕ → Payment → Bool
is_stale limits now p = not (is_some p.deleted_at) && waits_too_long limits now p.status p

-- The `data` of the update; `from` is the status that the query read.
abbrev pub reconciled_payment : ℕ → Status → Payment → Payment
reconciled_payment now from p = record p {
  status = failed;
  failed_at = some now;
  metadata = object (
      ("reconciled", flag true)
      ∷ ("original_status", a_status from)
      ∷ ("reconciled_at", number now)
      ∷ ("reason", text "Stale payment auto-reconciled")
      ∷ []);
}

module _ (T : Table Payment) where
  open T use {Rows, find, find_many, update}

  -- One round of the loop, for a row that may be gone: an update that fails is skipped.
  unfoldable pub reconcile_row :
      Env Rows → ℕ → Payment → Option Payment → State Rows → List Detail × State Rows
  unfolding create_audit_log
  reconcile_row env id p none s = ([], s)
  reconcile_row env id p (some q) s = elim (env.fault (at_row id)) [
    | some e ↦ ([], s)
    | none ↦ (
      (record { id = id; original_status = p.status; reconciled_at = env.now }) ∷ [],
      create_audit_log T env (some p.user_id) (some id) payment_reconciled
          (record s { payments = update id (reconciled_payment env.now p.status) s.payments }),
    )
  ]

  -- The loop over the rows that the query returned.
  unfoldable pub reconcile_rows :
      Env Rows → List (ℕ × Payment) → State Rows → List Detail × State Rows
  reconcile_rows env [] s = ([], s)
  reconcile_rows env ((id, p) ∷ rows) s =
      let (here, s') = reconcile_row env id p (find id s.payments) s in
      let (details, s'') = reconcile_rows env rows s' in (here ++ details, s'')

  -- `reconcileStalePayments`: `reconciledCount` with the details; other requests may run between the
  -- query and the loop.
  unfoldable pub reconcile_stale_payments :
      Thresholds → Env Rows → State Rows → Result DbError (ℕ × List Detail) × State Rows
  unfolding reconcile_rows
  reconcile_stale_payments limits env s = elim (env.fault at_find) [
    | some e ↦ (err e, s)
    | none ↦
        let stale = find_many (is_stale limits env.now) s.payments in
        let (details, s') =
          reconcile_rows env stale (record s { payments = env.meanwhile s.payments }) in
        (ok (length details, details), s')
  ]

  -- `triggerReconciliation` of tec-payment-service/src/controllers/payment.controller.ts.
  unfoldable pub trigger_reconciliation :
      Thresholds → Env Rows → State Rows → Result Reply (ℕ × List Detail) × State Rows
  unfolding reconcile_stale_payments
  trigger_reconciliation limits env s =
      let (r, s') = reconcile_stale_payments limits env s in
      elim r [ ok found ↦ (ok found, s') | err e ↦ (err (failure 500 internal_error), s') ]

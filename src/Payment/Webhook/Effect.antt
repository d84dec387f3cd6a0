-- ===== src/Payment/Webhook/Effect.antt =====
-- What a webhook does to the table of payments.
use mathlib.Core.Option
use tec_core_backend.Base.{ℕ, ◌≡◌, ◌⊎◌, Bool, true, Option, none, some, arith}
use tec_core_backend.Base.Action.{Result, ok, err}
use tec_core_backend.Base.Table.{Table}
use tec_core_backend.Payment.Types.{
  approved, completed, failed, Payment, State, Thrown, Env, object, text, id_value, set_field,
  get_metadata_object,
}
use tec_core_backend.Payment.Webhook.{
  has_pi_id, webhook_failed, webhook_completed, find_announced, complete_announced,
  settle_announced, handle_incomplete_payment,
}

module _ (T : Table Payment) where
  open T use {Rows, find, find_first, update}

  abbrev HasFound : ℕ → State Rows → Result Thrown (Option (ℕ × Payment)) × State Rows → Type 0
  HasFound key s (ok found, s') =
      (found ≡ find_first (has_pi_id key) s.payments) × (s'.payments ≡ s.payments)
  HasFound key s (err e, s') = s'.payments ≡ s.payments

  find_announced_lem :
      (env : Env Rows) (key : ℕ) (s : State Rows) → HasFound key s (find_announced T env key s)
  unfolding find_announced
  find_announced_lem env key s = ground arith

  abbrev HasCompleted : Env Rows → ℕ → State Rows → Result Thrown (Unit {0}) × State Rows → Type 0
  HasCompleted env id s (ok u, s') = s'.payments ≡ s.payments
  HasCompleted env id s (err e, s') =
      (s'.payments ≡ s.payments) ⊎ (s'.payments ≡ update id (webhook_failed T env) s.payments)

  complete_announced_lem :
      (env : Env Rows) (id : ℕ) (p : Payment) (s : State Rows)
      → HasCompleted env id s (complete_announced T env id p s)
  unfolding complete_announced
  complete_announced_lem env id p s = ground arith

  -- The row is there, in the state `approved`.
  abbrev pub IsApprovedIn : Rows → ℕ → Type 0
  IsApprovedIn t id = Option.map (λ p. p.status) (find id t) ≡ some approved

  abbrev HasSettled :
      Env Rows → ℕ → Option ℕ → State Rows → Result Thrown Payment × State Rows → Type 0
  HasSettled env id tx_id s (ok q, s') =
      IsApprovedIn s.payments id
      × (s'.payments ≡ update id (webhook_completed T env tx_id) s.payments)
  HasSettled env id tx_id s (err e, s') = s'.payments ≡ s.payments

  settle_announced_lem :
      (env : Env Rows) (id : ℕ) (tx_id : Option ℕ) (s : State Rows)
      → HasSettled env id tx_id s (settle_announced T env id tx_id s)
  unfolding settle_announced
  settle_announced_lem env id tx_id s = ground arith

  webhook_outcome :
      (env : Env Rows) (signature_valid : Bool) (key : ℕ) (tx_id : Option ℕ) (s : State Rows)
      (id : ℕ) (p : Payment)
      → find_first (has_pi_id key) s.payments ≡ some (id, p)
      → let after =
          (handle_incomplete_payment T env signature_valid (some key) tx_id s).1.payments in
        let now = env.meanwhile s.payments in
        (after ≡ s.payments)
        ⊎ ((p.status ≡ approved)
            × (signature_valid ≡ true)
            × ((after ≡ now)
                ⊎ ((after ≡ update id (webhook_failed T env) now)
                    ⊎ (IsApprovedIn now id
                        × (after ≡ update id (webhook_completed T env tx_id) now)))))
  unfolding handle_incomplete_payment
  webhook_outcome env signature_valid key tx_id s id p found = grind (
    arith,
    find_announced_lem env key s,
    complete_announced_lem env id p,
    settle_announced_lem env id tx_id,
  )

  -- The row of a payment that the webhook completes, field by field.
  abbrev pub completed_by_webhook : ℕ → Option ℕ → Payment → Payment
  completed_by_webhook now tx_id q = record q {
    status = completed;
    completed_at = some now;
    transaction_id = tx_id;
    metadata = object (
        set_field "completed_via" (text "webhook")
          (set_field "transaction_id" (id_value tx_id) (get_metadata_object q.metadata)));
  }

  -- A webhook about a payment that the table has changes nothing; or the payment was `approved` and
  -- the signature valid, and the table is as other requests left it during the call of Pi, but for
  -- that one row if it has become `failed`, or `completed`: then it was still `approved` after them.
  pub webhook_effect :
      (env : Env Rows) (signature_valid : Bool) (key : ℕ) (tx_id : Option ℕ) (s : State Rows)
      (id : ℕ) (p : Payment)
      → find_first (has_pi_id key) s.payments ≡ some (id, p)
      → let after =
          (handle_incomplete_payment T env signature_valid (some key) tx_id s).1.payments in
        let now = env.meanwhile s.payments in
        (after ≡ s.payments)
        ⊎ ((p.status ≡ approved)
            × (signature_valid ≡ true)
            × ((after ≡ now)
                ⊎ ((after
                      ≡ update id (λ q. record q { status = failed; failed_at = some env.now }) now)
                    ⊎ (IsApprovedIn now id
                        × (after ≡ update id (completed_by_webhook env.now tx_id) now)))))
  webhook_effect env signature_valid key tx_id s id p found =
      webhook_outcome env signature_valid key tx_id s id p found

  -- A webhook about a payment that the table does not have changes nothing.
  pub webhook_unknown :
      (env : Env Rows) (signature_valid : Bool) (key : ℕ) (tx_id : Option ℕ) (s : State Rows)
      → find_first (has_pi_id key) s.payments ≡ none
      → (handle_incomplete_payment T env signature_valid (some key) tx_id s).1.payments ≡ s.payments
  unfolding handle_incomplete_payment
  webhook_unknown env signature_valid key tx_id s gone = grind (arith, find_announced_lem env key s)

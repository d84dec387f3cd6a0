-- ===== src/Payment/Reconciliation/Exact.antt =====
-- What reconciliation does to every row.
use mathlib.Core.Option
use mathlib.Core.List.{Memᴰ}
use tec_core_backend.Base.{
  ℕ, ◌≡◌, refl, ap, ◌∙◌, ◌⊎◌, inl, inr, Bool, true, false, Option, none, some, List, [], ◌∷◌, arith,
  Option-cases, Bool-cases, ◌==◌, ==_iff, if◌then◌else◌, All, ◌+◌, ltb,
}
use tec_core_backend.Base.Table.{Table}
use tec_core_backend.Payment.Types.{
  Status, created, approved, failed, Payment, State, Env, Site, object, flag, a_status, number,
  text,
}
use tec_core_backend.Payment.Reconciliation.{
  Thresholds, is_stale, reconciled_payment, reconcile_row, reconcile_rows, reconcile_stale_payments,
}

-- The first time is more than `span` ago.
abbrev is_over : ℕ → ℕ → ℕ → Bool
is_over span now t = ltb (t + span) now

-- The payment has waited longer than its state may.
abbrev waits_over : Thresholds → ℕ → Status → Option ℕ → ℕ → Bool
waits_over limits now created approved_at created_at = is_over limits.created_ms now created_at
waits_over limits now approved (some t) created_at = is_over limits.approved_ms now t
waits_over limits now approved none created_at = is_over limits.approved_ms now created_at
waits_over limits now st approved_at created_at = false

abbrev pub is_overdue : Thresholds → ℕ → Payment → Bool
is_overdue limits now p = elim p.deleted_at [
  | some t ↦ false
  | none ↦ waits_over limits now p.status p.approved_at p.created_at
]

module _ (T : Table Payment) where
  open T use {Rows, find, find_many, update, find-update, find_many_sound, find_many_complete}

  reconcile_row_lem :
      (env : Env Rows) (id : ℕ) (p : Payment) (o : Option Payment) (s : State Rows)
      → ((site : Site) → env.fault site ≡ none)
      → find id s.payments ≡ o
      → (j : ℕ)
      → find j (reconcile_row T env id p o s).1.payments ≡ (
          if j == id
          then Option.map (reconciled_payment env.now p.status) (find id s.payments)
          else find j s.payments)
  unfolding reconcile_row
  reconcile_row_lem env id p none s works e j = ground arith
  reconcile_row_lem env id p (some q) s works e j = ground (
    arith,
    works (Site.at_row id),
    works Site.at_log,
    find-update j id (reconciled_payment env.now p.status) s.payments,
  )

  module _ (env : Env Rows) (works : (site : Site) → env.fault site ≡ none) (t : Rows) (j : ℕ) where
    -- A row that is not in the list is left alone.
    not_listed :
        (l : List (ℕ × Payment)) (s : State Rows)
        → All (λ e. (j == e.0) ≡ false) l
        → find j (reconcile_rows T env l s).1.payments ≡ find j s.payments
    unfolding reconcile_rows
    not_listed [] s h = refl
    not_listed ((id, p) ∷ l) s (ne, h) =
        not_listed l (reconcile_row T env id p (find id s.payments) s).1 h
        ∙ (reconcile_row_lem env id p (find id s.payments) s works refl j ∙ rw ne)

    module _ (p : Payment) (here : find j t ≡ some p) where
      -- One round for a row that `t` has: it reconciles the row under its key.
      round :
          (id : ℕ) (q x : Payment) (s : State Rows)
          → find id t ≡ some q
          → find j s.payments ≡ some x
          → (x ≡ p) ⊎ (x ≡ reconciled_payment env.now p.status p)
          → find j (reconcile_row T env id q (find id s.payments) s).1.payments
            ≡ some (if j == id then reconciled_payment env.now p.status p else x)
      round id q x s from e h =
          rw (reconcile_row_lem env id q (find id s.payments) s works refl j)
            (elim (Bool-cases (j == id)) [
              | inl same ↦ rw same (ground (arith, here, from, e, h, (==_iff j id).0 same))
              | inr other ↦ rw other e
            ])

      -- A row that is already reconciled stays so.
      stays :
          (l : List (ℕ × Payment)) (s : State Rows)
          → All (λ e. find e.0 t ≡ some e.1) l
          → find j s.payments ≡ some (reconciled_payment env.now p.status p)
          → find j (reconcile_rows T env l s).1.payments
            ≡ some (reconciled_payment env.now p.status p)
      unfolding reconcile_rows
      stays [] s h e = e
      stays ((id, q) ∷ l) s (from, h) e =
          stays l (reconcile_row T env id q (find id s.payments) s).1 h
            (round id q (reconciled_payment env.now p.status p) s from e (inr refl) ∙ ground arith)

      -- A row that is listed is reconciled.
      listed :
          (l : List (ℕ × Payment)) (s : State Rows)
          → All (λ e. find e.0 t ≡ some e.1) l
          → find j s.payments ≡ some p
          → Memᴰ (j, p) l
          → find j (reconcile_rows T env l s).1.payments
            ≡ some (reconciled_payment env.now p.status p)
      unfolding reconcile_rows
      listed [] s h e m = elim m [ ]
      listed ((id, q) ∷ l) s (from, h) e m =
          let after = (reconcile_row T env id q (find id s.payments) s).1 in
          let now = round id q p s from e (inl refl) in
          elim (Bool-cases (j == id)) [
            | inl same ↦ stays l after h (rw same at now)
            | inr other ↦ listed l after h (rw other at now) (later m other)
          ]
        where
          later : Memᴰ (j, p) ((id, q) ∷ l) → (j == id) ≡ false → Memᴰ (j, p) l
          later (Memᴰ.head e') other = absurd (ground arith)
          later (Memᴰ.tail m') other = m'

  stale_found :
      (l : List (ℕ × Payment)) (t : Rows) (p : Payment → Bool)
      → All (λ e. (find e.0 t ≡ some e.1) × (p e.1 ≡ true)) l
      → All (λ e. find e.0 t ≡ some e.1) l
  stale_found [] t p h = tt
  stale_found (e ∷ l) t p (h, hs) = (h.0, stale_found l t p hs)

  fresh_not_listed :
      (l : List (ℕ × Payment)) (t : Rows) (p : Payment → Bool) (j : ℕ)
      → ((x : Payment) → find j t ≡ some x → p x ≡ false)
      → All (λ e. (find e.0 t ≡ some e.1) × (p e.1 ≡ true)) l
      → All (λ e. (j == e.0) ≡ false) l
  fresh_not_listed [] t p j fresh h = tt
  fresh_not_listed ((id, q) ∷ l) t p j fresh (h, hs) = (
    elim (Bool-cases (j == id)) [
      | inl same ↦
          let j-eq-id : j ≡ id = (==_iff j id).0 same in
          absurd (ground (arith, fresh q (rw j-eq-id h.0), h.1))
      | inr other ↦ other
    ],
    fresh_not_listed l t p j fresh hs,
  )

  stale-overdue :
      (limits : Thresholds) (now : ℕ) (p : Payment)
      → is_stale limits now p ≡ is_overdue limits now p
  unfolding is_stale
  stale-overdue limits now p = ground arith

  -- What becomes of a row.
  abbrev pub settle : Thresholds → ℕ → Payment → Payment
  settle limits now p =
      if is_overdue limits now p
      then (record p {
        status = failed;
        failed_at = some now;
        metadata = object (
            ("reconciled", flag true)
            ∷ ("original_status", a_status p.status)
            ∷ ("reconciled_at", number now)
            ∷ ("reason", text "Stale payment auto-reconciled")
            ∷ []);
      })
      else p

  -- If the database works and no other request runs meanwhile, reconciliation turns every payment
  -- that is not deleted and was `created` longer ago than the first threshold, or is `approved` since
  -- longer than the second (or, with no time of approval, was created longer ago than that), into one
  -- that is `failed` now and says so in its metadata, and leaves every other row as it is.
  pub reconcile_exact :
      (limits : Thresholds) (env : Env Rows) (s : State Rows) (j : ℕ)
      → ((site : Site) → env.fault site ≡ none)
      → env.meanwhile s.payments ≡ s.payments
      → find j (reconcile_stale_payments T limits env s).1.payments
        ≡ Option.map (settle limits env.now) (find j s.payments)
  unfolding reconcile_stale_payments
  reconcile_exact limits env s j works alone =
      let l = find_many (is_stale limits env.now) s.payments in
      let s' : State Rows = record s { payments = env.meanwhile s.payments } in
      let sound = find_many_sound (is_stale limits env.now) s.payments in
      let same_row : find j (env.meanwhile s.payments) ≡ find j s.payments = ap (find j) alone in
      rw (works Site.at_find, reconcile_stale_payments)
        (elim (Option-cases (find j s.payments)) [
          | inl gone ↦
              not_listed env works s.payments j l s' (
                fresh_not_listed l s.payments (is_stale limits env.now) j
                  (λ x found. ground (arith, found, gone)) sound)
              ∙ (same_row ∙ rw gone refl)
          | inr (p, here) ↦ elim (Bool-cases (is_stale limits env.now p)) [
            | inl stale ↦
                listed env works s.payments j p here l s'
                  (stale_found l s.payments (is_stale limits env.now) sound) (same_row ∙ here)
                  (find_many_complete (is_stale limits env.now) s.payments j p here stale)
                ∙ rw here (rw (← stale-overdue limits env.now p) (rw stale refl))
            | inr fresh ↦
                not_listed env works s.payments j l s' (
                  fresh_not_listed l s.payments (is_stale limits env.now) j
                    (λ x found. ground (arith, found, here, fresh)) sound)
                ∙ (same_row ∙ rw here (rw (← stale-overdue limits env.now p) (rw fresh refl)))
          ]
        ])

-- ===== src/Payment/Idempotency/Memory.antt =====
-- `InMemoryIdempotencyStore` of tec-payment-service/src/middlewares/idempotency.middleware.ts keeps what
-- the middleware relies on.
use tec_core_backend.Base.{
  ℕ, ◌≤◌, ◌<◌, false, Option, none, some, List, [], ◌∷◌, String, ltb, ◌≡◌, refl, sym, subst,
  if◌then◌else◌, Bool-cases, Option-cases, inl, inr, arith,
}
use tec_core_backend.Base.Text.{◌===◌, eq_iff}
use tec_core_backend.Payment.Idempotency.{IdempotencyStore}

module _ {E : Type 0} (expires_at : E → ℕ) where
  unfoldable pub find : String → List (String × E) → Option E
  find k [] = none
  find k ((j, e) ∷ s) = if k === j then some e else find k s

  unfoldable pub delete : String → List (String × E) → List (String × E)
  delete k [] = []
  delete k ((j, e) ∷ s) = let rest = delete k s in if k === j then rest else (j, e) ∷ rest

  abbrev pub live : ℕ → Option E → Option E
  live now none = none
  live now (some e) = if ltb (expires_at e) now then none else some e

  -- `get`
  abbrev pub get : ℕ → String → List (String × E) → Option E × List (String × E)
  get now k s = elim (find k s) [
    | none ↦ (none, s)
    | some e ↦ if ltb (expires_at e) now then (none, delete k s) else (some e, s)
  ]

  -- `set`: the entry hides an older one with this key.
  abbrev pub set : ℕ → String → E → List (String × E) → List (String × E)
  set now k e s = (k, e) ∷ s

  abbrev pub holds : ℕ → String → List (String × E) → Option E
  holds now k s = live now (find k s)

  find-delete_other :
      (j k : String) (s : List (String × E)) → (j === k) ≡ false → find j (delete k s) ≡ find j s
  unfolding find delete
  find-delete_other j k [] h = refl
  find-delete_other j k ((i, e) ∷ s) h = elim (Bool-cases (k === i)) [
    | inl found ↦
        let other : (j === i) ≡ false = subst (λ x. (j === x) ≡ false) ((eq_iff k i).0 found) h in
        rw (found, other) (find-delete_other j k s h)
    | inr absent ↦ rw (absent, find-delete_other j k s h) refl
  ]

  pub holds-get :
      (now later : ℕ) (j k : String) (e : E) (s : List (String × E))
      → now ≤ later
      → holds later j s ≡ some e
      → holds later j (get now k s).1 ≡ some e
  holds-get now later j k e s le h = elim (Option-cases (find k s)) [
    | inl gone ↦ rw (gone, get) h
    | inr (x, here) ↦ elim (Bool-cases (ltb (expires_at x) now)) [
      | inr fresh ↦ rw (here, get, fresh) h
      | inl stale ↦
          rw (here, get, stale)
            (elim (Bool-cases (j === k)) [
              | inr other ↦ rw (find-delete_other j k s other) h
              | inl same ↦
                  let found : find j s ≡ some x =
                    subst (λ y. find y s ≡ some x) (sym ((eq_iff j k).0 same)) here in
                  absurd (ground (arith, found, h, stale, le))
            ])
    ]
  ]

  pub get_result : (now : ℕ) (k : String) (s : List (String × E)) → (get now k s).0 ≡ holds now k s
  get_result now k s = ground arith

  pub holds_before :
      (now later : ℕ) (k : String) (e : E) (s : List (String × E))
      → now ≤ later
      → holds later k s ≡ some e
      → holds now k s ≡ some e
  holds_before now later k e s le h = ground arith

  pub holds-set_other :
      (now later : ℕ) (j k : String) (e : E) (s : List (String × E))
      → (j === k) ≡ false
      → holds later j (set now k e s) ≡ holds later j s
  unfolding find
  holds-set_other now later j k e s h = rw h refl

  pub holds-set :
      (now later : ℕ) (k : String) (e : E) (s : List (String × E))
      → later < expires_at e
      → holds later k ((k, e) ∷ s) ≡ some e
  unfolding find
  holds-set now later k e s lt = rw ((eq_iff k k).1 refl) (ground arith)

  -- The store, as the interface has it.
  abbrev pub in_memory : IdempotencyStore E expires_at
  in_memory = record {
    Store = List (String × E);
    get = get;
    set = set;
    holds = holds;
    get_result = get_result;
    holds_before = holds_before;
    holds-get = holds-get;
    holds-set_other = holds-set_other;
    holds-set = λ now later k e s absent le lt. holds-set now later k e (get now k s).1 lt;
  }

-- ===== src/Base/Table/Rows.antt =====
-- A table that keeps its rows in a list: its operations keep the laws of the interface, so these
-- can hold.
use Prim.Native.Nat.{ℕ, zero, suc, ◌<◌, max}
use mathlib.Core.Path.{◌≡◌, refl}
use mathlib.Core.Bool.{Bool, true, false}
use mathlib.Core.Option
use mathlib.Core.Option.{Option, none, some}
use mathlib.Core.Logic.{inl, inr}
use mathlib.Core.List.{List, [], ◌∷◌, Memᴰ}
use native.Mathlib.Omega.{arith}
use tec_core_backend.Base.Tests.{◌==◌, if◌then◌else◌, All, Bool-cases, Option-cases}
use tec_core_backend.Base.Table.Laws.{Table}

module _ {R : Type 0} where
  abbrev pub find : ℕ → List (ℕ × R) → Option R
  find k [] = none
  find k ((j, r) ∷ t) = if k == j then some r else find k t

  -- Above every key in use.
  abbrev pub fresh : List (ℕ × R) → ℕ
  fresh [] = 0
  fresh ((j, r) ∷ t) = max (suc j) (fresh t)

  abbrev update : ℕ → (R → R) → List (ℕ × R) → List (ℕ × R)
  update k f [] = []
  update k f ((j, r) ∷ t) = if k == j then (j, f r) ∷ t else (j, r) ∷ update k f t

  abbrev create : R → List (ℕ × R) → ℕ × List (ℕ × R)
  create r t = (fresh t, (fresh t, r) ∷ t)

  -- A row that passes the test, in front of others.
  abbrev pub keep : (R → Bool) → ℕ → Option R → List (ℕ × R) → List (ℕ × R)
  keep p k none rest = rest
  keep p k (some r) rest = if p r then (k, r) ∷ rest else rest

  -- The rows with keys below `n` that pass the test, the newest first.
  abbrev pub scan : (R → Bool) → List (ℕ × R) → ℕ → List (ℕ × R)
  scan p t zero = []
  scan p t (suc k) = keep p k (find k t) (scan p t k)

  abbrev pub find_many : (R → Bool) → List (ℕ × R) → List (ℕ × R)
  find_many p t = scan p t (fresh t)

  abbrev head : List (ℕ × R) → Option (ℕ × R)
  head [] = none
  head (e ∷ t) = some e

  abbrev find_first : (R → Bool) → List (ℕ × R) → Option (ℕ × R)
  find_first p t = head (find_many p t)

  pub find-update :
      (j k : ℕ) (f : R → R) (t : List (ℕ × R))
      → find j (update k f t) ≡ (if j == k then Option.map f (find k t) else find j t)
  find-update j k f [] = ground arith
  find-update j k f ((i, r) ∷ t) = ground (arith, find-update j k f t)

  pub find-lt-fresh : (k : ℕ) (r : R) (t : List (ℕ × R)) → find k t ≡ some r → k < fresh t
  find-lt-fresh k r [] e = ground arith
  find-lt-fresh k r ((j, x) ∷ t) e = ground (arith, find-lt-fresh k r t)

  pub find_fresh : (k : ℕ) (t : List (ℕ × R)) → fresh t ≡ k → find k t ≡ none
  find_fresh k t h = elim (Option-cases (find k t)) [
    | inl e ↦ e
    | inr (r, e) ↦ absurd (omega (arith, find-lt-fresh k r t e))
  ]

  keep_sound :
      (p : R → Bool) (t : List (ℕ × R)) (k : ℕ) (o : Option R) (rest : List (ℕ × R))
      → find k t ≡ o
      → All (λ e. (find e.0 t ≡ some e.1) × (p e.1 ≡ true)) rest
      → All (λ e. (find e.0 t ≡ some e.1) × (p e.1 ≡ true)) (keep p k o rest)
  keep_sound p t k none rest e h = h
  keep_sound p t k (some r) rest e h = ground arith

  pub scan_sound :
      (p : R → Bool) (t : List (ℕ × R)) (n : ℕ)
      → All (λ e. (find e.0 t ≡ some e.1) × (p e.1 ≡ true)) (scan p t n)
  scan_sound p t zero = tt
  scan_sound p t (suc k) = keep_sound p t k (find k t) (scan p t k) refl (scan_sound p t k)

  keep_old :
      (p : R → Bool) (k : ℕ) (o : Option R) (rest : List (ℕ × R)) {x : ℕ × R}
      → Memᴰ x rest
      → Memᴰ x (keep p k o rest)
  keep_old p k none rest m = m
  keep_old p k (some r) rest {x} m = go (p r)
    where
      go : (b : Bool) → Memᴰ x (if b then (k, r) ∷ rest else rest)
      go true = Memᴰ.tail m
      go false = m

  keep_new :
      (p : R → Bool) (k : ℕ) (r : R) (o : Option R) (rest : List (ℕ × R))
      → o ≡ some r
      → p r ≡ true
      → Memᴰ (k, r) (keep p k o rest)
  keep_new p k r o rest e h = rw e (rw h (Memᴰ.head refl))

  pub scan_complete :
      (p : R → Bool) (t : List (ℕ × R)) (n k : ℕ) (r : R)
      → k < n
      → find k t ≡ some r
      → p r ≡ true
      → Memᴰ (k, r) (scan p t n)
  scan_complete p t zero k r lt e h = elim lt [ ]
  scan_complete p t (suc n) k r lt e h = elim (Bool-cases (k == n)) [
    | inl same ↦
        let k-eq-n : k ≡ n = ground arith in
        rw k-eq-n (keep_new p n r (find n t) (scan p t n) (rw k-eq-n at e) h)
    | inr other ↦ keep_old p n (find n t) (scan p t n) (scan_complete p t n k r (ground arith) e h)
  ]

  pub head_sound :
      (p : R → Bool) (t l : List (ℕ × R)) (k : ℕ) (r : R)
      → All (λ e. (find e.0 t ≡ some e.1) × (p e.1 ≡ true)) l
      → head l ≡ some (k, r)
      → (find k t ≡ some r) × (p r ≡ true)
  head_sound p t [] k r h e = ground arith
  head_sound p t ((j, x) ∷ l) k r h e = ground arith

  head_complete : (l : List (ℕ × R)) (x : ℕ × R) → head l ≡ none → Memᴰ x l → ⊥
  head_complete l x e (Memᴰ.head h) = ground arith
  head_complete l x e (Memᴰ.tail m) = ground arith

  pub find_first_complete :
      (p : R → Bool) (t : List (ℕ × R)) (k : ℕ) (r : R)
      → find_first p t ≡ none
      → find k t ≡ some r
      → p r ≡ false
  find_first_complete p t k r e found = elim (Bool-cases (p r)) [
    | inl yes_p ↦ absurd (
        head_complete (find_many p t) (k, r) e
          (scan_complete p t (fresh t) k r (find-lt-fresh k r t found) found yes_p))
    | inr no_p ↦ no_p
  ]

  -- The list, as a table.
  abbrev pub rows : Table R
  rows = record {
    Rows = List (ℕ × R);
    find = find;
    find_first = find_first;
    find_many = find_many;
    update = update;
    create = create;
    find-update = find-update;
    create_fresh = λ r t. find_fresh (fresh t) t refl;
    find-create = λ j r t. refl;
    find_first_sound = λ p t k r e. head_sound p t (find_many p t) k r (scan_sound p t (fresh t)) e;
    find_first_complete = find_first_complete;
    find_many_sound = λ p t. scan_sound p t (fresh t);
    find_many_complete = λ p t k r e h. scan_complete p t (fresh t) k r (find-lt-fresh k r t e) e h;
  }

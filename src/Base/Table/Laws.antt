-- ===== src/Base/Table/Laws.antt =====
-- A database table behind its laws. The services reach their tables through Prisma, which is not
-- part of this repository: what they rely on is the documented behaviour of its calls, stated
-- here as the laws of an interface. Rows are found by their primary key, a number (the keys are
-- uuids that are only compared).
use Prim.Native.Nat.{ℕ}
use mathlib.Core.Path.{◌≡◌}
use mathlib.Core.Bool.{Bool, true, false}
use mathlib.Core.Option
use mathlib.Core.Option.{Option, none, some}
use mathlib.Core.List.{List, Memᴰ}
use tec_core_backend.Base.Tests.{◌==◌, if◌then◌else◌, All}

pub record Table (R : Type 0) : Type 1 where
  pub Rows : Type 0
  -- `findUnique` by the primary key.
  pub find : ℕ → Rows → Option R
  -- `findFirst` with a `where` clause.
  pub find_first : (R → Bool) → Rows → Option (ℕ × R)
  -- `findMany` with a `where` clause.
  pub find_many : (R → Bool) → Rows → List (ℕ × R)
  -- `update` by the primary key; `updated` says what becomes of the row.
  pub update : ℕ → (R → R) → Rows → Rows
  -- `create`: the new key, and the table with the row.
  pub create : R → Rows → ℕ × Rows
  pub find-update :
      (j k : ℕ) (f : R → R) (t : Rows)
      → find j (update k f t) ≡ (if j == k then Option.map f (find k t) else find j t)
  pub create_fresh : (r : R) (t : Rows) → find (create r t).0 t ≡ none
  pub find-create :
      (j : ℕ) (r : R) (t : Rows)
      → find j (create r t).1 ≡ (if j == (create r t).0 then some r else find j t)
  pub find_first_sound :
      (p : R → Bool) (t : Rows) (k : ℕ) (r : R)
      → find_first p t ≡ some (k, r)
      → (find k t ≡ some r) × (p r ≡ true)
  pub find_first_complete :
      (p : R → Bool) (t : Rows) (k : ℕ) (r : R)
      → find_first p t ≡ none
      → find k t ≡ some r
      → p r ≡ false
  pub find_many_sound :
      (p : R → Bool) (t : Rows)
      → All (λ e. (find e.0 t ≡ some e.1) × (p e.1 ≡ true)) (find_many p t)
  pub find_many_complete :
      (p : R → Bool) (t : Rows) (k : ℕ) (r : R)
      → find k t ≡ some r
      → p r ≡ true
      → Memᴰ (k, r) (find_many p t)

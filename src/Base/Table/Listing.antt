-- ===== src/Base/Table/Listing.antt =====
-- The reading of a table page by page: `findMany` with `orderBy`, `skip` and `take`, and `count`.
-- Prisma is not part of this repository; the laws say what its documentation does, and that rows
-- of the same time come in the same order in each call.
use Prim.Native.Nat.{ℕ, ◌≤◌}
use mathlib.Core.Path.{◌≡◌}
use mathlib.Core.Bool.{Bool, true}
use mathlib.Core.Option.{some}
use mathlib.Core.List.{List, [], ◌∷◌, Memᴰ}
use tec_core_backend.Base.Lists.{take, drop}
use tec_core_backend.Base.Tests.{length, All}
use tec_core_backend.Base.Table.Laws.{Table}

-- `sort`, the second argument of `orderBy`.
pub data Sort : Type 0 where
  asc desc : Sort

module _ {R : Type 0} where
  -- No key stands in the list twice.
  abbrev pub AreApart : List (ℕ × R) → Type 0
  AreApart [] = Unit
  AreApart ((k, r) ∷ rows) = All (λ e. e.0 ≡ k → ⊥) rows × AreApart rows

  -- `a` may stand before `b`.
  abbrev pub IsBefore : (R → ℕ) → Sort → R → R → Type 0
  IsBefore time asc a b = time a ≤ time b
  IsBefore time desc a b = time b ≤ time a

  abbrev pub IsOrdered : (R → ℕ) → Sort → List (ℕ × R) → Type 0
  IsOrdered time sort [] = Unit
  IsOrdered time sort ((k, r) ∷ rows) =
      All (λ e. IsBefore time sort r e.1) rows × IsOrdered time sort rows

  -- The rows are those that pass the test, each once, in order.
  pub record Lists (T : Table R) (time : R → ℕ) (p : R → Bool) (sort : Sort) (t : Table.Rows T)
      (rows : List (ℕ × R)) : Type 0 where
    pub sound : All (λ e. (Table.find T e.0 t ≡ some e.1) × (p e.1 ≡ true)) rows
    pub complete : (k : ℕ) (r : R) → Table.find T k t ≡ some r → p r ≡ true → Memᴰ (k, r) rows
    pub are_apart : AreApart rows
    pub is_ordered : IsOrdered time sort rows

-- The rows of a table by the time of `created_at`.
pub record Listing {R : Type 0} (T : Table R) (time : R → ℕ) : Type 1 where
  -- `findMany({ where, orderBy })`
  pub in_order : (R → Bool) → Sort → Table.Rows T → List (ℕ × R)
  -- `findMany({ where, orderBy, skip, take })`
  pub find_page : (R → Bool) → Sort → ℕ → ℕ → Table.Rows T → List (ℕ × R)
  -- `findMany` with a negative `take`: from the end.
  pub find_back : (R → Bool) → Sort → ℕ → ℕ → Table.Rows T → List (ℕ × R)
  pub count : (R → Bool) → Table.Rows T → ℕ
  pub in_order-Lists :
      (p : R → Bool) (sort : Sort) (t : Table.Rows T) → Lists T time p sort t (in_order p sort t)
  pub find_page_law :
      (p : R → Bool) (sort : Sort) (n k : ℕ) (t : Table.Rows T)
      → find_page p sort n k t ≡ take k (drop n (in_order p sort t))
  pub count_law :
      (p : R → Bool) (sort : Sort) (t : Table.Rows T) → count p t ≡ length (in_order p sort t)

-- ===== src/Base/Table/Keyed.antt =====
-- A table whose rows are found by a unique column, such as `user_id`: behind its laws, and as a list.
use Prim.Native.Nat.{ℕ}
use mathlib.Core.Path.{◌≡◌, refl}
use mathlib.Core.Option.{Option, none, some}
use mathlib.Core.List.{List, [], ◌∷◌}
use tec_core_backend.Base.Tests.{◌==◌, if◌then◌else◌}

pub record Keyed (R : Type 0) : Type 1 where
  pub Rows : Type 0
  pub find : ℕ → Rows → Option R
  -- The row of the key, made anew or replaced.
  pub put : ℕ → R → Rows → Rows
  pub find-put :
      (j k : ℕ) (r : R) (t : Rows) → find j (put k r t) ≡ (if j == k then some r else find j t)

module _ {R : Type 0} where
  abbrev find : ℕ → List (ℕ × R) → Option R
  find k [] = none
  find k ((j, r) ∷ t) = if k == j then some r else find k t

  abbrev put : ℕ → R → List (ℕ × R) → List (ℕ × R)
  put k r t = (k, r) ∷ t

  abbrev pub keyed_rows : Keyed R
  keyed_rows = record { Rows = List (ℕ × R); find = find; put = put; find-put = λ j k r t. refl }

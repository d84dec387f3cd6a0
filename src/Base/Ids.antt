-- ===== src/Base/Ids.antt =====
-- Lists of ids.
use Prim.Native.Nat.{ℕ, zero, suc, ◌≤◌}
use mathlib.Core.Path.{◌≡◌, refl}
use mathlib.Core.Bool.{Bool, true, false, ◌||◌, not, ◌&&◌}
use mathlib.Core.List.{List, [], ◌∷◌, ◌++◌}
use native.Mathlib.Omega.{arith}
use tec_core_backend.Base.Lists.{take, drop}
use tec_core_backend.Base.Tests.{◌==◌, if◌then◌else◌, length}

unfoldable pub is_in : ℕ → List ℕ → Bool
is_in i [] = false
is_in i (j ∷ js) = i == j || is_in i js

unfoldable pub remove : ℕ → List ℕ → List ℕ
remove i [] = []
remove i (j ∷ js) = let rest = remove i js in if i == j then rest else j ∷ rest

-- No id stands in the list twice.
unfoldable pub is_unique : List ℕ → Bool
is_unique [] = true
is_unique (j ∷ js) = not (is_in j js) && is_unique js

pub is_in-append : (i : ℕ) (xs ys : List ℕ) → is_in i (xs ++ ys) ≡ (is_in i xs || is_in i ys)
unfolding is_in
is_in-append i [] ys = refl
is_in-append i (x ∷ xs) ys = ground (arith, is_in-append i xs ys)

pub is_in-remove : (i j : ℕ) (js : List ℕ) → is_in i (remove j js) ≡ (not (i == j) && is_in i js)
unfolding is_in remove
is_in-remove i j [] = ground arith
is_in-remove i j (k ∷ js) = ground (arith, is_in-remove i j js)

-- What is taken and what is dropped is the list.
pub is_in-take-drop :
    (i n : ℕ) (js : List ℕ) → is_in i js ≡ (is_in i (take n js) || is_in i (drop n js))
unfolding is_in take drop
is_in-take-drop i zero js = refl
is_in-take-drop i (suc n) [] = refl
is_in-take-drop i (suc n) (j ∷ js) = ground (arith, is_in-take-drop i n js)

unfoldable pub remove_all : List ℕ → List ℕ → List ℕ
remove_all [] js = js
remove_all (i ∷ is) js = remove_all is (remove i js)

-- Nothing is left when all that stands in the list is removed.
pub remove_all_empties :
    (is js : List ℕ) → ((k : ℕ) → is_in k js ≡ true → is_in k is ≡ true) → remove_all is js ≡ []
unfolding remove_all is_in
remove_all_empties [] [] h = refl
remove_all_empties [] (j ∷ js) h = absurd (ground (arith, h j))
remove_all_empties (i ∷ is) js h =
    remove_all_empties is (remove i js)
      (λ k within. ground (arith, h k, is_in-remove k i js, within))

pub none_left : (js : List ℕ) → length js ≤ zero → js ≡ []
none_left [] h = refl
none_left (j ∷ js) h = absurd (omega arith)

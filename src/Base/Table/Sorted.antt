-- ===== src/Base/Table/Sorted.antt =====
-- The listing of a table that keeps its rows in a list: sorted by insertion. It keeps the laws of
-- the interface, so these can hold.
use Prim.Native.Nat.{ℕ, zero, suc, ◌<◌}
use mathlib.Core.Path.{◌≡◌, refl, sym}
use mathlib.Core.Logic.{inl, inr}
use mathlib.Core.Bool.{Bool, true, false}
use mathlib.Core.Option.{Option, none, some}
use mathlib.Core.List
use mathlib.Core.List.{List, [], ◌∷◌, Memᴰ}
use native.Mathlib.Omega.{arith}
use tec_core_backend.Base.Lists.{take, drop}
use tec_core_backend.Base.Tests.{leb, length, if◌then◌else◌, Bool-cases, All}
use tec_core_backend.Base.Table.Rows.{
  scan_sound, scan_complete, find-lt-fresh, rows, scan, find, keep, fresh, find_many,
}
use tec_core_backend.Base.Table.Listing.{
  Sort, asc, desc, AreApart, IsBefore, IsOrdered, Lists, Listing,
}

module _ {R : Type 0} (time : R → ℕ) where
  abbrev is_before : Sort → R → R → Bool
  is_before asc a b = leb (time a) (time b)
  is_before desc a b = leb (time b) (time a)

  abbrev insert : Sort → ℕ × R → List (ℕ × R) → List (ℕ × R)
  insert sort e [] = e ∷ []
  insert sort e (x ∷ xs) = if is_before sort e.1 x.1 then e ∷ x ∷ xs else x ∷ insert sort e xs

  abbrev pub sorted : Sort → List (ℕ × R) → List (ℕ × R)
  sorted sort [] = []
  sorted sort (x ∷ xs) = insert sort x (sorted sort xs)

  insert-All :
      (P : ℕ × R → Type 0) (sort : Sort) (e : ℕ × R) (xs : List (ℕ × R))
      → P e
      → All P xs
      → All P (insert sort e xs)
  insert-All P sort e [] here h = (here, tt)
  insert-All P sort e (x ∷ xs) here (hx, h) = elim (Bool-cases (is_before sort e.1 x.1)) [
    | inl first ↦ rw first (here, (hx, h))
    | inr later ↦ rw later (hx, insert-All P sort e xs here h)
  ]

  sorted-All :
      (P : ℕ × R → Type 0) (sort : Sort) (xs : List (ℕ × R)) → All P xs → All P (sorted sort xs)
  sorted-All P sort [] h = tt
  sorted-All P sort (x ∷ xs) (hx, h) =
      insert-All P sort x (sorted sort xs) hx (sorted-All P sort xs h)

  insert_new : (sort : Sort) (e : ℕ × R) (xs : List (ℕ × R)) → Memᴰ e (insert sort e xs)
  insert_new sort e [] = Memᴰ.head refl
  insert_new sort e (x ∷ xs) = elim (Bool-cases (is_before sort e.1 x.1)) [
    | inl first ↦ rw first (Memᴰ.head refl)
    | inr later ↦ rw later (Memᴰ.tail (insert_new sort e xs))
  ]

  insert_old :
      (sort : Sort) (e : ℕ × R) (xs : List (ℕ × R)) {a : ℕ × R}
      → Memᴰ a xs
      → Memᴰ a (insert sort e xs)
  insert_old sort e [] m = elim m [ ]
  insert_old sort e (x ∷ xs) (Memᴰ.head h) = elim (Bool-cases (is_before sort e.1 x.1)) [
    | inl first ↦ rw first (Memᴰ.tail (Memᴰ.head h))
    | inr later ↦ rw later (Memᴰ.head h)
  ]
  insert_old sort e (x ∷ xs) (Memᴰ.tail m) = elim (Bool-cases (is_before sort e.1 x.1)) [
    | inl first ↦ rw first (Memᴰ.tail (Memᴰ.tail m))
    | inr later ↦ rw later (Memᴰ.tail (insert_old sort e xs m))
  ]

  sorted_complete :
      (sort : Sort) (xs : List (ℕ × R)) {a : ℕ × R} → Memᴰ a xs → Memᴰ a (sorted sort xs)
  sorted_complete sort [] m = elim m [ ]
  sorted_complete sort (x ∷ xs) (Memᴰ.head h) = rw h (insert_new sort x (sorted sort xs))
  sorted_complete sort (x ∷ xs) (Memᴰ.tail m) =
      insert_old sort x (sorted sort xs) (sorted_complete sort xs m)

  insert-AreApart :
      (sort : Sort) (e : ℕ × R) (xs : List (ℕ × R))
      → All (λ x. x.0 ≡ e.0 → ⊥) xs
      → AreApart xs
      → AreApart (insert sort e xs)
  insert-AreApart sort e [] h a = (tt, tt)
  insert-AreApart sort e (x ∷ xs) (hx, h) (ax, a) = elim (Bool-cases (is_before sort e.1 x.1)) [
    | inl first ↦ rw first ((hx, h), (ax, a))
    | inr later ↦ rw later (
      insert-All (λ y. y.0 ≡ x.0 → ⊥) sort e xs (λ same. hx (sym same)) ax,
      insert-AreApart sort e xs h a,
    )
  ]

  sorted-AreApart : (sort : Sort) (xs : List (ℕ × R)) → AreApart xs → AreApart (sorted sort xs)
  sorted-AreApart sort [] a = tt
  sorted-AreApart sort (x ∷ xs) (ax, a) =
      insert-AreApart sort x (sorted sort xs) (sorted-All (λ y. y.0 ≡ x.0 → ⊥) sort xs ax)
        (sorted-AreApart sort xs a)

  is_before-IsBefore : (sort : Sort) (a b : R) → is_before sort a b ≡ true → IsBefore time sort a b
  is_before-IsBefore asc a b h = ground arith
  is_before-IsBefore desc a b h = ground arith

  later-IsBefore : (sort : Sort) (a b : R) → is_before sort a b ≡ false → IsBefore time sort b a
  later-IsBefore asc a b h = ground arith
  later-IsBefore desc a b h = ground arith

  IsBefore-trans :
      (sort : Sort) (a b c : R)
      → IsBefore time sort a b
      → IsBefore time sort b c
      → IsBefore time sort a c
  IsBefore-trans asc a b c h k = omega arith
  IsBefore-trans desc a b c h k = omega arith

  IsBefore-All :
      (sort : Sort) (a b : R) (xs : List (ℕ × R))
      → IsBefore time sort a b
      → All (λ e. IsBefore time sort b e.1) xs
      → All (λ e. IsBefore time sort a e.1) xs
  IsBefore-All sort a b [] h k = tt
  IsBefore-All sort a b (x ∷ xs) h (kx, k) =
      (IsBefore-trans sort a b x.1 h kx, IsBefore-All sort a b xs h k)

  insert-IsOrdered :
      (sort : Sort) (e : ℕ × R) (xs : List (ℕ × R))
      → IsOrdered time sort xs
      → IsOrdered time sort (insert sort e xs)
  insert-IsOrdered sort e [] o = (tt, tt)
  insert-IsOrdered sort e (x ∷ xs) (ox, o) = elim (Bool-cases (is_before sort e.1 x.1)) [
    | inl first ↦
        let e-x : IsBefore time sort e.1 x.1 = is_before-IsBefore sort e.1 x.1 first in
        rw first ((e-x, IsBefore-All sort e.1 x.1 xs e-x ox), (ox, o))
    | inr later ↦ rw later (
      insert-All (λ y. IsBefore time sort x.1 y.1) sort e xs (later-IsBefore sort e.1 x.1 later) ox,
      insert-IsOrdered sort e xs o,
    )
  ]

  sorted-IsOrdered : (sort : Sort) (xs : List (ℕ × R)) → IsOrdered time sort (sorted sort xs)
  sorted-IsOrdered sort [] = tt
  sorted-IsOrdered sort (x ∷ xs) =
      insert-IsOrdered sort x (sorted sort xs) (sorted-IsOrdered sort xs)

  length-insert :
      (sort : Sort) (e : ℕ × R) (xs : List (ℕ × R)) → length (insert sort e xs) ≡ suc (length xs)
  length-insert sort e [] = refl
  length-insert sort e (x ∷ xs) = ground (arith, length-insert sort e xs)

  pub length-sorted : (sort : Sort) (xs : List (ℕ × R)) → length xs ≡ length (sorted sort xs)
  length-sorted sort [] = refl
  length-sorted sort (x ∷ xs) =
      omega (arith, length-sorted sort xs, length-insert sort x (sorted sort xs))

module _ {R : Type 0} where
  below_suc : (k : ℕ) (xs : List (ℕ × R)) → All (λ e. e.0 < k) xs → All (λ e. e.0 < suc k) xs
  below_suc k [] h = tt
  below_suc k (x ∷ xs) (hx, h) = (omega arith, below_suc k xs h)

  keep_below :
      (p : R → Bool) (k : ℕ) (o : Option R) (xs : List (ℕ × R))
      → All (λ e. e.0 < k) xs
      → All (λ e. e.0 < suc k) (keep p k o xs)
  keep_below p k none xs h = below_suc k xs h
  keep_below p k (some r) xs h = elim (Bool-cases (p r)) [
    | inl kept ↦ rw kept (omega arith, below_suc k xs h)
    | inr dropped ↦ rw dropped (below_suc k xs h)
  ]

  scan_below : (p : R → Bool) (t : List (ℕ × R)) (n : ℕ) → All (λ e. e.0 < n) (scan p t n)
  scan_below p t zero = tt
  scan_below p t (suc k) = keep_below p k (find k t) (scan p t k) (scan_below p t k)

  apart_below : (k : ℕ) (xs : List (ℕ × R)) → All (λ e. e.0 < k) xs → All (λ e. e.0 ≡ k → ⊥) xs
  apart_below k [] h = tt
  apart_below k (x ∷ xs) (hx, h) = (λ same. omega arith, apart_below k xs h)

  keep-AreApart :
      (p : R → Bool) (k : ℕ) (o : Option R) (xs : List (ℕ × R))
      → All (λ e. e.0 < k) xs
      → AreApart xs
      → AreApart (keep p k o xs)
  keep-AreApart p k none xs h a = a
  keep-AreApart p k (some r) xs h a = elim (Bool-cases (p r)) [
    | inl kept ↦ rw kept (apart_below k xs h, a)
    | inr dropped ↦ rw dropped a
  ]

  scan-AreApart : (p : R → Bool) (t : List (ℕ × R)) (n : ℕ) → AreApart (scan p t n)
  scan-AreApart p t zero = tt
  scan-AreApart p t (suc k) =
      keep-AreApart p k (find k t) (scan p t k) (scan_below p t k) (scan-AreApart p t k)

-- The listing of the rows of a list.
module _ {R : Type 0} (time : R → ℕ) where
  pub sorted_lem :
      (p : R → Bool) (sort : Sort) (t : List (ℕ × R))
      → Lists (rows {R = R}) time p sort t (sorted time sort (find_many p t))
  sorted_lem p sort t = record {
    sound =
        sorted-All time (λ e. (find e.0 t ≡ some e.1) × (p e.1 ≡ true)) sort (find_many p t)
          (scan_sound p t (fresh t));
    complete = λ k r here kept.
        sorted_complete time sort (find_many p t)
          (scan_complete p t (fresh t) k r (find-lt-fresh k r t here) here kept);
    are_apart = sorted-AreApart time sort (find_many p t) (scan-AreApart p t (fresh t));
    is_ordered = sorted-IsOrdered time sort (find_many p t);
  }

  abbrev pub sorted_rows : Listing (rows {R = R}) time
  sorted_rows = record {
    in_order = λ p sort t. sorted time sort (find_many p t);
    find_page = λ p sort n k t. take k (drop n (sorted time sort (find_many p t)));
    find_back = λ p sort n k t.
        List.reverse (take k (drop n (List.reverse (sorted time sort (find_many p t)))));
    count = λ p t. length (find_many p t);
    in_order-Lists = sorted_lem;
    find_page_law = λ p sort n k t. refl;
    count_law = λ p sort t. length-sorted time sort (find_many p t);
  }

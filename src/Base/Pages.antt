-- ===== src/Base/Pages.antt =====
-- Pages of a listing, as the services cut them: `skip: (page - 1) * limit`, `take: limit`.
use tec_core_backend.Base.Tests.{ltb, length, if◌then◌else◌, Bool-cases, ◌==◌}
use Prim.Native.Nat.{ℕ, zero, suc, ◌+◌, ◌-◌, ◌*◌, ◌/◌, ◌%◌, ◌≤◌, ◌<◌}
use mathlib.Core.Path.{◌≡◌, sym, ap, ◌∙◌}
use mathlib.Core.Logic.{inl, inr}
use mathlib.Core.Bool.{Bool, true, false}
use mathlib.Core.Option
use mathlib.Core.Option.{Option, none, some}
use mathlib.Core.List.{List, ◌++◌}
use native.Mathlib.Omega.{arith}
use tec_core_backend.Base.Lists.{take, drop, take-append-drop, drop-drop, take_all, length-drop}
use native.Mathlib.Nat.{div-add-mod, mod-lt}

-- `Math.ceil(total / limit)`
unfoldable pub total_pages : ℕ → ℕ → ℕ
total_pages total limit = if total % limit == 0 then total / limit else total / limit + 1

-- `pagination` in a reply.
pub record Pagination : Type 0 where
  pub page : ℕ
  pub limit : ℕ
  pub total : ℕ
  pub total_pages : ℕ
  pub has_next : Bool
  pub has_prev : Bool

abbrev pub pagination_of : ℕ → ℕ → ℕ → Pagination
pagination_of page limit total = record {
  page = page;
  limit = limit;
  total = total;
  total_pages = total_pages total limit;
  has_next = ltb page (total_pages total limit);
  has_prev = ltb 1 page;
}

-- Another page follows exactly when this one and those before it do not hold everything.
pub lt-total_pages :
    (page total limit : ℕ)
    → 0 < limit
    → ltb page (total_pages total limit) ≡ ltb (page * limit) total
unfolding total_pages
lt-total_pages page total limit h = grind (arith, div-add-mod total limit, mod-lt total h)

next_skip : (page limit : ℕ) → 1 ≤ page → page * limit ≡ (page - 1) * limit + limit
next_skip zero limit h = absurd (omega arith)
next_skip (suc p) limit h = grind arith

le-mul : (page limit : ℕ) → 0 < limit → page ≤ page * limit
le-mul page zero h = absurd (omega arith)
le-mul page (suc l) h = grind arith

module _ {ℓ} {A : Type ℓ} where
  -- `skip: (page - 1) * limit, take: limit`
  unfoldable pub page_of : ℕ → ℕ → List A → List A
  page_of page limit xs = take limit (drop ((page - 1) * limit) xs)

  -- A client that reads page after page for as long as the reply says that another follows; none
  -- if a request fails or the fuel runs out.
  unfoldable pub read_on : (ℕ → Option (List A × Bool)) → ℕ → ℕ → Option (List A)
  read_on request zero page = none
  read_on request (suc fuel) page =
      let rest = read_on request fuel (page + 1) in
      elim (request page) [
        | none ↦ none
        | some (xs, more) ↦ if more then Option.map (λ ys. xs ++ ys) rest else some xs
      ]

  page_of-append-drop :
      (page limit : ℕ) (xs : List A)
      → 1 ≤ page
      → page_of page limit xs ++ drop (page * limit) xs ≡ drop ((page - 1) * limit) xs
  unfolding page_of
  page_of-append-drop page limit xs h =
      ap (λ ys. page_of page limit xs ++ ys)
        (ap (λ n. drop n xs) (next_skip page limit h)
          ∙ sym (drop-drop limit ((page - 1) * limit) xs))
      ∙ take-append-drop limit (drop ((page - 1) * limit) xs)

  page_of_last :
      (page limit : ℕ) (xs : List A)
      → 1 ≤ page
      → length xs ≤ page * limit
      → page_of page limit xs ≡ drop ((page - 1) * limit) xs
  unfolding page_of
  page_of_last page limit xs h last =
      take_all limit (drop ((page - 1) * limit) xs)
        (omega (arith, length-drop ((page - 1) * limit) xs, next_skip page limit h))

  read_on_more :
      (request : ℕ → Option (List A × Bool)) (fuel page : ℕ) {xs ys : List A} {more : Bool}
      → request page ≡ some (xs, more)
      → more ≡ true
      → read_on request fuel (page + 1) ≡ some ys
      → read_on request (suc fuel) page ≡ some (xs ++ ys)
  unfolding read_on
  read_on_more request fuel page here more rest = rw (read_on, here, more, rest)

  read_on_last :
      (request : ℕ → Option (List A × Bool)) (fuel page : ℕ) {xs : List A} {more : Bool}
      → request page ≡ some (xs, more)
      → more ≡ false
      → read_on request (suc fuel) page ≡ some xs
  unfolding read_on
  read_on_last request fuel page here last = rw (read_on, here, last)

  module _ (request : ℕ → Option (List A × Bool)) (limit : ℕ) (xs : List A)
      (is_paged : (page : ℕ)
        → 1 ≤ page
        → request page ≡ some (page_of page limit xs, ltb (page * limit) (length xs))) where
    read_on_rest :
        (fuel page : ℕ)
        → 1 ≤ page
        → 0 < limit
        → page - 1 ≤ length xs
        → length xs < fuel + (page - 1)
        → read_on request fuel page ≡ some (drop ((page - 1) * limit) xs)
    unfolding read_on
    read_on_rest zero page h pos within enough = absurd (omega arith)
    read_on_rest (suc fuel) page h pos within enough =
        elim (Bool-cases (ltb (page * limit) (length xs))) [
          | inl more ↦
              let below : page < length xs = ground (arith, le-mul page limit pos) in
              let ih : read_on request fuel (page + 1) ≡ some (drop ((page + 1 - 1) * limit) xs) =
                read_on_rest fuel (page + 1) (omega arith) pos (omega arith) (omega arith) in
              let joined : page_of page limit xs ++ drop ((page + 1 - 1) * limit) xs
                  ≡ drop ((page - 1) * limit) xs =
                let same : page + 1 - 1 ≡ page = omega arith in
                rw same (page_of-append-drop page limit xs h) in
              read_on_more request fuel page (is_paged page h) more ih ∙ ap some joined
          | inr last ↦
              read_on_last request fuel page (is_paged page h) last
              ∙ ap some (page_of_last page limit xs h (ground arith))
        ]

    -- The client ends, and has read every entry once, in order.
    pub read_on_all : (fuel : ℕ) → 0 < limit → length xs < fuel → read_on request fuel 1 ≡ some xs
    unfolding drop
    read_on_all fuel pos enough =
        read_on_rest fuel 1 (omega arith) pos (omega arith) (omega arith)
        ∙ (let start : (1 - 1) * limit ≡ 0 = omega arith in rw start)

-- `parseInt(text) || d`, where the text is missing or holds a number.
abbrev pub number_or : ℕ → Option ℕ → ℕ
number_or d none = d
number_or d (some zero) = d
number_or d (some (suc n)) = suc n

pub number_or_positive : (d : ℕ) (n : Option ℕ) → 0 < d → 0 < number_or d n
number_or_positive d none h = h
number_or_positive d (some zero) h = h
number_or_positive d (some (suc n)) h = omega arith

-- ===== src/Payment/RateLimit/Shared.antt =====
-- The limiters of tec-payment-service/src/middlewares/rate-limit.middleware.ts count together: they use
-- one store, and their keys do not name the route.
use tec_core_backend.Base.{ℕ, suc, ◌+◌, ◌≤◌, false, some, List, [], ◌∷◌, ◌≡◌, length, All, arith}
use tec_core_backend.Payment.RateLimit.Window.{IsOver}
use tec_core_backend.Payment.RateLimit.{MemEntry, lookup, increment, Hit, rate_limit}

-- The store after requests with their limits.
unfoldable pub limit_each : ℕ → List (ℕ × Hit) → List (ℕ × MemEntry) → List (ℕ × MemEntry)
limit_each window [] m = m
limit_each window ((most, h) ∷ hs) m = limit_each window hs (rate_limit most window h m).1

-- Requests with the key, in the window that ends there.
abbrev pub AreWithin : ℕ → ℕ → List (ℕ × Hit) → Type 0
AreWithin k end hs = All (λ (x : ℕ × Hit). (x.1.key ≡ k) × (x.1.now ≤ end)) hs

counted_each :
    (window k : ℕ) (hs : List (ℕ × Hit)) (m : List (ℕ × MemEntry)) (e : MemEntry)
    → lookup k m ≡ some e
    → AreWithin k e.reset_at hs
    → lookup k (limit_each window hs m) ≡ some (record e { count = e.count + length hs })
unfolding limit_each lookup rate_limit increment
counted_each window k [] m e here within = ground (arith, here)
counted_each window k ((most, h) ∷ hs) m e here ((same, early), within) =
    let counted =
      counted_each window k hs (rate_limit most window h m).1 (record e { count = e.count + 1 }) in
    ground (arith, here, same, early, counted, within)

-- Where a request of a limiter finds no window of its key or one that is over: a limiter with the
-- same window refuses a request with the key before the window ends, if the requests before it, of
-- any limiters and whether they passed or not, are as many as its own limit.
pub other_limiter_starves :
    (window k most other start : ℕ) (hs : List (ℕ × Hit)) (h : Hit) (m : List (ℕ × MemEntry))
    → IsOver start (lookup k m)
    → AreWithin k (start + window) hs
    → h.key ≡ k
    → h.now ≤ start + window
    → most ≤ suc (length hs)
    → (rate_limit most window h
        (limit_each window ((other, (record { now = start; key = k })) ∷ hs) m)).0
      ≡ false
unfolding limit_each lookup rate_limit increment
other_limiter_starves window k most other start hs h m over within same early enough =
    let first : Hit = record { now = start; key = k } in
    let counted =
      counted_each window k hs (rate_limit other window first m).1
        (record { count = 1; reset_at = start + window }) in
    ground (arith, over, within, same, early, enough, counted)

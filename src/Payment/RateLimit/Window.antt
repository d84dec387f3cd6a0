-- ===== src/Payment/RateLimit/Window.antt =====
-- How many requests pass in a window
-- (tec-payment-service/src/middlewares/rate-limit.middleware.ts).
use tec_core_backend.Base.{
  ℕ, ◌+◌, ◌-◌, ◌≤◌, ◌<◌, Option, none, some, List, [], ◌∷◌, ◌≡◌, All, arith,
}
use tec_core_backend.Payment.RateLimit.{MemEntry, lookup, increment, Hit, rate_limit, count_passed}

-- While the window of the key is open, the requests with the key that pass, among any requests, are
-- as many as the limit leaves at most.
window_left :
    (most window k : ℕ) (hs : List Hit) (m : List (ℕ × MemEntry)) (e : MemEntry)
    → lookup k m ≡ some e
    → All (λ h. h.now ≤ e.reset_at) hs
    → count_passed most window k hs m ≤ most - e.count
unfolding count_passed rate_limit increment lookup
window_left most window k [] m e here in_time = ground arith
window_left most window k (h ∷ hs) m e here (now, in_time) = ground (
  arith,
  here,
  now,
  window_left most window k hs (rate_limit most window h m).1 (record e { count = e.count + 1 }),
  window_left most window k hs (rate_limit most window h m).1 e,
  in_time,
)

-- The window of an entry is over.
abbrev pub IsOver : ℕ → Option MemEntry → Type 0
IsOver now none = Unit {0}
IsOver now (some e) = e.reset_at < now

-- Where a request finds no window of its key or one that is over, the requests with its key that pass
-- until the window that it opens ends, itself included and whatever other keys come between, are
-- at most the limit.
pub window_bound :
    (most window k start : ℕ) (hs : List Hit) (m : List (ℕ × MemEntry))
    → IsOver start (lookup k m)
    → All (λ h. h.now ≤ start + window) hs
    → count_passed most window k ((record { now = start; key = k }) ∷ hs) m ≤ most
unfolding count_passed rate_limit increment lookup
window_bound most window k start hs m over in_time = ground (
  arith,
  over,
  window_left most window k hs (rate_limit most window (record { now = start; key = k }) m).1
      (record { count = 1; reset_at = start + window }),
  in_time,
)

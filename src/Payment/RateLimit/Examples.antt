-- ===== src/Payment/RateLimit/Examples.antt =====
-- Tests of the rate limiter with a limit of 2, and the theorem at that input.
use tec_core_backend.Base.{ℕ, ◌≤◌, List, [], ◌∷◌, ◌≡◌, refl, arith}
use tec_core_backend.Payment.RateLimit.{MemEntry, lookup, increment, Hit, rate_limit, count_passed}
use tec_core_backend.Payment.RateLimit.Window.{window_bound}

abbrev old : List (ℕ × MemEntry)
old = (4, record { count = 2; reset_at = 90 }) ∷ []

abbrev hits : List Hit
hits =
    (record { now = 110; key = 4 })
    ∷ (record { now = 120; key = 5 })
    ∷ (record { now = 130; key = 4 })
    ∷ (record { now = 140; key = 4 })
    ∷ []

two_pass : count_passed 2 60 4 ((record { now = 100; key = 4 }) ∷ hits) old ≡ 2
unfolding count_passed rate_limit increment lookup
two_pass = refl

window_bound_example : count_passed 2 60 4 ((record { now = 100; key = 4 }) ∷ hits) old ≤ 2
unfolding lookup
window_bound_example = window_bound 2 60 4 100 hits old (ground arith) (ground arith)

-- Five status queries of a limit of 30, and then a payment with a limit of 5.
abbrev queries : List (ℕ × Hit)
queries =
    (30, (record { now = 110; key = 4 }))
    ∷ (30, (record { now = 120; key = 4 }))
    ∷ (30, (record { now = 130; key = 4 }))
    ∷ (30, (record { now = 140; key = 4 }))
    ∷ []

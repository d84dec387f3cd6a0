-- ===== src/Gateway/Cache/Examples.antt =====
-- Tests of the cache on three entries, and the theorems at those inputs.
use tec_core_backend.Base.{ℕ, ◌==◌, ◌≤◌, none, some, List, [], ◌∷◌, ◌≡◌, refl, length, arith}
use tec_core_backend.Gateway.Replies.{ready_body}
use tec_core_backend.Gateway.Cache.{
  CacheEntry, find, delete, put, lru_get, lru_set, cleanup, invalidate_cache,
}
use tec_core_backend.Gateway.Cache.Calls.{Call, get_call, set_call, run, window, history}
use tec_core_backend.Gateway.Cache.Recency.{run-window, run-within}
use tec_core_backend.Gateway.Cache.Cleanup.{cleanup_never_ends}

abbrev until : ℕ → CacheEntry
until t = record { payload = ready_body; expires_at = t }

-- Entry 1 is used after entry 2, so entry 2 makes room for entry 3.
abbrev calls : List Call
calls = set_call 1 (until 40) ∷ set_call 2 (until 30) ∷ get_call 1 ∷ set_call 3 (until 20) ∷ []

evicts_the_oldest : run 2 calls [] ≡ (1, until 40) ∷ (3, until 20) ∷ []
unfolding run find delete put lru_get lru_set
evicts_the_oldest = refl

invalidates : invalidate_cache (some (λ k. k == 1)) (run 2 calls []) ≡ (3, until 20) ∷ []
unfolding run find delete put lru_get lru_set invalidate_cache
invalidates = refl

run-window_example : run 2 calls [] ≡ window 2 (history 2 calls [])
run-window_example = run-window 2 calls (omega arith)

stays_within : length (run 2 calls []) ≤ 2
stays_within = run-within 2 calls (omega arith)

-- At time 25, entry 1 is live.
cleanup_never_ends_example : cleanup 1000 25 (run 2 calls []) ≡ none
unfolding run find delete put lru_get lru_set
cleanup_never_ends_example = cleanup_never_ends 2 calls 25 1000 (omega arith) refl

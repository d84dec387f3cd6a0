-- ===== src/Gateway/Cache/Recency.antt =====
-- What is kept and what is evicted by tec-api-gateway/src/middleware/cache.middleware.ts: the cache
-- against one that forgets nothing.
use tec_core_backend.Base.{ℕ, ◌≤◌, ◌<◌, true, List, [], ◌∷◌, ◌≡◌, refl, sym, inl, length, arith}
use tec_core_backend.Gateway.Cache.{JsMap, lru_get, lru_set}
use tec_core_backend.Gateway.Cache.Maps.{is_distinct}
use tec_core_backend.Gateway.Cache.Calls.{
  Call, get_call, history, note, run, set_call, use_key, window,
}
use tec_core_backend.Gateway.Cache.Tracking.{
  Tracks, Tracks-distinct, Tracks-get, Tracks-set, Tracks-window,
}

run-Tracks :
    (max : ℕ) (calls : List Call) (m h : JsMap)
    → 0 < max
    → Tracks max m h
    → Tracks max (run max calls m) (history max calls h)
unfolding run history
run-Tracks max [] m h some_room t = t
run-Tracks max (get_call k ∷ calls) m h some_room t =
    run-Tracks max calls (lru_get k m).1 (note max h (get_call k)) some_room (Tracks-get k m h t)
run-Tracks max (set_call k v ∷ calls) m h some_room t =
    run-Tracks max calls (lru_set max k v m) (use_key k v h) some_room
      (Tracks-set k v m h some_room t)

Tracks-empty : (max : ℕ) → Tracks max [] []
unfolding is_distinct
Tracks-empty max = record {
  evicted = [];
  splits = refl;
  distinct = refl;
  within = omega arith;
  full = inl refl;
}

-- After any calls of a cache with room for `max` entries, it holds exactly the `max` entries that were
-- used last in the history of a cache that forgets nothing, in the order of their use: what is
-- evicted is always the least recently used.
pub run-window :
    (max : ℕ) (calls : List Call) → 0 < max → run max calls [] ≡ window max (history max calls [])
run-window max calls some_room =
    sym (Tracks-window (run-Tracks max calls [] [] some_room (Tracks-empty max)))

-- The cache never has more entries than it has room for.
pub run-within : (max : ℕ) (calls : List Call) → 0 < max → length (run max calls []) ≤ max
run-within max calls some_room = (run-Tracks max calls [] [] some_room (Tracks-empty max)).within

-- No key is in the cache twice.
pub run-distinct : (max : ℕ) (calls : List Call) → 0 < max → is_distinct (run max calls []) ≡ true
run-distinct max calls some_room =
    Tracks-distinct (run-Tracks max calls [] [] some_room (Tracks-empty max))

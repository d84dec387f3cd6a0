-- ===== src/Gateway/Cache/Cleanup.antt =====
-- The periodic cleanup of tec-api-gateway/src/middleware/cache.middleware.ts: when its loop ends.
use tec_core_backend.Base.{
  ℕ, zero, suc, ◌<◌, Bool, true, false, not, ◌||◌, none, some, List, [], ◌∷◌, ◌++◌, ◌≡◌, refl, ap,
  inl, inr, leb, length, if◌then◌else◌, Bool-cases, arith,
}
use tec_core_backend.Gateway.Cache.{CacheEntry, JsMap, find, delete, sweep_key, sweep, cleanup}
use tec_core_backend.Gateway.Cache.Maps.{is_distinct, delete_absent, delete-append, snoc-distinct}
use tec_core_backend.Gateway.Cache.Calls.{Call, run}
use tec_core_backend.Gateway.Cache.Recency.{run-distinct}

-- Some entry has not expired.
abbrev pub has_live : ℕ → JsMap → Bool
has_live now [] = false
has_live now ((k, e) ∷ m) = not (leb e.expires_at now) || has_live now m

append-nil : (m : JsMap) → m ++ [] ≡ m
append-nil [] = refl
append-nil (x ∷ m) = ap (◌∷◌ x) (append-nil m)

-- A live entry goes to the end, where the loop meets it again.
visit_lem :
    (now k : ℕ) (e : CacheEntry) (rest : JsMap)
    → find k rest ≡ none
    → sweep_key now k (record { passed = (k, e) ∷ []; pending = rest })
      ≡ record { passed = []; pending = if leb e.expires_at now then rest else rest ++ (k, e) ∷ [] }
unfolding sweep_key find delete
visit_lem now k e rest h =
    ground (arith, delete_absent k rest h, delete-append k rest ((k, e) ∷ []), append-nil rest)

live-snoc :
    (now k : ℕ) (e : CacheEntry) (m : JsMap)
    → leb e.expires_at now ≡ false
    → has_live now (m ++ (k, e) ∷ []) ≡ true
live-snoc now k e [] h = ground arith
live-snoc now k e ((j, x) ∷ m) h = ground (arith, live-snoc now k e m h)

hangs :
    (fuel now : ℕ) (m : JsMap)
    → is_distinct m ≡ true
    → has_live now m ≡ true
    → sweep fuel now (record { passed = []; pending = m }) ≡ none
unfolding sweep is_distinct
hangs zero now m d h = refl
hangs (suc fuel) now [] d h = ground arith
hangs (suc fuel) now ((k, e) ∷ rest) d h =
    rw (visit_lem now k e rest (ground arith)) (elim (Bool-cases (leb e.expires_at now)) [
      | inl old ↦ rw old (hangs fuel now rest (ground arith) (ground arith))
      | inr live ↦ rw live (
          hangs fuel now (rest ++ (k, e) ∷ [])
            (snoc-distinct k e rest (ground arith) (ground arith)) (live-snoc now k e rest live))
    ])

empties :
    (fuel now : ℕ) (m : JsMap)
    → is_distinct m ≡ true
    → has_live now m ≡ false
    → length m < fuel
    → sweep fuel now (record { passed = []; pending = m }) ≡ some []
unfolding sweep is_distinct
empties zero now m d h lt = absurd (omega arith)
empties (suc fuel) now [] d h lt = refl
empties (suc fuel) now ((k, e) ∷ rest) d h lt =
    let old : leb e.expires_at now ≡ true = ground arith in
    rw (visit_lem now k e rest (ground arith))
      (rw old (empties fuel now rest (ground arith) (ground arith) (omega arith)))

-- The cache after any calls. If one of its entries has not expired when the cleanup starts, the loop
-- never ends: it has not ended after any number of rounds.
pub cleanup_never_ends :
    (max : ℕ) (calls : List Call) (now fuel : ℕ)
    → 0 < max
    → has_live now (run max calls []) ≡ true
    → cleanup fuel now (run max calls []) ≡ none
cleanup_never_ends max calls now fuel some_room h =
    hangs fuel now (run max calls []) (run-distinct max calls some_room) h

-- If all entries of the cache have expired when the cleanup starts, one round more than there are
-- entries ends the loop, and the cache is empty.
pub cleanup_empties :
    (max : ℕ) (calls : List Call) (now fuel : ℕ)
    → 0 < max
    → has_live now (run max calls []) ≡ false
    → length (run max calls []) < fuel
    → cleanup fuel now (run max calls []) ≡ some []
cleanup_empties max calls now fuel some_room h lt =
    empties fuel now (run max calls []) (run-distinct max calls some_room) h lt

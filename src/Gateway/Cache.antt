-- ===== src/Gateway/Cache.antt =====
-- The cache of tec-api-gateway/src/middleware/cache.middleware.ts. A JavaScript `Map` is the list of
-- its entries in the order of insertion, the oldest first. Keys are numbers: the code compares them,
-- and its test that the oldest key is not empty holds of every key that it makes.
use tec_core_backend.Base.{
  ℕ, zero, suc, ◌+◌, ◌*◌, Bool, true, false, not, ◌||◌, Option, none, some, List, [], ◌∷◌, ◌++◌,
  ◌==◌, is_some, ltb, leb, length, if◌then◌else◌,
}
use tec_core_backend.Gateway.Replies.{Body}
pub mod Maps
pub mod Calls
pub mod Tracking
pub mod Recency
pub mod Cleanup
mod Examples

pub record CacheEntry : Type 0 where
  pub payload : Body
  pub expires_at : ℕ

abbrev pub JsMap : Type 0
JsMap = List (ℕ × CacheEntry)

-- `Map.get`
unfoldable pub find : ℕ → JsMap → Option CacheEntry
find k [] = none
find k ((j, e) ∷ m) = if k == j then some e else find k m

-- `Map.delete`
unfoldable pub delete : ℕ → JsMap → JsMap
delete k [] = []
delete k ((j, e) ∷ m) = let rest = delete k m in if k == j then rest else (j, e) ∷ rest

-- `Map.set`: a key that is there keeps its place, a new one goes to the end.
unfoldable pub put : ℕ → CacheEntry → JsMap → JsMap
put k v [] = (k, v) ∷ []
put k v ((j, e) ∷ m) = let rest = put k v m in if k == j then (j, v) ∷ m else (j, e) ∷ rest

-- `this.map.delete(this.map.keys().next().value)`
abbrev pub delete_oldest : JsMap → JsMap
delete_oldest [] = []
delete_oldest ((j, e) ∷ m) = delete j ((j, e) ∷ m)

-- `LRUCache.get`
unfoldable pub lru_get : ℕ → JsMap → Option CacheEntry × JsMap
lru_get k m = elim (find k m) [ none ↦ (none, m) | some e ↦ (some e, put k e (delete k m)) ]

-- `if (this.map.size >= this.max) ...`
abbrev pub make_room : ℕ → JsMap → JsMap
make_room max m = if leb max (length m) then delete_oldest m else m

-- `LRUCache.set`
unfoldable pub lru_set : ℕ → ℕ → CacheEntry → JsMap → JsMap
lru_set max k v m = put k v (make_room max (if is_some (find k m) then delete k m else m))

-- `for (const key of cache.keys())`: an iterator of a map stands between the entries that it has
-- passed and those that it has yet to reach. An entry that is deleted and set again during the
-- iteration goes to the end, where the iterator reaches it.
pub record Iteration : Type 0 where
  pub passed : JsMap
  pub pending : JsMap

abbrev pub iter_find : ℕ → Iteration → Option CacheEntry
iter_find k it = find k (it.passed ++ it.pending)

abbrev pub iter_delete : ℕ → Iteration → Iteration
iter_delete k it = record { passed = delete k it.passed; pending = delete k it.pending }

-- `Map.set` of a key that is not in the map.
abbrev pub iter_append : ℕ → CacheEntry → Iteration → Iteration
iter_append k e it = record it { pending = it.pending ++ (k, e) ∷ [] }

-- The body of the loop: `cache.get(key)`, and `cache.delete(key)` of an entry that has expired.
unfoldable pub sweep_key : ℕ → ℕ → Iteration → Iteration
sweep_key now k it = elim (iter_find k it) [
  | none ↦ it
  | some e ↦
      let got = iter_append k e (iter_delete k it) in
      if leb e.expires_at now then iter_delete k got else got
]

-- The loop of the periodic cleanup, on fuel: none if the fuel has run out before its end.
unfoldable pub sweep : ℕ → ℕ → Iteration → Option JsMap
sweep zero now it = none
sweep (suc fuel) now it = elim it.pending [
  | [] ↦ some it.passed
  | x ∷ rest ↦
      sweep fuel now (sweep_key now x.0 (record { passed = it.passed ++ x ∷ []; pending = rest }))
]

-- The cleanup that runs every five minutes.
abbrev pub cleanup : ℕ → ℕ → JsMap → Option JsMap
cleanup fuel now m = sweep fuel now (record { passed = []; pending = m })

-- `invalidateCache` with a pattern: a loop that only deletes the key that it has reached.
unfoldable pub invalidate_cache : Option (ℕ → Bool) → JsMap → JsMap
invalidate_cache none m = []
invalidate_cache (some matches) [] = []
invalidate_cache (some matches) ((k, e) ∷ m) =
    let rest = invalidate_cache (some matches) m in if matches k then rest else (k, e) ∷ rest

-- ===== src/Gateway/Cache/Tracking.antt =====
-- How the cache of tec-api-gateway/src/middleware/cache.middleware.ts follows the history of its calls.
use tec_core_backend.Base.{
  ℕ, ◌-◌, ◌≤◌, ◌<◌, true, none, some, [], ◌∷◌, ◌++◌, ◌≡◌, refl, ◌⊎◌, inl, inr, leb, length,
  Bool-cases, Option-cases, arith,
}
use tec_core_backend.Gateway.Cache.{CacheEntry, JsMap, find, delete, lru_get, lru_set}
use tec_core_backend.Gateway.Cache.Maps.{
  is_distinct, find-append, delete_absent, delete-append, length-append,
}
use tec_core_backend.Gateway.Cache.Calls.{
  append_assoc, drop, drop-append, get_call, length-use, lru_get-hit, lru_get-miss, lru_set-full,
  lru_set-hit, lru_set-room, note, use-distinct, use_found, use_key, window,
}

-- The history is what was evicted, and then the cache.
pub record Tracks (max : ℕ) (m h : JsMap) : Type 0 where
  pub evicted : JsMap
  pub splits : h ≡ evicted ++ m
  pub distinct : is_distinct h ≡ true
  pub within : length m ≤ max
  pub full : (evicted ≡ []) ⊎ (length m ≡ max)

pub window_lem :
    (max : ℕ) (old m : JsMap)
    → length m ≤ max
    → (old ≡ []) ⊎ (length m ≡ max)
    → window max (old ++ m) ≡ m
unfolding drop
window_lem max old m le (inl e) =
    rw e (let none_left : length m - max ≡ 0 = omega arith in rw none_left refl)
window_lem max old m le (inr e) =
    let skipped : length (old ++ m) - max ≡ length old = omega (arith, length-append old m) in
    rw skipped (drop-append old m)

pub Tracks-window : {max : ℕ} {m h : JsMap} → Tracks max m h → window max h ≡ m
Tracks-window {max} {m} t = rw t.splits (window_lem max t.evicted m t.within t.full)

pub distinct_part : (old m : JsMap) → is_distinct (old ++ m) ≡ true → is_distinct m ≡ true
unfolding is_distinct
distinct_part [] m h = h
distinct_part (x ∷ old) m h = distinct_part old m (ground arith)

pub distinct_apart :
    (old m : JsMap) (k : ℕ) (e : CacheEntry)
    → is_distinct (old ++ m) ≡ true
    → find k m ≡ some e
    → find k old ≡ none
unfolding is_distinct find
distinct_apart [] m k e d h = refl
distinct_apart ((j, x) ∷ old) m k e d h =
    ground (arith, distinct_apart old m k e, find-append j old m)

pub Tracks-distinct : {max : ℕ} {m h : JsMap} → Tracks max m h → is_distinct m ≡ true
Tracks-distinct {max} {m} t = distinct_part t.evicted m (rw t.splits at t.distinct)

-- A key that is in the cache moves to the end.
pub Tracks-use :
    {max : ℕ} {m h : JsMap} (k : ℕ) (e v : CacheEntry)
    → find k m ≡ some e
    → Tracks max m h
    → Tracks max (use_key k v m) (use_key k v h)
Tracks-use {max} {m} {h} k e v here t = record {
  evicted = t.evicted;
  splits = rw t.splits (
      let d : is_distinct (t.evicted ++ m) ≡ true = rw t.splits at t.distinct in
      rw (
        delete-append k t.evicted m,
        delete_absent k t.evicted (distinct_apart t.evicted m k e d here),
        append_assoc t.evicted (delete k m) ((k, v) ∷ []),
      ));
  distinct = use-distinct k v h t.distinct;
  within = omega (arith, kept, t.within);
  full = elim t.full [ inl e ↦ inl e | inr e ↦ inr (omega (arith, kept)) ];
}
  where
    kept : length (use_key k v m) ≡ length m
    kept = length-use k e v m (distinct_part t.evicted m (rw t.splits at t.distinct)) here

pub Tracks-full :
    {max : ℕ} {h : JsMap} (k : ℕ) (v : CacheEntry) (x : ℕ × CacheEntry) (m : JsMap)
    → find k (x ∷ m) ≡ none
    → length (x ∷ m) ≡ max
    → Tracks max (x ∷ m) h
    → Tracks max (m ++ (k, v) ∷ []) (use_key k v h)
Tracks-full {max} {h} k v x m absent e t = record {
  evicted = delete k t.evicted ++ x ∷ [];
  splits = rw t.splits (
      rw (
        delete-append k t.evicted (x ∷ m),
        delete_absent k (x ∷ m) absent,
        append_assoc (delete k t.evicted) (x ∷ m) ((k, v) ∷ []),
        append_assoc (delete k t.evicted) (x ∷ []) (m ++ (k, v) ∷ []),
      ));
  distinct = use-distinct k v h t.distinct;
  within = omega (arith, length-append m ((k, v) ∷ []), e);
  full = inr (omega (arith, length-append m ((k, v) ∷ []), e));
}

pub Tracks-room :
    {max : ℕ} {m h : JsMap} (k : ℕ) (v : CacheEntry)
    → find k m ≡ none
    → length m < max
    → Tracks max m h
    → Tracks max (m ++ (k, v) ∷ []) (use_key k v h)
Tracks-room {max} {m} {h} k v absent lt t = record {
  evicted = [];
  splits = let same : h ≡ m = unsplit in rw (same, delete_absent k m absent) refl;
  distinct = use-distinct k v h t.distinct;
  within = omega (arith, length-append m ((k, v) ∷ []));
  full = inl refl;
}
  where
    unsplit : h ≡ m
    unsplit = elim t.full [ inl e ↦ rw (t.splits, e) refl | inr e ↦ absurd (omega arith) ]

pub Tracks-set :
    {max : ℕ} (k : ℕ) (v : CacheEntry) (m h : JsMap)
    → 0 < max
    → Tracks max m h
    → Tracks max (lru_set max k v m) (use_key k v h)
Tracks-set {max} k v m h some_room t = elim (Option-cases (find k m)) [
  | inr (e, here) ↦
      rw (lru_set-hit max k e v m (Tracks-distinct t) t.within here) (Tracks-use k e v here t)
  | inl absent ↦ elim (Bool-cases (leb max (length m))) [
    | inr fits ↦
        let lt : length m < max = ground arith in
        rw (lru_set-room max k v m lt absent) (Tracks-room k v absent lt t)
    | inl at_limit ↦ evict m absent (ground (arith, t.within)) t
  ]
]
  where
    evict :
        (n : JsMap)
        → find k n ≡ none
        → length n ≡ max
        → Tracks max n h
        → Tracks max (lru_set max k v n) (use_key k v h)
    evict [] absent e u = absurd (omega arith)
    evict (x ∷ n) absent e u =
        rw (lru_set-full max k v x n (Tracks-distinct u) e absent) (Tracks-full k v x n absent e u)

pub Tracks-get :
    {max : ℕ} (k : ℕ) (m h : JsMap)
    → Tracks max m h
    → Tracks max (lru_get k m).1 (note max h (get_call k))
unfolding use_found
Tracks-get {max} k m h t =
    rw (use_found, Tracks-window t)
      (elim (Option-cases (find k m)) [
        | inl absent ↦ rw (lru_get-miss k m absent, use_found, absent) t
        | inr (e, here) ↦ rw (lru_get-hit k e m here, use_found, here) (Tracks-use k e e here t)
      ])

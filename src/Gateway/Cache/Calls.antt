-- ===== src/Gateway/Cache/Calls.antt =====
-- What one call of the cache of tec-api-gateway/src/middleware/cache.middleware.ts does, and the history
-- of its calls.
use tec_core_backend.Base.{
  ℕ, zero, suc, ◌-◌, ◌≤◌, ◌<◌, true, false, Option, none, some, List, [], ◌∷◌, ◌++◌, ◌≡◌, refl, ap,
  leb, length, arith,
}
use tec_core_backend.Gateway.Cache.{CacheEntry, JsMap, find, delete, lru_get, lru_set}
use tec_core_backend.Gateway.Cache.Maps.{
  is_distinct, find-delete, delete_absent, put_absent, delete-distinct, snoc-distinct,
  length-append, length-delete,
}

-- The calls of the cache that the middleware makes.
pub data Call : Type 0 where
  get_call : ℕ → Call
  set_call : ℕ → CacheEntry → Call

unfoldable pub run : ℕ → List Call → JsMap → JsMap
run max [] m = m
run max (get_call k ∷ calls) m = run max calls (lru_get k m).1
run max (set_call k v ∷ calls) m = run max calls (lru_set max k v m)

-- `drop`
unfoldable pub drop : ℕ → JsMap → JsMap
drop zero m = m
drop (suc n) [] = []
drop (suc n) (x ∷ m) = drop n m

-- The entries that were used last, as many as fit.
abbrev pub window : ℕ → JsMap → JsMap
window max h = drop (length h - max) h

-- A use of a key moves it to the end of the history.
abbrev pub use_key : ℕ → CacheEntry → JsMap → JsMap
use_key k v h = delete k h ++ (k, v) ∷ []

unfoldable pub use_found : ℕ → Option CacheEntry → JsMap → JsMap
use_found k none h = h
use_found k (some e) h = use_key k e h

-- The history of all entries ever set, the last used at the end. A `get` is a use if the key is
-- among the last `max`.
abbrev pub note : ℕ → JsMap → Call → JsMap
note max h (get_call k) = use_found k (find k (window max h)) h
note max h (set_call k v) = use_key k v h

unfoldable pub history : ℕ → List Call → JsMap → JsMap
history max [] h = h
history max (c ∷ calls) h = history max calls (note max h c)

pub drop-append : (old m : JsMap) → drop (length old) (old ++ m) ≡ m
unfolding drop
drop-append [] m = refl
drop-append (x ∷ old) m = drop-append old m

pub append_assoc : (a b c : JsMap) → (a ++ b) ++ c ≡ a ++ (b ++ c)
append_assoc [] b c = refl
append_assoc (x ∷ a) b c = ap (◌∷◌ x) (append_assoc a b c)

pub use-distinct :
    (k : ℕ) (v : CacheEntry) (h : JsMap) → is_distinct h ≡ true → is_distinct (use_key k v h) ≡ true
use-distinct k v h d =
    snoc-distinct k v (delete k h) (delete-distinct k h d) (ground (arith, find-delete k k h))

pub length-use :
    (k : ℕ) (e v : CacheEntry) (m : JsMap)
    → is_distinct m ≡ true
    → find k m ≡ some e
    → length (use_key k v m) ≡ length m
length-use k e v m d h =
    omega (arith, length-append (delete k m) ((k, v) ∷ []), length-delete k m e d h)

pub lru_get-miss : (k : ℕ) (m : JsMap) → find k m ≡ none → (lru_get k m).1 ≡ m
unfolding lru_get
lru_get-miss k m h = rw (h, lru_get) refl

pub lru_get-hit :
    (k : ℕ) (e : CacheEntry) (m : JsMap) → find k m ≡ some e → (lru_get k m).1 ≡ use_key k e m
unfolding lru_get
lru_get-hit k e m h =
    rw (h, lru_get) (put_absent k e (delete k m) (ground (arith, find-delete k k m)))

pub lru_set-hit :
    (max k : ℕ) (e v : CacheEntry) (m : JsMap)
    → is_distinct m ≡ true
    → length m ≤ max
    → find k m ≡ some e
    → lru_set max k v m ≡ use_key k v m
unfolding lru_set
lru_set-hit max k e v m d le h =
    let fits : leb max (length (delete k m)) ≡ false = ground (arith, length-delete k m e d h) in
    rw (h, fits) (put_absent k v (delete k m) (ground (arith, find-delete k k m)))

pub lru_set-room :
    (max k : ℕ) (v : CacheEntry) (m : JsMap)
    → length m < max
    → find k m ≡ none
    → lru_set max k v m ≡ m ++ (k, v) ∷ []
unfolding lru_set
lru_set-room max k v m lt h =
    let fits : leb max (length m) ≡ false = ground arith in rw (h, fits) (put_absent k v m h)

-- A full cache loses its first entry.
pub lru_set-full :
    (max k : ℕ) (v : CacheEntry) (x : ℕ × CacheEntry) (m : JsMap)
    → is_distinct (x ∷ m) ≡ true
    → length (x ∷ m) ≡ max
    → find k (x ∷ m) ≡ none
    → lru_set max k v (x ∷ m) ≡ m ++ (k, v) ∷ []
unfolding lru_set find delete is_distinct
lru_set-full max k v x m d e h = ground (arith, delete_absent x.0 m, put_absent k v m)

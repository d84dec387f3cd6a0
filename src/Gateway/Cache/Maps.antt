-- ===== src/Gateway/Cache/Maps.antt =====
-- Maps as lists of entries.
use tec_core_backend.Base.{
  ℕ, ◌+◌, Bool, true, not, ◌&&◌, none, some, [], ◌∷◌, ◌++◌, ◌==◌, ◌≡◌, refl, is_some, length,
  if◌then◌else◌, arith,
}
use tec_core_backend.Gateway.Cache.{CacheEntry, JsMap, find, delete, put}

-- No key is in the map twice.
unfoldable pub is_distinct : JsMap → Bool
is_distinct [] = true
is_distinct ((k, e) ∷ m) = not (is_some (find k m)) && is_distinct m

pub find-delete : (j k : ℕ) (m : JsMap) → find j (delete k m) ≡ (if j == k then none else find j m)
unfolding find delete
find-delete j k [] = ground arith
find-delete j k ((i, e) ∷ m) = ground (arith, find-delete j k m)

pub find-append :
    (j : ℕ) (m n : JsMap) → find j (m ++ n) ≡ (if is_some (find j m) then find j m else find j n)
unfolding find
find-append j [] n = refl
find-append j ((i, e) ∷ m) n = ground (arith, find-append j m n)

pub delete_absent : (k : ℕ) (m : JsMap) → find k m ≡ none → delete k m ≡ m
unfolding find delete
delete_absent k [] h = refl
delete_absent k ((i, e) ∷ m) h = ground (arith, delete_absent k m)

pub delete-append : (k : ℕ) (m n : JsMap) → delete k (m ++ n) ≡ delete k m ++ delete k n
unfolding delete
delete-append k [] n = refl
delete-append k ((i, e) ∷ m) n = ground (arith, delete-append k m n)

-- A new key goes to the end.
pub put_absent :
    (k : ℕ) (v : CacheEntry) (m : JsMap) → find k m ≡ none → put k v m ≡ m ++ (k, v) ∷ []
unfolding find put
put_absent k v [] h = refl
put_absent k v ((i, e) ∷ m) h = ground (arith, put_absent k v m)

pub delete-distinct : (k : ℕ) (m : JsMap) → is_distinct m ≡ true → is_distinct (delete k m) ≡ true
unfolding is_distinct delete
delete-distinct k [] h = refl
delete-distinct k ((i, e) ∷ m) h = ground (arith, delete-distinct k m, find-delete i k m)

pub snoc-distinct :
    (k : ℕ) (v : CacheEntry) (m : JsMap)
    → is_distinct m ≡ true
    → find k m ≡ none
    → is_distinct (m ++ (k, v) ∷ []) ≡ true
unfolding is_distinct find
snoc-distinct k v [] h a = refl
snoc-distinct k v ((i, e) ∷ m) h a =
    ground (arith, snoc-distinct k v m, find-append i m ((k, v) ∷ []))

pub length-append : (m n : JsMap) → length (m ++ n) ≡ length m + length n
length-append [] n = omega arith
length-append (x ∷ m) n = omega (arith, length-append m n)

pub length-delete :
    (k : ℕ) (m : JsMap) (e : CacheEntry)
    → is_distinct m ≡ true
    → find k m ≡ some e
    → length (delete k m) + 1 ≡ length m
unfolding is_distinct find delete
length-delete k [] e d h = ground arith
length-delete k ((i, x) ∷ m) e d h = ground (arith, length-delete k m e, delete_absent k m)

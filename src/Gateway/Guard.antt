-- ===== src/Gateway/Guard.antt =====
-- What the gateway lets through, over any sequence of requests (tec-api-gateway/src/main.ts,
-- src/middleware/jwt-auth.ts, src/middleware/cache.middleware.ts).
use tec_core_backend.Base.{
  ℕ, ◌+◌, ◌*◌, Bool, true, false, not, ◌&&◌, ◌||◌, Option, none, some, List, [], ◌∷◌, String, ◌==◌,
  ◌≡◌, refl, sym, ◌∙◌, inl, inr, is_some, leb, ltb, length, if◌then◌else◌, Bool-cases, Option-cases,
  arith,
}
use tec_core_backend.Base.Text.{◌===◌, starts_with, eq_iff}
use tec_core_backend.Gateway.Replies.{Body, health_body, ready_body}
use tec_core_backend.Gateway.Cache.{
  CacheEntry, JsMap, find, delete, put, make_room, lru_get, lru_set,
}
use tec_core_backend.Gateway.Requests.{
  Request, Env, Verified, verified, bearer_token, is_public_route, jwt_auth_middleware,
}
use tec_core_backend.Gateway.Pipeline.{
  Answer, json, sent, piped, Reply, hit, answered, limit_and_proxy, get_cache_ttl, route, remember,
  miss, use_entry, cached_route, gateway, max_cache_size,
}

-- The bodies of `/health` and `/ready`.
abbrev pub is_status_body : Body → Bool
is_status_body (health_body n) = true
is_status_body ready_body = true
is_status_body b = false

unfoldable pub holds_status_only : JsMap → Bool
holds_status_only [] = true
holds_status_only ((k, e) ∷ m) = is_status_body e.payload && holds_status_only m

find-status :
    (k : ℕ) (m : JsMap) (e : CacheEntry)
    → holds_status_only m ≡ true
    → find k m ≡ some e
    → is_status_body e.payload ≡ true
unfolding holds_status_only find
find-status k [] e h f = ground arith
find-status k ((j, x) ∷ m) e h f = ground (arith, find-status k m e)

delete-status :
    (k : ℕ) (m : JsMap) → holds_status_only m ≡ true → holds_status_only (delete k m) ≡ true
unfolding holds_status_only delete
delete-status k [] h = refl
delete-status k ((j, x) ∷ m) h = ground (arith, delete-status k m)

put-status :
    (k : ℕ) (v : CacheEntry) (m : JsMap)
    → is_status_body v.payload ≡ true
    → holds_status_only m ≡ true
    → holds_status_only (put k v m) ≡ true
unfolding holds_status_only put
put-status k v [] s h = ground arith
put-status k v ((j, x) ∷ m) s h = ground (arith, put-status k v m)

make_room-status :
    (max : ℕ) (m : JsMap) → holds_status_only m ≡ true → holds_status_only (make_room max m) ≡ true
make_room-status max [] h = elim (Bool-cases (leb max 0)) [ inl e ↦ rw e h | inr e ↦ rw e h ]
make_room-status max ((j, x) ∷ m) h = elim (Bool-cases (leb max (length ((j, x) ∷ m)))) [
  | inl e ↦ rw e (delete-status j ((j, x) ∷ m) h)
  | inr e ↦ rw e h
]

lru_get-status :
    (k : ℕ) (m : JsMap) → holds_status_only m ≡ true → holds_status_only (lru_get k m).1 ≡ true
unfolding lru_get
lru_get-status k m h = elim (Option-cases (find k m)) [
  | inl e ↦ rw (e, lru_get) h
  | inr (x, e) ↦
      rw (e, lru_get) (put-status k x (delete k m) (find-status k m x h e) (delete-status k m h))
]

lru_set-status :
    (max k : ℕ) (v : CacheEntry) (m : JsMap)
    → is_status_body v.payload ≡ true
    → holds_status_only m ≡ true
    → holds_status_only (lru_set max k v m) ≡ true
unfolding lru_set
lru_set-status max k v m s h =
    put-status k v (make_room max (if is_some (find k m) then delete k m else m)) s (
      make_room-status max (if is_some (find k m) then delete k m else m)
        (elim (Bool-cases (is_some (find k m))) [
          | inl e ↦ rw e (delete-status k m h)
          | inr e ↦ rw e h
        ]))

-- The subject of the token that the request carries, if it verifies.
abbrev pub subject_of : Verified → Option String
subject_of (verified p) = p.sub
subject_of v = none

abbrev pub token_subject : Env → Request → Option String
token_subject env req = elim (bearer_token env req.authorization) [
  | none ↦ none
  | some token ↦ elim env.jwt_secret [
    | none ↦ none
    | some secret ↦ subject_of (env.verify secret token)
  ]
]

-- What a request may get: from another service only on a public path, or with the subject of its own
-- verified token; with status 200 from the gateway itself only its status, or on the path of
-- the statistics.
abbrev pub PassedOn : Bool → Env → Request → Option String → Type 0
PassedOn true env req user = user ≡ req.user_id
PassedOn false env req user = (is_some user ≡ true) × (user ≡ token_subject env req)

abbrev pub IsGuarded : Env → Request → Reply → Type 0
IsGuarded env req (hit b) = is_status_body b ≡ true
IsGuarded env req (answered (piped status service user)) =
    PassedOn (is_public_route req.path) env req user
IsGuarded env req (answered (json status b)) =
    (not (status == 200) || (is_status_body b || req.path === "/api/cache/stats")) ≡ true
IsGuarded env req (answered (sent status)) = Unit {0}

route-IsGuarded :
    (env : Env) (m : JsMap) (req : Request) → IsGuarded env req (answered (route env m req))
unfolding route jwt_auth_middleware limit_and_proxy
route-IsGuarded env m req = ground arith

stats_uncached :
    (path : String) (ttl : ℕ)
    → get_cache_ttl path ≡ some ttl
    → (path === "/api/cache/stats") ≡ false
unfolding get_cache_ttl starts_with
stats_uncached path ttl h = elim (Bool-cases (path === "/api/cache/stats")) [
  | inr e ↦ e
  | inl e ↦
      let same : path ≡ "/api/cache/stats" = (eq_iff path "/api/cache/stats").0 e in
      absurd (uncached (rw same at h))
]
  where
    uncached : get_cache_ttl "/api/cache/stats" ≡ some ttl → ⊥
    uncached h' = cc

remember-status :
    (env : Env) (req : Request) (ttl : ℕ) (a : Answer) (m : JsMap)
    → IsGuarded env req (answered a)
    → (req.path === "/api/cache/stats") ≡ false
    → holds_status_only m ≡ true
    → holds_status_only (remember env req ttl a m) ≡ true
remember-status env req ttl (json status b) m g ne h = elim (Bool-cases (status == 200)) [
  | inl e ↦ rw e (
      lru_set-status max_cache_size (env.cache_key req)
        (record { payload = b; expires_at = env.now + ttl * 1000 }) m (ground arith) h)
  | inr e ↦ rw e h
]
remember-status env req ttl (sent status) m g ne h = h
remember-status env req ttl (piped status s u) m g ne h = h

-- A reply as it may be, and a cache that holds nothing but the status of the gateway.
abbrev IsSafe : Env → Request → Reply × JsMap → Type 0
IsSafe env req (r, m) = IsGuarded env req r × (holds_status_only m ≡ true)

miss-IsSafe :
    (env : Env) (req : Request) (ttl : ℕ) (m : JsMap)
    → (req.path === "/api/cache/stats") ≡ false
    → holds_status_only m ≡ true
    → IsSafe env req (miss env req ttl m)
miss-IsSafe env req ttl m ne h = (
  route-IsGuarded env m req,
  remember-status env req ttl (route env m req) m (route-IsGuarded env m req) ne h,
)

use_entry-IsSafe :
    (env : Env) (req : Request) (ttl : ℕ) (found : Option CacheEntry) (m : JsMap)
    → (req.path === "/api/cache/stats") ≡ false
    → holds_status_only m ≡ true
    → ((e : CacheEntry) → found ≡ some e → is_status_body e.payload ≡ true)
    → IsSafe env req (use_entry env req ttl found m)
use_entry-IsSafe env req ttl none m ne h good = miss-IsSafe env req ttl m ne h
use_entry-IsSafe env req ttl (some e) m ne h good = elim (Bool-cases (ltb env.now e.expires_at)) [
  | inl fresh ↦ rw fresh (good e refl, h)
  | inr stale ↦ rw stale (miss-IsSafe env req ttl m ne h)
]

lru_get-found : (k : ℕ) (m : JsMap) → (lru_get k m).0 ≡ find k m
unfolding lru_get
lru_get-found k m = ground arith

cached_route-IsSafe :
    (env : Env) (req : Request) (m : JsMap) (ttl : Option ℕ)
    → get_cache_ttl req.path ≡ ttl
    → holds_status_only m ≡ true
    → IsSafe env req (cached_route env req m ttl)
cached_route-IsSafe env req m none e h = (route-IsGuarded env m req, h)
cached_route-IsSafe env req m (some ttl) e h =
    use_entry-IsSafe env req ttl (lru_get (env.cache_key req) m).0 (lru_get (env.cache_key req) m).1
      (stats_uncached req.path ttl e) (lru_get-status (env.cache_key req) m h)
      (λ x found.
        find-status (env.cache_key req) m x h (sym (lru_get-found (env.cache_key req) m) ∙ found))

gateway-IsSafe :
    (env : Env) (req : Request) (m : JsMap)
    → holds_status_only m ≡ true
    → IsSafe env req (gateway env req m)
unfolding gateway
gateway-IsSafe env req m h = elim (Bool-cases (req.method === "GET")) [
  | inl e ↦ rw e (cached_route-IsSafe env req m (get_cache_ttl req.path) refl h)
  | inr e ↦ rw e (route-IsGuarded env m req, h)
]

-- The cache after a sequence of requests.
unfoldable pub serve : List (Env × Request) → JsMap → JsMap
serve [] m = m
serve (x ∷ xs) m = serve xs (gateway x.0 x.1 m).1

serve-status :
    (xs : List (Env × Request)) (m : JsMap)
    → holds_status_only m ≡ true
    → holds_status_only (serve xs m) ≡ true
unfolding serve
serve-status [] m h = h
serve-status (x ∷ xs) m h = serve-status xs (gateway x.0 x.1 m).1 (gateway-IsSafe x.0 x.1 m h).1

-- After any requests, whatever tokens, services and limiters do: a request reaches a service only on
-- a public path, with the user that it names itself, or with a token that verifies, and then with
-- the subject of that token as its user. A reply from the cache is the status of the gateway, never
-- the answer of a service; so is an own answer with status 200, but for the statistics.
pub gateway_guards :
    (xs : List (Env × Request)) (env : Env) (req : Request)
    → IsGuarded env req (gateway env req (serve xs [])).0
unfolding holds_status_only
gateway_guards xs env req = (gateway-IsSafe env req (serve xs []) (serve-status xs [] refl)).0

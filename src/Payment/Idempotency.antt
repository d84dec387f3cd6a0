-- ===== src/Payment/Idempotency.antt =====
-- The middleware of tec-payment-service/src/middlewares/idempotency.middleware.ts in front of a handler.
-- The store is an interface, as in the code. A number in a header stands as its text. Writing to
-- the store ends before the next request.
use Prim.Native.String.{◌++◌, count}
use tec_core_backend.Base.{
  ℕ, ◌+◌, ◌*◌, ◌≤◌, ◌<◌, Bool, true, false, ◌||◌, Option, none, some, List, [], ◌∷◌, String, ltb,
  ◌==◌, ◌≡◌, if◌then◌else◌,
}
use tec_core_backend.Base.Text.{◌===◌}
pub mod Memory
pub mod Replay
mod Examples

pub data HeaderValue : Type 0 where
  text : String → HeaderValue
  number : String → HeaderValue
  texts : List String → HeaderValue

pub record CachedResponse (B : Type 0) : Type 0 where
  pub status_code : ℕ
  pub headers : List (String × String)
  pub body : B
  pub expires_at : ℕ

-- `IIdempotencyStore`: what it holds at a time under a key, and how its calls change that.
pub record IdempotencyStore (E : Type 0) (expires_at : E → ℕ) : Type 1 where
  pub Store : Type 0
  pub get : ℕ → String → Store → Option E × Store
  pub set : ℕ → String → E → Store → Store
  pub holds : ℕ → String → Store → Option E
  pub get_result : (now : ℕ) (k : String) (s : Store) → (get now k s).0 ≡ holds now k s
  -- What is still there later is there now.
  pub holds_before :
      (now later : ℕ) (k : String) (e : E) (s : Store)
      → now ≤ later
      → holds later k s ≡ some e
      → holds now k s ≡ some e
  -- Reading takes away nothing that would be there later.
  pub holds-get :
      (now later : ℕ) (j k : String) (e : E) (s : Store)
      → now ≤ later
      → holds later j s ≡ some e
      → holds later j (get now k s).1 ≡ some e
  pub holds-set_other :
      (now later : ℕ) (j k : String) (e : E) (s : Store)
      → (j === k) ≡ false
      → holds later j (set now k e s) ≡ holds later j s
  -- What is written under a key that holds nothing stays until it expires.
  pub holds-set :
      (now later : ℕ) (k : String) (e : E) (s : Store)
      → holds now k s ≡ none
      → now ≤ later
      → later < expires_at e
      → holds later k (set now k e (get now k s).1) ≡ some e

-- The header `idempotency-key`: missing, a text, or several texts.
pub data RawKey : Type 0 where
  missing : RawKey
  one : String → RawKey
  many : List String → RawKey

pub record Response (B : Type 0) : Type 0 where
  pub status_code : ℕ
  pub headers : List (String × HeaderValue)
  pub body : B

-- A request, with the handlers behind the middleware: they change the state, and answer by `res.json`
-- unless they give none.
pub record Request (B S : Type 0) : Type 0 where
  pub now : ℕ
  pub raw_key : RawKey
  -- `req.user?.id ?? req.userId`
  pub user : Option String
  pub next : S → Option (Response B) × S
  -- Whether the store takes the response; a failure is only logged.
  pub has_store : Bool

pub data Reply (B : Type 0) : Type 0 where
  missing_key invalid_key : Reply B
  replayed : CachedResponse B → Reply B
  answered : Option (Response B) → Reply B

-- `IDEMPOTENCY_TTL_MS` as it is without an environment variable.
abbrev pub ttl_ms : ℕ
ttl_ms = 10 * 60 * 1000

-- `Object.entries(rawHeaders)`, of which lists are dropped.
unfoldable pub keep_headers : List (String × HeaderValue) → List (String × String)
keep_headers [] = []
keep_headers ((name, text s) ∷ hs) = (name, s) ∷ keep_headers hs
keep_headers ((name, number s) ∷ hs) = (name, s) ∷ keep_headers hs
keep_headers ((name, texts ss) ∷ hs) = keep_headers hs

abbrev pub is_invalid : String → Bool
is_invalid key = count key == 0 || ltb 255 (count key)

-- `typeof rawKey === 'string' ? rawKey : rawKey[0]`
abbrev pub first_key : List String → Option String
first_key [] = none
first_key (k ∷ ks) = some k

abbrev pub user_or_anonymous : Option String → String
user_or_anonymous none = "anonymous"
user_or_anonymous (some user) = user

abbrev pub cache_key : Option String → String → String
cache_key user key = user_or_anonymous user ++ (":" ++ key)

module _ {B : Type 0} where
  abbrev pub entry_of : ℕ → Response B → CachedResponse B
  entry_of now r = record {
    status_code = r.status_code;
    headers = keep_headers r.headers;
    body = r.body;
    expires_at = now + ttl_ms;
  }

  module _ {S : Type 0} (I : IdempotencyStore (CachedResponse B) (λ e. e.expires_at)) where
    open I use {Store, get, set}

    -- `res.json` of the middleware.
    abbrev pub remember : Request B S → String → Option (Response B) → Store → Store
    remember req key none s = s
    remember req key (some r) s =
        if req.has_store then set req.now key (entry_of req.now r) s else s

    abbrev pub use_cached :
        Request B S → String → Option (CachedResponse B) → Store × S → Reply B × (Store × S)
    use_cached req key (some e) (s, app) = (replayed e, (s, app))
    use_cached req key none (s, app) =
        let (r, app') = req.next app in (answered r, (remember req key r s, app'))

    abbrev pub with_key : Request B S → Option String → Store × S → Reply B × (Store × S)
    with_key req none w = (invalid_key, w)
    with_key req (some key) (s, app) =
        if is_invalid key
        then (invalid_key, (s, app))
        else let (cached, s') = get req.now (cache_key req.user key) s in
          use_cached req (cache_key req.user key) cached (s', app)

    -- `idempotency`, with the handlers behind it. An empty header is a missing one.
    unfoldable pub idempotency : Request B S → Store × S → Reply B × (Store × S)
    idempotency req w = elim req.raw_key [
      | missing ↦ (missing_key, w)
      | one key ↦ if count key == 0 then (missing_key, w) else with_key req (some key) w
      | many keys ↦ with_key req (first_key keys) w
    ]

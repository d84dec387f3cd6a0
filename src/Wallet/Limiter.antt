-- ===== src/Wallet/Limiter.antt =====
-- The limiter of tec-wallet-service/src/middlewares/rateLimit.middleware.ts, over the interface of its
-- store, and its store in Redis. The store in memory is the same code as that of the payment service.
use tec_core_backend.Base.{
  ℕ, suc, ◌+◌, ◌-◌, ◌/◌, Bool, true, false, not, ◌&&◌, Option, none, some, List, [], ◌∷◌, String,
  ◌==◌, ◌≡◌, ltb, if◌then◌else◌,
}
use tec_core_backend.Payment.RateLimit
use tec_core_backend.Payment.RateLimit.{MemEntry}
pub mod Refines
mod Examples

-- `RateLimitResult`
pub record RateLimitResult : Type 0 where
  pub count : ℕ
  pub reset_at : ℕ

-- `IRateLimitStore`: at a time, with a window and a key; none is a throw.
pub record RateLimitStore : Type 1 where
  pub Store : Type 0
  pub increment : ℕ → ℕ → ℕ → Store → Option RateLimitResult × Store

-- Redis as the script uses it. A counter has its value and, once it is set, the time when it ends;
-- from that time on it is gone.
pub data Counter : Type 0 where
  unset : Counter
  counts : ℕ → Option ℕ → Counter

unfoldable pub live : ℕ → Counter → Counter
live now unset = unset
live now (counts n none) = counts n none
live now (counts n (some end)) = if ltb now end then counts n (some end) else unset

-- `INCR`, which keeps the end.
unfoldable pub incremented : Counter → Counter
incremented unset = counts 1 none
incremented (counts n end) = counts (suc n) end

unfoldable pub value_of : Counter → ℕ
value_of unset = 0
value_of (counts n end) = n

unfoldable pub ends_at : ℕ → Counter → Counter
ends_at end unset = unset
ends_at end (counts n old) = counts n (some end)

-- `Math.max(pttl, 0)`: the milliseconds to the end, which `PTTL` gives below 0 if there is none.
unfoldable pub time_left : ℕ → Counter → ℕ
time_left now unset = 0
time_left now (counts n none) = 0
time_left now (counts n (some end)) = end - now

pub record Redis : Type 1 where
  pub Db : Type 0
  pub get : ℕ → Db → Counter
  pub incr : ℕ → ℕ → Db → ℕ × Db
  -- `PEXPIRE`, at a time, with a number of milliseconds.
  pub pexpire : ℕ → ℕ → ℕ → Db → Db
  -- `PTTL`, where what is below 0 is 0.
  pub pttl : ℕ → ℕ → Db → ℕ
  pub incr-value :
      (now k : ℕ) (d : Db) → (incr now k d).0 ≡ value_of (incremented (live now (get k d)))
  pub get-incr :
      (now k j : ℕ) (d : Db)
      → get j (incr now k d).1 ≡ (if j == k then incremented (live now (get k d)) else get j d)
  pub get-pexpire :
      (now k j ms : ℕ) (d : Db)
      → ltb 0 ms ≡ true
      → get j (pexpire now k ms d) ≡ (if j == k then ends_at (now + ms) (get k d) else get j d)
  pub pttl-left : (now k : ℕ) (d : Db) → pttl now k d ≡ time_left now (live now (get k d))

-- Whether a call of Redis runs there, and whether its answer arrives.
pub record Link : Type 0 where
  pub has_run : Bool
  pub has_answer : Bool

module _ (R : Redis) where
  open R use {Db, incr, pexpire, pttl}

  -- `LUA_SCRIPT`
  unfoldable pub lua_script : ℕ → ℕ → ℕ → Db → (ℕ × ℕ) × Db
  lua_script now window k d =
      let (count, d') = incr now k d in
      let d'' = if count == 1 then pexpire now k window d' else d' in ((count, pttl now k d''), d'')

  -- `RedisStore.increment`, where the script runs and its answer arrives as `link` says for the time.
  unfoldable pub redis_increment : (ℕ → Link) → ℕ → ℕ → ℕ → Db → Option RateLimitResult × Db
  redis_increment link now window k d =
      let ((count, left), d') = lua_script now window k d in
      if (link now).has_run
      then (
        if (link now).has_answer
            then some (record { count = count; reset_at = now + left })
            else none,
        d',
      )
      else (none, d)

  abbrev pub redis_store : (ℕ → Link) → RateLimitStore
  redis_store link = record { Store = Db; increment = redis_increment link }

-- The singleton without `REDIS_URL`.
abbrev pub memory_store : RateLimitStore
memory_store = record {
  Store = List (ℕ × MemEntry);
  increment = λ now window k m.
      let (e, m') = RateLimit.increment now window k m in
      (some (record { count = e.count; reset_at = e.reset_at }), m');
}

-- What the middleware reads of a request: the addresses in `x-forwarded-for`, the address of the
-- socket, and the user in the token, the body and the query.
pub record Caller : Type 0 where
  pub forwarded_for : Option (List String)
  pub remote_address : Option String
  pub user_id : Option String
  pub body_user : Option String
  pub query_user : Option String

-- `a ?? b`
unfoldable pub or_else : Option String → String → String
or_else none b = b
or_else (some a) b = a

-- `ips[ips.length - 1]`
unfoldable pub last_of : String → List String → String
last_of ip [] = ip
last_of ip (x ∷ xs) = last_of x xs

abbrev pub client_ip : Caller → String
client_ip c = elim c.forwarded_for [
  | none ↦ or_else c.remote_address "unknown"
  | some ips ↦ last_of "" ips
]

abbrev pub client_user : Caller → String
client_user c = or_else c.user_id (or_else c.body_user (or_else c.query_user "anonymous"))

-- What the middleware does: it passes the request on, or answers 429 with `Retry-After` in seconds.
pub data Limited : Type 0 where
  passes : Limited
  retry_after : ℕ → Limited

module _ (S : RateLimitStore) where
  open S use {Store, increment}

  -- `Math.ceil`
  abbrev pub seconds_to : ℕ → ℕ → ℕ
  seconds_to now reset_at = (reset_at - now + 999) / 1000

  abbrev pub judge : ℕ → ℕ → Option RateLimitResult → Limited
  judge now most none = passes
  judge now most (some r) =
      if ltb most r.count then retry_after (seconds_to now r.reset_at) else passes

  -- The middleware of `createRateLimiter`, with the key that `rl:${ip}:${userId}` stands for.
  unfoldable pub rate_limiter : (String → String → ℕ) → ℕ → ℕ → ℕ → Caller → Store → Limited × Store
  rate_limiter key_of most window now c s =
      let (r, s') = increment now window (key_of (client_ip c) (client_user c)) s in
      (judge now most r, s')

  -- Requests with their times, and what the middleware does with each.
  unfoldable pub limit_all :
      (String → String → ℕ) → ℕ → ℕ → List (ℕ × Caller) → Store → List Limited
  limit_all key_of most window [] s = []
  limit_all key_of most window ((now, c) ∷ cs) s =
      let (l, s') = rate_limiter key_of most window now c s in
      l ∷ limit_all key_of most window cs s'

-- ===== src/Payment/RateLimit.antt =====
-- The rate limiter of tec-payment-service/src/middlewares/rate-limit.middleware.ts with its store in
-- memory. The key of a request, which the code builds from its address and user, is a number.
use tec_core_backend.Base.{
  ℕ, suc, ◌+◌, Bool, true, false, Option, none, some, List, [], ◌∷◌, ltb, ◌==◌, if◌then◌else◌,
}
pub mod Window
pub mod Shared
mod Examples

pub record MemEntry : Type 0 where
  pub count : ℕ
  pub reset_at : ℕ

-- `Map.get`
unfoldable pub lookup : ℕ → List (ℕ × MemEntry) → Option MemEntry
lookup k [] = none
lookup k ((j, e) ∷ m) = if k == j then some e else lookup k m

-- `entry`, as `increment` leaves it at the time `now`.
abbrev pub next_entry : ℕ → ℕ → Option MemEntry → MemEntry
next_entry now window none = record { count = 1; reset_at = now + window }
next_entry now window (some e) =
    if ltb e.reset_at now
    then record { count = 1; reset_at = now + window }
    else record e { count = e.count + 1 }

-- `InMemoryStore.increment`; a key is set by an entry in front of older ones.
unfoldable pub increment : ℕ → ℕ → ℕ → List (ℕ × MemEntry) → MemEntry × List (ℕ × MemEntry)
increment now window k m = let e = next_entry now window (lookup k m) in (e, (k, e) ∷ m)

-- A request: its time and its key.
pub record Hit : Type 0 where
  pub now : ℕ
  pub key : ℕ

-- The middleware of `createRateLimiter`: whether the request passes, and the store.
unfoldable pub rate_limit : ℕ → ℕ → Hit → List (ℕ × MemEntry) → Bool × List (ℕ × MemEntry)
rate_limit most window h m =
    let (e, m') = increment h.now window h.key m in (if ltb most e.count then false else true, m')

-- How many of the requests with the key pass.
unfoldable pub count_passed : ℕ → ℕ → ℕ → List Hit → List (ℕ × MemEntry) → ℕ
count_passed most window k [] m = 0
count_passed most window k (h ∷ hs) m =
    let (passes, m') = rate_limit most window h m in
    let rest = count_passed most window k hs m' in
    if h.key == k then (if passes then suc rest else rest) else rest

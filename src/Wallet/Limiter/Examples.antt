-- ===== src/Wallet/Limiter/Examples.antt =====
-- Tests of the limiter of the wallet service on a Redis that is a function, and the theorem there.
use tec_core_backend.Base.{
  ℕ, ◌+◌, true, none, some, List, [], ◌∷◌, String, ◌==◌, ◌≡◌, refl, if◌then◌else◌,
}
use tec_core_backend.Base.Text.{◌===◌}
use tec_core_backend.Payment.RateLimit
use tec_core_backend.Payment.RateLimit.{lookup}
use tec_core_backend.Wallet.Limiter.{
  Counter, unset, live, incremented, value_of, ends_at, time_left, Redis, Link, Caller, or_else,
  last_of, redis_store, memory_store, passes, retry_after, rate_limiter, limit_all,
}
use tec_core_backend.Wallet.Limiter.Refines.{
  counter_of, is_off, is_counting, are_off, limit_all_same,
}

abbrev put : ℕ → Counter → (ℕ → Counter) → ℕ → Counter
put k c d j = if j == k then c else d j

abbrev counters : Redis
counters = record {
  Db = ℕ → Counter;
  get = λ k d. d k;
  incr =
      λ now k d. (value_of (incremented (live now (d k))), put k (incremented (live now (d k))) d);
  pexpire = λ now k ms d. put k (ends_at (now + ms) (d k)) d;
  pttl = λ now k d. time_left now (live now (d k));
  incr-value = λ now k d. refl;
  get-incr = λ now k j d. refl;
  get-pexpire = λ now k j ms d h. refl;
  pttl-left = λ now k d. refl;
}

abbrev up : ℕ → Link
up t = record { has_run = true; has_answer = true }

abbrev from : String → Caller
from user = record {
  forwarded_for = some ("10.0.0.1" ∷ "10.0.0.2" ∷ []);
  remote_address = none;
  user_id = some user;
  body_user = none;
  query_user = none;
}

abbrev key_of : String → String → ℕ
key_of ip user = if user === "alice" then 1 else 2

-- A limit of two requests in 60 milliseconds.
abbrev calls : List (ℕ × Caller)
calls =
    (0, from "alice")
    ∷ (10, from "alice")
    ∷ (20, from "bob")
    ∷ (30, from "alice")
    ∷ (61, from "alice")
    ∷ []

alice_waits :
    limit_all memory_store key_of 2 60 calls []
    ≡ passes ∷ passes ∷ passes ∷ retry_after 1 ∷ passes ∷ []
unfolding limit_all rate_limiter RateLimit.increment lookup or_else last_of
alice_waits = refl

limit_all_same_example :
    limit_all (redis_store counters up) key_of 2 60 calls (λ k. unset)
    ≡ limit_all memory_store key_of 2 60 calls []
unfolding are_off is_off is_counting counter_of lookup RateLimit.increment or_else last_of
limit_all_same_example =
    limit_all_same counters up (λ t. refl) (λ t. refl) key_of 2 60 calls (λ k. unset) [] refl refl
      (λ j. (refl, refl))

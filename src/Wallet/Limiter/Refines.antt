-- ===== src/Wallet/Limiter/Refines.antt =====
-- That the store in Redis of tec-wallet-service/src/middlewares/rateLimit.middleware.ts counts as the
-- store in memory does.
use tec_core_backend.Base.{
  ℕ, ◌+◌, Bool, true, false, not, ◌&&◌, Option, none, some, List, [], ◌∷◌, String, ◌==◌, ==_iff,
  ◌≡◌, refl, ltb, Bool-cases, inl, inr, arith,
}
use tec_core_backend.Payment.RateLimit
use tec_core_backend.Payment.RateLimit.{MemEntry, lookup, next_entry}
use tec_core_backend.Wallet.Limiter.{
  Counter, unset, counts, live, incremented, value_of, ends_at, time_left, Redis, Link, client_ip,
  client_user, limit_all, lua_script, redis_increment, redis_store, memory_store, Caller,
  rate_limiter,
}

-- The counter that stands for an entry.
unfoldable pub counter_of : Option MemEntry → Counter
counter_of none = unset
counter_of (some e) = counts e.count (some e.reset_at)

-- The time is not the one at which the window of the entry ends.
unfoldable pub is_off : ℕ → Option MemEntry → Bool
is_off now none = true
is_off now (some e) = not (now == e.reset_at)

unfoldable pub is_counting : Option MemEntry → Bool
is_counting none = true
is_counting (some e) = ltb 0 e.count

-- No request comes at the very time at which the window of its key ends in the store in memory.
unfoldable pub are_off : (String → String → ℕ) → ℕ → List (ℕ × Caller) → List (ℕ × MemEntry) → Bool
are_off key_of window [] m = true
are_off key_of window ((now, c) ∷ cs) m =
    let k = key_of (client_ip c) (client_user c) in
    is_off now (lookup k m) && are_off key_of window cs (RateLimit.increment now window k m).1

module _ (R : Redis) (link : ℕ → Link) (runs : (t : ℕ) → (link t).has_run ≡ true)
    (answers : (t : ℕ) → (link t).has_answer ≡ true) where
  open R use {Db, get, incr, pexpire, pttl, incr-value, get-incr, get-pexpire, pttl-left}

  -- What the counter of the key is after the script.
  script_counter :
      (now window k : ℕ) (d : Db) (o : Option MemEntry)
      → ltb 0 window ≡ true
      → get k d ≡ counter_of o
      → is_off now o ≡ true
      → is_counting o ≡ true
      → get k (lua_script R now window k d).1 ≡ counter_of (some (next_entry now window o))
  unfolding lua_script counter_of is_off is_counting incremented live value_of ends_at
  script_counter now window k d o positive same off counting = ground (
    arith,
    positive,
    same,
    off,
    counting,
    incr-value now k d,
    get-incr now k k d,
    get-pexpire now k k window (incr now k d).1,
  )

  script_other :
      (now window k j : ℕ) (d : Db)
      → ltb 0 window ≡ true
      → (j == k) ≡ false
      → get j (lua_script R now window k d).1 ≡ get j d
  unfolding lua_script
  script_other now window k j d positive other =
      ground
        (arith, positive, other, get-incr now k j d, get-pexpire now k j window (incr now k d).1)

  script_answer :
      (now window k : ℕ) (d : Db) (o : Option MemEntry)
      → ltb 0 window ≡ true
      → get k d ≡ counter_of o
      → is_off now o ≡ true
      → is_counting o ≡ true
      → ((lua_script R now window k d).0.0 ≡ (next_entry now window o).count)
        × (now + (lua_script R now window k d).0.1 ≡ (next_entry now window o).reset_at)
  unfolding lua_script counter_of is_off is_counting incremented live value_of ends_at time_left
  script_answer now window k d o positive same off counting = ground (
    arith,
    positive,
    same,
    off,
    incr-value now k d,
    pttl-left now k (lua_script R now window k d).1,
    script_counter now window k d o positive same off counting,
  )

  -- Both stores hold the same counts, with no count at 0.
  abbrev pub IsSame : Db → List (ℕ × MemEntry) → Type 0
  IsSame d m = (j : ℕ) → (get j d ≡ counter_of (lookup j m)) × (is_counting (lookup j m) ≡ true)

  next-is_counting :
      (now window : ℕ) (o : Option MemEntry) → is_counting (some (next_entry now window o)) ≡ true
  unfolding is_counting
  next-is_counting now window o = ground arith

  increment-IsSame :
      (now window k : ℕ) (d : Db) (m : List (ℕ × MemEntry))
      → ltb 0 window ≡ true
      → is_off now (lookup k m) ≡ true
      → IsSame d m
      → IsSame (lua_script R now window k d).1 (RateLimit.increment now window k m).1
  unfolding RateLimit.increment lookup
  increment-IsSame now window k d m positive off same j = elim (Bool-cases (j == k)) [
    | inr other ↦ rw (other, script_other now window k j d positive other) (same j)
    | inl e ↦
        rw (e, (==_iff j k).0 e)
          (
            script_counter now window k d (lookup k m) positive (same k).0 off (same k).1,
            next-is_counting now window (lookup k m),
          )
  ]

  -- While Redis answers, a limiter with the store in Redis does what it does with the store in
  -- memory, request by request: it passes the same requests on and gives the others the same
  -- `Retry-After`, if no request comes at the very time at which a window ends.
  pub limit_all_same :
      (key_of : String → String → ℕ) (most window : ℕ) (cs : List (ℕ × Caller)) (d : Db)
      (m : List (ℕ × MemEntry))
      → ltb 0 window ≡ true
      → are_off key_of window cs m ≡ true
      → IsSame d m
      → limit_all (redis_store R link) key_of most window cs d
        ≡ limit_all memory_store key_of most window cs m
  unfolding limit_all are_off rate_limiter redis_increment RateLimit.increment
  limit_all_same key_of most window [] d m positive off same = refl
  limit_all_same key_of most window ((now, c) ∷ cs) d m positive off same =
      let k = key_of (client_ip c) (client_user c) in
      let m' = (RateLimit.increment now window k m).1 in
      let now_off : is_off now (lookup k m) ≡ true = ground (arith, off) in
      let then_off : are_off key_of window cs m' ≡ true = ground (arith, off) in
      let answer =
        script_answer now window k d (lookup k m) positive (same k).0 now_off (same k).1 in
      let rest =
        limit_all_same key_of most window cs (lua_script R now window k d).1 m' positive then_off
          (increment-IsSame now window k d m positive now_off same) in
      rw (runs now, answers now, answer.0, answer.1, rest) refl

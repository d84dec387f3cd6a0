-- ===== src/Payment/PiApi/Breaker.antt =====
-- The circuit breaker over a sequence of calls.
use tec_core_backend.Base.{
  ℕ, ◌+◌, ◌≤◌, ◌<◌, ◌≡◌, ◌↔◌, refl, ap, ◌⊎◌, true, List, [], ◌∷◌, arith, length, All,
}
use tec_core_backend.Base.Action.{err}
use tec_core_backend.Payment.PiApi.{
  Net, PiOp, Ending, answered, refused, exhausted, ErrorType, network, Circuit, reset, attempts,
  pi_circuit_open, circuit_threshold, circuit_timeout, count_failure, call_pi_api,
}

-- The circuit after a sequence of calls, each with what it met.
unfoldable pub run_calls : List (Net × PiOp) → Circuit → Circuit
run_calls [] c = c
run_calls ((net, op) ∷ calls) c = run_calls calls (call_pi_api net op c).1

-- The key is set, and the call uses up its attempts.
abbrev pub IsUnanswered : Net → Type 0
IsUnanswered net =
    (net.has_api_key ≡ true)
    × ((k : ErrorType) × ((attempts net net.max_retries 1 network 0).0 ≡ exhausted k))

unanswered_call :
    (net : Net) (op : PiOp) (c : Circuit)
    → IsUnanswered net
    → c.open_until ≤ net.now
    → (call_pi_api net op c).1 ≡ count_failure net c
unfolding call_pi_api
unanswered_call net op c (key, (k, e)) h = ground arith

-- Below the threshold failures are only counted.
few_failures :
    (calls : List (Net × PiOp)) (c : Circuit)
    → All (λ call. IsUnanswered call.0) calls
    → c.open_until ≡ 0
    → c.failures + length calls < circuit_threshold
    → run_calls calls c ≡ record { failures = c.failures + length calls; open_until = 0 }
unfolding run_calls count_failure
few_failures [] c h o lt = ground arith
few_failures ((net, op) ∷ calls) c (h, hs) o lt =
    let after : (call_pi_api net op c).1 ≡ record { failures = c.failures + 1; open_until = 0 } =
      ground (arith, unanswered_call net op c h) in
    rw after (
      ground (
        arith,
        few_failures calls (record { failures = c.failures + 1; open_until = 0 }) hs refl
            (omega arith),
      ))

fifth_unanswered :
    (net : Net) (op : PiOp)
    → IsUnanswered net
    → (call_pi_api net op (record { failures = 4; open_until = 0 })).1
      ≡ record { failures = 5; open_until = net.now_after + circuit_timeout }
unfolding count_failure
fifth_unanswered net op h =
    unanswered_call net op (record { failures = 4; open_until = 0 }) h (omega arith)

refused_while_open :
    (net : Net) (op : PiOp) (c : Circuit)
    → net.has_api_key ≡ true
    → net.now < c.open_until
    → call_pi_api net op c ≡ (err (record { code = pi_circuit_open; http_status = 503 }), c)
unfolding call_pi_api
refused_while_open net op c key h = ground arith

-- From a reset circuit, after four unanswered calls in a row the circuit is still closed; the fifth
-- opens it for `CIRCUIT_TIMEOUT` from the end of that call, and a call that begins before that time
-- is refused with `PI_CIRCUIT_OPEN` (503) and changes nothing, whatever the network would answer.
pub fifth_failure_opens :
    (calls : List (Net × PiOp)) (fifth later : Net) (op op' : PiOp)
    → All (λ call. IsUnanswered call.0) calls
    → length calls ≡ 4
    → IsUnanswered fifth
    → later.has_api_key ≡ true
    → later.now < fifth.now_after + circuit_timeout
    → let closed = run_calls calls reset in
      let opened = (call_pi_api fifth op closed).1 in
      (closed.open_until ≡ 0)
      × (opened.open_until ≡ fifth.now_after + circuit_timeout)
      × (call_pi_api later op' opened
          ≡ (err (record { code = pi_circuit_open; http_status = 503 }), opened))
fifth_failure_opens calls fifth later op op' h four h5 key early =
    let four_failed : run_calls calls reset ≡ record { failures = 4; open_until = 0 } =
      rw (few_failures calls reset h refl (omega arith)) (rw four) in
    let failed : (call_pi_api fifth op (run_calls calls reset)).1
        ≡ record { failures = 5; open_until = fifth.now_after + circuit_timeout } =
      rw four_failed (fifth_unanswered fifth op h5) in
    (
      ap (λ (c : Circuit). c.open_until) four_failed,
      ap (λ (c : Circuit). c.open_until) failed,
      rw failed (refused_while_open later op' _ key early),
    )

-- At the given time the circuit is closed, or there are at least five failures on the counter.
abbrev pub IsSound : ℕ → Circuit → Type 0
IsSound now c = (c.open_until ≤ now) ⊎ (circuit_threshold ≤ c.failures)

-- Calls keep that, if the clock does not run backwards: a call that is answered resets the counter,
-- and it is made only when the circuit is closed.
pub call_pi_api-IsSound :
    (net : Net) (op : PiOp) (c : Circuit)
    → IsSound net.now c
    → net.now ≤ net.now_after
    → IsSound net.now_after (call_pi_api net op c).1
unfolding call_pi_api count_failure
call_pi_api-IsSound net op c h t = ground arith

half_open_ending :
    (net : Net) (op : PiOp) (c : Circuit)
    → circuit_threshold ≤ c.failures
    → c.open_until ≤ net.now
    → net.now ≤ net.now_after
    → (ending : Ending) → net.has_api_key ≡ true
    → (attempts net net.max_retries 1 network 0).0 ≡ ending
    → (net.now_after < (call_pi_api net op c).1.open_until)
      ↔ ((k : ErrorType) × ((attempts net net.max_retries 1 network 0).0 ≡ exhausted k))
unfolding call_pi_api count_failure
half_open_ending net op c f t u answered key e =
    (λ h. absurd (ground arith), λ h. absurd (cc (h.1)))
half_open_ending net op c f t u refused key e = (λ h. absurd (ground arith), λ h. absurd (cc (h.1)))
half_open_ending net op c f t u (exhausted k) key e = (λ h. (k, e), λ h. ground arith)

-- Once the time has passed a call is made again, and after it a circuit with five failures on its
-- counter is open exactly if that one call used up its attempts.
pub half_open_iff :
    (net : Net) (op : PiOp) (c : Circuit)
    → net.has_api_key ≡ true
    → circuit_threshold ≤ c.failures
    → c.open_until ≤ net.now
    → net.now ≤ net.now_after
    → (net.now_after < (call_pi_api net op c).1.open_until)
      ↔ ((k : ErrorType) × ((attempts net net.max_retries 1 network 0).0 ≡ exhausted k))
unfolding call_pi_api count_failure
half_open_iff net op c key f t u =
    half_open_ending net op c f t u (attempts net net.max_retries 1 network 0).0 key refl

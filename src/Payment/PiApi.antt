-- ===== src/Payment/PiApi.antt =====
-- The client of the Pi Network API (tec-payment-service/src/services/payment.service.ts):
-- `callPiApi` with its retries and its circuit breaker. `fetch` is a parameter: what each attempt
-- met. The clock is read twice, when a call begins and after its last attempt.
pub mod Retries
pub mod Breaker
use tec_core_backend.Base.{
  ℕ, zero, suc, ◌+◌, ◌*◌, ◌-◌, ◌^◌, Bool, true, false, ◌&&◌, ◌||◌, ltb, leb, ◌==◌, if◌then◌else◌,
}
use tec_core_backend.Base.Action.{Result, ok, err}

-- What one call of `fetch` met: a response with its HTTP status, a timeout, or no connection.
pub data Fetched : Type 0 where
  response : ℕ → Fetched
  timed_out : Fetched
  unreachable : Fetched

-- The three operations whose failure code the caller supplies.
pub data PiOp : Type 0 where
  approve complete cancel : PiOp

pub data PiCode : Type 0 where
  pi_config_error pi_circuit_open pi_timeout pi_network_error : PiCode
  pi_failed : PiOp → PiCode

pub record PiError : Type 0 where
  pub code : PiCode
  pub http_status : ℕ

-- `lastErrorType`
pub data ErrorType : Type 0 where
  abort network http : ErrorType

-- `circuitFailures` and `circuitOpenUntil`
pub record Circuit : Type 0 where
  pub failures : ℕ
  pub open_until : ℕ

pub record Net : Type 0 where
  pub has_api_key : Bool
  pub max_retries : ℕ
  pub fetch : ℕ → Fetched
  pub now : ℕ
  pub now_after : ℕ

abbrev pub circuit_threshold : ℕ
circuit_threshold = 5

abbrev pub circuit_timeout : ℕ
circuit_timeout = 60000

-- `_resetCircuitBreaker`
abbrev pub reset : Circuit
reset = record { failures = 0; open_until = 0 }

-- What the loop does about one attempt.
pub data Verdict : Type 0 where
  done refuse : Verdict
  retry : ErrorType → Verdict

unfoldable pub judge : Fetched → Verdict
judge (response status) =
    if leb 200 status && leb status 299
    then done
    else if status == 429 || leb 500 status
    then retry http
    else refuse
judge timed_out = retry abort
judge unreachable = retry network

-- How the loop of `callPiApi` ended.
pub data Ending : Type 0 where
  answered refused : Ending
  exhausted : ErrorType → Ending

-- `500 * 2 ** (attempt - 1)`, but no delay after the final attempt.
unfoldable pub delay : ℕ → ℕ → ℕ
delay max_retries attempt = if ltb attempt max_retries then 500 * 2 ^ (attempt - 1) else 0

-- The loop, on the number of attempts left; it also adds up the milliseconds slept.
unfoldable pub attempts : Net → ℕ → ℕ → ErrorType → ℕ → Ending × ℕ
attempts net zero attempt last slept = (exhausted last, slept)
attempts net (suc left) attempt last slept = elim (judge (net.fetch attempt)) [
  | done ↦ (answered, slept)
  | refuse ↦ (refused, slept)
  | retry kind ↦ attempts net left (attempt + 1) kind (slept + delay net.max_retries attempt)
]

-- A call that used up its attempts counts as a failure, and the fifth in a row opens the circuit.
unfoldable pub count_failure : Net → Circuit → Circuit
count_failure net c =
    let failures = c.failures + 1 in
    record {
      failures = failures;
      open_until =
          if leb circuit_threshold failures then net.now_after + circuit_timeout else c.open_until;
    }

abbrev pub give_up : PiOp → ErrorType → PiError
give_up op abort = record { code = pi_timeout; http_status = 504 }
give_up op network = record { code = pi_network_error; http_status = 502 }
give_up op http = record { code = pi_failed op; http_status = 502 }

abbrev pub conclude : Net → PiOp → Ending → Circuit → Result PiError (Unit {0}) × Circuit
conclude net op answered c = (ok tt, record c { failures = 0 })
conclude net op refused c = (err (record { code = pi_failed op; http_status = 502 }), c)
conclude net op (exhausted last) c = (err (give_up op last), count_failure net c)

unfoldable pub call_pi_api : Net → PiOp → Circuit → Result PiError (Unit {0}) × Circuit
call_pi_api net op c =
    if net.has_api_key
    then if ltb net.now c.open_until
      then (err (record { code = pi_circuit_open; http_status = 503 }), c)
      else conclude net op (attempts net net.max_retries 1 network 0).0 c
    else (err (record { code = pi_config_error; http_status = 500 }), c)

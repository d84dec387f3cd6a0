-- ===== src/Payment/Samples.antt =====
-- Test data of the payment service: calls that all work, a network that never answers, and a payment.
use tec_core_backend.Base.{ℕ, true, none, some, List, []}
use tec_core_backend.Payment.PiApi.{unreachable}
use tec_core_backend.Payment.Types.{Status, pi, Payment, object, Env}

abbrev pub env : Env (List (ℕ × Payment))
env = record {
  fault = λ site. none;
  net = record {
    has_api_key = true;
    max_retries = 1;
    fetch = λ attempt. unreachable;
    now = 0;
    now_after = 0;
  };
  has_app_id = true;
  is_sandbox = true;
  now = 500;
  meanwhile = λ t. t;
  user = some 7;
  is_valid = true;
}

abbrev pub a_payment : ℕ → Status → ℕ → Payment
a_payment user status time = record {
  user_id = user;
  amount = 12;
  currency = "PI";
  method = pi;
  status = status;
  pi_payment_id = none;
  transaction_id = none;
  metadata = object [];
  created_at = time;
  approved_at = none;
  completed_at = none;
  failed_at = none;
  cancelled_at = none;
  deleted_at = none;
}

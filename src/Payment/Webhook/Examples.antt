-- ===== src/Payment/Webhook/Examples.antt =====
-- Tests of the webhook's signature, with a digest that is the secret itself, and its theorem there.
use tec_core_backend.Base.{
  ℕ, ◌≡◌, ◌⊎◌, refl, true, false, some, none, List, [], ◌∷◌, String, if◌then◌else◌,
}
use tec_core_backend.Base.Text.{◌===◌, starts_with}
use tec_core_backend.Base.Table.Rows.{rows}
use tec_core_backend.Payment.PiApi.{reset}
use tec_core_backend.Payment.Samples.{env}
use tec_core_backend.Payment.Types.{Payment, State, unauthorized, failure}
use tec_core_backend.Payment.Webhook.{handle_incomplete_payment}
use tec_core_backend.Payment.Webhook.Signature.{
  Crypto, Signed, IsSignedBy, validate_pi_signature, unsigned_webhook_refused,
}

abbrev toy : Crypto String
toy = record {
  hmac = λ secret body. secret;
  from_hex = λ t. if t === "ab" then 171 ∷ [] else if t === "AB" then 171 ∷ [] else [];
}

abbrev genuine : Signed String
genuine = record { secret = some "ab"; header = some "sha256=AB"; raw_body = some "{}" }

accepts_upper_case : validate_pi_signature toy genuine ≡ true
unfolding validate_pi_signature starts_with
accepts_upper_case = refl

refuses_missing_secret : validate_pi_signature toy (record genuine { secret = none }) ≡ false
unfolding validate_pi_signature
refuses_missing_secret = refl

abbrev empty : State (List (ℕ × Payment))
empty = record { payments = []; audits = []; events = []; circuit = reset }

unsigned_webhook_refused_example :
    (handle_incomplete_payment rows env (validate_pi_signature toy genuine) (some 31) none empty
      ≡ (failure 401 unauthorized, empty))
    ⊎ ((k h : String) × (b : String) × IsSignedBy toy genuine k h b)
unsigned_webhook_refused_example =
    unsigned_webhook_refused toy rows env genuine (some 31) none empty

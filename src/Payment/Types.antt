-- ===== src/Payment/Types.antt =====
-- The data of the payment service: rows of the `payments` and `payment_audit_logs` tables
-- (tec-payment-service/prisma/schema.prisma), replies and errors of its handlers. The uuids are
-- numbers, since they are only compared; amounts are numbers of the smallest unit.
use tec_core_backend.Base.{
  ℕ, Bool, true, false, Option, none, some, List, [], ◌∷◌, String, if◌then◌else◌,
}
use tec_core_backend.Base.Text.{◌===◌}
use tec_core_backend.Payment.PiApi.{PiCode, Circuit, Net}

-- The strings of the `status` column that the code writes or tests, and any other.
pub data Status : Type 0 where
  created approved completed cancelled failed unknown : Status

-- `payment_method`
pub data Method : Type 0 where
  pi card wallet : Method

-- A value of the `metadata` object.
pub data Value : Type 0 where
  undefined : Value
  flag : Bool → Value
  number : ℕ → Value
  text : String → Value
  a_status : Status → Value

-- The `metadata` column: an object with its fields, or any other JSON value.
pub data Metadata : Type 0 where
  object : List (String × Value) → Metadata
  no_object : Metadata

pub record Payment : Type 0 where
  pub user_id : ℕ
  pub amount : ℕ
  pub currency : String
  pub method : Method
  pub status : Status
  pub pi_payment_id : Option ℕ
  pub transaction_id : Option ℕ
  pub metadata : Metadata
  pub created_at : ℕ
  pub approved_at : Option ℕ
  pub completed_at : Option ℕ
  pub failed_at : Option ℕ
  pub cancelled_at : Option ℕ
  pub deleted_at : Option ℕ

-- `AuditEventType`
pub data AuditEvent : Type 0 where
  payment_initiated payment_approved payment_confirmed payment_cancelled payment_failed : AuditEvent
  invalid_transition_attempt payment_webhook_received payment_reconciled : AuditEvent

-- An audit entry; the IP address and the request id are left out. No user id is 'unknown'.
pub record Audit : Type 0 where
  pub user_id : Option ℕ
  pub payment_id : Option ℕ
  pub event : AuditEvent

-- The `payment.completed` event.
pub record CompletedEvent : Type 0 where
  pub payment_id : ℕ
  pub user_id : ℕ
  pub amount : ℕ
  pub currency : String
  pub pi_payment_id : Option ℕ

-- What the service keeps: the table of payments, the audit log and the published events (the
-- newest first), and the circuit breaker of the Pi client.
pub record State (P : Type 0) : Type 0 where
  pub payments : P
  pub audits : List Audit
  pub events : List CompletedEvent
  pub circuit : Circuit

-- What a call of the database can throw: known request errors by their code, and a failed
-- connection (`PrismaClientInitializationError` or `PrismaClientRustPanicError`).
pub data DbError : Type 0 where
  p1xxx p2002 p2003 p2025 known_error : DbError
  unavailable other_error : DbError

-- The places where a handler calls the database or the event bus.
pub data Site : Type 0 where
  at_find at_find_again at_update at_create at_log at_publish : Site
  at_row : ℕ → Site

-- The `code` of an error body.
pub data Code : Type 0 where
  validation_error duplicate_payment invalid_user database_unavailable internal_error : Code
  service_not_configured not_found invalid_status payment_modified duplicate_pi_payment : Code
  pi_api_error complete_failed unauthorized : Code
  pi_code : PiCode → Code

-- `action` in the reply of `resolveIncompletePayment`.
pub data Resolution : Type 0 where
  completed_now already_completed cancelled_on_pi no_action_needed : Resolution

pub data Reply : Type 0 where
  payment_reply : ℕ → Payment → Reply
  resolved : Resolution → Reply
  acknowledged : Reply
  failure : ℕ → Code → Reply

-- An error reply.
abbrev pub is_failure : Reply → Bool
is_failure (failure n c) = true
is_failure r = false

-- How a `try` block ends before its end: an early return with a reply, or a throw.
pub data Thrown : Type 0 where
  reply : Reply → Thrown
  db : DbError → Thrown
  missing : Thrown
  invalid_transition : Status → Thrown

-- A throw that does not carry a reply of success.
abbrev pub throws_failure : Thrown → Bool
throws_failure (reply r) = is_failure r
throws_failure t = true

-- What a request meets outside this code: the faults of each call, the network, the environment
-- variables, the clock, and what other requests do to the table while the Pi API is called.
pub record Env (P : Type 0) : Type 0 where
  pub fault : Site → Option DbError
  pub net : Net
  pub has_app_id : Bool
  pub is_sandbox : Bool
  pub now : ℕ
  pub meanwhile : P → P
  -- `req.userId`
  pub user : Option ℕ
  -- `validationResult(req).isEmpty()`
  pub is_valid : Bool

-- `getMetadataObject`
unfoldable pub get_metadata_object : Metadata → List (String × Value)
get_metadata_object (object fields) = fields
get_metadata_object no_object = []

-- `{ ...fields, key: v }`
unfoldable pub set_field : String → Value → List (String × Value) → List (String × Value)
set_field key v [] = (key, v) ∷ []
set_field key v ((k, w) ∷ fields) =
    if k === key then (k, v) ∷ fields else (k, w) ∷ set_field key v fields

-- `fields[key]`
unfoldable pub get_field : String → List (String × Value) → Option Value
get_field key [] = none
get_field key ((k, w) ∷ fields) = if k === key then some w else get_field key fields

-- A new value that is not `undefined` replaces the old one: Prisma leaves the column alone else.
abbrev pub or_keep : Option ℕ → Option ℕ → Option ℕ
or_keep none old = old
or_keep (some v) old = some v

-- `ALLOWED_TRANSITIONS` and `isTransitionAllowed`
unfoldable pub is_transition_allowed : Status → Status → Bool
is_transition_allowed created approved = true
is_transition_allowed created cancelled = true
is_transition_allowed created failed = true
is_transition_allowed approved completed = true
is_transition_allowed approved cancelled = true
is_transition_allowed approved failed = true
is_transition_allowed from to = false

-- An optional id as a field of the metadata.
abbrev pub id_value : Option ℕ → Value
id_value none = undefined
id_value (some n) = number n

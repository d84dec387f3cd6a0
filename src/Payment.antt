-- ===== src/Payment.antt =====
-- The payment service (tec-payment-service/src).
pub mod PiApi
pub mod Types
pub mod Calls
pub mod Approval
pub mod Completion
pub mod Closing
pub mod Transitions
pub mod Diagram
pub mod Requests
pub mod Reconciliation
pub mod Webhook
pub mod Outbox
pub mod RateLimit
pub mod Idempotency
pub mod Resolution
pub mod History
pub mod Server
mod Samples
mod Examples

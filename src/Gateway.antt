-- ===== src/Gateway.antt =====
-- The API gateway (tec-api-gateway/src).
pub mod Replies
pub mod Cache
pub mod Requests
pub mod Pipeline
pub mod Guard
mod Examples

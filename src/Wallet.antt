-- ===== src/Wallet.antt =====
-- The wallet service (tec-wallet-service/src).
pub mod Types
pub mod Operations
pub mod Credit
pub mod Ledger
pub mod Limiter
pub mod Reads
pub mod Server
mod Samples
mod Examples

-- ===== src/Assets.antt =====
-- The assets and the marketplace of the asset service
-- (tec-asset-service/src/modules/asset and src/modules/marketplace).
pub mod Types
pub mod Market
pub mod Effects
pub mod Listed
pub mod Owners
pub mod Race
mod Examples

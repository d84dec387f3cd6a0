-- ===== src/Commerce.antt =====
-- The orders and the subscriptions of the commerce service (tec-commerce-service/src/modules).
pub mod Types
pub mod Items
pub mod Orders
pub mod Listing
pub mod Subscriptions
pub mod States
pub mod Closed
pub mod Stock
mod Examples

-- ===== src/Base/Table.antt =====
-- The interface of a database table, and a table that keeps its rows in a list.
mod Laws
pub mod Rows
pub mod Keyed
pub mod Listing
pub mod Sorted
pub use Laws.{Table}

-- ===== src/Store.antt =====
-- The database behind the stores and repositories of apps/backend/src, as one record of tables,
-- with the columns that the modelled operations read or write. A mission row carries the mine of
-- its load, which the repositories join in. Weights are hundredths of a kilogram and amounts are
-- hundredths of a rial, as their columns store them; times are milliseconds.
mod Monad
pub mod Batches
pub mod Atomic
pub mod Keeps
pub mod Ends
pub mod Statements
pub mod Tables
pub use Monad.*

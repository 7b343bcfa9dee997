-- ===== src/Tests.antt =====
-- Concrete runs of the modelled code, and each theorem at a concrete input.
pub mod Data
mod Ledgers
mod Steps
mod Pools
mod Requests
mod Identity
mod Queues
mod Settlements
mod Closes
mod Hourlies
mod RateCards
mod Idempotencies
mod Ingests
mod Statements

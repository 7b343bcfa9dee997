-- ===== src/Weighbridge.antt =====
-- The weighbridge requests of apps/backend/src/stores/missionStore.ts over
-- weighbridgeRepository.ts: the weights of a ticket, its approval with the mission's split, its
-- rejection, and the adjustments of an approved weight.
pub mod Anomaly
pub mod Submit
pub mod Ingest
pub mod Approve
pub mod Adjust
pub mod Progress

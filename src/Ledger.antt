-- ===== src/Ledger.antt =====
-- The wallet ledger, the community pools' totals and the mission split of
-- apps/backend/src/repositories/financeLedgerRepository.ts, with walletsRepository.ts,
-- communityPoolsRepository.ts and services/financePolicyService.ts, on which it rests.
pub mod Policy
pub mod Post
pub mod Split

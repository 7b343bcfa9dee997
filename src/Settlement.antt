-- ===== src/Settlement.antt =====
-- The settlement of batches: apps/backend/src/repositories/settlementRepository.ts with
-- lib/settlementGovernance.ts, lib/settlementCycle.ts, lib/settlementEligibility.ts,
-- repositories/approvalTasksRepository.ts, and the automatic payouts of
-- services/settlementService.ts.
pub mod Batch
pub mod Period
pub mod Eligible
pub mod Close
pub mod Paid
pub mod Payouts

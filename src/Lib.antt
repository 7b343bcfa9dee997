-- ===== src/Lib.antt =====
-- The core of the haul platform's backend (apps/backend/src): missions that drivers carry out, the
-- weighbridge that weighs what they delivered, the ledger that splits the fare of a verified
-- mission, the community pools that take a contribution from it and share it out among the
-- households of a mine, the settlement of what owners and households earned by the bank, the
-- monthly statements of what a mine owes a cooperative, the job queue that runs the payouts, and
-- the check digits of national ids and IBANs.
--
-- How the parts interact. A mission moves along the chain of lib/missionFsm.ts by requests of the
-- dispatcher, the driver, the weighbridge and the settlement engine. An arrival makes the ticket
-- of the mission, an operator or the local agent of a weighbridge gives it weights, and its
-- approval verifies the mission, credits the owner and the platform and adds to the pool of the
-- mine and the period, in one transaction. An approved weight is corrected by an adjustment, which
-- posts the difference. A pool is snapshotted and distributed. A close makes a settlement batch
-- with lines for the verified missions of a period or for the households of a pool, and the daily
-- cycle runs the closes of all mines: two people approve it, a third one locks it, and it goes to
-- the bank, where either the whole batch is marked as paid or a job asks the bank for each line; a
-- paid line settles its mission. A statement of a month is drafted from the verified missions,
-- reviewed, locked and paid by the mine, and a batch is locked only where the mine has paid its
-- statements. All of them write to one database. The job queue is in memory and keeps its own
-- state.
--
-- Which file models which part:
--   Prelude, Prelude/*    tests, lists, signed integers over the native numbers, rounding, tables
--   Reasons               the reasons of refusals, and what is thrown
--   Store, Store/*        rows, the database as a record of tables, and requests as functions of
--                         it with an outcome (`ok`, `refused` for `{ ok: false, reason }`, or
--                         `throws`); `transaction` takes back the writes of a body that throws
--   Fsm, Fsm/Graph        lib/missionFsm.ts, and the diagram of its edges
--   Roles, Env            types/userRole.ts; what requests take from the rest of the backend
--   Ledger/Policy         services/financePolicyService.ts (splitOperationalWithPolicy,
--                         computeCommunityContributionWithPolicy)
--   Ledger/Post           repositories/walletsRepository.ts (createTransaction, getWalletBalance)
--   Ledger/Split          repositories/financeLedgerRepository.ts (applyMissionSplitInTx,
--                         applyFareDeltaInTx, applyHourlySplitInTx), getOrCreateOpenPool and
--                         addToPoolTotal of repositories/communityPoolsRepository.ts
--   Missions, Missions/*  stores/missionStore.ts (transitionMission, driverUpdateStep,
--                         settleMissionFromEngine, hold, release and reversal of a payment) over
--                         repositories/missionsRepository.ts
--   Weighbridge/*         stores/missionStore.ts (submitTicketWeights, weighbridgeApprove,
--                         weighbridgeRejectTicket, the adjustment requests), creditMissionShares of
--                         stores/financeStore.ts, lib/weighbridgeAnomaly.ts
--   Weighbridge/Ingest    ingest of services/weighbridgeIngestService.ts, with findAgentIngest and
--                         createAgentIngest of repositories/weighbridgeRepository.ts
--   Pool, Pool/*          repositories/communityPoolsRepository.ts (lockPoolSnapshot,
--                         distributePool)
--   Settlement/Batch      repositories/settlementRepository.ts (approveBatch, lockBatch, sendToBank,
--                         markBatchFailed), repositories/approvalTasksRepository.ts,
--                         lib/settlementGovernance.ts
--   Settlement/Period, /Eligible, /Close
--                         the closes of repositories/settlementRepository.ts (monthlyClose,
--                         ownerWeeklyClose, householdMonthlyClose), lib/settlementCycle.ts,
--                         lib/settlementEligibility.ts, runDailySettlementCycle of
--                         services/settlementService.ts
--   Settlement/Paid       markBatchPaid of repositories/settlementRepository.ts
--   Settlement/Payouts    executePayoutsForBatch of services/settlementService.ts, with
--                         lib/bankAdapter.ts as an argument
--   Hourly, Hourly/*      stores/hourlyWorkLogStore.ts (start, end, verify, reject) over
--                         repositories/hourlyWorkLogsRepository.ts, creditHourlyShares of
--                         stores/financeStore.ts
--   Rates, Rates/Refines  repositories/rateCardsRepository.ts (createDraftRateCard,
--                         activateRateCard, getRateCardValidAt), with a table of its own
--   Statements, Statements/*
--                         services/periodStatementService.ts: Draft (createPeriodStatementDraft and
--                         the drafts of a mine), Review (submit, approve, reject, lock, the edit of
--                         a line, the payment by the mine), Requests (all of them, and sequences of
--                         them), the step relation (Steps) that they follow (Follows, Refines)
--   Prelude/Every         lists whose every element has a property
--   Identity/*            lib/nationalId.ts and lib/iban.ts
--   Queue, Queue/*        queues/jobQueue.ts (enqueue, pump, runOne, failJob, retryFailedJob),
--                         queues/types.ts, repositories/failedJobsRepository.ts
--   Idempotency, /Once    middleware/idempotency.ts, repositories/idempotencyRepository.ts
--   Missions/Progress, Weighbridge/Progress
--                         each request as a change of the table of missions
--   Requests              the requests of stores/missionStore.ts as one data type, and sequences
--                         of them
--   Tests, Tests/*        a small database, and every theorem at a concrete input
--
-- Numbers. Amounts, weights and rates are integers in the hundredths that their columns store,
-- fees and thresholds in millionths, times in milliseconds; Math.round and Math.floor are the
-- floor of a quotient, for either sign. The tons of a statement
-- are rounded to hundredths where they are stored, each line's and the total's. Binary floating point
-- is not modelled: the fare's own
-- rounding to whole rials is a hypothesis where a theorem needs it. No machine-width integer is
-- used by this code.
--
-- Bounds. Every loop is a structural recursion over a list, but for the pump of the job queue,
-- which runs on fuel: one round for each unit. `rank` (Queue/Measure), the attempts left and the
-- entries pending, is a bound that every round lowers, so that more fuel than that is enough.
--
-- Not modelled. A request runs from its start to its end without another in between: the races of
-- requests that read before they write are not covered. The finance policy of a mine, the fare of
-- a weight, the period, the rules, the geofence, the distance on the sphere, the registered owners
-- and households, the clock and the demo-login flag are arguments (`Env`, `PoolEnv`), which the
-- requests read and never write. The bank answers by all that it was asked before, a handler of a
-- job by the job and its attempt, and the rounds of the pump and the requests to the queue are
-- atomic steps; so are the two parts of a request with an idempotency key, before and after its
-- handler, whose hash is an argument. The bank's IBAN of a payee is an argument, and upper case
-- beyond ASCII is one too. Rate cards are kept in a table of their own, and the requests that
-- credit a fare take the rate as an argument; of two cards with the same start the newer row is
-- taken, where the source leaves that to the database. Hours are millionths, an hourly rate is in
-- ten-thousandths of a rial, and the fare of hours is their product rounded to hundredths. A
-- reading of an agent has its key tests, its date and the text of its note as arguments, and a
-- statement its cooperatives. Left out are the text of errors, the urls of receipts and the counts
-- in a failure's text, listings and exports, drafts of batches made by hand, the dates of a time
-- zone, which the daily cycle takes as an argument, the nightly timers, the precedence of finance
-- rules, service contracts, KYC, dispatch, authentication, routes, the web and the mobile
-- applications.
pub mod Prelude
pub mod Reasons
pub mod Fsm
pub mod Store
pub mod Roles
pub mod Ledger
pub mod Env
pub mod Missions
pub mod Weighbridge
pub mod Requests
pub mod Pool
pub mod Settlement
pub mod Hourly
pub mod Rates
pub mod Identity
pub mod Queue
pub mod Idempotency
pub mod Statements
pub mod Tests

-- ===== src/Store/Batches.antt =====
-- Row types of the settlement's tables: batches with their lines, approvals and payouts, the approval
-- tasks, the hourly logs, and the requests that went to the bank.
use Prim.Native.String.{String}
use logestic.Prelude.{ℕ, Bool, Option}
use logestic.Prelude.Int.{ℤ}
use logestic.Roles.{UserRole}

-- `SettlementBatchStatus`
pub data BatchStatus : Type 0 where
  draft calculated ready_for_settlement in_bank_queue settled failed manual_review cancelled locked
        paid :
      BatchStatus

-- `SettlementBatchType`
pub data BatchType : Type 0 where
  owner_weekly household_monthly combined_legacy : BatchType

-- A reference that was given, or the `AUTO-<batch>` of a payout without one.
pub data Reference : Type 0 where
  given : String → Reference
  auto : ℕ → Reference

pub record Batch : Type 0 where
  pub mine_id : Option ℕ
  pub period_start : ℕ
  pub period_end : ℕ
  pub batch_type : BatchType
  pub status : BatchStatus
  pub created_by_user_id : Option ℕ
  pub locked_at : Option ℕ
  pub sent_to_bank_at : Option ℕ
  pub paid_at : Option ℕ
  pub payment_reference : Option Reference
  pub failure_reason : Option String

pub record BatchApproval : Type 0 where
  pub settlement_batch_id : ℕ
  pub approver_role : UserRole
  pub user_id : ℕ

-- `PaymentPayoutStatus`
pub data PayoutStatus : Type 0 where
  pending processing completed failed : PayoutStatus

pub record Payout : Type 0 where
  pub settlement_batch_id : ℕ
  pub settlement_line_id : ℕ
  pub status : PayoutStatus
  pub bank_reference : Option String

-- `ApprovalTaskEntityType` with the id
pub data TaskEntity : Type 0 where
  period_statement settlement_batch : ℕ → TaskEntity

pub data TaskStatus : Type 0 where
  pending done : TaskStatus

pub record ApprovalTask : Type 0 where
  pub entity : TaskEntity
  pub required_role : UserRole
  pub status : TaskStatus

-- `HourlyWorkLogStatus`
pub data HourlyStatus : Type 0 where
  started ended pending approved rejected : HourlyStatus

-- Hours are in millionths, rates in ten-thousandths of a rial, as their columns store them.
pub record HourlyLog : Type 0 where
  pub mission_id : Option ℕ
  pub mine_id : ℕ
  pub fleet_owner_id : ℕ
  pub vehicle_id : Option ℕ
  pub household_id : Option ℕ
  pub started_at : Option ℕ
  pub ended_at : Option ℕ
  pub raw_hours : Option ℤ
  pub billable_hours : Option ℤ
  pub hourly_rate_snapshot : Option ℕ
  pub status : HourlyStatus
  pub consultant_user_id : Option ℕ
  pub consultant_verified_at : Option ℕ
  pub rejected_by_user_id : Option ℕ

-- What `initiatePayout` gets and answers.
pub record PayoutRequest : Type 0 where
  pub settlement_batch_id : ℕ
  pub settlement_line_id : ℕ
  pub iban : String
  pub amount_rial : ℤ

pub record PayoutAnswer : Type 0 where
  pub accepted : Bool
  pub bank_ref : String

-- ===== src/Store/Tables.antt =====
-- Row types of the schema's tables (enumerations with the constants of the source), the audit
-- log and the published domain events.
use Prim.Native.String.{String}
use logestic.Prelude.{ℕ, Bool, Option, List}
use logestic.Prelude.Int.{ℤ}
use logestic.Prelude.Table.{Table}
use logestic.Fsm.{MissionStatus}
use logestic.Roles.{UserRole}
use logestic.Store.Statements.{Statement, StatementLine, StatementApproval}
use logestic.Store.Batches.{
  Batch, BatchStatus, BatchApproval, Payout, PayoutRequest, PayoutAnswer, ApprovalTask, HourlyLog,
  Reference,
}

-- `MissionPaymentState`
pub data PaymentState : Type 0 where
  pending calculated distributed settled held failed : PaymentState

-- `WeighbridgeTicketStatus`
pub data TicketStatus : Type 0 where
  pending_empty empty_registered loaded_registered pending_hold approved rejected adjusted :
      TicketStatus

-- `WeighbridgeManualReasonCode`
pub data ReasonCode : Type 0 where
  scale_down network other : ReasonCode

-- `WeighbridgeWeightEntrySource`
pub data EntrySource : Type 0 where
  operator agent manual : EntrySource

-- `AgentReadingType`
pub data ReadingType : Type 0 where
  empty loaded : ReadingType

pub data AdjustmentStatus : Type 0 where
  pending approved rejected : AdjustmentStatus

pub record Load : Type 0 where
  pub mine_id : ℕ
  pub household_id : ℕ
  pub material_type : String
  -- hundredths of a ton
  pub quantity_tons : Option ℤ

pub record Mission : Type 0 where
  pub load_id : ℕ
  pub mine_id : ℕ
  pub owner_id : ℕ
  pub driver_id : ℕ
  pub vehicle_id : ℕ
  pub status : MissionStatus
  pub payment_state : PaymentState
  pub rate_card_id : Option ℕ
  pub rate_per_ton_snapshot : Option ℤ
  pub completed_at : Option ℕ
  pub verified_at : Option ℕ
  pub verified_net_tons_kg : Option ℤ
  pub community_contribution_rial : Option ℤ
  pub community_rate_rial_per_ton : Option ℤ

pub record Ticket : Type 0 where
  pub mission_id : ℕ
  -- `WB-<mission>-<suffix>`
  pub ticket_number : ℕ × ℕ
  pub status : TicketStatus
  pub empty_weight : ℤ
  pub loaded_weight : ℤ
  pub net_weight : ℤ
  pub entry_source : Option EntrySource
  pub entry_note : Option String
  pub reason_code : Option ReasonCode
  pub requires_supervisor_approve : Bool
  pub approved_by_user_id : Option ℕ

pub record Adjustment : Type 0 where
  pub ticket_id : ℕ
  pub mission_id : ℕ
  pub reason : String
  pub before_net : ℤ
  pub after_net : ℤ
  pub status : AdjustmentStatus
  pub requested_by_user_id : ℕ
  pub approved_by_user_id : Option ℕ

-- A reading that a local agent has sent.
pub record AgentIngest : Type 0 where
  pub weighbridge_id : ℕ
  pub mission_id : ℕ
  pub reading_type : ReadingType
  pub weight_kg : ℤ
  pub captured_at : ℕ
  pub ticket_id : ℕ

-- A wallet is found by its type and its owner, and is named by them.
pub data Wallet : Type 0 where
  owner household : ℕ → Wallet
  platform : Wallet

pub data TransactionType : Type 0 where
  credit debit pool_distribution : TransactionType

-- `FUND_TAGS`: a fund type with its ledger lane.
pub data FundTag : Type 0 where
  operational platform_revenue community_restricted : FundTag

pub data Description : Type 0 where
  split_owner split_platform adjustment_owner adjustment_platform : Description
  hourly_owner hourly_platform : ℕ → Description
  pool_share pool_remainder pool_remainder_coop : ℕ → Description

pub record Transaction : Type 0 where
  pub wallet : Wallet
  pub mission_id : Option ℕ
  pub community_pool_id : Option ℕ
  pub amount : ℤ
  pub type : TransactionType
  pub fund : FundTag
  pub description : Description

pub data PoolStatus : Type 0 where
  opened snapshot_locked distributed : PoolStatus

-- Period keys are only compared, so they are numbers.
pub record Pool : Type 0 where
  pub mine_id : Option ℕ
  pub period_key : ℕ
  pub total_amount : ℤ
  pub status : PoolStatus
  pub households_snapshot : List ℕ
  pub distributed_at : Option ℕ

pub data LineNote : Type 0 where
  mission_owner hourly_owner pool_distribution : LineNote

-- A line of a settlement batch.
pub record Line : Type 0 where
  pub batch_id : ℕ
  pub wallet : Wallet
  pub amount : ℤ
  pub mission_id : Option ℕ
  pub hourly_work_log_id : Option ℕ
  pub note : Option LineNote

-- The JSON values that the audit log keeps.
pub data AuditField : Type 0 where
  text : String → AuditField
  user : ℕ → AuditField
  number : ℤ → AuditField
  flag : Bool → AuditField
  mission_status : MissionStatus → AuditField
  payment_state : PaymentState → AuditField
  ticket_status : TicketStatus → AuditField
  time : ℕ → AuditField
  batch_status : BatchStatus → AuditField
  role : UserRole → AuditField
  null : AuditField

pub record AuditLog : Type 0 where
  pub entity_type : String
  pub entity_id : ℕ
  pub action : String
  pub before_value : List (String × AuditField)
  pub after_value : List (String × AuditField)
  -- 0 where nobody is named: the ids of rows start at 1
  pub performed_by_user_id : ℕ
  pub reason : String

-- The domain events of these stores, with the ids and values of their payload.
pub data Event : Type 0 where
  mission_accepted mission_delivered : ℕ → ℕ → Event
  mission_settled : ℕ → Event
  mission_verified : ℕ → ℕ → ℤ → Event
  weighbridge_approved : ℕ → ℕ → ℤ → Event
  weights_submitted : ℕ → ℕ → ℤ → ℤ → ℤ → Bool → Event
  weighbridge_anomaly : ℕ → ℕ → ℕ → Event
  adjustment_approved : ℕ → ℕ → ℕ → ℤ → ℤ → ℤ → Event
  payment_hold payment_release payment_reverse payment_failed : ℕ → String → Event
  settlement_calculated : ℕ → ℕ → Event
  settlement_in_bank_queue : ℕ → Event
  settlement_settled : ℕ → Reference → ℕ → Event
  settlement_failed : ℕ → String → Event
  mission_paid : ℕ → ℕ → Reference → Event
  payout_completed payout_failed : ℕ → ℕ → String → Event
  agent_ingest : ℕ → ℕ → ℕ → ℤ → Event

pub record Db : Type 0 where
  pub loads : Table Load
  pub missions : Table Mission
  pub tickets : Table Ticket
  pub adjustments : Table Adjustment
  pub agent_ingests : List AgentIngest
  pub wallets : List Wallet
  pub transactions : List Transaction
  pub pools : Table Pool
  pub audits : List AuditLog
  pub events : List Event
  pub batches : Table Batch
  pub lines : Table Line
  pub batch_approvals : List BatchApproval
  pub payouts : List Payout
  pub approval_tasks : List ApprovalTask
  pub statements : Table Statement
  pub statement_lines : Table StatementLine
  pub statement_approvals : List StatementApproval
  pub hourly_logs : Table HourlyLog
  -- the requests that the bank answered, the newest first
  pub bank_requests : List (PayoutRequest × PayoutAnswer)

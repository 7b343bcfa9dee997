-- ===== src/Store/Statements.antt =====
-- Row types of the period statements: what a mine owes a cooperative for a month, its lines, and the
-- approvals of it. Amounts are in hundredths, and so are tons, which the code stores with two decimals; a text is its code units.
use Prim.Native.String.{String}
use logestic.Prelude.{ℕ, List, Option}
use logestic.Prelude.Int.{ℤ}
use logestic.Roles.{UserRole}

-- `PeriodStatementStatus`
pub data StatementStatus : Type 0 where
  draft pending_review approved locked : StatementStatus

pub record Statement : Type 0 where
  pub mine_id : ℕ
  pub cooperative_id : ℕ
  pub period_key : ℕ
  pub status : StatementStatus
  pub service_count : ℕ
  pub total_tons : Option ℤ
  pub operational_rial : ℤ
  pub community_rial : ℤ
  pub deductions_rial : ℤ
  pub payable_rial : ℤ
  pub cooperative_payable_iban : Option (List ℕ)
  pub mine_payment_reference : Option (List ℕ)
  pub mine_paid_at : Option ℕ
  pub rejection_reason : Option String
  pub locked_at : Option ℕ
  pub locked_by_user_id : Option ℕ
  pub settlement_batch_id : Option ℕ
  pub created_by_user_id : Option ℕ

pub record StatementLine : Type 0 where
  pub period_statement_id : ℕ
  pub mission_id : ℕ
  pub operational_rial : ℤ
  pub community_rial : ℤ
  pub verified_net_tons : ℤ

pub record StatementApproval : Type 0 where
  pub period_statement_id : ℕ
  pub approver_role : UserRole
  pub user_id : ℕ

-- ===== src/Settlement/Batch.antt =====
-- The life of a batch up to the bank: `approveBatch`, `lockBatch`, `sendToBank` and
-- `markBatchFailed`.
pub mod Lock
use Prim.Native.String.{String}
use logestic.Prelude.{
  ℕ, Bool, true, false, not, ◌&&◌, ◌||◌, Option, none, some, List, [], ◌∷◌, any, every, filter,
  ◌==◌, is_some, if◌then◌else◌, map,
}
use logestic.Prelude.Table.{Table, find, update}
use logestic.Reasons.{Reason, record_not_found}
use logestic.Roles.{UserRole, coop_admin, operation_admin, role_eq}
use logestic.Store.{
  Outcome, Action, ◌>>=◌, ◌>>◌, pure, gets, or_refuse, or_throw, refuse_if, modify,
}
use logestic.Store.Batches
use logestic.Store.Batches.{
  Batch, BatchStatus, draft, calculated, ready_for_settlement, in_bank_queue, settled, failed,
  manual_review, cancelled, locked, paid, BatchApproval, TaskEntity, period_statement,
  settlement_batch, ApprovalTask, TaskStatus,
}
use logestic.Store.Statements.{Statement, StatementStatus}
use logestic.Store.Statements
use logestic.Store.Tables.{Db, AuditLog, AuditField, Event}
use logestic.Missions.{publish, record_audit}

abbrev pub status_ordinal : BatchStatus → ℕ
status_ordinal draft = 0
status_ordinal calculated = 1
status_ordinal ready_for_settlement = 2
status_ordinal in_bank_queue = 3
status_ordinal settled = 4
status_ordinal failed = 5
status_ordinal manual_review = 6
status_ordinal cancelled = 7
status_ordinal locked = 8
status_ordinal paid = 9

-- `===` on the statuses.
abbrev pub batch_status_eq : BatchStatus → BatchStatus → Bool
batch_status_eq a b = status_ordinal a == status_ordinal b

-- `SETTLEMENT_BATCH_APPROVAL_ROLES`
abbrev pub settlement_batch_approval_roles : List UserRole
settlement_batch_approval_roles = coop_admin ∷ operation_admin ∷ []

abbrev pub approved_by_role : List BatchApproval → UserRole → Bool
approved_by_role approvals r = any (λ a. role_eq a.approver_role r) approvals

unfoldable pub has_all_settlement_approvals : List BatchApproval → Bool
has_all_settlement_approvals approvals =
    every (approved_by_role approvals) settlement_batch_approval_roles

abbrev pub approvals_of : ℕ → List BatchApproval → List BatchApproval
approvals_of i = filter (λ a. a.settlement_batch_id == i)

abbrev entity_eq : TaskEntity → TaskEntity → Bool
entity_eq (period_statement a) (period_statement b) = a == b
entity_eq (settlement_batch a) (settlement_batch b) = a == b
entity_eq _ _ = false

abbrev is_pending : TaskStatus → Bool
is_pending TaskStatus.pending = true
is_pending TaskStatus.done = false

abbrev of_entity : TaskEntity → ApprovalTask → Bool
of_entity e t = entity_eq t.entity e && is_pending t.status

-- `completeApprovalTaskForRole`
unfoldable pub complete_approval_task_for_role :
    TaskEntity → UserRole → List ApprovalTask → List ApprovalTask
complete_approval_task_for_role e role = map (λ t.
    if of_entity e t && role_eq t.required_role role
    then record t { status = TaskStatus.done }
    else t)

-- `cancelPendingApprovalTasks`
unfoldable pub cancel_pending_approval_tasks : TaskEntity → List ApprovalTask → List ApprovalTask
cancel_pending_approval_tasks e = filter (λ t. not (of_entity e t))

-- `createPendingApprovalTasks`
unfoldable pub create_pending_approval_tasks :
    TaskEntity → List UserRole → List ApprovalTask → List ApprovalTask
unfolding cancel_pending_approval_tasks
create_pending_approval_tasks e [] tasks = cancel_pending_approval_tasks e tasks
create_pending_approval_tasks e (r ∷ rs) tasks =
    (record { entity = e; required_role = r; status = TaskStatus.pending })
    ∷ create_pending_approval_tasks e rs tasks

abbrev pub same_key : ℕ → UserRole → BatchApproval → Bool
same_key i role a = a.settlement_batch_id == i && role_eq a.approver_role role

-- The upsert by batch and role: an approval by the same role takes the new user.
unfoldable pub upsert_approval : ℕ → UserRole → ℕ → List BatchApproval → List BatchApproval
upsert_approval i role user [] =
    (record { settlement_batch_id = i; approver_role = role; user_id = user }) ∷ []
upsert_approval i role user (a ∷ rest) =
    let kept = a ∷ upsert_approval i role user rest in
    if same_key i role a then (record a { user_id = user }) ∷ rest else kept

-- Before a batch is locked.
abbrev pub is_open : BatchStatus → Bool
is_open b = batch_status_eq b calculated || batch_status_eq b draft

abbrev pub batch_audit : ℕ → String → List (String × AuditField) → ℕ → String → AuditLog
batch_audit i action after user reason = record {
  entity_type = "settlement_batch";
  entity_id = i;
  action = action;
  before_value = [];
  after_value = after;
  performed_by_user_id = user;
  reason = reason;
}

unfoldable pub approve_batch : ℕ → ℕ → UserRole → Action Batch
unfolding complete_approval_task_for_role upsert_approval
approve_batch i user role = do
  refuse_if (not (any (role_eq role) settlement_batch_approval_roles)) Reason.role_cannot_approve
  b ← or_refuse (← gets (λ s. find i s.batches)) Reason.batch_not_found
  refuse_if (not (is_open b.status)) Reason.invalid_batch_status
  modify (λ s. record s {
    approval_tasks = complete_approval_task_for_role (settlement_batch i) role s.approval_tasks;
  })
  modify (λ s. record s { batch_approvals = upsert_approval i role user s.batch_approvals })
  record_audit (
      batch_audit i "SETTLEMENT_BATCH_APPROVED" (("approver_role", AuditField.role role) ∷ []) user
        "")
  or_refuse (← gets (λ s. find i s.batches)) Reason.batch_not_found

abbrev is_locked_status : StatementStatus → Bool
is_locked_status Statements.StatementStatus.locked = true
is_locked_status _ = false

-- `assertMinePaymentForBatch`: a locked statement of the batch that the mine has not paid.
abbrev pub is_unpaid_statement : ℕ → ℕ × Statement → Bool
is_unpaid_statement i (_, st) =
    elim st.settlement_batch_id [ none ↦ false | some b ↦ b == i ]
    && is_locked_status st.status
    && not (is_some st.mine_paid_at)

abbrev pub mine_payment_required : ℕ → Db → Bool
mine_payment_required i s = any (is_unpaid_statement i) s.statements

-- A row update that throws where the row is not there.
unfoldable pub update_batch : ℕ → (Batch → Batch) → Action Batch
update_batch i f = do
  b ← or_throw (← gets (λ s. find i s.batches)) record_not_found
  modify (λ s. record s { batches = update i f s.batches })
  pure (f b)

abbrev pub lock : ℕ → Batch → Batch
lock now b = record b { status = ready_for_settlement; locked_at = some now }

abbrev role_fields : List BatchApproval → List (String × AuditField)
role_fields approvals = map (λ a. ("approval_role", AuditField.role a.approver_role)) approvals

unfoldable pub lock_batch : ℕ → ℕ → ℕ → Action Batch
unfolding has_all_settlement_approvals update_batch cancel_pending_approval_tasks
lock_batch now i user = do
  b ← or_refuse (← gets (λ s. find i s.batches)) Reason.batch_not_found
  refuse_if (not (is_open b.status)) Reason.invalid_batch_status
  approvals ← gets (λ s. approvals_of i s.batch_approvals)
  refuse_if (not (has_all_settlement_approvals approvals)) Reason.dual_approval_required
  refuse_if (any (λ a. a.user_id == user) approvals) Reason.maker_checker_same_user
  refuse_if (← gets (mine_payment_required i)) Reason.mine_payment_required
  r ← update_batch i (lock now)
  modify (λ s. record s {
    approval_tasks = cancel_pending_approval_tasks (settlement_batch i) s.approval_tasks;
  })
  record_audit (
      batch_audit i "SETTLEMENT_BATCH_LOCKED"
        (("status", AuditField.batch_status ready_for_settlement) ∷ role_fields approvals) user "")
  pure r

-- A batch of the id with the status, null otherwise.
abbrev pub batch_with : BatchStatus → ℕ → Db → Option Batch
batch_with status i s = elim (find i s.batches) [
  | none ↦ none
  | some b ↦ if batch_status_eq b.status status then some b else none
]

abbrev pub send : ℕ → Batch → Batch
send now b = record b { status = in_bank_queue; sent_to_bank_at = some now }

unfoldable pub send_to_bank : ℕ → ℕ → Action Batch
unfolding update_batch
send_to_bank now i = do
  or_refuse (← gets (batch_with ready_for_settlement i)) Reason.invalid_batch_status
  r ← update_batch i (send now)
  publish (Event.settlement_in_bank_queue i)
  pure r

abbrev pub fail : String → Batch → Batch
fail reason b = record b { status = failed; failure_reason = some reason }

abbrev user_or_nobody : Option ℕ → ℕ
user_or_nobody none = 0
user_or_nobody (some user) = user

unfoldable pub mark_batch_failed : ℕ → String → Option ℕ → Action Batch
unfolding update_batch
mark_batch_failed i reason user = do
  b ← or_refuse (← gets (λ s. find i s.batches)) Reason.batch_not_found
  refuse_if
      (not
        (batch_status_eq b.status in_bank_queue || batch_status_eq b.status ready_for_settlement))
      Reason.invalid_batch_status
  r ← update_batch i (fail reason)
  record_audit (
      batch_audit i "OVERRIDE"
        (("status", AuditField.batch_status failed) ∷ ("manual_review", AuditField.flag true) ∷ [])
        (user_or_nobody user) reason)
  publish (Event.settlement_failed i reason)
  pure r

-- ===== src/Statements/Review.antt =====
-- services/periodStatementService.ts: the review of a statement, its lock, the edit of a line, and the
-- payment by the mine.
use Prim.Native.String.{String}
use logestic.Prelude.{
  ℕ, Bool, true, not, ◌&&◌, ◌||◌, Option, none, some, List, [], ◌∷◌, any, length, filter, ◌==◌, ltb,
  is_some, if◌then◌else◌,
}
use logestic.Prelude.Int.{ℤ}
use logestic.Prelude.Table.{Table, find, update}
use logestic.Reasons.{Reason}
use logestic.Roles.{UserRole, coop_admin, role_eq}
use logestic.Identity.Digits.{Text}
use logestic.Identity.Iban.{normalize_iban}
use logestic.Store.{Action, ◌>>=◌, ◌>>◌, pure, gets, or_refuse, refuse_if, modify}
use logestic.Store.Batches.{period_statement}
use logestic.Store.Statements.{
  Statement, StatementStatus, draft, pending_review, approved, locked, StatementLine,
  StatementApproval,
}
use logestic.Store.Tables.{AuditLog, AuditField}
use logestic.Missions.{record_audit}
use logestic.Settlement.Batch.{
  complete_approval_task_for_role, cancel_pending_approval_tasks, create_pending_approval_tasks,
}
use logestic.Statements.{
  StatementEnv, Cooperative, statement_status_eq, recompute_payable, statement_lines_of, total_of,
  positive_or_null, trim, is_blank, period_statement_approval_roles, statement_approvals_of,
  has_all_approvals, update_statement, load_statement,
}

abbrev pub statement_audit : ℕ → String → List (String × AuditField) → ℕ → String → AuditLog
statement_audit i action after user reason = record {
  entity_type = "period_statement";
  entity_id = i;
  action = action;
  before_value = [];
  after_value = after;
  performed_by_user_id = user;
  reason = reason;
}

abbrev pub submit_row : Statement → Statement
submit_row st = record st { status = pending_review; rejection_reason = none }

unfoldable pub submit_period_statement_for_review : ℕ → ℕ → Action Statement
unfolding update_statement load_statement create_pending_approval_tasks
submit_period_statement_for_review i user = do
  row ← or_refuse (← gets (λ s. find i s.statements)) Reason.not_found
  refuse_if (not (statement_status_eq row.status draft)) Reason.invalid_status
  update_statement i submit_row
  modify (λ s. record s {
    approval_tasks =
        create_pending_approval_tasks (period_statement i) period_statement_approval_roles
          s.approval_tasks;
  })
  record_audit (statement_audit i "PERIOD_STATEMENT_SUBMITTED" [] user "")
  load_statement i

-- In review, or approved.
abbrev pub is_in_review : StatementStatus → Bool
is_in_review status =
    statement_status_eq status pending_review || statement_status_eq status approved

abbrev is_other_cooperative : Option ℕ → ℕ → Bool
is_other_cooperative none c = true
is_other_cooperative (some k) c = not (c == k)

abbrev same_approval : ℕ → UserRole → StatementApproval → Bool
same_approval i role a = (a.period_statement_id == i) && role_eq a.approver_role role

-- The upsert by statement and role: an approval by the same role takes the new user.
unfoldable pub upsert_statement_approval :
    ℕ → UserRole → ℕ → List StatementApproval → List StatementApproval
upsert_statement_approval i role user [] =
    (record { period_statement_id = i; approver_role = role; user_id = user }) ∷ []
upsert_statement_approval i role user (a ∷ rest) =
    let kept = a ∷ upsert_statement_approval i role user rest in
    if same_approval i role a then (record a { user_id = user }) ∷ rest else kept

abbrev pub approve_statement_row : Statement → Statement
approve_statement_row st = record st { status = approved }

-- The status is written where all approvals are there, and it is another one.
abbrev pub next_statement_status : List StatementApproval → StatementStatus → StatementStatus
next_statement_status approvals status = if has_all_approvals approvals then approved else status

unfoldable pub write_approved : ℕ → StatementStatus → StatementStatus → Action (Unit {0})
unfolding update_statement
write_approved i status next =
    if statement_status_eq next status then pure tt else update_statement i approve_statement_row

abbrev status_name : StatementStatus → String
status_name draft = "DRAFT"
status_name pending_review = "PENDING_REVIEW"
status_name approved = "APPROVED"
status_name locked = "LOCKED"

abbrev pub note_approval : ℕ → ℕ → UserRole → StatementStatus → Action Statement
note_approval i user role next =
    record_audit (
      statement_audit i "PERIOD_STATEMENT_APPROVED"
        (("approver_role", AuditField.role role)
          ∷ ("status", AuditField.text (status_name next))
          ∷ [])
        user "")
    >> load_statement i

-- What follows the checks of an approval.
unfoldable pub write_approval : ℕ → ℕ → UserRole → Action Statement
unfolding write_approved load_statement has_all_approvals upsert_statement_approval
    complete_approval_task_for_role
write_approval i user role = do
  modify (λ s. record s {
    approval_tasks = complete_approval_task_for_role (period_statement i) role s.approval_tasks;
  })
  modify (λ s. record s {
    statement_approvals = upsert_statement_approval i role user s.statement_approvals;
  })
  refreshed ← or_refuse (← gets (λ s. find i s.statements)) Reason.not_found
  approvals ← gets (λ s. statement_approvals_of i s.statement_approvals)
  let next = next_statement_status approvals refreshed.status
  write_approved i refreshed.status next
  note_approval i user role next

unfoldable pub approve_period_statement : ℕ → ℕ → UserRole → Option ℕ → Action Statement
unfolding write_approval
approve_period_statement i user role cooperative = do
  refuse_if (not (any (role_eq role) period_statement_approval_roles)) Reason.role_cannot_approve
  row ← or_refuse (← gets (λ s. find i s.statements)) Reason.not_found
  refuse_if (not (is_in_review row.status)) Reason.invalid_status
  refuse_if (role_eq role coop_admin && is_other_cooperative cooperative row.cooperative_id)
      Reason.cooperative_scope
  write_approval i user role

abbrev pub reject_statement_row : String → Statement → Statement
reject_statement_row reason st = record st { status = draft; rejection_reason = some reason }

abbrev is_approval_of : ℕ → StatementApproval → Bool
is_approval_of i a = a.period_statement_id == i

unfoldable pub write_rejection : ℕ → ℕ → String → Action Statement
unfolding update_statement load_statement cancel_pending_approval_tasks
write_rejection i user reason = do
  modify (λ s. record s {
    statement_approvals = filter (λ a. not (is_approval_of i a)) s.statement_approvals;
  })
  modify (λ s. record s {
    approval_tasks = cancel_pending_approval_tasks (period_statement i) s.approval_tasks;
  })
  update_statement i (reject_statement_row reason)
  record_audit (statement_audit i "PERIOD_STATEMENT_REJECTED" [] user reason)
  load_statement i

unfoldable pub reject_period_statement : ℕ → ℕ → String → Action Statement
unfolding write_rejection
reject_period_statement i user reason = do
  row ← or_refuse (← gets (λ s. find i s.statements)) Reason.not_found
  refuse_if (statement_status_eq row.status locked) Reason.statement_locked
  refuse_if (not (is_in_review row.status)) Reason.invalid_status
  write_rejection i user reason

-- The account of a cooperative by id; a statement's cooperative is a row of the schema.
abbrev pub cooperative_iban : Option Cooperative → Option Text
cooperative_iban none = none
cooperative_iban (some c) = c.iban

abbrev pub or_empty : Option Text → Text
or_empty none = []
or_empty (some t) = t

abbrev pub lock_statement_row : ℕ → ℕ → Text → Statement → Statement
lock_statement_row now user iban st = record st {
  status = locked;
  cooperative_payable_iban = some iban;
  locked_at = some now;
  locked_by_user_id = some user;
}

-- The last four characters of the account are left out of the audit log here.
unfoldable pub lock_period_statement : StatementEnv → ℕ → ℕ → Action Statement
unfolding update_statement load_statement has_all_approvals cancel_pending_approval_tasks
    normalize_iban
lock_period_statement env i user = do
  row ← or_refuse (← gets (λ s. find i s.statements)) Reason.not_found
  approvals ← gets (λ s. statement_approvals_of i s.statement_approvals)
  let iban = cooperative_iban (env.find_cooperative_by_id row.cooperative_id)
  refuse_if (not (statement_status_eq row.status approved)) Reason.not_approved
  refuse_if (not (has_all_approvals approvals)) Reason.dual_approval_required
  refuse_if (any (λ a. a.user_id == user) approvals) Reason.maker_checker_same_user
  refuse_if (is_blank iban) Reason.cooperative_iban_missing
  update_statement i (lock_statement_row env.now user (normalize_iban env.upper_of (or_empty iban)))
  modify (λ s. record s {
    approval_tasks = cancel_pending_approval_tasks (period_statement i) s.approval_tasks;
  })
  record_audit (statement_audit i "PERIOD_STATEMENT_LOCKED" [] user "")
  load_statement i

pub record LineParams : Type 0 where
  pub line_id : ℕ
  pub operational_rial : Option ℤ
  pub community_rial : Option ℤ
  pub deductions_rial : Option ℤ

abbrev pub or_old : ℤ → Option ℤ → ℤ
or_old old none = old
or_old old (some new) = new

abbrev pub edit_line : LineParams → StatementLine → StatementLine
edit_line p l = record l {
  operational_rial = or_old l.operational_rial p.operational_rial;
  community_rial = or_old l.community_rial p.community_rial;
}

-- The totals of the lines, written to the statement.
abbrev pub retotal : Option ℤ → Table StatementLine → Statement → Statement
retotal deductions_rial ls st =
    let operational = total_of (λ l. l.operational_rial) ls in
    let community = total_of (λ l. l.community_rial) ls in
    let deductions = or_old st.deductions_rial deductions_rial in
    record st {
      operational_rial = operational;
      community_rial = community;
      deductions_rial = deductions;
      payable_rial = recompute_payable operational community deductions;
      service_count = length ls;
      total_tons = positive_or_null (total_of (λ l. l.verified_net_tons) ls);
    }

unfoldable pub write_edit : ℕ → LineParams → Action Statement
unfolding update_statement load_statement total_of recompute_payable
write_edit i p = do
  modify (λ s. record s { statement_lines = update p.line_id (edit_line p) s.statement_lines })
  lines ← gets (λ s. statement_lines_of i s.statement_lines)
  update_statement i (retotal p.deductions_rial lines)
  load_statement i

unfoldable pub update_period_statement_line : ℕ → LineParams → Action Statement
unfolding write_edit
update_period_statement_line i p = do
  row ← or_refuse (← gets (λ s. find i s.statements)) Reason.not_found
  refuse_if (statement_status_eq row.status locked) Reason.statement_locked
  refuse_if (not (statement_status_eq row.status draft)) Reason.not_editable
  or_refuse (← gets (λ s. find p.line_id (statement_lines_of i s.statement_lines)))
      Reason.line_not_found
  write_edit i p

abbrev pub pay_row : ℕ → Text → Statement → Statement
pay_row now reference st = record st {
  mine_payment_reference = some reference;
  mine_paid_at = some now;
}

unfoldable pub register_mine_payment : ℕ → ℕ → Text → ℕ → Action Statement
unfolding update_statement load_statement
register_mine_payment now i payment_reference user = do
  let reference = trim payment_reference
  refuse_if (ltb (length reference) 8) Reason.invalid_payment_reference
  row ← or_refuse (← gets (λ s. find i s.statements)) Reason.not_found
  refuse_if (not (statement_status_eq row.status locked)) Reason.not_locked
  refuse_if (is_some row.mine_paid_at) Reason.already_paid
  refuse_if (is_blank row.cooperative_payable_iban) Reason.cooperative_iban_missing
  update_statement i (pay_row now reference)
  record_audit (statement_audit i "MINE_PAYMENT_REGISTERED" [] user "")
  load_statement i

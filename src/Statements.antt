-- ===== src/Statements.antt =====
-- services/periodStatementService.ts: the monthly statement of what a mine owes a cooperative.
-- Here are its rows by id, their lines and totals.
pub mod Draft
pub mod Review
pub mod Requests
pub mod Steps
pub mod Follows
pub mod Refines
pub mod Lines
pub mod Totals
pub mod Final
pub mod Lock
use logestic.Prelude.{
  ℕ, ◌+◌, ◌*◌, Bool, true, false, not, ◌&&◌, Option, none, some, List, [], ◌∷◌, any, every, filter,
  length, ◌==◌, if◌then◌else◌,
}
use logestic.Prelude.Int.{ℤ, pos, ◌+ℤ◌, ◌-ℤ◌, leb_ℤ}
use logestic.Prelude.Table.{Table, find, update}
use logestic.Reasons.{Reason, record_not_found}
use logestic.Roles.{UserRole, coop_admin, operation_admin, role_eq}
use logestic.Identity.Digits.{Text}
use logestic.Identity.Iban.{is_space}
use logestic.Store.{Outcome, Action, ◌>>=◌, ◌>>◌, pure, gets, or_refuse, or_throw, modify}
use logestic.Store.Statements.{
  Statement, StatementStatus, draft, pending_review, approved, locked, StatementLine,
  StatementApproval,
}
use logestic.Store.Tables.{Db}

-- What the requests take from the rest of the backend: the clock, the cooperatives by id and by
-- mine, the cooperative of a fleet owner, and upper case beyond ASCII.
pub record Cooperative : Type 0 where
  pub mine_id : ℕ
  pub iban : Option Text

pub record StatementEnv : Type 0 where
  pub now : ℕ
  pub find_cooperative_by_id : ℕ → Option Cooperative
  pub list_cooperatives_by_mine : ℕ → List ℕ
  pub owner_cooperative : ℕ → Option ℕ
  pub upper_of : ℕ → Text

abbrev pub status_number : StatementStatus → ℕ
status_number draft = 0
status_number pending_review = 1
status_number approved = 2
status_number locked = 3

-- `===` on the statuses.
abbrev pub statement_status_eq : StatementStatus → StatementStatus → Bool
statement_status_eq a b = status_number a == status_number b

-- The period of a year and a month, as a number.
abbrev pub period_key_from_parts : ℕ → ℕ → ℕ
period_key_from_parts year month = year * 100 + month

unfoldable pub recompute_payable : ℤ → ℤ → ℤ → ℤ
recompute_payable operational community deductions =
    let payable = operational +ℤ community -ℤ deductions in
    if leb_ℤ payable (pos 0) then pos 0 else payable

-- The lines of a statement, and a sum over lines.
abbrev pub statement_lines_of : ℕ → Table StatementLine → Table StatementLine
statement_lines_of i = filter (λ r. r.1.period_statement_id == i)

unfoldable pub total_of : (StatementLine → ℤ) → Table StatementLine → ℤ
total_of f [] = pos 0
total_of f ((_, l) ∷ ls) = f l +ℤ total_of f ls

-- `tons > 0 ? tons : null`
abbrev pub positive_or_null : ℤ → Option ℤ
positive_or_null tons = if leb_ℤ tons (pos 0) then none else some tons

-- `PERIOD_STATEMENT_APPROVAL_ROLES`
abbrev pub period_statement_approval_roles : List UserRole
period_statement_approval_roles = coop_admin ∷ operation_admin ∷ []

abbrev pub statement_approvals_of : ℕ → List StatementApproval → List StatementApproval
statement_approvals_of i = filter (λ a. a.period_statement_id == i)

abbrev pub has_approved : List StatementApproval → UserRole → Bool
has_approved approvals r = any (λ a. role_eq a.approver_role r) approvals

unfoldable pub has_all_approvals : List StatementApproval → Bool
has_all_approvals approvals = every (has_approved approvals) period_statement_approval_roles

-- `trim`, and what is empty after it.
unfoldable pub trim_start : Text → Text
trim_start [] = []
trim_start (c ∷ cs) = let rest = trim_start cs in if is_space c then rest else c ∷ cs

abbrev pub is_empty_text : Text → Bool
is_empty_text [] = true
is_empty_text (_ ∷ _) = false

unfoldable pub trim_end : Text → Text
trim_end [] = []
trim_end (c ∷ cs) =
    let rest = trim_end cs in if is_space c && is_empty_text rest then [] else c ∷ rest

abbrev pub trim : Text → Text
trim t = trim_end (trim_start t)

abbrev pub is_blank : Option Text → Bool
is_blank none = true
is_blank (some t) = is_empty_text (trim t)

-- A row update that throws where the row is not there.
unfoldable pub update_statement : ℕ → (Statement → Statement) → Action (Unit {0})
update_statement i f = do
  or_throw (← gets (λ s. find i s.statements)) record_not_found
  modify (λ s. record s { statements = update i f s.statements })

-- The row that a request answers with.
unfoldable pub load_statement : ℕ → Action Statement
load_statement i = do r ← gets (λ s. find i s.statements); or_refuse r Reason.not_found

-- ===== src/Statements/Lock.antt =====
-- What the lock of a statement requires and writes.
use logestic.Prelude.{
  ℕ, Bool, true, false, ◌&&◌, Option, none, some, List, [], ◌∷◌, any, ◌==◌, ◌≡◌, ◌≢◌, refl, inl,
  inr, arith, Bool-cases, Option-cases,
}
use logestic.Prelude.Table.{find, update}
use logestic.Roles.{UserRole, coop_admin, operation_admin, role_eq}
use logestic.Identity.Digits.{Text}
use logestic.Identity.Iban.{normalize_iban}
use logestic.Store.{ok}
use logestic.Store.Statements.{Statement, StatementStatus, approved, StatementApproval}
use logestic.Store.Tables.{Db}
use logestic.Statements.{
  StatementEnv, is_blank, has_approved, has_all_approvals, statement_approvals_of, update_statement,
  load_statement, statement_status_eq,
}
use logestic.Statements.Review.{
  lock_period_statement, lock_statement_row, cooperative_iban, or_empty,
}

-- An approval of the statement in the role, by somebody else than the user.
pub data SignedByOther (i : ℕ) (role : UserRole) (user : ℕ) : List StatementApproval → Type 0 where
  signed_here :
      (a : StatementApproval) (rest : List StatementApproval)
      → a.period_statement_id ≡ i
      → a.approver_role ≡ role
      → a.user_id ≢ user
      → SignedByOther i role user (a ∷ rest)
  signed_later :
      (a : StatementApproval) (rest : List StatementApproval)
      → SignedByOther i role user rest
      → SignedByOther i role user (a ∷ rest)

role_of_eq : (a b : UserRole) → role_eq a b ≡ true → a ≡ b
role_of_eq a b e = ground arith

abbrev by_user : ℕ → StatementApproval → Bool
by_user user a = a.user_id == user

signed :
    (i : ℕ) (role : UserRole) (user : ℕ) (approvals : List StatementApproval)
    → has_approved (statement_approvals_of i approvals) role ≡ true
    → any (by_user user) (statement_approvals_of i approvals) ≡ false
    → SignedByOther i role user approvals
signed i role user [] h n = absurd (cc)
signed i role user (a ∷ rest) h n =
    elim (Bool-cases (a.period_statement_id == i && role_eq a.approver_role role)) [
      | inl e ↦
          signed_here a rest (ground arith) (role_of_eq a.approver_role role (ground arith))
            (λ u. ground arith)
      | inr e ↦ signed_later a rest (signed i role user rest (ground arith) (ground arith))
    ]

-- What a lock that goes through has found in `s` and left in `s'`.
pub record LockedBy (env : StatementEnv) (i user : ℕ) (s s' : Db) : Type 0 where
  pub before : Statement
  pub iban : Option Text
  pub row : find i s.statements ≡ some before
  pub was_approved : before.status ≡ approved
  pub by_cooperative : SignedByOther i coop_admin user s.statement_approvals
  pub by_operation : SignedByOther i operation_admin user s.statement_approvals
  pub account : cooperative_iban (env.find_cooperative_by_id before.cooperative_id) ≡ iban
  pub not_blank : is_blank iban ≡ false
  pub statements :
      s'.statements
      ≡ update i
          (lock_statement_row env.now user (normalize_iban env.upper_of (or_empty iban)))
          s.statements
  pub lines : s'.statement_lines ≡ s.statement_lines
  pub approvals : s'.statement_approvals ≡ s.statement_approvals
  pub transactions : s'.transactions ≡ s.transactions

both_roles :
    (i : ℕ) (approvals : List StatementApproval)
    → has_all_approvals (statement_approvals_of i approvals) ≡ true
    → (has_approved (statement_approvals_of i approvals) coop_admin ≡ true)
      × (has_approved (statement_approvals_of i approvals) operation_admin ≡ true)
unfolding has_all_approvals
both_roles i approvals h = (ground (arith, h), ground (arith, h))

module _ (env : StatementEnv) (i user : ℕ) (s : Db) (r : Statement)
    (done : (lock_period_statement env i user s).0 ≡ ok r) where
  not_missing : find i s.statements ≢ none
  unfolding lock_period_statement
  not_missing missing = ground (arith, missing, done)

  module _ (st : Statement) (found : find i s.statements ≡ some st) where
    guards :
        (statement_status_eq st.status approved ≡ true)
        × (has_all_approvals (statement_approvals_of i s.statement_approvals) ≡ true)
        × (any (by_user user) (statement_approvals_of i s.statement_approvals) ≡ false)
        × (is_blank (cooperative_iban (env.find_cooperative_by_id st.cooperative_id)) ≡ false)
    unfolding lock_period_statement
    guards = ground (arith, found, done)

    writes :
        let s' = (lock_period_statement env i user s).1 in
        (s'.statements
          ≡ update i
              (lock_statement_row env.now user (
                normalize_iban env.upper_of
                  (or_empty (cooperative_iban (env.find_cooperative_by_id st.cooperative_id)))))
              s.statements)
        × (s'.statement_lines ≡ s.statement_lines)
        × (s'.statement_approvals ≡ s.statement_approvals)
        × (s'.transactions ≡ s.transactions)
    unfolding lock_period_statement update_statement load_statement
    writes = ground (arith, found, done)

approved_of_eq : (a : StatementStatus) → statement_status_eq a approved ≡ true → a ≡ approved
approved_of_eq a e = ground arith

-- A statement that is locked was APPROVED, has been approved by a cooperative's administrator and by an
-- operation's administrator, neither of them the one who locks it, and its cooperative has an account.
-- The row becomes LOCKED with the account's normal form, by the user; lines, approvals and transactions
-- stay.
pub lock_statement_ok :
    (env : StatementEnv) (i user : ℕ) (s : Db) (r : Statement)
    → (lock_period_statement env i user s).0 ≡ ok r
    → LockedBy env i user s (lock_period_statement env i user s).1
lock_statement_ok env i user s r done = elim (Option-cases (find i s.statements)) [
  | inl missing ↦ absurd (not_missing env i user s r done missing)
  | inr (st, found) ↦
      let (status, all, outside, account) = guards env i user s r done st found in
      let (statements, lines, approvals, transactions) = writes env i user s r done st found in
      let (cooperative, operation) = both_roles i s.statement_approvals all in
      record {
        before = st;
        iban = cooperative_iban (env.find_cooperative_by_id st.cooperative_id);
        row = found;
        was_approved = approved_of_eq st.status status;
        by_cooperative = signed i coop_admin user s.statement_approvals cooperative outside;
        by_operation = signed i operation_admin user s.statement_approvals operation outside;
        account = refl;
        not_blank = account;
        statements = statements;
        lines = lines;
        approvals = approvals;
        transactions = transactions;
      }
]

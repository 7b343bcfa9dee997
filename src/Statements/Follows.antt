-- ===== src/Statements/Follows.antt =====
-- Each request for a statement takes the rows one step of the relation, on every outcome.
use Prim.Native.String.{String}
use logestic.Prelude.{
  ℕ, true, false, not, Option, none, some, List, [], ◌∷◌, is_some, ◌≡◌, inl, inr, refl, ap, arith,
  Option-cases, Bool-cases,
}
use mathlib.Core.Path.{subst⁻¹}
use logestic.Prelude.Table.{Table, find, update, next_id}
use logestic.Prelude.Every.{All, nil, cons}
use logestic.Roles.{UserRole}
use logestic.Identity.Digits.{Text}
use logestic.Store.{pure}
use logestic.Store.Keeps.{Keeps, Keeps-if, Keeps-bind, Keeps-guard, Keeps-found}
use logestic.Store.Statements.{Statement, StatementStatus, draft, approved, locked, StatementLine}
use logestic.Store.Batches.{period_statement}
use logestic.Settlement.Batch.{complete_approval_task_for_role}
use logestic.Store.Tables.{Db, Mission}
use logestic.Statements.{
  StatementEnv, statement_status_eq, statement_lines_of, update_statement, load_statement,
  statement_approvals_of,
}
use logestic.Statements.Draft.{
  DraftParams, TimedLine, find_statement_of, timed_lines, write_draft, by_existing_statement,
  create_period_statement_draft, insert_by_time, is_before, net_tons, line_of_mission, is_stated,
}
use logestic.Statements.Review.{
  submit_row, approve_statement_row, reject_statement_row, lock_statement_row, pay_row,
  is_in_review, LineParams, submit_period_statement_for_review, approve_period_statement,
  reject_period_statement, next_statement_status, lock_period_statement,
  update_period_statement_line, register_mine_payment, write_approved, write_approval,
  write_rejection, write_edit, upsert_statement_approval, note_approval,
}
use logestic.Statements.Steps.{
  Rows, rows_of, Changes, is_submitted, is_approved, is_rejected, is_locked, is_paid, BelongsTo,
  edited_rows, Step, stays, changes, drafts, edits,
}

abbrev pub Follows : Rows → Db → Type 0
Follows r s = Step r (rows_of s)

status_of_eq : (a b : StatementStatus) → not (statement_status_eq a b) ≡ false → a ≡ b
status_of_eq a b e = ground arith

module _ (r : Rows) where
  row-Follows :
      (i : ℕ) (st : Statement) (f : Statement → Statement) (s : Db)
      → rows_of s ≡ r
      → find i r.0 ≡ some st
      → Changes st (f st)
      → Keeps (Follows r) (update_statement i f s)
  unfolding update_statement
  row-Follows i st f s same found change =
      let e : s.statements ≡ r.0 = ap (λ x. x.0) same in
      let e' : s.statement_lines ≡ r.1 = ap (λ x. x.1) same in
      let step : Step r (update i f s.statements, s.statement_lines) =
        rw (e, e') (changes i st f found change) in
      elim (Option-cases (find i s.statements)) [
        | inl missing ↦ absurd (cc)
        | inr (x, e'') ↦ record { after = ground (arith, e'', step) }
      ]

load-Follows : (r : Rows) (i : ℕ) (s : Db) → Follows r s → Keeps (Follows r) (load_statement i s)
unfolding load_statement
load-Follows r i s h = elim (Option-cases (find i s.statements)) [
  | inl e ↦ record { after = ground (arith, e, h) }
  | inr (st, e) ↦ record { after = ground (arith, e, h) }
]

module _ (s : Db) where
  abbrev r : Rows
  r = rows_of s

  submit_row-Follows :
      (i : ℕ) (st : Statement) (t : Db)
      → rows_of t ≡ r
      → find i s.statements ≡ some st
      → not (statement_status_eq st.status draft) ≡ false
      → Keeps (Follows r) (update_statement i submit_row t)
  submit_row-Follows i st t same found status =
      row-Follows r i st submit_row t same found
        (is_submitted st (status_of_eq st.status draft status))

  pub submit-Follows :
      (i user : ℕ) → Keeps (Follows r) (submit_period_statement_for_review i user s)
  unfolding submit_period_statement_for_review
  submit-Follows i user =
      let before : Follows r s = stays in
      let same : rows_of s ≡ r = refl in
      search (Keeps-found, Keeps-guard, Keeps-bind, submit_row-Follows, load-Follows) depth 30

  write_approved-Follows :
      (i : ℕ) (st : Statement) (next : StatementStatus) (t : Db)
      → rows_of t ≡ r
      → find i s.statements ≡ some st
      → is_in_review st.status ≡ true
      → Keeps (Follows r) (write_approved i st.status next t)
  unfolding write_approved
  write_approved-Follows i st next t same found review =
      let step = row-Follows r i st approve_statement_row t same found (is_approved st review) in
      let stay : Follows r t = subst⁻¹ (λ x. Step r x) same stays in
      Keeps-if (Follows r) t (statement_status_eq next st.status) (pure tt)
        (update_statement i approve_statement_row) (record { after = stay }) step

  write_approval-Follows :
      (i user : ℕ) (role : UserRole) (st : Statement)
      → find i s.statements ≡ some st
      → not (is_in_review st.status) ≡ false
      → Keeps (Follows r) (write_approval i user role s)
  unfolding write_approval
  write_approval-Follows i user role st found review =
      let t = record s {
        approval_tasks = complete_approval_task_for_role (period_statement i) role s.approval_tasks;
        statement_approvals = upsert_statement_approval i role user s.statement_approvals;
      } in
      let next = next_statement_status (statement_approvals_of i t.statement_approvals) st.status in
      let written = write_approved-Follows i st next t refl found (ground (arith, review)) in
      rw found (
        Keeps-bind (Follows r) t (write_approved i st.status next)
          (λ _. note_approval i user role next) written
          (λ _ u h. load-Follows r i (record u { audits = _ ∷ u.audits }) h))

  pub approve-Follows :
      (i user : ℕ) (role : UserRole) (c : Option ℕ)
      → Keeps (Follows r) (approve_period_statement i user role c s)
  unfolding approve_period_statement
  approve-Follows i user role c =
      let before : Follows r s = stays in
      search (Keeps-found, Keeps-guard, write_approval-Follows) depth 30

  write_rejection-Follows :
      (i user : ℕ) (reason : String) (st : Statement)
      → find i s.statements ≡ some st
      → not (is_in_review st.status) ≡ false
      → Keeps (Follows r) (write_rejection i user reason s)
  unfolding write_rejection update_statement load_statement
  write_rejection-Follows i user reason st found review =
      let change = is_rejected st reason (ground (arith, review)) in
      let step : Step r (update i (reject_statement_row reason) r.0, r.1) =
        changes i st (reject_statement_row reason) found change in
      record { after = ground (arith, found, step) }

  pub reject-Follows :
      (i user : ℕ) (reason : String) → Keeps (Follows r) (reject_period_statement i user reason s)
  unfolding reject_period_statement
  reject-Follows i user reason =
      let before : Follows r s = stays in
      search (Keeps-found, Keeps-guard, write_rejection-Follows) depth 30

  lock_row-Follows :
      (i now user : ℕ) (iban : Text) (st : Statement) (t : Db)
      → rows_of t ≡ r
      → find i s.statements ≡ some st
      → not (statement_status_eq st.status approved) ≡ false
      → Keeps (Follows r) (update_statement i (lock_statement_row now user iban) t)
  lock_row-Follows i now user iban st t same found status =
      row-Follows r i st (lock_statement_row now user iban) t same found
        (is_locked st now user iban (status_of_eq st.status approved status))

  pub lock-Follows :
      (env : StatementEnv) (i user : ℕ) → Keeps (Follows r) (lock_period_statement env i user s)
  unfolding lock_period_statement
  lock-Follows env i user =
      let before : Follows r s = stays in
      let same : rows_of s ≡ r = refl in
      search (Keeps-found, Keeps-guard, Keeps-bind, lock_row-Follows, load-Follows) depth 30

  pay_row-Follows :
      (i now : ℕ) (reference : Text) (st : Statement) (t : Db)
      → rows_of t ≡ r
      → find i s.statements ≡ some st
      → not (statement_status_eq st.status locked) ≡ false
      → is_some st.mine_paid_at ≡ false
      → Keeps (Follows r) (update_statement i (pay_row now reference) t)
  pay_row-Follows i now reference st t same found status unpaid =
      row-Follows r i st (pay_row now reference) t same found
        (is_paid st now reference (status_of_eq st.status locked status) (ground (arith, unpaid)))

  pub pay-Follows :
      (now i user : ℕ) (reference : Text)
      → Keeps (Follows r) (register_mine_payment now i reference user s)
  unfolding register_mine_payment
  pay-Follows now i user reference =
      let before : Follows r s = stays in
      let same : rows_of s ≡ r = refl in
      search (Keeps-found, Keeps-guard, Keeps-bind, pay_row-Follows, load-Follows) depth 30

  -- The line and the statement of it are written one after the other.
  write_edit-Follows :
      (i : ℕ) (p : LineParams) (st : Statement) (l : StatementLine)
      → find i s.statements ≡ some st
      → not (statement_status_eq st.status draft) ≡ false
      → find p.line_id (statement_lines_of i s.statement_lines) ≡ some l
      → Keeps (Follows r) (write_edit i p s)
  unfolding write_edit update_statement load_statement
  write_edit-Follows i p st l found status line =
      let step : Step r (edited_rows i p r) =
        edits i p st l found (status_of_eq st.status draft status) line in
      record { after = ground (arith, found, step) }

  pub edit-Follows :
      (i : ℕ) (p : LineParams) → Keeps (Follows r) (update_period_statement_line i p s)
  unfolding update_period_statement_line
  edit-Follows i p =
      let before : Follows r s = stays in
      search (Keeps-found, Keeps-guard, write_edit-Follows) depth 30

  insert_by_time-Belongs :
      (i : ℕ) (l : TimedLine) (ls : List TimedLine)
      → BelongsTo i l
      → All (BelongsTo i) ls
      → All (BelongsTo i) (insert_by_time l ls)
  unfolding insert_by_time
  insert_by_time-Belongs i l [] h hs = cons l [] h hs
  insert_by_time-Belongs i l _ h (cons k ks e es) = elim (Bool-cases (is_before l.0.0 k.0.0)) [
    | inl b ↦ rw b (cons l (k ∷ ks) h (cons k ks e es))
    | inr b ↦ rw b (cons k (insert_by_time l ks) e (insert_by_time-Belongs i l ks h es))
  ]

  timed_lines-Belong :
      (env : StatementEnv) (p : DraftParams) (i : ℕ) (ms : Table Mission)
      → All (BelongsTo i) (timed_lines env p i s ms)
  unfolding timed_lines
  timed_lines-Belong env p i [] = nil
  timed_lines-Belong env p i ((j, m) ∷ ms) =
      let rest = timed_lines-Belong env p i ms in
      elim (Bool-cases (is_stated env p s (j, m))) [
        | inl b ↦
            let l = line_of_mission i s.transactions j m in
            rw b (
              insert_by_time-Belongs i ((m.verified_at, net_tons m), l) (timed_lines env p i s ms)
                (refl, refl) rest)
        | inr b ↦ rw b rest
      ]

  write_draft-Follows :
      (env : StatementEnv) (p : DraftParams)
      → find_statement_of p s.statements ≡ none
      → Keeps (Follows r) (write_draft env p s)
  unfolding write_draft
  write_draft-Follows env p new =
      let lines = timed_lines env p (next_id s.statements) s s.missions in
      record {
        after = drafts p lines new (timed_lines-Belong env p (next_id s.statements) s.missions);
      }

  by_existing-Follows :
      (env : StatementEnv) (p : DraftParams) (o : Option (ℕ × Statement))
      → find_statement_of p s.statements ≡ o
      → Keeps (Follows r) (by_existing_statement env p o s)
  by_existing-Follows env p none e = write_draft-Follows env p e
  by_existing-Follows env p (some x) e =
      let before : Follows r s = stays in record { after = ground (arith, before) }

  pub draft-Follows :
      (env : StatementEnv) (p : DraftParams)
      → Keeps (Follows r) (create_period_statement_draft env p s)
  unfolding create_period_statement_draft
  draft-Follows env p =
      let before : Follows r s = stays in
      let branch = by_existing-Follows env p (find_statement_of p s.statements) refl in
      search (Keeps-found, Keeps-guard, branch) depth 20

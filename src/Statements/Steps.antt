-- ===== src/Statements/Steps.antt =====
-- The life of the statements and their lines as a step relation.
use Prim.Native.String.{String}
use logestic.Prelude.{ℕ, true, none, some, List, ◌≡◌}
use logestic.Prelude.Table.{Table, find, update, insert, next_id}
use logestic.Prelude.Every.{All}
use logestic.Identity.Digits.{Text}
use logestic.Store.Statements.{Statement, draft, approved, locked, StatementLine}
use logestic.Store.Tables.{Db}
use logestic.Statements.{statement_lines_of}
use logestic.Statements.Draft.{
  DraftParams, TimedLine, to_fixed, new_statement, write_lines, find_statement_of,
}
use logestic.Statements.Review.{
  submit_row, approve_statement_row, reject_statement_row, lock_statement_row, pay_row,
  is_in_review, LineParams, edit_line, retotal,
}

abbrev pub Rows : Type 0
Rows = Table Statement × Table StatementLine

abbrev pub rows_of : Db → Rows
rows_of s = (s.statements, s.statement_lines)

-- How a row of a statement changes without its totals.
pub data Changes : Statement → Statement → Type 0 where
  is_submitted : (st : Statement) → st.status ≡ draft → Changes st (submit_row st)
  is_approved :
      (st : Statement) → is_in_review st.status ≡ true → Changes st (approve_statement_row st)
  is_rejected :
      (st : Statement) (reason : String)
      → is_in_review st.status ≡ true
      → Changes st (reject_statement_row reason st)
  is_locked :
      (st : Statement) (now user : ℕ) (iban : Text)
      → st.status ≡ approved
      → Changes st (lock_statement_row now user iban st)
  is_paid :
      (st : Statement) (now : ℕ) (reference : Text)
      → st.status ≡ locked
      → st.mine_paid_at ≡ none
      → Changes st (pay_row now reference st)

-- A line of the statement, with its tons rounded.
abbrev pub BelongsTo : ℕ → TimedLine → Type 0
BelongsTo i l = (l.1.period_statement_id ≡ i) × (l.1.verified_net_tons ≡ to_fixed l.0.1)

abbrev pub edited_rows : ℕ → LineParams → Rows → Rows
edited_rows i p r =
    let lines = update p.line_id (edit_line p) r.1 in
    (update i (retotal p.deductions_rial (statement_lines_of i lines)) r.0, lines)

pub data Step (r : Rows) : Rows → Type 0 where
  stays : Step r r
  changes :
      (i : ℕ) (st : Statement) (f : Statement → Statement)
      → find i r.0 ≡ some st
      → Changes st (f st)
      → Step r (update i f r.0, r.1)
  drafts :
      (p : DraftParams) (ls : List TimedLine)
      → find_statement_of p r.0 ≡ none
      → All (BelongsTo (next_id r.0)) ls
      → Step r (insert (new_statement p ls) r.0, write_lines ls r.1)
  edits :
      (i : ℕ) (p : LineParams) (st : Statement) (l : StatementLine)
      → find i r.0 ≡ some st
      → st.status ≡ draft
      → find p.line_id (statement_lines_of i r.1) ≡ some l
      → Step r (edited_rows i p r)

-- A number of steps.
pub data Steps (r : Rows) : Rows → Type 0 where
  start : Steps r r
  next : (a b : Rows) → Steps r a → Step a b → Steps r b

pub Steps-append : (a b c : Rows) → Steps a b → Steps b c → Steps a c
Steps-append a b _ h start = h
Steps-append a b _ h (next x y g step) = next x y (Steps-append a b x h g) step

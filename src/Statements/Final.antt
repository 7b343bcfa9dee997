-- ===== src/Statements/Final.antt =====
-- A locked statement is final: over any requests it stays with its lines, until the mine pays it, once.
use logestic.Prelude.{
  ℕ, false, none, some, List, ◌==◌, ==_iff, length, ltb, ◌≡◌, ◌≢◌, inl, inr, refl, sym, ap, ◌∙◌,
  arith, Bool-cases, Option-cases,
}
use mathlib.Core.Path.{subst}
use logestic.Prelude.Table.{
  Table, find, update, next_id, lt-next_id, find-update_self, find-update_ne, find-insert_old,
}
use logestic.Identity.Digits.{Text}
use logestic.Reasons.{Reason}
use logestic.Store.{ok, refused}
use logestic.Store.Statements.{Statement, draft, locked, StatementLine}
use logestic.Store.Tables.{Db}
use logestic.Statements.{StatementEnv, statement_lines_of, trim, update_statement, load_statement}
use logestic.Statements.Draft.{new_statement}
use logestic.Statements.Review.{pay_row, edit_line, register_mine_payment}
use logestic.Statements.Requests.{StatementRequest, answer_statements}
use logestic.Statements.Refines.{answers_refine}
use logestic.Statements.Follows.{pay-Follows}
use logestic.Statements.Steps.{
  Rows, rows_of, Changes, is_submitted, is_approved, is_rejected, is_locked, is_paid, Step, stays,
  changes, drafts, edits, Steps, start, next,
}
use logestic.Statements.Lines.{
  IsKeyed, IsKeyed-update, IsKeyed-write_lines, others-write_lines, others-update,
}

Step-IsKeyed : (a b : Rows) → Step a b → IsKeyed a.1 → IsKeyed b.1
Step-IsKeyed a _ stays h = h
Step-IsKeyed a _ (changes i st f found change) h = h
Step-IsKeyed a _ (drafts p ls free own) h = IsKeyed-write_lines ls a.1 h
Step-IsKeyed a _ (edits i p st l found status line) h = IsKeyed-update p.line_id (edit_line p) a.1 h

Steps-IsKeyed : (a b : Rows) → Steps a b → IsKeyed a.1 → IsKeyed b.1
Steps-IsKeyed a _ start h = h
Steps-IsKeyed a _ (next x y before step) h = Step-IsKeyed x y step (Steps-IsKeyed a x before h)

-- A statement as it was, or paid since.
pub data Kept (st : Statement) : Statement → Type 0 where
  as_it_was : Kept st st
  paid_since :
      (now : ℕ) (reference : Text) → st.mine_paid_at ≡ none → Kept st (pay_row now reference st)

Kept-status : (st x : Statement) → Kept st x → x.status ≡ st.status
Kept-status st _ as_it_was = refl
Kept-status st _ (paid_since now reference e) = refl

pay-Kept :
    (st x : Statement) (now : ℕ) (reference : Text)
    → Kept st x
    → x.mine_paid_at ≡ none
    → Kept st (pay_row now reference x)
pay-Kept st _ now reference as_it_was e = paid_since now reference e
pay-Kept st _ now reference (paid_since now' reference' e') e = absurd (cc)

Changes-Kept : (st x y : Statement) → st.status ≡ locked → Kept st x → Changes x y → Kept st y
Changes-Kept st _ _ final k (is_submitted x e) = let s = Kept-status st x k in absurd (cc)
Changes-Kept st _ _ final k (is_approved x e) =
    let s = Kept-status st x k in absurd (ground (arith, s, final, e))
Changes-Kept st _ _ final k (is_rejected x reason e) =
    let s = Kept-status st x k in absurd (ground (arith, s, final, e))
Changes-Kept st _ _ final k (is_locked x now user iban e) =
    let s = Kept-status st x k in absurd (cc)
Changes-Kept st _ _ final k (is_paid x now reference e e') = pay-Kept st x now reference k e'

module _ (i : ℕ) (st : Statement) (final : st.status ≡ locked) (ls : Table StatementLine) where
  -- The statement and its lines.
  pub record Final (r : Rows) : Type 0 where
    pub now_is : Statement
    pub row : find i r.0 ≡ some now_is
    pub kept : Kept st now_is
    pub lines : statement_lines_of i r.1 ≡ ls

  changes-Final :
      (r : Rows) (k : ℕ) (x : Statement) (f : Statement → Statement)
      → find k r.0 ≡ some x
      → Changes x (f x)
      → Final r
      → Final (update k f r.0, r.1)
  changes-Final r k x f found change h = elim (Bool-cases (i == k)) [
    | inl e ↦
        let same : i ≡ k = ground (arith, e, ==_iff i k) in
        let there : find i r.0 ≡ some x = ap (λ n. find n r.0) same ∙ found in
        let row = h.row in
        let its : h.now_is ≡ x = cc in
        let new = find-update_self k f r.0 found in
        record {
          now_is = f x;
          row = ap (λ n. find n (update k f r.0)) same ∙ new;
          kept = Changes-Kept st x (f x) final (subst (Kept st) its h.kept) change;
          lines = h.lines;
        }
    | inr e ↦ record {
      now_is = h.now_is;
      row = find-update_ne i k f r.0 (ground (arith, e, ==_iff i k)) ∙ h.row;
      kept = h.kept;
      lines = h.lines;
    }
  ]

  not_draft :
      (r : Rows) (k : ℕ) (x : Statement) → Final r → i ≡ k → find k r.0 ≡ some x → x.status ≢ draft
  not_draft r k x h e found status =
      let there : find i r.0 ≡ some x = ap (λ n. find n r.0) e ∙ found in
      let row = h.row in
      let its : h.now_is ≡ x = cc in
      let same : x.status ≡ st.status =
        ap (λ y. y.status) (sym its) ∙ Kept-status st h.now_is h.kept in
      absurd (cc)

  Step-Final : (a b : Rows) → Step a b → IsKeyed a.1 → Final a → Final b
  Step-Final a _ stays s h = h
  Step-Final a _ (changes k x f found change) s h = changes-Final a k x f found change h
  Step-Final a _ (drafts p new free own) s h =
      let ne : i ≢ next_id a.0 = λ e. absurd (omega (arith, e, lt-next_id i a.0 h.now_is h.row)) in
      record {
        now_is = h.now_is;
        row = find-insert_old i (new_statement p new) a.0 h.row;
        kept = h.kept;
        lines = others-write_lines (next_id a.0) i new a.1 ne own ∙ h.lines;
      }
  Step-Final a _ (edits k p x l found status line) s h =
      let ne : i ≢ k = λ e. not_draft a k x h e found status in
      record {
        now_is = h.now_is;
        row = find-update_ne i k _ a.0 ne ∙ h.row;
        kept = h.kept;
        lines = others-update k i p.line_id p l a.1 ne s line ∙ h.lines;
      }

  Steps-Final : (a b : Rows) → Steps a b → IsKeyed a.1 → Final a → Final b
  Steps-Final a _ start s h = h
  Steps-Final a _ (next x y before step) s h =
      Step-Final x y step (Steps-IsKeyed a x before s) (Steps-Final a x before s h)

-- A locked statement is final: where the newer lines have the greater ids, after any sequence of
-- requests it is there as it was, with the lines that it had, but for a payment by the mine where it
-- had none.
pub locked-Final :
    (qs : List (StatementEnv × StatementRequest)) (s : Db) (i : ℕ) (st : Statement)
    → IsKeyed s.statement_lines
    → find i s.statements ≡ some st
    → (final : st.status ≡ locked)
    → Final i st final (statement_lines_of i s.statement_lines) (rows_of (answer_statements qs s))
locked-Final qs s i st keyed found final =
    Steps-Final i st final (statement_lines_of i s.statement_lines) (rows_of s)
      (rows_of (answer_statements qs s)) (answers_refine qs s) keyed
      (record { now_is = st; row = found; kept = as_it_was; lines = refl })

-- What a payment that goes through leaves.
paid_row :
    (now i user : ℕ) (reference : Text) (s : Db) (st r : Statement)
    → find i s.statements ≡ some st
    → (register_mine_payment now i reference user s).0 ≡ ok r
    → (st.status ≡ locked)
      × ((register_mine_payment now i reference user s).1.statements
          ≡ update i (pay_row now (trim reference)) s.statements)
unfolding register_mine_payment update_statement load_statement
paid_row now i user reference s st r found h = (ground (arith, found, h), ground (arith, found, h))

no_row :
    (now i user : ℕ) (reference : Text) (s : Db) (r : Statement)
    → find i s.statements ≡ none
    → (register_mine_payment now i reference user s).0 ≢ ok r
unfolding register_mine_payment
no_row now i user reference s r missing h = ground (arith, missing, h)

again :
    (now i user : ℕ) (reference : Text) (s : Db) (st : Statement) (at : ℕ)
    → ltb (length (trim reference)) 8 ≡ false
    → find i s.statements ≡ some st
    → st.status ≡ locked
    → st.mine_paid_at ≡ some at
    → register_mine_payment now i reference user s ≡ (refused Reason.already_paid, s)
unfolding register_mine_payment
again now i user reference s st at long found final paid = ground (arith, long, found, final, paid)

never_again :
    (now i user : ℕ) (reference : Text) (s : Db) (st : Statement) (at : ℕ)
    (final : st.status ≡ locked) (ls : Table StatementLine)
    → ltb (length (trim reference)) 8 ≡ false
    → st.mine_paid_at ≡ some at
    → Final i st final ls (rows_of s)
    → register_mine_payment now i reference user s ≡ (refused Reason.already_paid, s)
never_again now i user reference s st at final ls long paid h =
    let same : h.now_is ≡ st = unchanged st h.now_is h.kept paid in
    let row : find i s.statements ≡ some st = h.row ∙ ap some same in
    again now i user reference s st at long row final paid
  where
    unchanged : (st x : Statement) → Kept st x → st.mine_paid_at ≡ some at → x ≡ st
    unchanged st _ as_it_was e = refl
    unchanged st _ (paid_since now reference e') e = absurd (cc)

-- A statement is paid once: where the newer lines have the greater ids, after a payment that goes
-- through and any sequence of requests, a further payment with a reference of eight characters or more
-- is refused as already paid and writes nothing.
pub paid_once :
    (now i user : ℕ) (reference : Text) (s : Db) (r : Statement)
    → IsKeyed s.statement_lines
    → (register_mine_payment now i reference user s).0 ≡ ok r
    → (qs : List (StatementEnv × StatementRequest)) (now' user' : ℕ) (reference' : Text)
    → ltb (length (trim reference')) 8 ≡ false
    → let s' = answer_statements qs (register_mine_payment now i reference user s).1 in
      register_mine_payment now' i reference' user' s' ≡ (refused Reason.already_paid, s')
paid_once now i user reference s r keyed done qs now' user' reference' long =
    elim (Option-cases (find i s.statements)) [
      | inl missing ↦ absurd (no_row now i user reference s r missing done)
      | inr (st, found) ↦
          let t = (register_mine_payment now i reference user s).1 in
          let (final, written) = paid_row now i user reference s st r found done in
          let st' = pay_row now (trim reference) st in
          let new = find-update_self i (pay_row now (trim reference)) s.statements found in
          let row : find i t.statements ≡ some st' = ap (find i) written ∙ new in
          let keyed' =
            Step-IsKeyed (rows_of s) (rows_of t) (pay-Follows s now i user reference).after keyed in
          let kept = locked-Final qs t i st' keyed' row final in
          never_again now' i user' reference' (answer_statements qs t) st' now final
            (statement_lines_of i t.statement_lines) long refl kept
    ]

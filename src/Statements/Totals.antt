-- ===== src/Statements/Totals.antt =====
-- Over any requests the sums in rials and the count of each statement are those of its lines.
use logestic.Prelude.{
  ℕ, some, List, [], ◌==◌, ==_iff, length, ◌≡◌, ◌≢◌, inl, inr, refl, sym, ap, ◌∙◌, arith,
  Bool-cases,
}
use mathlib.Core.Path.{subst, subst⁻¹}
use logestic.Prelude.Table.{
  Table, find, update, insert, next_id, lt-next_id, find-update_self, find-update_ne, find_inserted,
}
use logestic.Prelude.Every.{All}
use logestic.Store.Statements.{Statement, StatementLine}
use logestic.Store.Tables.{Db}
use logestic.Statements.{StatementEnv, statement_lines_of, total_of, recompute_payable}
use logestic.Statements.Draft.{DraftParams, TimedLine, write_lines, sum_lines, new_statement}
use logestic.Statements.Review.{LineParams, edit_line, retotal}
use logestic.Statements.Requests.{StatementRequest, answer_statements}
use logestic.Statements.Refines.{answers_refine}
use logestic.Statements.Steps.{
  Rows, rows_of, Changes, is_submitted, is_approved, is_rejected, is_locked, is_paid, BelongsTo,
  Step, stays, changes, drafts, edits, edited_rows, Steps, start, next,
}
use logestic.Statements.Lines.{
  IsKeyed, IsKeyed-update, IsKeyed-write_lines, next_id-update, Known, no_lines, Known-weaken,
  Known-update, Known-write_lines, total-new, next_id-insert, length-write_lines,
  others-write_lines, others-update,
}

-- The totals of a statement against its lines. Nothing is said of the tons: a draft stores each line's
-- and the total's rounded apart from each other.
pub record Balanced (ls : Table StatementLine) (st : Statement) : Type 0 where
  pub operational : st.operational_rial ≡ total_of (λ l. l.operational_rial) ls
  pub community : st.community_rial ≡ total_of (λ l. l.community_rial) ls
  pub payable :
      st.payable_rial
      ≡ recompute_payable
          (total_of (λ l. l.operational_rial) ls)
          (total_of (λ l. l.community_rial) ls)
          st.deductions_rial
  pub count : st.service_count ≡ length ls

-- What holds of the rows: the ids of lines come from a sequence, each line is of a statement that was
-- made, and each statement is balanced.
pub record Sound (r : Rows) : Type 0 where
  pub keyed : IsKeyed r.1
  pub known : All (Known (next_id r.0)) r.1
  pub balanced :
      (i : ℕ) (st : Statement) → find i r.0 ≡ some st → Balanced (statement_lines_of i r.1) st

Changes-Balanced :
    (ls : Table StatementLine) (st st' : Statement)
    → Changes st st'
    → Balanced ls st
    → Balanced ls st'
Changes-Balanced ls _ _ (is_submitted st e) b = record {
  operational = b.operational;
  community = b.community;
  payable = b.payable;
  count = b.count;
}
Changes-Balanced ls _ _ (is_approved st e) b = record {
  operational = b.operational;
  community = b.community;
  payable = b.payable;
  count = b.count;
}
Changes-Balanced ls _ _ (is_rejected st reason e) b = record {
  operational = b.operational;
  community = b.community;
  payable = b.payable;
  count = b.count;
}
Changes-Balanced ls _ _ (is_locked st now user iban e) b = record {
  operational = b.operational;
  community = b.community;
  payable = b.payable;
  count = b.count;
}
Changes-Balanced ls _ _ (is_paid st now reference e e') b = record {
  operational = b.operational;
  community = b.community;
  payable = b.payable;
  count = b.count;
}

changes-Sound :
    (r : Rows) (i : ℕ) (st : Statement) (f : Statement → Statement)
    → find i r.0 ≡ some st
    → Changes st (f st)
    → Sound r
    → Sound (update i f r.0, r.1)
changes-Sound r i st f found change h = record {
  keyed = h.keyed;
  known =
      Known-weaken (next_id r.0) (next_id (update i f r.0)) r.1
        (omega (arith, next_id-update i f r.0)) h.known;
  balanced = λ k x there. elim (Bool-cases (k == i)) [
    | inl e ↦
        let same : k ≡ i = ground (arith, e, ==_iff k i) in
        let new = find-update_self i f r.0 found in
        let its : f st ≡ x = cc in
        let b =
          Changes-Balanced (statement_lines_of i r.1) st (f st) change (h.balanced i st found) in
        subst (Balanced (statement_lines_of k r.1)) its
          (subst⁻¹ (λ n. Balanced (statement_lines_of n r.1) (f st)) same b)
    | inr e ↦
        h.balanced k x (sym (find-update_ne k i f r.0 (ground (arith, e, ==_iff k i))) ∙ there)
  ];
}

new-Balanced :
    (p : DraftParams) (i : ℕ) (ls : List TimedLine) (t : Table StatementLine)
    → All (BelongsTo i) ls
    → statement_lines_of i t ≡ []
    → Balanced (statement_lines_of i (write_lines ls t)) (new_statement p ls)
new-Balanced p i ls t own empty =
    let operational : sum_lines (λ l. l.operational_rial) ls
        ≡ total_of (λ l. l.operational_rial) _ =
      sym (total-new i (λ l. l.operational_rial) ls t empty own) in
    let community : sum_lines (λ l. l.community_rial) ls ≡ total_of (λ l. l.community_rial) _ =
      sym (total-new i (λ l. l.community_rial) ls t empty own) in
    let count : length (statement_lines_of i t) ≡ 0 = ap length empty in
    record {
      operational = operational;
      community = community;
      payable =
          ap
            (λ a.
              recompute_payable a (sum_lines (λ l. l.community_rial) ls)
                (new_statement p ls).deductions_rial)
            operational
          ∙ ap
              (λ a.
                recompute_payable
                  (total_of (λ l. l.operational_rial) (statement_lines_of i (write_lines ls t))) a
                  (new_statement p ls).deductions_rial)
              community;
      count = omega (arith, count, length-write_lines i ls t own);
    }

drafts-Sound :
    (r : Rows) (p : DraftParams) (ls : List TimedLine)
    → All (BelongsTo (next_id r.0)) ls
    → Sound r
    → Sound (insert (new_statement p ls) r.0, write_lines ls r.1)
drafts-Sound r p ls own h = record {
  keyed = IsKeyed-write_lines ls r.1 h.keyed;
  known =
      Known-write_lines (next_id r.0) _ ls r.1 (next_id-insert (new_statement p ls) r.0) own
        (Known-weaken _ _ r.1 (omega (arith, next_id-insert (new_statement p ls) r.0)) h.known);
  balanced = λ k x there. elim (find_inserted k (new_statement p ls) x r.0 there) [
    | inl (e, new) ↦
        let b = new-Balanced p (next_id r.0) ls r.1 own (no_lines (next_id r.0) r.1 h.known) in
        subst (Balanced (statement_lines_of k (write_lines ls r.1))) new (
          subst⁻¹ (λ n. Balanced (statement_lines_of n (write_lines ls r.1)) (new_statement p ls)) e
            b)
    | inr old ↦
        let ne : k ≢ next_id r.0 = λ e. absurd (omega (arith, e, lt-next_id k r.0 x old)) in
        subst⁻¹ (λ t. Balanced t x) (others-write_lines (next_id r.0) k ls r.1 ne own)
          (h.balanced k x old)
  ];
}

edits-Sound :
    (r : Rows) (i : ℕ) (p : LineParams) (st : Statement) (l : StatementLine)
    → find i r.0 ≡ some st
    → find p.line_id (statement_lines_of i r.1) ≡ some l
    → Sound r
    → Sound (edited_rows i p r)
edits-Sound r i p st l found line h =
    let lines = update p.line_id (edit_line p) r.1 in
    let f = retotal p.deductions_rial (statement_lines_of i lines) in
    record {
      keyed = IsKeyed-update p.line_id (edit_line p) r.1 h.keyed;
      known =
          Known-weaken (next_id r.0) (next_id (update i f r.0)) lines
            (omega (arith, next_id-update i f r.0))
            (Known-update (next_id r.0) p.line_id p r.1 h.known);
      balanced = λ k x there. elim (Bool-cases (k == i)) [
        | inl e ↦
            let same : k ≡ i = ground (arith, e, ==_iff k i) in
            let new = find-update_self i f r.0 found in
            let its : f st ≡ x = cc in
            let b : Balanced (statement_lines_of i lines) (f st) = record {
              operational = refl;
              community = refl;
              payable = refl;
              count = refl;
            } in
            subst (Balanced (statement_lines_of k lines)) its
              (subst⁻¹ (λ n. Balanced (statement_lines_of n lines) (f st)) same b)
        | inr e ↦
            let ne : k ≢ i = ground (arith, e, ==_iff k i) in
            let old = h.balanced k x (sym (find-update_ne k i f r.0 ne) ∙ there) in
            subst⁻¹ (λ t. Balanced t x) (others-update i k p.line_id p l r.1 ne h.keyed line) old
      ];
    }

Step-Sound : (a b : Rows) → Step a b → Sound a → Sound b
Step-Sound a _ stays h = h
Step-Sound a _ (changes i st f found change) h = changes-Sound a i st f found change h
Step-Sound a _ (drafts p ls new own) h = drafts-Sound a p ls own h
Step-Sound a _ (edits i p st l found status line) h = edits-Sound a i p st l found line h

Steps-Sound : (a b : Rows) → Steps a b → Sound a → Sound b
Steps-Sound a _ start h = h
Steps-Sound a _ (next x y before step) h = Step-Sound x y step (Steps-Sound a x before h)

-- Where the rows are sound, they are sound after any sequence of requests, whatever each ends with: the
-- operational and the community sum of each statement and its count are those of its lines,
-- and it is payable what the sums leave after the deductions, or nothing.
pub statements-Sound :
    (qs : List (StatementEnv × StatementRequest)) (s : Db)
    → Sound (rows_of s)
    → Sound (rows_of (answer_statements qs s))
statements-Sound qs s =
    Steps-Sound (rows_of s) (rows_of (answer_statements qs s)) (answers_refine qs s)

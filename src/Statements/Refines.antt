-- ===== src/Statements/Refines.antt =====
-- Sequences of requests for statements follow the step relation.
use logestic.Prelude.{ℕ, List, [], ◌∷◌}
use logestic.Store.{Outcome, ok, refused, throws, Action, ◌>>=◌, ◌>>◌, pure}
use logestic.Store.Keeps.{Keeps, Keeps-bind}
use logestic.Store.Tables.{Db}
use logestic.Settlement.Close.{attempt}
use logestic.Statements.Requests.{
  StatementRequest, create_draft, create_drafts_of_mine, submit, lock, approve, reject, edit, pay,
  answer_statement, answer_statements,
}
use logestic.Statements.{StatementEnv}
use logestic.Statements.Draft.{
  DraftParams, create_period_statement_draft, create_drafts, append_if_created, for_cooperative,
  create_period_statement_drafts_for_mine_period,
}
use logestic.Statements.Review.{
  submit_period_statement_for_review, approve_period_statement, reject_period_statement,
  lock_period_statement, update_period_statement_line, register_mine_payment,
}
use logestic.Statements.Steps.{Rows, rows_of, Steps, start, next, Steps-append}
use logestic.Statements.Follows.{
  Follows, submit-Follows, approve-Follows, reject-Follows, lock-Follows, pay-Follows, edit-Follows,
  draft-Follows,
}

abbrev pub Reaches : Rows → Db → Type 0
Reaches r s = Steps r (rows_of s)

continues :
    {A : Type 0} (r : Rows) (s : Db) (x : Outcome A × Db)
    → Reaches r s
    → Keeps (Follows (rows_of s)) x
    → Keeps (Reaches r) x
continues r s x before h = record { after = next (rows_of s) (rows_of x.1) before h.after }

then_pure :
    {A : Type 0} (r : Rows) (s : Db) (m : Action A)
    → Keeps (Reaches r) (m s)
    → Keeps (Reaches r) ((m >> pure tt) s)
then_pure r s m h = Keeps-bind (Reaches r) s m (λ _. pure tt) h (λ a t g. record { after = g })

attempt-Reaches :
    {A : Type 0} (r : Rows) (s : Db) (m : Action A)
    → Keeps (Reaches r) (m s)
    → Keeps (Reaches r) (attempt m s)
unfolding attempt
attempt-Reaches {A} r s m h = go (m s) h
  where
    go : (x : Outcome A × Db) → Keeps (Reaches r) x → Keeps (Reaches r) (attempt (λ (_ : Db). x) s)
    go (ok a, t) h = record { after = h.after }
    go (refused e, t) h = record { after = h.after }
    go (throws e, t) h = record { after = h.after }

create_drafts-Reaches :
    (env : StatementEnv) (p : DraftParams) (r : Rows) (cs : List ℕ) (s : Db)
    → Reaches r s
    → Keeps (Reaches r) (create_drafts env p cs s)
unfolding create_drafts
create_drafts-Reaches env p r [] s before = record { after = before }
create_drafts-Reaches env p r (c ∷ cs) s before =
    let p' = for_cooperative c p in
    let first =
      continues r s (create_period_statement_draft env p' s) before (draft-Follows s env p') in
    Keeps-bind (Reaches r) s (attempt (create_period_statement_draft env p'))
      (λ x. create_drafts env p cs >>= λ rest. pure (append_if_created x rest))
      (attempt-Reaches r s (create_period_statement_draft env p') first)
      (λ x t h.
        Keeps-bind (Reaches r) t (create_drafts env p cs) (λ rest. pure (append_if_created x rest))
          (create_drafts-Reaches env p r cs t h) (λ rest u h'. record { after = h' }))

drafts-Reaches :
    (env : StatementEnv) (p : DraftParams) (s : Db)
    → Keeps (Reaches (rows_of s)) (create_period_statement_drafts_for_mine_period env p s)
unfolding create_period_statement_drafts_for_mine_period
drafts-Reaches env p s =
    create_drafts-Reaches env p (rows_of s) (env.list_cooperatives_by_mine p.mine_id) s start

single :
    {A : Type 0} (s : Db) (m : Action A)
    → Keeps (Follows (rows_of s)) (m s)
    → Keeps (Reaches (rows_of s)) ((m >> pure tt) s)
single s m h = then_pure (rows_of s) s m (continues (rows_of s) s (m s) start h)

answer-Reaches :
    (env : StatementEnv) (q : StatementRequest) (s : Db)
    → Keeps (Reaches (rows_of s)) (answer_statement env q s)
unfolding answer_statement
answer-Reaches env (create_draft p) s =
    single s (create_period_statement_draft env p) (draft-Follows s env p)
answer-Reaches env (create_drafts_of_mine p) s =
    then_pure (rows_of s) s (create_period_statement_drafts_for_mine_period env p)
      (drafts-Reaches env p s)
answer-Reaches env (submit i user) s =
    single s (submit_period_statement_for_review i user) (submit-Follows s i user)
answer-Reaches env (lock i user) s =
    single s (lock_period_statement env i user) (lock-Follows s env i user)
answer-Reaches env (approve i user role c) s =
    single s (approve_period_statement i user role c) (approve-Follows s i user role c)
answer-Reaches env (reject i user reason) s =
    single s (reject_period_statement i user reason) (reject-Follows s i user reason)
answer-Reaches env (edit i p) s = single s (update_period_statement_line i p) (edit-Follows s i p)
answer-Reaches env (pay i reference user) s =
    single s (register_mine_payment env.now i reference user)
      (pay-Follows s env.now i user reference)

-- Every sequence of requests, whatever each ends with, takes the statements and their lines along a
-- number of steps of the relation.
pub answers_refine :
    (qs : List (StatementEnv × StatementRequest)) (s : Db)
    → Steps (rows_of s) (rows_of (answer_statements qs s))
unfolding answer_statements
answers_refine [] s = start
answers_refine ((env, q) ∷ qs) s =
    let t = (answer_statement env q s).1 in
    Steps-append (rows_of s) (rows_of t) (rows_of (answer_statements qs t))
      (answer-Reaches env q s).after (answers_refine qs t)

-- ===== src/Statements/Requests.antt =====
-- The requests for period statements as one data type, and sequences of them.
use Prim.Native.String.{String}
use logestic.Prelude.{ℕ, Option, List, [], ◌∷◌}
use logestic.Roles.{UserRole}
use logestic.Identity.Digits.{Text}
use logestic.Store.{Action, ◌>>◌, pure}
use logestic.Store.Tables.{Db}
use logestic.Statements.{StatementEnv}
use logestic.Statements.Draft.{
  DraftParams, create_period_statement_draft, create_period_statement_drafts_for_mine_period,
}
use logestic.Statements.Review.{
  LineParams, submit_period_statement_for_review, approve_period_statement, reject_period_statement,
  lock_period_statement, update_period_statement_line, register_mine_payment,
}

pub data StatementRequest : Type 0 where
  create_draft create_drafts_of_mine : DraftParams → StatementRequest
  submit lock : ℕ → ℕ → StatementRequest
  approve : ℕ → ℕ → UserRole → Option ℕ → StatementRequest
  reject : ℕ → ℕ → String → StatementRequest
  edit : ℕ → LineParams → StatementRequest
  pay : ℕ → Text → ℕ → StatementRequest

unfoldable pub answer_statement : StatementEnv → StatementRequest → Action (Unit {0})
unfolding create_period_statement_draft create_period_statement_drafts_for_mine_period
    submit_period_statement_for_review approve_period_statement reject_period_statement
    lock_period_statement update_period_statement_line register_mine_payment
answer_statement env (create_draft p) = create_period_statement_draft env p >> pure tt
answer_statement env (create_drafts_of_mine p) =
    create_period_statement_drafts_for_mine_period env p >> pure tt
answer_statement env (submit i user) = submit_period_statement_for_review i user >> pure tt
answer_statement env (lock i user) = lock_period_statement env i user >> pure tt
answer_statement env (approve i user role c) = approve_period_statement i user role c >> pure tt
answer_statement env (reject i user reason) = reject_period_statement i user reason >> pure tt
answer_statement env (edit i p) = update_period_statement_line i p >> pure tt
answer_statement env (pay i reference user) =
    register_mine_payment env.now i reference user >> pure tt

-- Each request with what it meets; whatever one ends with, the next one follows.
unfoldable pub answer_statements : List (StatementEnv × StatementRequest) → Db → Db
unfolding answer_statement
answer_statements [] s = s
answer_statements ((env, q) ∷ rest) s = answer_statements rest (answer_statement env q s).1

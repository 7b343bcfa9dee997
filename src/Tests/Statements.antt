-- ===== src/Tests/Statements.antt =====
-- A mine that pays a cooperative for one verified mission.
use logestic.Prelude.{none, some, List, [], ◌∷◌, ◌≡◌, refl}
use logestic.Prelude.Int.{pos, ◌+ℤ◌, ◌-ℤ◌}
use logestic.Prelude.Rounding.{round_div}
use logestic.Settlement.Period.{utc_month_start}
use logestic.Identity.Iban.{is_space}
use logestic.Ledger.Post.{ledger_sum}
use logestic.Prelude.Table.{find, update, insert}
use logestic.Prelude.Every.{nil}
use logestic.Fsm.{MissionStatus}
use logestic.Roles.{coop_admin, operation_admin}
use logestic.Identity.Digits.{Text}
use logestic.Reasons.{Reason}
use logestic.Store.{ok, refused}
use logestic.Store.Statements.{Statement, locked}
use logestic.Store.Tables.{Db, Mission, Transaction, TransactionType, FundTag, Description, owner}
use logestic.Statements.{StatementEnv, statement_lines_of, trim_start, trim_end}
use logestic.Statements.Draft.{
  TimedLine, to_fixed, stored_tons, sum_tons, line_of_mission, DraftParams,
}
use logestic.Statements.Review.{lock_period_statement, register_mine_payment}
use logestic.Statements.Requests.{
  StatementRequest, create_draft, submit, approve, lock, pay, reject, answer_statements,
}
use logestic.Statements.Refines.{answers_refine}
use logestic.Statements.Steps.{rows_of, Steps}
use logestic.Statements.Lines.{IsKeyed, no_rows}
use logestic.Statements.Totals.{Sound, statements-Sound}
use logestic.Statements.Final.{Final, locked-Final, paid_once}
use logestic.Statements.Lock.{LockedBy, lock_statement_ok}
use logestic.Tests.Data.{db_at, mission_at}

abbrev account : Text
account = 73 ∷ 82 ∷ 32 ∷ 49 ∷ 50 ∷ []

abbrev reference : Text
reference = 32 ∷ 49 ∷ 50 ∷ 51 ∷ 52 ∷ 53 ∷ 54 ∷ 55 ∷ 56 ∷ 32 ∷ []

abbrev statement_env : StatementEnv
statement_env = record {
  now = 5000;
  find_cooperative_by_id = λ _. some (record { mine_id = 5; iban = some account });
  list_cooperatives_by_mine = λ _. 1 ∷ [];
  owner_cooperative = λ _. some 1;
  upper_of = λ c. c ∷ [];
}

abbrev january : DraftParams
january = record {
  mine_id = 5;
  cooperative_id = 1;
  year = 1970;
  month = 1;
  created_by_user_id = none;
  deductions_rial = some (pos 1000);
  settlement_batch_id = none;
}

abbrev stated_mission : Mission
stated_mission = record (mission_at MissionStatus.verified) {
  verified_at = some 90000;
  verified_net_tons_kg = some (pos 2000000);
  community_contribution_rial = some (pos 50000);
}

abbrev credit_row : Transaction
credit_row = record {
  wallet = owner 21;
  mission_id = some 2;
  community_pool_id = none;
  amount = pos 300000;
  type = TransactionType.credit;
  fund = FundTag.operational;
  description = Description.split_owner;
}

abbrev start_db : Db
start_db = record (db_at MissionStatus.verified) {
  missions = (2, stated_mission) ∷ [];
  transactions = credit_row ∷ [];
}

start_db-Sound : Sound (rows_of start_db)
unfolding find
start_db-Sound = record { keyed = no_rows; known = nil; balanced = λ i st e. absurd (cc) }

abbrev january_reviewed : List (StatementEnv × StatementRequest)
january_reviewed =
    (statement_env, create_draft january)
    ∷ (statement_env, submit 1 7)
    ∷ (statement_env, approve 1 8 coop_admin (some 1))
    ∷ (statement_env, approve 1 9 operation_admin none)
    ∷ []

abbrev reviewed_db : Db
reviewed_db = answer_statements january_reviewed start_db

answers_refine_example : Steps (rows_of start_db) (rows_of reviewed_db)
answers_refine_example = answers_refine january_reviewed start_db

statements-Sound_example : Sound (rows_of reviewed_db)
statements-Sound_example = statements-Sound january_reviewed start_db start_db-Sound

-- 3 000 rials for the owner and 500 for the community, less 10.
abbrev locked_row : Statement
locked_row = record {
  mine_id = 5;
  cooperative_id = 1;
  period_key = 197001;
  status = locked;
  service_count = 1;
  total_tons = some (pos 2000);
  operational_rial = pos 300000;
  community_rial = pos 50000;
  deductions_rial = pos 1000;
  payable_rial = pos 349000;
  cooperative_payable_iban = some (73 ∷ 82 ∷ 49 ∷ 50 ∷ []);
  mine_payment_reference = none;
  mine_paid_at = none;
  rejection_reason = none;
  locked_at = some 5000;
  locked_by_user_id = some 10;
  settlement_batch_id = none;
  created_by_user_id = none;
}

lock_done : (lock_period_statement statement_env 1 10 reviewed_db).0 ≡ ok locked_row
unfolding answer_statements find insert update trim_end trim_start utc_month_start ◌-ℤ◌ ◌+ℤ◌
    round_div ledger_sum
lock_done = refl

lock_statement_ok_example :
    LockedBy statement_env 1 10 reviewed_db (lock_period_statement statement_env 1 10 reviewed_db).1
lock_statement_ok_example = lock_statement_ok statement_env 1 10 reviewed_db locked_row lock_done

abbrev locked_db : Db
locked_db = answer_statements ((statement_env, lock 1 10) ∷ []) reviewed_db

locked_there : find 1 locked_db.statements ≡ some locked_row
unfolding answer_statements find insert update trim_end trim_start utc_month_start ◌-ℤ◌ ◌+ℤ◌
    round_div ledger_sum
locked_there = refl

locked_db-IsKeyed : IsKeyed locked_db.statement_lines
locked_db-IsKeyed =
    (statements-Sound ((statement_env, lock 1 10) ∷ []) reviewed_db
      (statements-Sound january_reviewed start_db start_db-Sound)).keyed

abbrev later_requests : List (StatementEnv × StatementRequest)
later_requests =
    (statement_env, reject 1 9 "late")
    ∷ (statement_env, pay 1 reference 12)
    ∷ (statement_env, create_draft january)
    ∷ []

locked-Final_example :
    Final 1 locked_row refl
      (statement_lines_of 1 locked_db.statement_lines)
      (rows_of (answer_statements later_requests locked_db))
locked-Final_example =
    locked-Final later_requests locked_db 1 locked_row locked_db-IsKeyed locked_there refl

abbrev paid_row : Statement
paid_row = record locked_row {
  mine_payment_reference = some (49 ∷ 50 ∷ 51 ∷ 52 ∷ 53 ∷ 54 ∷ 55 ∷ 56 ∷ []);
  mine_paid_at = some 6000;
}

pay_done : (register_mine_payment 6000 1 reference 12 locked_db).0 ≡ ok paid_row
unfolding answer_statements find insert update trim_end trim_start utc_month_start ◌-ℤ◌ ◌+ℤ◌
    round_div ledger_sum
pay_done = refl

paid_once_example :
    let s' =
      answer_statements later_requests (register_mine_payment 6000 1 reference 12 locked_db).1 in
    register_mine_payment 7000 1 reference 12 s' ≡ (refused Reason.already_paid, s')
unfolding trim_end trim_start is_space
paid_once_example =
    paid_once 6000 1 12 reference locked_db paid_row locked_db-IsKeyed pay_done later_requests 7000
      12 reference refl

-- Two lines of 10.004 tons are stored as 10 tons each, and their total as 20.01.
abbrev timed : TimedLine
timed = ((some 1, pos 10004), line_of_mission 1 [] 2 stated_mission)

apart :
    (to_fixed (pos 10004) ≡ pos 1000)
    × (stored_tons (sum_tons (timed ∷ timed ∷ [])) ≡ some (pos 2001))
unfolding sum_tons ◌+ℤ◌ round_div
apart = (refl, refl)

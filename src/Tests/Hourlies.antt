-- ===== src/Tests/Hourlies.antt =====
-- The life of an hourly log at concrete inputs.
use logestic.Prelude.{ℕ, true, false, none, some, List, [], ◌∷◌, ◌≡◌, refl, arith}
use logestic.Prelude.Int.{pos}
use logestic.Prelude.Table.{find}
use logestic.Reasons.{Reason}
use logestic.Fsm.{assigned}
use logestic.Store.{ok, refused}
use logestic.Store.Batches.{HourlyLog, ended}
use logestic.Store.Tables.{Db}
use logestic.Ledger.Policy.{split_operational_with_policy}
use logestic.Hourly.{HourlyEnv, StartParams, VerifyParams, verify, verify_row, hourly_fare}
use logestic.Hourly.Once.{
  HourlyRequest, started_by, ended_by, rejected_by, serve_all, OneActive, serve_all-OneActive,
}
use logestic.Hourly.Credits.{Verified, verify_credits}
use logestic.Hourly.Verified.{verified_once}
use logestic.Tests.Data.{db_at, party, policy}

abbrev hourly_env : HourlyEnv
hourly_env = record {
  now = 7200000;
  find_fleet_owner = λ _. some party;
  find_household = λ _. some party;
  -- 1000 rials an hour
  hourly_rate = λ _. some 10000000;
  policies = λ _ _. some policy;
  period_key = λ _ _. some 202610;
  operator = λ _. some 17;
}

abbrev to_start : StartParams
to_start = record { mission_id = 2; vehicle_id = 41; household_id = 31 }

abbrev ended_log : HourlyLog
ended_log = record {
  mission_id = some 2;
  mine_id = 5;
  fleet_owner_id = 21;
  vehicle_id = some 41;
  household_id = some 31;
  started_at = some 0;
  ended_at = some 7200000;
  raw_hours = some (pos 2000000);
  billable_hours = none;
  hourly_rate_snapshot = none;
  status = ended;
  consultant_user_id = none;
  consultant_verified_at = none;
  rejected_by_user_id = none;
}

abbrev hourly_db : Db
hourly_db = record (db_at assigned) { hourly_logs = (3, ended_log) ∷ [] }

abbrev to_verify : VerifyParams
to_verify = record { log_id = 3; consultant_user_id = 9; billable_hours = pos 2000000 }

whole_fare : hourly_fare (pos 2000000) 10000000 ≡ pos 200000
unfolding logestic.Prelude.Rounding.round_div logestic.Prelude.Rounding.scale
    logestic.Prelude.Int.◌+ℤ◌
whole_fare = refl

verify_credits_example :
    let (outcome, s') = verify hourly_env to_verify hourly_db in
    let split = split_operational_with_policy (hourly_fare (pos 2000000) 10000000) policy in
    (outcome ≡ ok (verify_row hourly_env to_verify 10000000 ended_log, split))
    × Verified hourly_env to_verify ended_log 10000000 party split hourly_db s'
unfolding find
verify_credits_example =
    verify_credits hourly_env to_verify hourly_db ended_log (pos 2000000) 10000000 202610 2000 party
      party policy refl refl refl refl refl refl refl refl refl (omega arith) whole_fare

abbrev requests : List HourlyRequest
requests =
    ended_by hourly_env 3 ∷ rejected_by hourly_env 3 9 "late" ∷ started_by hourly_env to_start ∷ []

verified_once_example :
    let s' = serve_all requests (verify hourly_env to_verify hourly_db).1 in
    verify hourly_env to_verify s' ≡ (refused Reason.invalid_log, s')
verified_once_example =
    verified_once hourly_env to_verify hourly_db
      (
        verify_row hourly_env to_verify 10000000 ended_log,
        split_operational_with_policy (hourly_fare (pos 2000000) 10000000) policy,
      )
      (verify_credits_example.0) requests hourly_env to_verify refl

one_log : OneActive hourly_db.hourly_logs
unfolding OneActive find
one_log k k' i l l' row row' active active' = ground (arith, active)

serve_all-OneActive_example :
    OneActive
      (serve_all
        (started_by hourly_env to_start ∷ started_by hourly_env to_start ∷ [])
        hourly_db).hourly_logs
serve_all-OneActive_example =
    serve_all-OneActive (started_by hourly_env to_start ∷ started_by hourly_env to_start ∷ [])
      hourly_db one_log

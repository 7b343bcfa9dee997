-- ===== src/Tests/Closes.antt =====
-- The closes at concrete inputs: a mine with a period of seven days, whose owner has a wallet and a
-- credit for one verified mission.
use logestic.Prelude.{ℕ, true, false, none, some, [], ◌∷◌, ◌+◌, ◌*◌, ◌≡◌, ◌⊎◌, inl, inr, refl}
use logestic.Prelude.Int.{pos, leb_ℤ}
use logestic.Prelude.Table.{find}
use logestic.Reasons.{Reason}
use logestic.Fsm.{verified}
use logestic.Store.{ok, refused}
use logestic.Store.Batches.{owner_weekly, HourlyLog, HourlyStatus}
use logestic.Store.Tables
use logestic.Store.Tables.{Db, Line, Mission, owner, credit, Description}
use logestic.Settlement.Period.{owner_period_bounds}
use logestic.Settlement.Eligible.{
  owner_lines, is_mission_due, mission_line, owner_credit_for_mission, hourly_lines,
}
use logestic.Settlement.Close.{
  CloseEnv, exists_batch, new_batch, owner_weekly_close, run_daily_settlement_cycle,
}
use logestic.Settlement.Close.Unique.{weekly, WeeklyOnce}
use logestic.Settlement.Close.Cycle.{cycle_once}
use logestic.Settlement.Close.Weekly.{PaysOwner, weekly_close_ok, bucket_closed_once}
use logestic.Settlement.Close.Complete.{weekly_close_complete}
use logestic.Settlement.Close.Hourly.{hourly_never_settled}
use logestic.Tests.Data.{db_at, mission_at, pool_env}

abbrev week : ℕ
week = 604800000

abbrev close_env : CloseEnv
close_env = record {
  owner_period_days = λ _. some 7;
  period_key = λ _ _. some 202610;
  pools = pool_env;
  local_date = λ _. (2026, 3, 1);
  mines = 5 ∷ [];
}

abbrev earned : Mission
earned = record (mission_at verified) { verified_at = some (week + 5) }

abbrev owner_wallet : Tables.Wallet
owner_wallet = owner 21

abbrev earnings : Tables.Transaction
earnings = record {
  wallet = owner_wallet;
  mission_id = some 2;
  community_pool_id = none;
  amount = pos 5000;
  type = credit;
  fund = Tables.operational;
  description = Description.split_owner;
}

abbrev close_db : Db
close_db = record (db_at verified) {
  missions = (2, earned) ∷ [];
  tickets = [];
  wallets = owner_wallet ∷ [];
  transactions = earnings ∷ [];
}

closes : (owner_weekly_close close_env 5 (2 * week + 9) none close_db).0 ≡ ok 1
unfolding owner_weekly_close owner_lines find owner_period_bounds logestic.Ledger.Post.ledger_sum
    logestic.Prelude.Int.◌+ℤ◌ logestic.Prelude.Table.next_id
closes = refl

weekly_close_ok_example :
    let s' = (owner_weekly_close close_env 5 (2 * week + 9) none close_db).1 in
    (days : ℕ) × (close_env.owner_period_days 5 ≡ some days)
    × (let p = owner_period_bounds (2 * week + 9) days in
        (exists_batch 5 p.period_start owner_weekly close_db ≡ false)
        × (find 1 s'.batches ≡ some (new_batch 5 p owner_weekly none))
        × ((k : ℕ) (x : Line)
            → find k s'.lines ≡ some x
            → PaysOwner 5 p 1 close_db x ⊎ (find k close_db.lines ≡ some x))
        × (s'.missions ≡ close_db.missions)
        × (s'.transactions ≡ close_db.transactions))
weekly_close_ok_example = weekly_close_ok close_env 5 (2 * week + 9) none 1 close_db closes

bucket_closed_once_example :
    let s' = (owner_weekly_close close_env 5 (2 * week + 9) none close_db).1 in
    owner_weekly_close close_env 5 (2 * week + 70) (some 3) s'
    ≡ (refused Reason.batch_exists_for_period, s')
unfolding owner_period_bounds
bucket_closed_once_example =
    bucket_closed_once close_env 5 (2 * week + 9) none 1 close_db closes 7 (2 * week + 70) (some 3)
      refl refl

weekly_close_complete_example :
    (n : ℕ) × (find n (owner_weekly_close close_env 5 (2 * week + 9) none close_db).1.lines
      ≡ some (mission_line 1 2 earned (owner_credit_for_mission 2 close_db)))
unfolding find is_mission_due owner_credit_for_mission owner_period_bounds
    logestic.Ledger.Post.ledger_sum logestic.Prelude.Int.◌+ℤ◌
weekly_close_complete_example =
    weekly_close_complete close_env 5 (2 * week + 9) none 1 7 close_db closes refl 2 earned refl
      refl refl refl

nothing_twice : WeeklyOnce close_db.batches close_db.lines
unfolding find
nothing_twice = record { known = λ k l h. absurd (cc); once = λ k k' i l l' h. absurd (cc) }

cycle_once_example :
    let s' = (run_daily_settlement_cycle close_env (2 * week + 9) [] close_db).1 in
    WeeklyOnce s'.batches s'.lines
cycle_once_example = cycle_once close_env (2 * week + 9) [] close_db nothing_twice

abbrev approved_log : HourlyLog
approved_log = record {
  mission_id = none;
  mine_id = 5;
  fleet_owner_id = 21;
  vehicle_id = none;
  household_id = none;
  started_at = some 1;
  ended_at = some 2;
  raw_hours = some (pos 8000000);
  billable_hours = some (pos 8000000);
  hourly_rate_snapshot = some 100;
  status = HourlyStatus.approved;
  consultant_user_id = some 9;
  consultant_verified_at = some (week + 5);
  rejected_by_user_id = none;
}

hourly_never_settled_example :
    hourly_lines weekly 5
      (owner_period_bounds (2 * week + 9) 7)
      1
      (record close_db {
        hourly_logs = (4, approved_log) ∷ [];
        transactions = record earnings { description = Description.hourly_owner 4 } ∷ [];
      })
      ((4, approved_log) ∷ [])
    ≡ []
hourly_never_settled_example =
    hourly_never_settled weekly 5 (owner_period_bounds (2 * week + 9) 7) 1
      (record close_db {
        hourly_logs = (4, approved_log) ∷ [];
        transactions = record earnings { description = Description.hourly_owner 4 } ∷ [];
      })
      ((4, approved_log) ∷ [])

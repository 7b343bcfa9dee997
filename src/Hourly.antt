-- ===== src/Hourly.antt =====
-- The life of an hourly work log: stores/hourlyWorkLogStore.ts over
-- repositories/hourlyWorkLogsRepository.ts, and creditHourlyShares of stores/financeStore.ts. Photos,
-- places and notes are left out.
pub mod Life
pub mod Once
pub mod Credits
pub mod Verified
use Prim.Native.String.{String}
use logestic.Prelude.{
  ℕ, ◌*◌, Bool, true, false, not, ◌&&◌, ◌||◌, Option, none, some, List, [], ◌∷◌, any, ◌==◌,
  if◌then◌else◌, is_some,
}
use logestic.Prelude.Int.{ℤ, pos, ◌-ℤ◌, leb_ℤ}
use logestic.Prelude.Rounding.{scale, round_div}
use logestic.Prelude.Table.{Table, find, update, insert, next_id}
use logestic.Reasons.{Reason, no_rate_card_error, rule_not_configured, record_not_found}
use logestic.Env.{Party}
use logestic.Store.{
  Action, ◌>>=◌, ◌>>◌, pure, refuse, gets, or_refuse, or_throw, refuse_if, modify, transaction,
}
use logestic.Store.Batches.{HourlyLog, HourlyStatus, started, ended, approved, rejected}
use logestic.Store.Batches
use logestic.Store.Tables.{Db, AuditField}
use logestic.Missions.{record_audit}
use logestic.Ledger.Policy.{OperationalSplit}
use logestic.Ledger.Split.{Policies, HourlySplitParams, apply_hourly_split_in_tx}

-- What the requests take from the rest of the backend. The rate of a mine, in ten-thousandths of a
-- rial for an hour, is `none` where no card is valid.
pub record HourlyEnv : Type 0 where
  pub now : ℕ
  pub find_fleet_owner : ℕ → Option Party
  pub find_household : ℕ → Option Party
  pub hourly_rate : ℕ → Option ℕ
  pub policies : Policies
  pub period_key : ℕ → Option ℕ → Option ℕ
  -- the user of the mine's active operator
  pub operator : ℕ → Option ℕ

abbrev pub status_ordinal_of : HourlyStatus → ℕ
status_ordinal_of started = 0
status_ordinal_of ended = 1
status_ordinal_of HourlyStatus.pending = 2
status_ordinal_of approved = 3
status_ordinal_of rejected = 4

abbrev pub hourly_status_eq : HourlyStatus → HourlyStatus → Bool
hourly_status_eq a b = status_ordinal_of a == status_ordinal_of b

abbrev of_mission_id : ℕ → Option ℕ → Bool
of_mission_id i none = false
of_mission_id i (some j) = j == i

abbrev pub is_active_log : ℕ → HourlyLog → Bool
is_active_log i l = of_mission_id i l.mission_id && hourly_status_eq l.status started

-- `findActiveLogForMission`, whether there is one
unfoldable pub has_active_log : ℕ → Db → Bool
has_active_log i s = any (λ (_, l). is_active_log i l) s.hourly_logs

pub record StartParams : Type 0 where
  pub mission_id : ℕ
  pub vehicle_id : ℕ
  pub household_id : ℕ

abbrev pub started_log : HourlyEnv → StartParams → ℕ → ℕ → HourlyLog
started_log env p mine owner = record {
  mission_id = some p.mission_id;
  mine_id = mine;
  fleet_owner_id = owner;
  vehicle_id = some p.vehicle_id;
  household_id = some p.household_id;
  started_at = some env.now;
  ended_at = none;
  raw_hours = none;
  billable_hours = none;
  hourly_rate_snapshot = none;
  status = started;
  consultant_user_id = none;
  consultant_verified_at = none;
  rejected_by_user_id = none;
}

unfoldable pub create_started_log : HourlyLog → Action HourlyLog
create_started_log l = modify (λ s. record s { hourly_logs = insert l s.hourly_logs }) >> pure l

unfoldable pub start : HourlyEnv → StartParams → Action HourlyLog
unfolding has_active_log create_started_log
start env p = do
  mission ← or_refuse (← gets (λ s. find p.mission_id s.missions)) Reason.mission_not_found
  refuse_if (not (mission.vehicle_id == p.vehicle_id)) Reason.vehicle_mismatch
  refuse_if (← gets (has_active_log p.mission_id)) Reason.active_log_exists
  or_refuse (env.find_household p.household_id) Reason.household_not_found
  create_started_log (started_log env p mission.mine_id mission.owner_id)

-- The hours between two times, rounded to millionths.
abbrev pub raw_hours_between : ℕ → ℕ → ℤ
raw_hours_between from to = round_div (scale 10 (pos to -ℤ pos from)) 36

abbrev pub end_row : ℕ → ℕ → HourlyLog → HourlyLog
end_row now from l = record l {
  ended_at = some now;
  raw_hours = some (raw_hours_between from now);
  status = ended;
}

unfoldable pub update_log : ℕ → (HourlyLog → HourlyLog) → Action HourlyLog
update_log i f = do
  l ← or_throw (← gets (λ s. find i s.hourly_logs)) record_not_found
  modify (λ s. record s { hourly_logs = update i f s.hourly_logs })
  pure (f l)

-- `endLog`; its null is the refusal of `end`.
unfoldable pub end : HourlyEnv → ℕ → Action HourlyLog
unfolding update_log
end env i = do
  l ← or_refuse (← gets (λ s. find i s.hourly_logs)) Reason.invalid_log_state
  refuse_if (not (hourly_status_eq l.status started)) Reason.invalid_log_state
  from ← or_refuse l.started_at Reason.invalid_log_state
  update_log i (end_row env.now from)

pub record VerifyParams : Type 0 where
  pub log_id : ℕ
  pub consultant_user_id : ℕ
  -- millionths
  pub billable_hours : ℤ

abbrev pub verify_row : HourlyEnv → VerifyParams → ℕ → HourlyLog → HourlyLog
verify_row env p rate l = record l {
  billable_hours = some p.billable_hours;
  hourly_rate_snapshot = some rate;
  consultant_user_id = some p.consultant_user_id;
  consultant_verified_at = some env.now;
  status = approved;
}

-- The fare of hours at a rate, in hundredths of a rial.
abbrev pub hourly_fare : ℤ → ℕ → ℤ
hourly_fare hours rate = round_div (scale rate hours) 100000000

abbrev pub hourly_split_params : VerifyParams → HourlyLog → ℕ → Party → Party → HourlySplitParams
hourly_split_params p l rate owner household = record {
  mission_id = l.mission_id;
  mine_id = l.mine_id;
  hourly_work_log_id = p.log_id;
  total_fare = hourly_fare p.billable_hours rate;
  owner_id = l.fleet_owner_id;
  owner_active = owner.approved;
  cooperative_id = household.cooperative_id;
}

-- `creditHourlyShares` without a rate of the caller: it looks for the card again.
unfoldable pub credit_hourly_shares :
    HourlyEnv → VerifyParams → HourlyLog → Party → Party → Action OperationalSplit
credit_hourly_shares env p l owner household = do
  rate ← or_throw (env.hourly_rate l.mine_id) no_rate_card_error
  or_throw (env.period_key l.mine_id household.cooperative_id) rule_not_configured
  apply_hourly_split_in_tx env.policies (hourly_split_params p l rate owner household)

unfoldable pub verify_in_tx :
    HourlyEnv → VerifyParams → HourlyLog → ℕ → Party → Party → Action (HourlyLog × OperationalSplit)
unfolding update_log credit_hourly_shares
verify_in_tx env p l rate owner household = do
  verified ← update_log p.log_id (verify_row env p rate)
  split ← credit_hourly_shares env p l owner household
  pure (verified, split)

-- A row of an id that may be null or 0.
abbrev pub find_optional : (ℕ → Option Party) → Option ℕ → Option Party
find_optional look none = none
find_optional look (some i) = if i == 0 then none else look i

-- A log that is not there is refused like one that is not ENDED.
unfoldable pub verify : HourlyEnv → VerifyParams → Action (HourlyLog × OperationalSplit)
unfolding verify_in_tx
verify env p = do
  l ← or_refuse (← gets (λ s. find p.log_id s.hourly_logs)) Reason.invalid_log
  refuse_if (not (hourly_status_eq l.status ended)) Reason.invalid_log
  raw ← or_refuse l.raw_hours Reason.missing_raw_hours
  refuse_if (not (leb_ℤ p.billable_hours raw)) Reason.billable_exceeds_raw
  rate ← or_refuse (env.hourly_rate l.mine_id) Reason.no_valid_rate_card
  owner ← or_refuse (env.find_fleet_owner l.fleet_owner_id) Reason.missing_entities
  household ← or_refuse (find_optional env.find_household l.household_id) Reason.missing_entities
  transaction (verify_in_tx env p l rate owner household)

abbrev pub reject_row : ℕ → HourlyLog → HourlyLog
reject_row user l = record l { status = rejected; rejected_by_user_id = some user }

abbrev hours_field : Option ℤ → AuditField
hours_field none = AuditField.null
hours_field (some h) = AuditField.number h

abbrev user_field : Option ℕ → AuditField
user_field none = AuditField.null
user_field (some u) = AuditField.user u

unfoldable pub reject_in_tx : HourlyEnv → ℕ → ℕ → String → HourlyLog → Action HourlyLog
unfolding update_log
reject_in_tx env i user reason l = do
  r ← update_log i (reject_row user)
  record_audit (record {
    entity_type = "hourly_work_log";
    entity_id = i;
    action = "hourly_rejected";
    before_value = [];
    after_value =
        ("reason", AuditField.text reason)
        ∷ ("hours", hours_field l.raw_hours)
        ∷ ("operator_id", user_field (env.operator l.mine_id))
        ∷ [];
    performed_by_user_id = user;
    reason = reason;
  })
  pure r

unfoldable pub reject : HourlyEnv → ℕ → ℕ → String → Action HourlyLog
unfolding reject_in_tx
reject env i user reason = do
  l ← or_refuse (← gets (λ s. find i s.hourly_logs)) Reason.invalid_log
  refuse_if (hourly_status_eq l.status approved || hourly_status_eq l.status rejected)
      Reason.already_finalized
  refuse_if
      (not (hourly_status_eq l.status ended || hourly_status_eq l.status HourlyStatus.pending))
      Reason.invalid_log_state
  transaction (reject_in_tx env i user reason l)

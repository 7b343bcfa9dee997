-- ===== src/Tests/Data.antt =====
-- A small database: one mine with a load of 20 tons, a delivered mission with a weighed ticket, an
-- open pool, and the configuration that a request meets.
use logestic.Prelude.{true, false, none, some, [], ◌∷◌}
use logestic.Prelude.Int.{pos}
use logestic.Fsm.{MissionStatus}
use logestic.Store.Tables.{Db, Load, Mission, Ticket, TicketStatus, PaymentState, Pool, PoolStatus}
use logestic.Ledger.Policy.{FinancePolicy, fixed_rial_per_unit}
use logestic.Env.{Env, Party, Fare, Fence}
use logestic.Pool.{PoolEnv}

abbrev pub load : Load
load = record {
  mine_id = 5;
  household_id = 31;
  material_type = "iron";
  quantity_tons = some (pos 2000);
}

abbrev pub mission_at : MissionStatus → Mission
mission_at status = record {
  load_id = 1;
  mine_id = 5;
  owner_id = 21;
  driver_id = 11;
  vehicle_id = 41;
  status = status;
  payment_state = PaymentState.pending;
  rate_card_id = none;
  rate_per_ton_snapshot = none;
  completed_at = none;
  verified_at = none;
  verified_net_tons_kg = none;
  community_contribution_rial = none;
  community_rate_rial_per_ton = none;
}

-- Empty 10 000 kg, loaded 30 000 kg.
abbrev pub ticket : Ticket
ticket = record {
  mission_id = 2;
  ticket_number = (2, 77);
  status = TicketStatus.loaded_registered;
  empty_weight = pos 1000000;
  loaded_weight = pos 3000000;
  net_weight = pos 2000000;
  entry_source = none;
  entry_note = none;
  reason_code = none;
  requires_supervisor_approve = false;
  approved_by_user_id = none;
}

abbrev pub pool : Pool
pool = record {
  mine_id = some 5;
  period_key = 202610;
  total_amount = pos 100050;
  status = PoolStatus.opened;
  households_snapshot = [];
  distributed_at = none;
}

abbrev pub db_at : MissionStatus → Db
db_at status = record {
  loads = (1, load) ∷ [];
  missions = (2, mission_at status) ∷ [];
  tickets = (3, ticket) ∷ [];
  adjustments = [];
  agent_ingests = [];
  wallets = [];
  transactions = [];
  pools = (4, pool) ∷ [];
  audits = [];
  events = [];
  batches = [];
  lines = [];
  batch_approvals = [];
  payouts = [];
  approval_tasks = [];
  statements = [];
  statement_lines = [];
  statement_approvals = [];
  hourly_logs = [];
  bank_requests = [];
}

abbrev pub party : Party
party = record { cooperative_id = some 1; approved = true }

-- A fee of 1 percent, and 500 rials for each ton.
abbrev pub policy : FinancePolicy
policy = record {
  platform_fee_value = 10000;
  community_contribution_mode = fixed_rial_per_unit;
  community_contribution_value = 50000;
}

-- 20 tons at 150 000 rials.
abbrev pub fare : Fare
fare = record { total_fare = pos 300000000; rate = pos 15000000; rate_card_id = some 9 }

abbrev pub fence : Fence
fence = record { lat = pos 0; lng = pos 0; radius_m = 500000 }

abbrev pub env : Env
env = record {
  now = 1000000;
  find_fleet_owner = λ _. some party;
  find_household = λ _. some party;
  compute_fare = λ _ _ _ _. some fare;
  policies = λ _ _. some policy;
  period_key = λ _ _. some 202610;
  reverse_window = λ _. some 3600000;
  anomaly_threshold = λ _. some 50000;
  is_dev_auth_enabled = false;
  geofence = λ _ _. some fence;
  haversine_distance = λ _ _ _ _. 100;
}

abbrev pub pool_env : PoolEnv
pool_env = record {
  approved_households = λ _. 31 ∷ 32 ∷ 33 ∷ [];
  remainder_to_cooperative = λ _. false;
  at = 2000000;
}

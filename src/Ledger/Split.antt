-- ===== src/Ledger/Split.antt =====
-- financeLedgerRepository.ts: the split of a verified mission's fare, the delta of an adjustment,
-- and the split of an hourly fare, each inside the caller's transaction; with the pools of
-- communityPoolsRepository.ts that they add to. What the finance configuration says at the time
-- of the request is an argument, `policy`.
pub mod Entries
pub mod Pools
pub mod Effect
pub mod Conserves
pub mod Delta
use logestic.Prelude.{
  ℕ, Bool, true, false, not, Option, none, some, List, [], ◌∷◌, ◌&&◌, ◌||◌, ◌==◌, if◌then◌else◌,
}
use logestic.Prelude.Int.{ℤ, pos, ◌+ℤ◌, ◌==ℤ◌, leb_ℤ}
use logestic.Prelude.Table.{Table, find, update, next_id, insert}
use logestic.Reasons.{
  Fault, community_requires_verified_weight_error, mine_config_incomplete, record_not_found,
}
use logestic.Store.{
  Action, ◌>>=◌, ◌>>◌, pure, throw, gets, or_throw, modify, Outcome, ok, refused, throws,
}
use logestic.Store.Tables
use logestic.Store.Tables.{
  Db, Mission, Pool, opened, Wallet, owner, platform, TransactionType, credit, debit, FundTag,
  operational, platform_revenue, Description, split_owner, split_platform, adjustment_owner,
  adjustment_platform, hourly_owner, hourly_platform,
}
use logestic.Ledger.Policy.{
  FinancePolicy, CommunityContributionMode, fixed_rial_per_unit, percentage_of_operational,
  OperationalSplit, split_operational_with_policy, compute_community_contribution_with_policy,
}
use logestic.Ledger.Post.{find_or_create_wallet, create_transaction}

-- `resolveFinancePolicy` of a mine and a cooperative; `none` is its MineConfigIncompleteError.
abbrev pub Policies : Type 0
Policies = ℕ → Option ℕ → Option FinancePolicy

-- `findUnique` by the key of a mine and a period.
unfoldable pub find_pool_by_mine_period : ℕ → ℕ → Table Pool → Option ℕ
find_pool_by_mine_period mine period [] = none
find_pool_by_mine_period mine period ((i, p) ∷ t) =
    if elim p.mine_id [ none ↦ false | some m ↦ m == mine ] && p.period_key == period
    then some i
    else find_pool_by_mine_period mine period t

abbrev new_pool : ℕ → ℕ → Pool
new_pool mine period = record {
  mine_id = some mine;
  period_key = period;
  total_amount = pos 0;
  status = opened;
  households_snapshot = [];
  distributed_at = none;
}

-- The id of the pool, whatever its status; a new one is open.
unfoldable pub get_or_create_open_pool : ℕ → ℕ → Action ℕ
get_or_create_open_pool mine period s = elim (find_pool_by_mine_period mine period s.pools) [
  | some i ↦ (ok i, s)
  | none ↦ (ok (next_id s.pools), record s { pools = insert (new_pool mine period) s.pools })
]

abbrev add_total : ℤ → Pool → Pool
add_total delta p = record p { total_amount = p.total_amount +ℤ delta }

unfoldable pub add_to_pool_total : ℕ → ℤ → Action (Unit {0})
add_to_pool_total i delta = do
  or_throw (← gets (λ s. find i s.pools)) record_not_found
  modify (λ s. record s { pools = update i (add_total delta) s.pools })

-- The two steps, taken only where the household is active and the amount is not 0.
unfoldable pub contribute : Bool → ℕ → ℕ → ℤ → Action (Unit {0})
unfolding get_or_create_open_pool add_to_pool_total
contribute household_active mine period amount =
    if household_active && not (amount ==ℤ pos 0)
    then (get_or_create_open_pool mine period >>= λ i. add_to_pool_total i amount)
    else pure tt

-- A transaction of a wallet for a mission, posted only where the amount is not 0. The wallet of
-- an owner is made then; that of the platform is there already.
abbrev entry : Wallet → Option ℕ → ℤ → TransactionType → FundTag → Description → Tables.Transaction
entry w mission amount type fund description = record {
  wallet = w;
  mission_id = mission;
  community_pool_id = none;
  amount = amount;
  type = type;
  fund = fund;
  description = description;
}

unfoldable pub post_owner : Bool → ℕ → Option ℕ → ℤ → TransactionType → Description → Db → Db
post_owner owner_active o mission amount type description s =
    if owner_active && not (amount ==ℤ pos 0)
    then create_transaction (entry (owner o) mission amount type operational description)
        (find_or_create_wallet (owner o) s)
    else s

unfoldable pub post_platform : Option ℕ → ℤ → TransactionType → Description → Db → Db
post_platform mission amount type description s =
    if amount ==ℤ pos 0
    then s
    else create_transaction (entry platform mission amount type platform_revenue description) s

pub record SplitParams : Type 0 where
  pub mission_id : ℕ
  pub mine_id : ℕ
  pub period_key : ℕ
  pub total_fare : ℤ
  pub verified_net_tons_kg : Option ℤ
  pub owner_id : ℕ
  pub owner_active : Bool
  pub household_active : Bool
  pub cooperative_id : Option ℕ

pub record MissionSplitResult : Type 0 where
  pub split : OperationalSplit
  pub community_amount : ℤ
  pub verified_net_tons_kg : ℤ
  pub community_rate_rial_per_ton : ℤ

abbrev verified_weight : Option ℤ → Action ℤ
verified_weight none = throw community_requires_verified_weight_error
verified_weight (some kg) =
    if leb_ℤ kg (pos 0) then throw community_requires_verified_weight_error else pure kg

abbrev pub community_rate : CommunityContributionMode → ℕ → ℤ
community_rate fixed_rial_per_unit value = pos value
community_rate percentage_of_operational value = pos 0

abbrev pub record_contribution : ℤ → ℤ → ℤ → Mission → Mission
record_contribution kg amount rate m = record m {
  verified_net_tons_kg = some kg;
  community_contribution_rial = some amount;
  community_rate_rial_per_ton = some rate;
}

unfoldable pub update_mission_row : ℕ → (Mission → Mission) → Action (Unit {0})
update_mission_row i f = do
  or_throw (← gets (λ s. find i s.missions)) record_not_found
  modify (λ s. record s { missions = update i f s.missions })

unfoldable pub apply_mission_split_in_tx : Policies → SplitParams → Action MissionSplitResult
apply_mission_split_in_tx policies p = do
  kg ← verified_weight p.verified_net_tons_kg
  policy ← or_throw (policies p.mine_id p.cooperative_id) mine_config_incomplete
  let split = split_operational_with_policy p.total_fare policy
  let rate = community_rate policy.community_contribution_mode policy.community_contribution_value
  let amount = compute_community_contribution_with_policy kg policy (some p.total_fare)
  modify (find_or_create_wallet platform)
  modify (
      post_owner p.owner_active p.owner_id (some p.mission_id) split.owner_amount credit
        split_owner)
  modify (post_platform (some p.mission_id) split.platform_amount credit split_platform)
  contribute p.household_active p.mine_id p.period_key amount
  update_mission_row p.mission_id (record_contribution kg amount rate)
  pure (record {
    split = split;
    community_amount = amount;
    verified_net_tons_kg = kg;
    community_rate_rial_per_ton = rate;
  })

-- `typeFor`
abbrev type_for : ℤ → TransactionType
type_for amount = if leb_ℤ (pos 0) amount then credit else debit

pub record DeltaParams : Type 0 where
  pub mission_id : ℕ
  pub mine_id : ℕ
  pub period_key : ℕ
  pub delta_total_fare : ℤ
  pub delta_verified_net_kg : ℤ
  pub owner_id : ℕ
  pub owner_active : Bool
  pub household_active : Bool
  pub cooperative_id : Option ℕ

abbrev no_split : OperationalSplit
no_split = record { total_fare = pos 0; owner_amount = pos 0; platform_amount = pos 0 }

-- The policy is read only where a part of the delta is not 0.
unfoldable pub split_delta : Policies → DeltaParams → Action OperationalSplit
split_delta policies p =
    if p.delta_total_fare ==ℤ pos 0
    then pure no_split
    else (or_throw (policies p.mine_id p.cooperative_id) mine_config_incomplete >>= λ policy.
        pure (split_operational_with_policy p.delta_total_fare policy))

unfoldable pub community_delta : Policies → DeltaParams → Action ℤ
community_delta policies p =
    if p.delta_verified_net_kg ==ℤ pos 0
    then pure (pos 0)
    else (or_throw (policies p.mine_id p.cooperative_id) mine_config_incomplete >>= λ policy. pure (
        compute_community_contribution_with_policy p.delta_verified_net_kg policy
          (some p.delta_total_fare)))

abbrev post_delta : DeltaParams → OperationalSplit → ℤ → Action (Unit {0})
post_delta p split amount = do
  modify (find_or_create_wallet platform)
  modify (
      post_owner p.owner_active p.owner_id (some p.mission_id) split.owner_amount
        (type_for split.owner_amount) adjustment_owner)
  modify (
      post_platform (some p.mission_id) split.platform_amount (type_for split.platform_amount)
        adjustment_platform)
  contribute p.household_active p.mine_id p.period_key amount

-- The deltas of the owner and the platform, and of the community.
unfoldable pub apply_fare_delta_in_tx : Policies → DeltaParams → Action (OperationalSplit × ℤ)
unfolding split_delta community_delta
apply_fare_delta_in_tx policies p = do
  split ← split_delta policies p
  amount ← community_delta policies p
  if p.delta_total_fare ==ℤ pos 0 && amount ==ℤ pos 0
      then pure (no_split, pos 0)
      else (post_delta p split amount >> pure (split, amount))

pub record HourlySplitParams : Type 0 where
  pub mission_id : Option ℕ
  pub mine_id : ℕ
  pub hourly_work_log_id : ℕ
  pub total_fare : ℤ
  pub owner_id : ℕ
  pub owner_active : Bool
  pub cooperative_id : Option ℕ

-- `splitOperational` of a mine.
unfoldable pub split_operational : Policies → ℕ → Option ℕ → ℤ → Action OperationalSplit
split_operational policies mine cooperative total_fare = do
  policy ← or_throw (policies mine cooperative) mine_config_incomplete
  pure (split_operational_with_policy total_fare policy)

unfoldable pub apply_hourly_split_in_tx : Policies → HourlySplitParams → Action OperationalSplit
unfolding split_operational
apply_hourly_split_in_tx policies p = do
  split ← split_operational policies p.mine_id p.cooperative_id p.total_fare
  modify (find_or_create_wallet platform)
  modify (
      post_owner p.owner_active p.owner_id p.mission_id split.owner_amount credit
        (hourly_owner p.hourly_work_log_id))
  modify (
      post_platform p.mission_id split.platform_amount credit
        (hourly_platform p.hourly_work_log_id))
  pure split

-- ===== src/Ledger/Split/Conserves.antt =====
-- What a mission split moves: the mission's ledger grows by the fare, and the pool of its mine and
-- period by the community's contribution.
use logestic.Prelude.{ℕ, Bool, true, false, some, ◌≡◌, ap, ◌≤◌, ◌*◌, if◌then◌else◌}
use logestic.Prelude.Int.{ℤ, pos, pos_part, neg_part, ◌+ℤ◌, ◌≤ℤ◌, int_laws}
use logestic.Prelude.Table.{find, find-update_self}
use logestic.Store.Tables.{Db, Mission}
use logestic.Ledger.Policy.{FinancePolicy, split_operational_with_policy}
use logestic.Ledger.Policy.Bounds.{split-add, split-nonneg}
use logestic.Ledger.Post.{ledger_sum, of_mission}
use logestic.Ledger.Post.Sums.{credit_of_nonneg, transactions-find_or_create}
use logestic.Ledger.Split.{SplitParams, MissionSplitResult, record_contribution}
use logestic.Ledger.Split.Entries.{mission-post_owner, mission-post_platform}
use logestic.Ledger.Split.Pools.{pool_total, pool_total-pools_after}
use logestic.Ledger.Split.Effect.{posted, split_result, after_split}

-- The sum of a mission's transactions after the postings of a split with no negative share.
mission_sum-posted :
    (p : SplitParams) (policy : FinancePolicy) (s : Db)
    → let r = split_operational_with_policy p.total_fare policy in
      pos 0 ≤ℤ r.owner_amount
      → pos 0 ≤ℤ r.platform_amount
      → ledger_sum (of_mission p.mission_id) (posted p r s).transactions
        ≡ (if p.owner_active then p.total_fare else r.platform_amount)
          +ℤ ledger_sum (of_mission p.mission_id) s.transactions
mission_sum-posted p policy s ow pl = rw (mission-post_platform _ _ _ (credit_of_nonneg _ pl)) (
    rw (mission-post_owner _ _ _ (credit_of_nonneg _ ow))
      (rw transactions-find_or_create (regroup p.owner_active)))
  where
    regroup :
        (b : Bool)
        → let r = split_operational_with_policy p.total_fare policy in
          let before = ledger_sum (of_mission p.mission_id) s.transactions in
          r.platform_amount +ℤ ((if b then r.owner_amount else pos 0) +ℤ before)
          ≡ (if b then p.total_fare else r.platform_amount) +ℤ before
    regroup true =
        let e = split-add p.total_fare policy in omega (int_laws, ap pos_part e, ap neg_part e)
    regroup false = omega int_laws

-- What the database after a split holds, against the one before.
pub record Credited (p : SplitParams) (r : MissionSplitResult) (s s' : Db) (m : Mission)
    : Type 0 where
  pub ledger :
      ledger_sum (of_mission p.mission_id) s'.transactions
      ≡ (if p.owner_active then p.total_fare else r.split.platform_amount)
        +ℤ ledger_sum (of_mission p.mission_id) s.transactions
  pub pool :
      pool_total p.mine_id p.period_key s'.pools
      ≡ pool_total p.mine_id p.period_key s.pools
        +ℤ (if p.household_active then r.community_amount else pos 0)
  pub row :
      find p.mission_id s'.missions
      ≡ some (
          record_contribution r.verified_net_tons_kg r.community_amount
            r.community_rate_rial_per_ton m)

pub after_split-Credited :
    (p : SplitParams) (s : Db) (kg : ℤ) (policy : FinancePolicy) (m : Mission) (rials : ℕ)
    → policy.platform_fee_value ≤ 1000000
    → p.total_fare ≡ pos (100 * rials)
    → find p.mission_id s.missions ≡ some m
    → let r = split_result p policy kg in Credited p r s (after_split p r s) m
after_split-Credited p s kg policy m rials fee whole row =
    let r = split_result p policy kg in
    let (ow, pl) : (pos 0 ≤ℤ r.split.owner_amount) × (pos 0 ≤ℤ r.split.platform_amount) =
      rw whole (split-nonneg rials policy fee) in
    record {
      ledger = mission_sum-posted p policy s ow pl;
      pool =
          pool_total-pools_after p.household_active p.mine_id p.period_key r.community_amount
            s.pools;
      row = find-update_self p.mission_id _ s.missions row;
    }

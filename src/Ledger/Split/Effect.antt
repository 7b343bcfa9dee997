-- ===== src/Ledger/Split/Effect.antt =====
-- The effect of a mission split: what it writes where it goes through, and that it writes nothing
-- where it throws for the weight or the configuration.
use logestic.Prelude.{ℕ, Bool, false, Option, some, ◌≡◌, arith, ◌≢◌, Option-cases, inl, inr}
use logestic.Prelude.Int.{ℤ, pos, leb_ℤ, ◌≤ℤ◌}
use logestic.Prelude.Table.{find, update}
use logestic.Reasons.{Reason}
use logestic.Store.{ok, refused}
use logestic.Store.Tables.{
  Db, Mission, TransactionType, Description, Wallet, platform, credit, split_owner, split_platform,
}
use logestic.Ledger.Policy.{
  FinancePolicy, OperationalSplit, split_operational_with_policy,
  compute_community_contribution_with_policy,
}
use logestic.Ledger.Post.{find_or_create_wallet, create_transaction}
use logestic.Ledger.Split.{
  Policies, SplitParams, MissionSplitResult, apply_mission_split_in_tx, post_owner, post_platform,
  update_mission_row, record_contribution, community_rate,
}
use logestic.Ledger.Split.Pools.{pools_after, contribute_lem}

-- A posting writes the wallets and the transactions only.
pub missions-post_owner :
    (a : Bool) (o : ℕ) (m : Option ℕ) (x : ℤ) (t : TransactionType) (d : Description) (s : Db)
    → (post_owner a o m x t d s).missions ≡ s.missions
unfolding post_owner find_or_create_wallet create_transaction
missions-post_owner a o m x t d s = ground arith

pub pools-post_owner :
    (a : Bool) (o : ℕ) (m : Option ℕ) (x : ℤ) (t : TransactionType) (d : Description) (s : Db)
    → (post_owner a o m x t d s).pools ≡ s.pools
unfolding post_owner find_or_create_wallet create_transaction
pools-post_owner a o m x t d s = ground arith

pub missions-post_platform :
    (m : Option ℕ) (x : ℤ) (t : TransactionType) (d : Description) (s : Db)
    → (post_platform m x t d s).missions ≡ s.missions
unfolding post_platform create_transaction
missions-post_platform m x t d s = ground arith

pub pools-post_platform :
    (m : Option ℕ) (x : ℤ) (t : TransactionType) (d : Description) (s : Db)
    → (post_platform m x t d s).pools ≡ s.pools
unfolding post_platform create_transaction
pools-post_platform m x t d s = ground arith

pub missions-find_or_create :
    (w : Wallet) (s : Db) → (find_or_create_wallet w s).missions ≡ s.missions
unfolding find_or_create_wallet
missions-find_or_create w s = ground arith

pub pools-find_or_create : (w : Wallet) (s : Db) → (find_or_create_wallet w s).pools ≡ s.pools
unfolding find_or_create_wallet
pools-find_or_create w s = ground arith

not_leb : (kg : ℤ) → pos 1 ≤ℤ kg → leb_ℤ kg (pos 0) ≡ false
not_leb kg h = ground arith

-- The result of a split, and the database after its postings.
abbrev pub split_result : SplitParams → FinancePolicy → ℤ → MissionSplitResult
split_result p policy kg = record {
  split = split_operational_with_policy p.total_fare policy;
  community_amount = compute_community_contribution_with_policy kg policy (some p.total_fare);
  verified_net_tons_kg = kg;
  community_rate_rial_per_ton =
      community_rate policy.community_contribution_mode policy.community_contribution_value;
}

abbrev pub posted : SplitParams → OperationalSplit → Db → Db
posted p split s = post_platform (some p.mission_id) split.platform_amount credit split_platform (
    post_owner p.owner_active p.owner_id (some p.mission_id) split.owner_amount credit split_owner
      (find_or_create_wallet platform s))

abbrev pub after_split : SplitParams → MissionSplitResult → Db → Db
after_split p r s = record (posted p r.split s) {
  pools = pools_after p.household_active p.mine_id p.period_key r.community_amount s.pools;
  missions =
      update p.mission_id
        (record_contribution r.verified_net_tons_kg r.community_amount
          r.community_rate_rial_per_ton)
        s.missions;
}

posted-missions :
    (p : SplitParams) (r : OperationalSplit) (s : Db) → (posted p r s).missions ≡ s.missions
posted-missions p r s = rw (missions-post_platform, missions-post_owner, missions-find_or_create)

posted-pools : (p : SplitParams) (r : OperationalSplit) (s : Db) → (posted p r s).pools ≡ s.pools
posted-pools p r s = rw (pools-post_platform, pools-post_owner, pools-find_or_create)

-- A split writes no ticket.
pub tickets-after_split :
    (p : SplitParams) (r : MissionSplitResult) (s : Db) → (after_split p r s).tickets ≡ s.tickets
unfolding post_owner post_platform find_or_create_wallet create_transaction
tickets-after_split p r s = ground arith

module _ (policies : Policies) (p : SplitParams) (s : Db) where
  -- With a positive weight, a policy and the mission's row, the split goes through.
  pub apply_mission_split-ok :
      (kg : ℤ) (policy : FinancePolicy) (m : Mission)
      → p.verified_net_tons_kg ≡ some kg
      → pos 1 ≤ℤ kg
      → policies p.mine_id p.cooperative_id ≡ some policy
      → find p.mission_id s.missions ≡ some m
      → apply_mission_split_in_tx policies p s
        ≡ (ok (split_result p policy kg), after_split p (split_result p policy kg) s)
  unfolding apply_mission_split_in_tx update_mission_row
  apply_mission_split-ok kg policy m weighed positive configured row =
      let r = split_result p policy kg in
      ground (
        arith,
        contribute_lem p.household_active p.mine_id p.period_key r.community_amount
            (posted p r.split s),
        posted-missions p r.split s,
        posted-pools p r.split s,
      )

-- A split never refuses: it goes through or throws.
pub apply_mission_split-ne-refused :
    (policies : Policies) (p : SplitParams) (s : Db) (e : Reason)
    → (apply_mission_split_in_tx policies p s).0 ≢ refused e
unfolding apply_mission_split_in_tx update_mission_row
apply_mission_split-ne-refused policies p s e h = elim (Option-cases p.verified_net_tons_kg) [
  | inl unweighed ↦ ground arith
  | inr (kg, weighed) ↦ elim (Option-cases (policies p.mine_id p.cooperative_id)) [
    | inl unconfigured ↦ ground arith
    | inr (policy, configured) ↦
        let r = split_result p policy kg in
        ground (
          arith,
          contribute_lem p.household_active p.mine_id p.period_key r.community_amount
              (posted p r.split s),
        )
  ]
]

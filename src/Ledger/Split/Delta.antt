-- ===== src/Ledger/Split/Delta.antt =====
-- What a fare delta moves, up or down.
use logestic.Prelude.{
  Bool, true, false, some, ◌≡◌, refl, sym, ap, ◌∙◌, if◌then◌else◌, arith, Bool-cases, inl, inr,
  ◌&&◌,
}
use logestic.Prelude.Int.{
  ℤ, pos, pos_part, neg_part, ◌+ℤ◌, ◌==ℤ◌, abs, int_laws, zero_parts, zero-+ℤ, add_of_zero, neg,
}
use logestic.Store.{ok}
use logestic.Store.Tables.{Db, adjustment_owner, adjustment_platform, platform}
use logestic.Ledger.Policy.{
  FinancePolicy, OperationalSplit, split_operational_with_policy,
  compute_community_contribution_with_policy,
}
use logestic.Ledger.Policy.Bounds.{split-add}
use logestic.Ledger.Post.{ledger_sum, of_mission, find_or_create_wallet, transaction_balance_delta}
use logestic.Ledger.Post.Sums.{transactions-find_or_create}
use logestic.Ledger.Split.{
  Policies, DeltaParams, apply_fare_delta_in_tx, split_delta, community_delta, type_for, no_split,
  post_owner, post_platform, post_delta,
}
use logestic.Ledger.Split.Entries.{mission-post_owner, mission-post_platform}
use logestic.Ledger.Split.Pools.{pool_total, pool_total-pools_after, contribute_lem, pools_after}
use logestic.Ledger.Split.Effect.{pools-post_owner, pools-post_platform, pools-find_or_create}

-- A transaction of the type for its sign carries its amount.
signed_type_for : (a : ℤ) → transaction_balance_delta (type_for a) (abs a) ≡ a
unfolding neg
signed_type_for a = ground arith

-- The database after the postings of a delta.
abbrev posted : DeltaParams → OperationalSplit → Db → Db
posted p r s =
    post_platform (some p.mission_id) r.platform_amount (type_for r.platform_amount)
      adjustment_platform
      (post_owner p.owner_active p.owner_id (some p.mission_id) r.owner_amount
        (type_for r.owner_amount) adjustment_owner (find_or_create_wallet platform s))

posted-pools : (p : DeltaParams) (r : OperationalSplit) (s : Db) → (posted p r s).pools ≡ s.pools
posted-pools p r s = rw (pools-post_platform, pools-post_owner, pools-find_or_create)

post_delta_lem :
    (p : DeltaParams) (r : OperationalSplit) (amount : ℤ) (s : Db)
    → post_delta p r amount s ≡ (
      ok tt,
      record (posted p r s) {
        pools = pools_after p.household_active p.mine_id p.period_key amount s.pools;
      },
    )
post_delta_lem p r amount s = ground (
  arith,
  contribute_lem p.household_active p.mine_id p.period_key amount (posted p r s),
  posted-pools p r s,
)

-- The sum of a mission's transactions after the postings.
mission_sum-posted :
    (p : DeltaParams) (r : OperationalSplit) (s : Db)
    → ledger_sum (of_mission p.mission_id) (posted p r s).transactions
      ≡ r.platform_amount
        +ℤ ((if p.owner_active then r.owner_amount else pos 0)
            +ℤ ledger_sum (of_mission p.mission_id) s.transactions)
mission_sum-posted p r s =
    rw (mission-post_platform _ _ _ (signed_type_for _))
      (rw (mission-post_owner _ _ _ (signed_type_for _)) (rw transactions-find_or_create))

-- The two parts of a delta: the split of the fare's, and the community's.
abbrev pub fare_part : DeltaParams → FinancePolicy → OperationalSplit
fare_part p policy =
    if p.delta_total_fare ==ℤ pos 0
    then no_split
    else split_operational_with_policy p.delta_total_fare policy

abbrev pub community_part : DeltaParams → FinancePolicy → ℤ
community_part p policy =
    if p.delta_verified_net_kg ==ℤ pos 0
    then pos 0
    else compute_community_contribution_with_policy p.delta_verified_net_kg policy
        (some p.delta_total_fare)

fare_part-add :
    (p : DeltaParams) (policy : FinancePolicy)
    → (fare_part p policy).owner_amount +ℤ (fare_part p policy).platform_amount ≡ p.delta_total_fare
fare_part-add p policy = elim (Bool-cases (p.delta_total_fare ==ℤ pos 0)) [
  | inl zero_fare ↦ rw zero_fare (omega (int_laws, zero_parts p.delta_total_fare zero_fare))
  | inr moved ↦ rw moved (split-add p.delta_total_fare policy)
]

regroup :
    (b : Bool) (owner_part platform_part total before : ℤ)
    → owner_part +ℤ platform_part ≡ total
    → platform_part +ℤ ((if b then owner_part else pos 0) +ℤ before)
      ≡ (if b then total else platform_part) +ℤ before
regroup true o p t b e = omega (int_laws, ap pos_part e, ap neg_part e)
regroup false o p t b e = omega int_laws

and_true : (a b : Bool) → (a && b) ≡ true → (a ≡ true) × (b ≡ true)
and_true a b h = ground arith

no_share :
    (p : DeltaParams) (policy : FinancePolicy) (b : Bool) (x : ℤ)
    → (p.delta_total_fare ==ℤ pos 0) ≡ true
    → x ≡ (if b then p.delta_total_fare else (fare_part p policy).platform_amount) +ℤ x
no_share p policy true x h = add_of_zero p.delta_total_fare x h
no_share p policy false x h = rw h (sym (zero-+ℤ x))

no_contribution : (b : Bool) (c x : ℤ) → (c ==ℤ pos 0) ≡ true → x ≡ x +ℤ (if b then c else pos 0)
no_contribution true c x h = omega (int_laws, zero_parts c h)
no_contribution false c x h = omega int_laws

module _ (policies : Policies) (p : DeltaParams) (s : Db) (policy : FinancePolicy)
    (configured : policies p.mine_id p.cooperative_id ≡ some policy) where
  split_delta_lem : split_delta policies p s ≡ (ok (fare_part p policy), s)
  unfolding split_delta
  split_delta_lem = ground arith

  community_delta_lem : community_delta policies p s ≡ (ok (community_part p policy), s)
  unfolding community_delta
  community_delta_lem = ground arith

  abbrev is_nothing : Bool
  is_nothing = p.delta_total_fare ==ℤ pos 0 && community_part p policy ==ℤ pos 0

  moved :
      is_nothing ≡ false
      → apply_fare_delta_in_tx policies p s ≡ (
        ok (fare_part p policy, community_part p policy),
        record (posted p (fare_part p policy) s) {
          pools =
              pools_after p.household_active p.mine_id p.period_key
                (community_part p policy)
                s.pools;
        },
      )
  unfolding apply_fare_delta_in_tx
  moved e = ground (
    arith,
    split_delta_lem,
    community_delta_lem,
    post_delta_lem p (fare_part p policy) (community_part p policy) s,
  )

  unmoved : is_nothing ≡ true → apply_fare_delta_in_tx policies p s ≡ (ok (no_split, pos 0), s)
  unfolding apply_fare_delta_in_tx
  unmoved e = ground (arith, split_delta_lem, community_delta_lem)

-- A fare delta with a configured policy goes through, for a delta of either sign. The mission's sum
-- in the ledger changes by exactly the delta of the fare (for an owner who is not active by the
-- platform's part alone), and the pool of the mine and the period by the community's part if the
-- household is active.
pub fare_delta_conserves :
    (policies : Policies) (p : DeltaParams) (s : Db) (policy : FinancePolicy)
    → policies p.mine_id p.cooperative_id ≡ some policy
    → let (outcome, s') = apply_fare_delta_in_tx policies p s in
      ((r : OperationalSplit × ℤ) × (outcome ≡ ok r))
      × (ledger_sum (of_mission p.mission_id) s'.transactions
          ≡ (if p.owner_active then p.delta_total_fare else (fare_part p policy).platform_amount)
            +ℤ ledger_sum (of_mission p.mission_id) s.transactions)
      × (pool_total p.mine_id p.period_key s'.pools
          ≡ pool_total p.mine_id p.period_key s.pools
            +ℤ (if p.household_active then community_part p policy else pos 0))
fare_delta_conserves policies p s policy configured =
    elim (Bool-cases (is_nothing policies p s policy configured)) [
      | inl nothing ↦ rw (unmoved policies p s policy configured nothing) (
        ((no_split, pos 0), refl),
        no_share p policy p.owner_active _ (and_true _ _ nothing).0,
        no_contribution p.household_active _ _ (and_true _ _ nothing).1,
      )
      | inr something ↦ rw (moved policies p s policy configured something) (
        ((fare_part p policy, community_part p policy), refl),
        mission_sum-posted p (fare_part p policy) s
            ∙ regroup p.owner_active _ _ _ _ (fare_part-add p policy),
        pool_total-pools_after p.household_active p.mine_id p.period_key (community_part p policy)
            s.pools,
      )
    ]

-- ===== src/Tests/Ledgers.antt =====
-- The approval at the weighbridge, the split and the delta at concrete inputs.
use logestic.Prelude.{◌*◌, ◌≡◌, refl, ◌⊎◌, some, true, arith}
use logestic.Prelude.Int.{ℤ, pos, negsuc, ◌+ℤ◌, ◌-ℤ◌, ◌≤ℤ◌}
use logestic.Prelude.Rounding.{scale, round_div, floor_div}
use logestic.Prelude.Table.{find}
use logestic.Reasons.{Reason}
use logestic.Fsm.{delivered}
use logestic.Roles.{coop_admin, operation_admin}
use logestic.Store.{ok, refused}
use logestic.Ledger.Policy.{OperationalSplit, split_operational_with_policy}
use logestic.Ledger.Policy.Bounds.{split-nonneg}
use logestic.Ledger.Post.{ledger_sum, of_mission}
use logestic.Ledger.Split.{SplitParams, MissionSplitResult, DeltaParams, apply_fare_delta_in_tx}
use logestic.Ledger.Split.Conserves.{Credited}
use logestic.Ledger.Split.Delta.{fare_delta_conserves, community_part}
use logestic.Ledger.Split.Effect.{split_result}
use logestic.Ledger.Split.Pools.{pool_total}
use logestic.Weighbridge.Approve.{weighbridge_approve, verify}
use logestic.Weighbridge.Approve.Effect.{Approvable, params_of}
use logestic.Weighbridge.Approve.Laws.{approve_atomic}
use logestic.Weighbridge.Approve.Credits.{Approved, approve_credits, approve_once}
use logestic.Tests.Data.{load, mission_at, ticket, db_at, party, policy, fare, env}

ready :
    Approvable env 3 coop_admin
      (db_at delivered)
      ticket
      (mission_at delivered)
      load
      party
      party
      fare
      policy
      202610
unfolding find
ready = record {
  ticket_row = refl;
  weighed = refl;
  supervised = refl;
  mission_row = refl;
  is_delivered = refl;
  load_row = refl;
  owner_known = refl;
  household_known = refl;
  positive = omega arith;
  priced = refl;
  period_known = refl;
  configured = refl;
}

approve_credits_example :
    let (outcome, s') = weighbridge_approve env 3 8 coop_admin (db_at delivered) in
    let p = params_of ticket (mission_at delivered) load party party fare 202610 in
    let r = split_result p policy ticket.net_weight in
    (outcome ≡ ok r)
    × Approved env.now 3 8 2 ticket.net_weight s'
    × Credited p r (db_at delivered) s' (verify env.now fare (mission_at delivered))
approve_credits_example =
    approve_credits env 3 8 coop_admin (db_at delivered) ready 3000000 (omega arith) refl

approve_once_example :
    let s' = (weighbridge_approve env 3 8 coop_admin (db_at delivered)).1 in
    weighbridge_approve env 3 9 operation_admin s' ≡ (refused Reason.already_approved, s')
approve_once_example = approve_once env 3 8 coop_admin (db_at delivered) ready env 9 operation_admin

approve_atomic_example :
    let (outcome, s') = weighbridge_approve env 3 8 coop_admin (db_at delivered) in
    ((r : MissionSplitResult) × (outcome ≡ ok r)) ⊎ (s' ≡ db_at delivered)
approve_atomic_example = approve_atomic env 3 8 coop_admin (db_at delivered)

abbrev params : SplitParams
params = params_of ticket (mission_at delivered) load party party fare 202610

-- The fare of 3 000 000 rials is split into 2 970 000 and 30 000, and 20 tons give 10 000 rials.
split_amounts :
    let r = split_result params policy (pos 2000000) in
    (r.split.owner_amount ≡ pos 297000000)
    × (r.split.platform_amount ≡ pos 3000000)
    × (r.community_amount ≡ pos 1000000)
unfolding split_operational_with_policy scale round_div floor_div ◌+ℤ◌ ◌-ℤ◌
    logestic.Ledger.Policy.compute_community_contribution_with_policy
split_amounts = (refl, refl, refl)

-- The weight goes down by 100 kg, and the fare by 15 000 rials.
abbrev delta : DeltaParams
delta = record {
  mission_id = 2;
  mine_id = 5;
  period_key = 202610;
  delta_total_fare = negsuc 1499999;
  delta_verified_net_kg = negsuc 9999;
  owner_id = 21;
  owner_active = true;
  household_active = true;
  cooperative_id = some 1;
}

fare_delta_conserves_example :
    let (outcome, s') = apply_fare_delta_in_tx env.policies delta (db_at delivered) in
    ((r : OperationalSplit × ℤ) × (outcome ≡ ok r))
    × (ledger_sum (of_mission 2) s'.transactions
        ≡ negsuc 1499999 +ℤ ledger_sum (of_mission 2) (db_at delivered).transactions)
    × (pool_total 5 202610 s'.pools
        ≡ pool_total 5 202610 (db_at delivered).pools +ℤ community_part delta policy)
fare_delta_conserves_example = fare_delta_conserves env.policies delta (db_at delivered) policy refl

split-nonneg_example :
    let r = split_operational_with_policy (pos (100 * 3000000)) policy in
    (pos 0 ≤ℤ r.owner_amount) × (pos 0 ≤ℤ r.platform_amount)
split-nonneg_example = split-nonneg 3000000 policy (omega arith)

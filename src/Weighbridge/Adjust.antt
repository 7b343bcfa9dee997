-- ===== src/Weighbridge/Adjust.antt =====
-- `createAdjustmentRequest`, `approveAdjustment` and `rejectAdjustment`: a correction of a ticket's
-- net weight, with the delta of the fare and of the community's contribution.
pub mod Laws
pub mod Once
use Prim.Native.String.{String}
use logestic.Prelude.{ℕ, Bool, true, false, ◌&&◌, Option, none, some, List, [], ◌∷◌, if◌then◌else◌}
use logestic.Prelude.Int.{ℤ, pos, ◌-ℤ◌, ◌==ℤ◌}
use logestic.Prelude.Table.{find, update, next_id, insert}
use logestic.Reasons.{Reason, record_not_found, rule_not_configured, fare_not_resolved}
use logestic.Store.{ok, Action, ◌>>=◌, ◌>>◌, pure, gets, or_refuse, or_throw, modify, transaction}
use logestic.Store.Tables.{
  Db, Load, Mission, Ticket, adjusted, Adjustment, AdjustmentStatus, PaymentState, distributed,
  AuditLog, AuditField, Event,
}
use logestic.Ledger.Split.{DeltaParams, apply_fare_delta_in_tx, update_mission_row}
use logestic.Env.{Env, Party}
use logestic.Missions.{publish, record_audit, get_mission_by_id}
use logestic.Weighbridge.Submit.{update_ticket_row}

abbrev adjustment_audit :
    ℕ → String → List (String × AuditField) → List (String × AuditField) → ℕ → String → AuditLog
adjustment_audit i action before after user reason = record {
  entity_type = "weighbridge_adjustment";
  entity_id = i;
  action = action;
  before_value = before;
  after_value = after;
  performed_by_user_id = user;
  reason = reason;
}

abbrev pub new_adjustment : ℕ → ℕ → String → ℤ → ℤ → ℕ → Adjustment
new_adjustment ticket mission reason before after user = record {
  ticket_id = ticket;
  mission_id = mission;
  reason = reason;
  before_net = before;
  after_net = after;
  status = AdjustmentStatus.pending;
  requested_by_user_id = user;
  approved_by_user_id = none;
}

-- The repository's create, with the id of the new row.
unfoldable pub create_adjustment_row : Adjustment → Action ℕ
create_adjustment_row a s =
    (ok (next_id s.adjustments), record s { adjustments = insert a s.adjustments })

-- A request is taken for a ticket of any status.
unfoldable pub create_adjustment_request : ℕ → String → ℤ → ℕ → Action ℕ
unfolding get_mission_by_id create_adjustment_row
create_adjustment_request ticket_id reason after_net user = do
  ticket ← or_refuse (← gets (λ s. find ticket_id s.tickets)) Reason.ticket_not_found
  or_refuse (← gets (get_mission_by_id ticket.mission_id)) Reason.mission_missing
  i ←
      create_adjustment_row
        (new_adjustment ticket_id ticket.mission_id reason ticket.net_weight after_net user)
  record_audit (
      adjustment_audit i "CREATED" []
        (("before_net", AuditField.number ticket.net_weight)
          ∷ ("after_net", AuditField.number after_net)
          ∷ [])
        user reason)
  pure i

abbrev is_pending : AdjustmentStatus → Bool
is_pending AdjustmentStatus.pending = true
is_pending _ = false

abbrev is_distributed : PaymentState → Bool
is_distributed distributed = true
is_distributed _ = false

-- `if (!adjRow || adjRow.status !== "PENDING")`
abbrev pub pending_adjustment : ℕ → Db → Option Adjustment
pending_adjustment i s = elim (find i s.adjustments) [
  | none ↦ none
  | some a ↦ if is_pending a.status then some a else none
]

-- The fares of both weights, where the payment has been distributed; outside the transaction.
unfoldable pub delta_total_fare : Env → Adjustment → Mission → Load → Party → Action ℤ
delta_total_fare env a mission load household =
    if is_distributed mission.payment_state
    then (do
      old ←
          or_throw
            (env.compute_fare a.before_net load.material_type load.mine_id household.cooperative_id)
            fare_not_resolved
      new ←
          or_throw
            (env.compute_fare a.after_net load.material_type load.mine_id household.cooperative_id)
            fare_not_resolved
      pure (new.total_fare -ℤ old.total_fare))
    else pure (pos 0)

abbrev pub approve_row : ℕ → Adjustment → Adjustment
approve_row user a = record a {
  status = AdjustmentStatus.approved;
  approved_by_user_id = some user;
}

abbrev pub adjust_ticket : ℤ → Ticket → Ticket
adjust_ticket net t = record t { net_weight = net; status = adjusted }

abbrev pub reweigh : ℤ → Mission → Mission
reweigh net m = record m { verified_net_tons_kg = some net }

unfoldable pub update_adjustment_row : ℕ → (Adjustment → Adjustment) → Action (Unit {0})
update_adjustment_row i f = do
  or_throw (← gets (λ s. find i s.adjustments)) record_not_found
  modify (λ s. record s { adjustments = update i f s.adjustments })

abbrev delta_params : Adjustment → Mission → Load → Party → Party → ℕ → ℤ → DeltaParams
delta_params a mission load owner household period delta = record {
  mission_id = a.mission_id;
  mine_id = load.mine_id;
  period_key = period;
  delta_total_fare = delta;
  delta_verified_net_kg = a.after_net -ℤ a.before_net;
  owner_id = mission.owner_id;
  owner_active = owner.approved;
  household_active = household.approved;
  cooperative_id = household.cooperative_id;
}

-- The ledger's part of the transaction, where either delta is not 0.
unfoldable pub apply_delta :
    Env → Adjustment → Mission → Load → Party → Party → ℤ → Action (Unit {0})
apply_delta env a mission load owner household delta =
    let net = a.after_net -ℤ a.before_net in
    if delta ==ℤ pos 0 && net ==ℤ pos 0 then pure tt else (do
      period ← or_throw (env.period_key load.mine_id household.cooperative_id) rule_not_configured
      apply_fare_delta_in_tx env.policies (delta_params a mission load owner household period delta)
      if net ==ℤ pos 0 then pure tt else update_mission_row a.mission_id (reweigh a.after_net))

unfoldable pub adjust_in_tx :
    Env → ℕ → ℕ → Adjustment → Mission → Load → Party → Party → ℤ → Action (Unit {0})
unfolding update_adjustment_row update_ticket_row apply_delta
adjust_in_tx env i user a mission load owner household delta = do
  update_adjustment_row i (approve_row user)
  update_ticket_row a.ticket_id (adjust_ticket a.after_net)
  apply_delta env a mission load owner household delta
  record_audit (
      adjustment_audit i "APPROVED" (("before_net", AuditField.number a.before_net) ∷ [])
        (("after_net", AuditField.number a.after_net)
          ∷ ("delta_total_fare", AuditField.number delta)
          ∷ [])
        user a.reason)

unfoldable pub approve_adjustment : Env → ℕ → ℕ → Action ℤ
unfolding get_mission_by_id delta_total_fare adjust_in_tx
approve_adjustment env i user = do
  a ← or_refuse (← gets (pending_adjustment i)) Reason.invalid_adjustment
  or_refuse (← gets (λ s. find a.ticket_id s.tickets)) Reason.missing
  mission ← or_refuse (← gets (get_mission_by_id a.mission_id)) Reason.missing
  load ← or_refuse (← gets (λ s. find mission.load_id s.loads)) Reason.load_missing
  owner ← or_refuse (env.find_fleet_owner mission.owner_id) Reason.missing_entities
  household ← or_refuse (env.find_household load.household_id) Reason.missing_entities
  delta ← delta_total_fare env a mission load household
  transaction (adjust_in_tx env i user a mission load owner household delta)
  publish (Event.adjustment_approved i a.ticket_id a.mission_id a.before_net a.after_net delta)
  pure delta

abbrev reject_row : Adjustment → Adjustment
reject_row a = record a { status = AdjustmentStatus.rejected }

-- `updateAdjustment`: null where the row is not there.
unfoldable pub update_adjustment : ℕ → (Adjustment → Adjustment) → Action (Option Adjustment)
update_adjustment i f s = elim (find i s.adjustments) [
  | none ↦ (ok none, s)
  | some a ↦ (ok (some (f a)), record s { adjustments = update i f s.adjustments })
]

unfoldable pub reject_adjustment : ℕ → String → ℕ → Action Adjustment
unfolding update_adjustment
reject_adjustment i reason user = do
  a ← or_refuse (← gets (pending_adjustment i)) Reason.invalid_adjustment
  updated ← or_refuse (← update_adjustment i reject_row) Reason.update_failed
  record_audit (
      adjustment_audit i "REJECTED"
        (("status", AuditField.text "PENDING")
          ∷ ("before_net", AuditField.number a.before_net)
          ∷ ("after_net", AuditField.number a.after_net)
          ∷ [])
        (("status", AuditField.text "REJECTED") ∷ []) user reason)
  pure updated

-- ===== src/Weighbridge/Approve.antt =====
-- `weighbridgeApprove`, with `creditMissionShares` of stores/financeStore.ts: the ticket is
-- approved, the mission verified and its fare split, in one transaction.
pub mod Laws
pub mod Effect
pub mod Credits
use logestic.Prelude.{
  ℕ, Bool, true, false, not, ◌&&◌, Option, none, some, List, [], ◌∷◌, if◌then◌else◌,
}
use logestic.Prelude.Int.{ℤ, pos, leb_ℤ}
use logestic.Prelude.Table.{find, update}
use logestic.Reasons.{
  Reason, Fault, community_requires_verified_weight_error, rule_not_configured, fare_not_resolved,
}
use logestic.Fsm.{delivered, verified, status_eq}
use logestic.Roles.{UserRole, normalize_role, is_operation_admin}
use logestic.Store.{
  Outcome, ok, refused, throws, Action, ◌>>=◌, ◌>>◌, pure, gets, or_refuse, or_throw, refuse_if,
  transaction,
}
use logestic.Store.Tables.{
  Db, Load, Mission, Ticket, TicketStatus, approved, rejected, loaded_registered, pending_hold,
  PaymentState, distributed, AuditLog, AuditField, Event,
}
use logestic.Ledger.Split.{
  SplitParams, MissionSplitResult, apply_mission_split_in_tx, update_mission_row,
}
use logestic.Env.{Env, Party, Fare}
use logestic.Missions.{publish, record_audit, get_mission_by_id}
use logestic.Weighbridge.Submit.{update_ticket_row}

-- `creditMissionShares`: the fare and the period key are resolved again, and throw where they
-- cannot be.
unfoldable pub credit_mission_shares :
    Env → ℕ → ℕ → ℕ → Party → Party → ℕ → Load → ℤ → Action MissionSplitResult
credit_mission_shares env mission_id mine_id owner_id owner household household_id load net = do
  fare ←
      or_throw (env.compute_fare net load.material_type mine_id household.cooperative_id)
        fare_not_resolved
  period ← or_throw (env.period_key mine_id household.cooperative_id) rule_not_configured
  apply_mission_split_in_tx env.policies (record {
    mission_id = mission_id;
    mine_id = mine_id;
    period_key = period;
    total_fare = fare.total_fare;
    verified_net_tons_kg = some net;
    owner_id = owner_id;
    owner_active = owner.approved;
    household_active = household.approved;
    cooperative_id = household.cooperative_id;
  })

abbrev or_old_card : Option ℕ → Option ℕ → Option ℕ
or_old_card none old = old
or_old_card (some card) old = some card

abbrev pub verify : ℕ → Fare → Mission → Mission
verify now fare m = record m {
  status = verified;
  verified_at = some now;
  payment_state = distributed;
  rate_card_id = or_old_card fare.rate_card_id m.rate_card_id;
  rate_per_ton_snapshot = some fare.rate;
}

abbrev pub approve_ticket : ℕ → Ticket → Ticket
approve_ticket user t = record t {
  status = approved;
  approved_by_user_id = some user;
  requires_supervisor_approve = false;
}

abbrev is_approved : TicketStatus → Bool
is_approved approved = true
is_approved _ = false

abbrev is_rejected : TicketStatus → Bool
is_rejected rejected = true
is_rejected _ = false

abbrev pub is_weighed : TicketStatus → Bool
is_weighed loaded_registered = true
is_weighed pending_hold = true
is_weighed _ = false

-- The `catch` around the transaction.
abbrev pub catch_weight_error : {A : Type 0} → Action A → Action A
catch_weight_error m s =
    let (r, s') = m s in
    elim r [
      | ok a ↦ (ok a, s')
      | refused e ↦ (refused e, s')
      | throws e ↦ elim e [
        | community_requires_verified_weight_error ↦
            (refused Reason.community_requires_verified_weight, s')
        | other ↦ (throws other, s')
      ]
    ]

abbrev pub approve_audit : ℕ → ℕ → Ticket → Mission → AuditLog
approve_audit i user ticket mission = record {
  entity_type = "weighbridge_ticket";
  entity_id = i;
  action = "APPROVED";
  before_value =
      ("ticket_status", AuditField.ticket_status ticket.status)
      ∷ ("mission_status", AuditField.mission_status mission.status)
      ∷ [];
  after_value =
      ("ticket_status", AuditField.ticket_status approved)
      ∷ ("mission_status", AuditField.mission_status verified)
      ∷ ("net_weight", AuditField.number ticket.net_weight)
      ∷ [];
  performed_by_user_id = user;
  reason = "weighbridge_approve";
}

-- The body of the transaction.
unfoldable pub approve_in_tx :
    Env → ℕ → ℕ → Ticket → Mission → Load → Party → Party → Fare → Action MissionSplitResult
approve_in_tx env i user ticket mission load owner household fare = do
  update_ticket_row i (approve_ticket user)
  update_mission_row ticket.mission_id (verify env.now fare)
  result ←
      credit_mission_shares env ticket.mission_id load.mine_id mission.owner_id owner household
        load.household_id load ticket.net_weight
  record_audit (approve_audit i user ticket mission)
  pure result

unfoldable pub weighbridge_approve : Env → ℕ → ℕ → UserRole → Action MissionSplitResult
unfolding get_mission_by_id
weighbridge_approve env i user role = do
  ticket ← or_refuse (← gets (λ s. find i s.tickets)) Reason.ticket_not_found
  refuse_if (is_approved ticket.status) Reason.already_approved
  refuse_if (is_rejected ticket.status) Reason.ticket_rejected
  refuse_if (not (is_weighed ticket.status)) Reason.weights_required
  refuse_if (ticket.requires_supervisor_approve && not (is_operation_admin (normalize_role role)))
      Reason.supervisor_approval_required
  mission ← or_refuse (← gets (get_mission_by_id ticket.mission_id)) Reason.mission_missing
  refuse_if (not (status_eq mission.status delivered)) Reason.invalid_transition
  load ← or_refuse (← gets (λ s. find mission.load_id s.loads)) Reason.load_missing
  owner ← or_refuse (env.find_fleet_owner mission.owner_id) Reason.missing_entities
  household ← or_refuse (env.find_household load.household_id) Reason.missing_entities
  refuse_if (leb_ℤ ticket.net_weight (pos 0)) Reason.weights_required
  fare ←
      or_refuse
        (env.compute_fare ticket.net_weight load.material_type load.mine_id
          household.cooperative_id)
        Reason.no_valid_rate_card
  result ←
      catch_weight_error
        (transaction (approve_in_tx env i user ticket mission load owner household fare))
  publish (Event.weighbridge_approved i ticket.mission_id ticket.net_weight)
  publish (Event.mission_verified ticket.mission_id i ticket.net_weight)
  pure result

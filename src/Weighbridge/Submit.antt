-- ===== src/Weighbridge/Submit.antt =====
-- `submitTicketWeights` and `weighbridgeRejectTicket`. Of the after-value that the audit log gets for
-- weights, the status, the weights and the note are kept.
pub mod Laws
pub mod Errors
use Prim.Native.String.{String}
use logestic.Prelude.{
  ℕ, Bool, true, false, not, ◌||◌, Option, none, some, List, [], ◌∷◌, if◌then◌else◌,
}
use logestic.Prelude.Int.{ℤ, pos, ◌-ℤ◌, ltb_ℤ, leb_ℤ}
use logestic.Prelude.Table.{find, update}
use logestic.Reasons.{Reason, rule_not_configured, record_not_found}
use logestic.Store.{
  Outcome, Action, ◌>>=◌, ◌>>◌, pure, gets, or_refuse, or_throw, refuse_if, modify, transaction,
}
use logestic.Store.Tables.{
  Ticket, TicketStatus, pending_empty, empty_registered, loaded_registered, pending_hold, approved,
  rejected, adjusted, EntrySource, agent, manual, operator, ReasonCode, AuditLog, AuditField, Event,
}
use logestic.Env.{Env}
use logestic.Missions.{publish, record_audit, get_mission_by_id}
use logestic.Weighbridge.Anomaly.{is_weighbridge_anomaly}

pub record TicketWeights : Type 0 where
  pub ticket_id : ℕ
  pub empty_weight : ℤ
  pub loaded_weight : ℤ
  pub user_id : ℕ
  pub entry_source : EntrySource
  pub entry_note : Option String
  pub reason_code : Option ReasonCode

abbrev pub is_manual : EntrySource → Bool
is_manual manual = true
is_manual _ = false

-- Only an agent's or a manual entry keeps its source.
abbrev kept_source : EntrySource → Option EntrySource
kept_source manual = some manual
kept_source agent = some agent
kept_source operator = none

abbrev pub takes_weights : TicketStatus → Bool
takes_weights pending_empty = true
takes_weights empty_registered = true
takes_weights _ = false

abbrev pub or_nothing : Option ℤ → ℤ
or_nothing none = pos 0
or_nothing (some q) = q

-- A manual entry and an anomaly are held for a supervisor or an approver.
abbrev pub next_ticket_status : EntrySource → Bool → TicketStatus
next_ticket_status source anomaly =
    if is_manual source || anomaly then pending_hold else loaded_registered

abbrev pub weigh : TicketWeights → TicketStatus → Ticket → Ticket
weigh p next t = record t {
  empty_weight = p.empty_weight;
  loaded_weight = p.loaded_weight;
  net_weight = p.loaded_weight -ℤ p.empty_weight;
  status = next;
  entry_source = kept_source p.entry_source;
  entry_note = p.entry_note;
  reason_code = if is_manual p.entry_source then p.reason_code else none;
  requires_supervisor_approve = is_manual p.entry_source;
}

-- `updateTicket`: null where the row is not there.
unfoldable pub update_ticket : ℕ → (Ticket → Ticket) → Action (Option Ticket)
update_ticket i f s = elim (find i s.tickets) [
  | none ↦ (Outcome.ok none, s)
  | some t ↦ (Outcome.ok (some (f t)), record s { tickets = update i f s.tickets })
]

abbrev reason_text : Option ReasonCode → String
reason_text none = "manual_entry"
reason_text (some ReasonCode.scale_down) = "SCALE_DOWN"
reason_text (some ReasonCode.network) = "NETWORK"
reason_text (some ReasonCode.other) = "OTHER"

abbrev source_text : EntrySource → String
source_text operator = "operator_panel"
source_text _ = "local_agent"

abbrev submit_action : EntrySource → Bool → String
submit_action agent anomaly = "OVERRIDE"
submit_action _ anomaly = if anomaly then "ANOMALY_HOLD" else "SUBMIT_WEIGHTS"

abbrev note_field : Option String → AuditField
note_field none = AuditField.null
note_field (some t) = AuditField.text t

abbrev weight_fields : TicketWeights → TicketStatus → List (String × AuditField)
weight_fields p next =
    ("ticket_status", AuditField.ticket_status next)
    ∷ ("empty_weight", AuditField.number p.empty_weight)
    ∷ ("loaded_weight", AuditField.number p.loaded_weight)
    ∷ ("net_weight", AuditField.number (p.loaded_weight -ℤ p.empty_weight))
    ∷ ("entry_note", note_field p.entry_note)
    ∷ []

abbrev submit_audit : TicketWeights → TicketStatus → TicketStatus → Bool → AuditLog
submit_audit p before next anomaly = record {
  entity_type = "weighbridge_ticket";
  entity_id = p.ticket_id;
  action =
      if is_manual p.entry_source
      then "weighbridge.manual_entry"
      else submit_action p.entry_source anomaly;
  before_value = ("ticket_status", AuditField.ticket_status before) ∷ [];
  after_value = weight_fields p next;
  performed_by_user_id = p.user_id;
  reason =
      if is_manual p.entry_source then reason_text p.reason_code else source_text p.entry_source;
}

unfoldable pub submit_ticket_weights : Env → TicketWeights → Action (Ticket × Bool)
unfolding get_mission_by_id update_ticket
submit_ticket_weights env p = do
  ticket ← or_refuse (← gets (λ s. find p.ticket_id s.tickets)) Reason.ticket_not_found
  refuse_if (not (takes_weights ticket.status)) Reason.invalid_ticket_state
  refuse_if (ltb_ℤ p.empty_weight (pos 0) || ltb_ℤ p.loaded_weight (pos 0))
      Reason.invalid_negative_weight
  refuse_if (leb_ℤ p.loaded_weight p.empty_weight) Reason.invalid_weight_order
  mission ← or_refuse (← gets (get_mission_by_id ticket.mission_id)) Reason.mission_missing
  load ← or_refuse (← gets (λ s. find mission.load_id s.loads)) Reason.load_missing
  threshold ← or_throw (env.anomaly_threshold load.mine_id) rule_not_configured
  let anomaly =
      is_weighbridge_anomaly threshold p.empty_weight p.loaded_weight
        (or_nothing load.quantity_tons)
  let next = next_ticket_status p.entry_source anomaly
  updated ← or_refuse (← update_ticket p.ticket_id (weigh p next)) Reason.update_failed
  record_audit (submit_audit p ticket.status next anomaly)
  publish (
      Event.weights_submitted p.ticket_id ticket.mission_id p.empty_weight p.loaded_weight
        (p.loaded_weight -ℤ p.empty_weight) anomaly)
  (if anomaly
      then publish (Event.weighbridge_anomaly p.ticket_id ticket.mission_id load.mine_id)
      else pure tt)
  pure (updated, anomaly)

abbrev pub is_credited : TicketStatus → Bool
is_credited approved = true
is_credited adjusted = true
is_credited _ = false

abbrev is_rejected : TicketStatus → Bool
is_rejected rejected = true
is_rejected _ = false

abbrev reject : Ticket → Ticket
reject t = record t { status = rejected }

-- An update in a transaction throws where the row is not there.
unfoldable pub update_ticket_row : ℕ → (Ticket → Ticket) → Action (Unit {0})
update_ticket_row i f = do
  or_throw (← gets (λ s. find i s.tickets)) record_not_found
  modify (λ s. record s { tickets = update i f s.tickets })

unfoldable pub weighbridge_reject_ticket : ℕ → String → ℕ → Action (Unit {0})
unfolding get_mission_by_id update_ticket_row
weighbridge_reject_ticket i reason user = do
  ticket ← or_refuse (← gets (λ s. find i s.tickets)) Reason.ticket_not_found
  refuse_if (is_credited ticket.status) Reason.already_credited_use_adjustment
  refuse_if (is_rejected ticket.status) Reason.already_rejected
  mission ← or_refuse (← gets (get_mission_by_id ticket.mission_id)) Reason.mission_missing
  transaction (
      update_ticket_row i reject
      >> record_audit (record {
        entity_type = "weighbridge_ticket";
        entity_id = i;
        action = "REJECTED";
        before_value =
            ("ticket_status", AuditField.ticket_status ticket.status)
            ∷ ("mission_status", AuditField.mission_status mission.status)
            ∷ [];
        after_value =
            ("ticket_status", AuditField.ticket_status rejected)
            ∷ ("mission_status", AuditField.mission_status mission.status)
            ∷ [];
        performed_by_user_id = user;
        reason = reason;
      }))

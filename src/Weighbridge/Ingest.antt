-- ===== src/Weighbridge/Ingest.antt =====
-- services/weighbridgeIngestService.ts: a reading that the local agent of a weighbridge sends. The
-- note of plate, time and signature is an argument, and so are the keys of the bridges.
pub mod Kept
pub mod Rows
pub mod Once
pub mod Fits
pub mod Laws
use Prim.Native.String.{String}
use logestic.Prelude.{
  ℕ, Bool, true, false, not, ◌&&◌, ◌||◌, Option, none, some, List, [], ◌∷◌, ◌==◌, is_some,
  if◌then◌else◌,
}
use logestic.Prelude.Int.{ℤ, pos, ◌-ℤ◌, leb_ℤ}
use logestic.Prelude.Table.{Table, find, update, next_id}
use logestic.Reasons.{Reason, Fault, rule_not_configured, ticket_update_failed}
use logestic.Fsm.{MissionStatus, arrived, loaded, in_transit, delivered, verified}
use logestic.Store.{
  Outcome, Action, ◌>>=◌, ◌>>◌, pure, gets, or_refuse, or_throw, refuse_if, modify, transaction,
}
use logestic.Store.Tables.{
  Db, AgentIngest, ReadingType, Ticket, TicketStatus, pending_empty, empty_registered,
  loaded_registered, pending_hold, EntrySource, Event,
}
use logestic.Store.Tables
use logestic.Missions.{publish, get_mission_by_id}
use logestic.Missions.DriverStep.{new_ticket, create_ticket}
use logestic.Weighbridge.Anomaly.{is_weighbridge_anomaly}
use logestic.Weighbridge.Submit.{update_ticket, or_nothing, is_manual}

-- What a reading meets: the mine of a bridge by id and key, times by their text, the threshold of a
-- mine, which is `none` where it throws.
pub record IngestEnv : Type 0 where
  pub bridge_mine : ℕ → Option String → Option ℕ
  pub parse_captured_at : String → Option ℕ
  pub anomaly_threshold : ℕ → Option ℕ

pub record Reading : Type 0 where
  pub api_key : Option String
  pub weighbridge_id : ℕ
  pub mission_id : ℕ
  pub reading_type : ReadingType
  pub weight_kg : ℤ
  pub captured_at : String
  pub entry_note : String
  pub ticket_suffix : ℕ

pub record Ingested : Type 0 where
  pub ticket_id : ℕ
  pub ticket_status : TicketStatus
  pub idempotent : Bool

abbrev pub is_arrived_or_later : MissionStatus → Bool
is_arrived_or_later arrived = true
is_arrived_or_later loaded = true
is_arrived_or_later in_transit = true
is_arrived_or_later delivered = true
is_arrived_or_later verified = true
is_arrived_or_later _ = false

abbrev is_pending_empty : TicketStatus → Bool
is_pending_empty pending_empty = true
is_pending_empty _ = false

abbrev is_empty_registered : TicketStatus → Bool
is_empty_registered empty_registered = true
is_empty_registered _ = false

abbrev pub mission_allows_reading : MissionStatus → ReadingType → TicketStatus → Bool
mission_allows_reading m ReadingType.empty t = is_arrived_or_later m && is_pending_empty t
mission_allows_reading m ReadingType.loaded t = is_empty_registered t

abbrev pub is_empty_reading : ReadingType → Bool
is_empty_reading ReadingType.empty = true
is_empty_reading ReadingType.loaded = false

abbrev pub reading_eq : ReadingType → ReadingType → Bool
reading_eq ReadingType.empty ReadingType.empty = true
reading_eq ReadingType.loaded ReadingType.loaded = true
reading_eq _ _ = false

-- The unique key of a reading.
abbrev pub has_reading_key : ℕ → ℕ → ReadingType → AgentIngest → Bool
has_reading_key bridge at type a =
    (a.weighbridge_id == bridge) && (a.captured_at == at) && reading_eq a.reading_type type

unfoldable pub find_agent_ingest : ℕ → ℕ → ReadingType → List AgentIngest → Option AgentIngest
find_agent_ingest bridge at type [] = none
find_agent_ingest bridge at type (a ∷ rest) =
    if has_reading_key bridge at type a then some a else find_agent_ingest bridge at type rest

unfoldable pub find_ticket_of_mission : ℕ → Table Ticket → Option (ℕ × Ticket)
find_ticket_of_mission m [] = none
find_ticket_of_mission m ((i, t) ∷ ts) =
    if t.mission_id == m then some (i, t) else find_ticket_of_mission m ts

-- `ticket?.status ?? status`
abbrev pub status_or : TicketStatus → Option Ticket → TicketStatus
status_or other none = other
status_or other (some t) = t.status

abbrev pub already_taken : ℕ → TicketStatus → Db → Ingested
already_taken i other s = record {
  ticket_id = i;
  ticket_status = status_or other (find i s.tickets);
  idempotent = true;
}

-- The ticket of the mission, which an empty reading makes where there is none.
unfoldable pub ticket_for : Reading → MissionStatus → Option (ℕ × Ticket) → Action (ℕ × Ticket)
unfolding create_ticket
ticket_for p status (some t) = pure t
ticket_for p status none = do
  refuse_if (not (is_empty_reading p.reading_type) || not (is_arrived_or_later status))
      Reason.ticket_required
  i ← gets (λ s. next_id s.tickets)
  modify (create_ticket p.mission_id p.ticket_suffix)
  pure (i, new_ticket p.mission_id p.ticket_suffix)

abbrev pub is_manual_source : Option EntrySource → Bool
is_manual_source none = false
is_manual_source (some source) = is_manual source

-- The checks of a loaded reading.
abbrev pub check_order : Reading → Ticket → Action (Unit {0})
check_order p t = elim p.reading_type [
  | ReadingType.empty ↦ pure tt
  | ReadingType.loaded ↦
      (refuse_if (leb_ℤ t.empty_weight (pos 0)) Reason.empty_weight_required
        >> refuse_if (leb_ℤ p.weight_kg t.empty_weight) Reason.invalid_weight_order)
]

abbrev pub status_of_anomaly : Bool → TicketStatus
status_of_anomaly anomaly = if anomaly then pending_hold else loaded_registered

-- The status that a reading gives to a ticket; only a loaded one asks for the threshold.
unfoldable pub status_of_reading : IngestEnv → Reading → ℕ → ℤ → Ticket → Action TicketStatus
status_of_reading env p mine quantity t = elim p.reading_type [
  | ReadingType.empty ↦ pure empty_registered
  | ReadingType.loaded ↦
      (or_throw (env.anomaly_threshold mine) rule_not_configured >>= λ threshold.
      pure
        (status_of_anomaly (is_weighbridge_anomaly threshold t.empty_weight p.weight_kg quantity)))
]

abbrev pub read : Reading → TicketStatus → Ticket → Ticket
read p next t = elim p.reading_type [
  | ReadingType.empty ↦ record t {
    status = next;
    empty_weight = p.weight_kg;
    entry_source = some EntrySource.agent;
    entry_note = some p.entry_note;
  }
  | ReadingType.loaded ↦ record t {
    status = next;
    loaded_weight = p.weight_kg;
    net_weight = p.weight_kg -ℤ t.empty_weight;
    entry_source = some EntrySource.agent;
    entry_note = some p.entry_note;
  }
]

abbrev pub ingest_row : Reading → ℕ → ℕ → AgentIngest
ingest_row p at i = record {
  weighbridge_id = p.weighbridge_id;
  mission_id = p.mission_id;
  reading_type = p.reading_type;
  weight_kg = p.weight_kg;
  captured_at = at;
  ticket_id = i;
}

-- The row and the ticket are written in one transaction. The reading is looked for again in it; no
-- other request comes between here, so that it is not there.
unfoldable pub take_in_tx : Reading → ℕ → ℕ → TicketStatus → Action (Option ℕ)
unfolding find_agent_ingest update_ticket
take_in_tx p at i next = do
  dup ← gets (λ s. find_agent_ingest p.weighbridge_id at p.reading_type s.agent_ingests)
  elim dup [
    | some a ↦ pure (some a.ticket_id)
    | none ↦ (do
      modify (λ s. record s { agent_ingests = ingest_row p at i ∷ s.agent_ingests })
      or_throw (← update_ticket i (read p next)) ticket_update_failed
      pure none)
  ]

-- What follows the transaction.
unfoldable pub answer : Reading → ℕ → TicketStatus → Option ℕ → Action Ingested
answer p i next (some taken) = gets (already_taken taken next)
answer p i next none = do
  publish (Event.agent_ingest i p.mission_id p.weighbridge_id p.weight_kg)
  pure (record { ticket_id = i; ticket_status = next; idempotent = false })

-- A reading that is not taken yet.
unfoldable pub take_reading : IngestEnv → Reading → ℕ → ℕ → Action Ingested
unfolding get_mission_by_id find_ticket_of_mission ticket_for status_of_reading take_in_tx answer
take_reading env p mine at = do
  mission ← or_refuse (← gets (get_mission_by_id p.mission_id)) Reason.mission_not_found
  load ← or_refuse (← gets (λ s. find mission.load_id s.loads)) Reason.load_missing
  refuse_if (not (load.mine_id == mine)) Reason.mine_mismatch
  found ← gets (λ s. find_ticket_of_mission p.mission_id s.tickets)
  row ← ticket_for p mission.status found
  refuse_if (is_manual_source row.1.entry_source) Reason.manual_entry_locked
  refuse_if (not (mission_allows_reading mission.status p.reading_type row.1.status))
      Reason.invalid_state_for_reading
  check_order p row.1
  next ← status_of_reading env p load.mine_id (or_nothing load.quantity_tons) row.1
  taken ← transaction (take_in_tx p at row.0 next)
  answer p row.0 next taken

abbrev pub by_ingest : IngestEnv → Reading → ℕ → ℕ → Option AgentIngest → Action Ingested
by_ingest env p mine at none = take_reading env p mine at
by_ingest env p mine at (some a) = gets (already_taken a.ticket_id pending_empty)

unfoldable pub ingest : IngestEnv → Reading → Action Ingested
unfolding find_agent_ingest take_reading
ingest env p = do
  mine ← or_refuse (env.bridge_mine p.weighbridge_id p.api_key) Reason.invalid_weighbridge_key
  at ← or_refuse (env.parse_captured_at p.captured_at) Reason.invalid_captured_at
  refuse_if (leb_ℤ p.weight_kg (pos 0)) Reason.invalid_weight
  existing ← gets (λ s. find_agent_ingest p.weighbridge_id at p.reading_type s.agent_ingests)
  by_ingest env p mine at existing

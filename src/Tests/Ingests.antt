-- ===== src/Tests/Ingests.antt =====
-- A bridge that sends the empty weight of a truck, then the loaded one.
use logestic.Prelude.{ℕ, false, some, [], ◌∷◌, ◌≡◌, refl}
use logestic.Prelude.Int.{pos}
use logestic.Prelude.Table.{find}
use mathlib.Core.Path.{subst}
use mathlib.Core.Option.{some-injective}
use logestic.Fsm.{MissionStatus}
use logestic.Store.{ok}
use logestic.Store.Tables.{Db, ReadingType, Ticket, TicketStatus}
use logestic.Missions.DriverStep.{new_ticket}
use logestic.Missions.{get_mission_by_id}
use logestic.Weighbridge.Ingest.{
  IngestEnv, Reading, Ingested, ingest, take_reading, take_in_tx, answer, ticket_for,
  status_of_reading, find_agent_ingest, find_ticket_of_mission, already_taken,
}
use logestic.Weighbridge.Ingest.Once.{ingest_all, ingest_once}
use logestic.Weighbridge.Ingest.Fits.{Weighed}
use logestic.Weighbridge.Ingest.Laws.{ingest_ok}
use logestic.Tests.Data.{db_at}

abbrev ingest_env : IngestEnv
ingest_env = record {
  bridge_mine = λ _ _. some 5;
  parse_captured_at = λ _. some 100;
  anomaly_threshold = λ _. some 50000;
}

abbrev reading_of : ReadingType → ℕ → Reading
reading_of type kg = record {
  api_key = some "key";
  weighbridge_id = 8;
  mission_id = 2;
  reading_type = type;
  weight_kg = pos kg;
  captured_at = "2026-10-01T08:00:00Z";
  entry_note = "plate 12";
  ticket_suffix = 77;
}

abbrev waiting : Db
waiting = record (db_at MissionStatus.arrived) { tickets = (3, new_ticket 2 77) ∷ [] }

abbrev first_answer : Ingested
first_answer = record {
  ticket_id = 3;
  ticket_status = TicketStatus.empty_registered;
  idempotent = false;
}

empty_reading_ok :
    (ingest ingest_env (reading_of ReadingType.empty 1000000) waiting).0 ≡ ok first_answer
unfolding ingest take_reading take_in_tx answer ticket_for status_of_reading find_agent_ingest
    find_ticket_of_mission get_mission_by_id find
empty_reading_ok = refl

ingest_once_example :
    let p = reading_of ReadingType.empty 1000000 in
    let s =
      ingest_all
        ((ingest_env, reading_of ReadingType.loaded 3000000) ∷ [])
        (ingest ingest_env p waiting).1 in
    ingest ingest_env (reading_of ReadingType.empty 1200000) s
    ≡ (ok (already_taken 3 TicketStatus.pending_empty s), s)
ingest_once_example =
    ingest_once ingest_env (reading_of ReadingType.empty 1000000) waiting first_answer 100
      empty_reading_ok refl ((ingest_env, reading_of ReadingType.loaded 3000000) ∷ []) ingest_env
      (reading_of ReadingType.empty 1200000) 5 refl refl refl refl refl

keyed_waiting :
    (i : ℕ) (t : Ticket)
    → find_ticket_of_mission 2 waiting.tickets ≡ some (i, t)
    → find i waiting.tickets ≡ some t
unfolding find_ticket_of_mission find
keyed_waiting i t e =
    let same : (3, new_ticket 2 77) ≡ (i, t) = some-injective (3, new_ticket 2 77) (i, t) e in
    subst (λ r. find r.0 waiting.tickets ≡ some r.1) same refl

ingest_ok_example :
    let p = reading_of ReadingType.empty 1000000 in
    Weighed waiting p first_answer (ingest ingest_env p waiting).1
ingest_ok_example =
    ingest_ok ingest_env (reading_of ReadingType.empty 1000000) waiting first_answer keyed_waiting
      empty_reading_ok refl

-- ===== src/Missions/DriverStep.antt =====
-- `driverUpdateStep` of apps/backend/src/stores/missionStore.ts: a driver moves a mission on. The
-- random suffix of a new ticket's number is an argument. Of the delivered event's payload the
-- position and the receipt photo are not modelled, nor the distance that a refusal reports.
pub mod Laws
use logestic.Prelude.{
  ℕ, Bool, true, false, not, ◌&&◌, ◌||◌, Option, none, some, List, [], ◌∷◌, ◌==◌, leb,
  if◌then◌else◌,
}
use logestic.Prelude.Int.{ℤ, pos}
use logestic.Prelude.Table.{Table, find, update, insert}
use logestic.Reasons.{Reason}
use logestic.Fsm.{
  MissionStatus, accepted, arrived, loaded, delivered, driver, status_eq, validate_transition,
}
use logestic.Store.{Action, ◌>>=◌, ◌>>◌, pure, gets, or_refuse, refuse_if, modify}
use logestic.Store.Tables.{
  Db, Mission, Ticket, TicketStatus, pending_empty, empty_registered, loaded_registered,
  pending_hold, Event,
}
use logestic.Env.{Env, Fence}
use logestic.Missions.{publish, check, completion, status_patch, get_mission_by_id, update_mission}

-- `getTicketByMissionId`
unfoldable pub get_ticket_by_mission_id : ℕ → Table Ticket → Option Ticket
get_ticket_by_mission_id m [] = none
get_ticket_by_mission_id m ((_, t) ∷ ts) =
    if t.mission_id == m then some t else get_ticket_by_mission_id m ts

abbrev pub new_ticket : ℕ → ℕ → Ticket
new_ticket mission suffix = record {
  mission_id = mission;
  ticket_number = (mission, suffix);
  status = pending_empty;
  empty_weight = pos 0;
  loaded_weight = pos 0;
  net_weight = pos 0;
  entry_source = none;
  entry_note = none;
  reason_code = none;
  requires_supervisor_approve = false;
  approved_by_user_id = none;
}

-- `createTicket`
unfoldable pub create_ticket : ℕ → ℕ → Db → Db
create_ticket mission suffix s = record s { tickets = insert (new_ticket mission suffix) s.tickets }

pub record DriverStep : Type 0 where
  pub mission_id : ℕ
  pub driver_id : ℕ
  pub step : MissionStatus
  pub latitude : Option ℤ
  pub longitude : Option ℤ
  pub ticket_suffix : ℕ

-- The steps that a position belongs to.
abbrev pub is_located : MissionStatus → Bool
is_located step = status_eq step arrived || status_eq step delivered

abbrev pub lacks_location : DriverStep → Bool
lacks_location p = elim p.latitude [
  | none ↦ true
  | some _ ↦ elim p.longitude [ none ↦ true | some _ ↦ false ]
]

abbrev or_origin : Option ℤ → ℤ
or_origin none = pos 0
or_origin (some x) = x

-- `isWithinGeofence`
pub is_within_geofence : Env → ℤ → ℤ → Fence → Bool
is_within_geofence env lat lng fence =
    leb (env.haversine_distance lat lng fence.lat fence.lng) fence.radius_m

abbrev in_fence : Env → DriverStep → Option Fence → Option Reason
in_fence env p none = some Reason.geofence_not_configured
in_fence env p (some fence) =
    if is_within_geofence env (or_origin p.latitude) (or_origin p.longitude) fence
    then none
    else some Reason.outside_geofence

-- Where demo login is enabled the fence is not read.
unfoldable pub geofence_check : Env → Mission → DriverStep → Option Reason
unfolding is_within_geofence
geofence_check env mission p =
    if is_located p.step && not env.is_dev_auth_enabled
    then in_fence env p (env.geofence mission.mine_id p.step)
    else none

abbrev pub has_weights : TicketStatus → Bool
has_weights empty_registered = true
has_weights loaded_registered = true
has_weights pending_hold = true
has_weights _ = false

abbrev weights_check : Option Ticket → Option Reason
weights_check none = some Reason.weighbridge_ticket_required
weights_check (some t) =
    if has_weights t.status then none else some Reason.weighbridge_weights_required

unfoldable pub ticket_check : MissionStatus → Option Ticket → Option Reason
ticket_check step ticket = if status_eq step loaded then weights_check ticket else none

-- On arrival a mission gets a ticket, unless it has one.
unfoldable pub ensure_ticket : DriverStep → Db → Db
unfolding create_ticket
ensure_ticket p s =
    if status_eq p.step arrived
    then elim (get_ticket_by_mission_id p.mission_id s.tickets) [
      | none ↦ create_ticket p.mission_id p.ticket_suffix s
      | some _ ↦ s
    ]
    else s

abbrev step_event : DriverStep → Action (Unit {0})
step_event p =
    if status_eq p.step accepted
    then publish (Event.mission_accepted p.mission_id p.driver_id)
    else if status_eq p.step delivered
    then publish (Event.mission_delivered p.mission_id p.driver_id)
    else pure tt

unfoldable pub driver_update_step : Env → DriverStep → Action Mission
unfolding get_mission_by_id
driver_update_step env p = do
  mission ← or_refuse (← gets (get_mission_by_id p.mission_id)) Reason.mission_not_found
  refuse_if (not (mission.driver_id == p.driver_id)) Reason.forbidden
  check (validate_transition mission.status p.step driver)
  refuse_if (is_located p.step && lacks_location p) Reason.location_required
  check (geofence_check env mission p)
  check (ticket_check p.step (← gets (λ s. get_ticket_by_mission_id p.mission_id s.tickets)))
  modify (ensure_ticket p)
  updated ←
      or_refuse (← update_mission p.mission_id (status_patch p.step (completion env p.step)))
        Reason.update_failed
  step_event p
  pure updated

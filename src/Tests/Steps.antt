-- ===== src/Tests/Steps.antt =====
-- The state machine and the driver's steps at concrete inputs.
use logestic.Prelude.{ℕ, List, [], ◌∷◌, ◌≡◌, refl, ◌≢◌, ◌↔◌, none, some}
use logestic.Prelude.Int.{pos}
use logestic.Prelude.Table.{find}
use logestic.Fsm.{assigned, accepted, in_transit, delivered, driver, validate_transition}
use logestic.Fsm.Graph.{Edge, validate_transition-iff-Edge}
use logestic.Roles.{coop_admin}
use logestic.Env.{Env}
use logestic.Missions.Progress.{Moves}
use logestic.Requests.{Request, handle, request_progress}
use logestic.Store.Tables.{Mission}
use logestic.Missions.{apply_patch, status_patch, completion, update_mission}
use logestic.Missions.DriverStep.{
  DriverStep, driver_update_step, geofence_check, ticket_check, ensure_ticket,
}
use logestic.Missions.DriverStep.Laws.{Allowed, driver_step_ok}
use logestic.Tests.Data.{db_at, env, mission_at}

validate_transition-iff-Edge_example :
    (validate_transition assigned accepted driver ≡ none) ↔ Edge assigned accepted driver
validate_transition-iff-Edge_example = validate_transition-iff-Edge assigned accepted driver

abbrev to_delivered : DriverStep
to_delivered = record {
  mission_id = 2;
  driver_id = 11;
  step = delivered;
  latitude = some (pos 1);
  longitude = some (pos 1);
  ticket_suffix = 77;
}

driver_step_ok_example :
    let s' = (driver_update_step env to_delivered (db_at in_transit)).1 in
    (m : Mission) × (find 2 (db_at in_transit).missions ≡ some m)
    × (m.driver_id ≡ 11)
    × Edge m.status delivered driver
    × Allowed env to_delivered m (db_at in_transit).tickets
    × (find 2 s'.missions
        ≡ some (apply_patch (status_patch delivered (completion env delivered)) m))
    × ((j : ℕ) → j ≢ 2 → find j s'.missions ≡ find j (db_at in_transit).missions)
unfolding driver_update_step update_mission validate_transition geofence_check ticket_check
    ensure_ticket find
driver_step_ok_example =
    driver_step_ok env to_delivered (db_at in_transit)
      (apply_patch (status_patch delivered (completion env delivered)) (mission_at in_transit)) refl

abbrev step_request : Request
step_request = Request.driver_step to_delivered

request_progress_example :
    (m : Mission) × (find 2 (handle env step_request (db_at in_transit)).missions ≡ some m)
    × Moves in_transit m.status
unfolding find
request_progress_example =
    request_progress env step_request (db_at in_transit) 2 (mission_at in_transit) refl

abbrev requests : List (Env × Request)
requests =
    (env, step_request)
    ∷ (env, Request.approve 3 8 coop_admin)
    ∷ (env, Request.settle 2)
    ∷ (env, Request.settle 2)
    ∷ []

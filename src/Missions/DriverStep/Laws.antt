-- ===== src/Missions/DriverStep/Laws.antt =====
-- What a driver's step does: on success one row moves along an edge of the diagram, and a refusal
-- leaves the database as it was.
use logestic.Prelude.{
  ℕ, true, false, ◌&&◌, Option, none, some, ◌≡◌, ◌≢◌, ◌≤◌, ◌⊎◌, refl, arith, Option-cases, inl, inr,
}
use logestic.Prelude.Int.{ℤ}
use logestic.Prelude.Table.{Table, find, update, find-update_self, find-update_ne}
use logestic.Reasons.{Reason}
use logestic.Fsm.{MissionStatus, arrived, loaded, delivered, validate_transition, driver}
use logestic.Fsm.Graph.{Edge, validate_transition-iff-Edge}
use logestic.Store.{ok, refused}
use logestic.Store.Tables.{
  Db, Mission, Ticket, TicketStatus, empty_registered, loaded_registered, pending_hold,
}
use logestic.Env.{Env, Fence}
use logestic.Missions.{apply_patch, status_patch, completion, update_mission, get_mission_by_id}
use logestic.Missions.DriverStep.{
  DriverStep, driver_update_step, ensure_ticket, geofence_check, ticket_check,
  get_ticket_by_mission_id, is_located, lacks_location, has_weights, is_within_geofence,
}

pub missions-ensure_ticket : (p : DriverStep) (s : Db) → (ensure_ticket p s).missions ≡ s.missions
unfolding ensure_ticket
missions-ensure_ticket p s = ground arith

-- A refused step changes nothing.
driver_step_refused :
    (env : Env) (p : DriverStep) (s : Db) (r : Reason)
    → (driver_update_step env p s).0 ≡ refused r
    → (driver_update_step env p s).1 ≡ s
unfolding driver_update_step update_mission
driver_step_refused env p s r h = ground (arith, missions-ensure_ticket p s)

-- The guards that a step has passed, and what it has written to the missions.
record Passed (env : Env) (p : DriverStep) (s s' : Db) (m : Mission) : Type 0 where
  pub own : m.driver_id ≡ p.driver_id
  pub legal : validate_transition m.status p.step driver ≡ none
  pub located : (is_located p.step && lacks_location p) ≡ false
  pub inside : geofence_check env m p ≡ none
  pub ticketed : ticket_check p.step (get_ticket_by_mission_id p.mission_id s.tickets) ≡ none
  pub written :
      s'.missions
      ≡ update p.mission_id (apply_patch (status_patch p.step (completion env p.step))) s.missions

passed :
    (env : Env) (p : DriverStep) (s : Db) (m m' : Mission)
    → find p.mission_id s.missions ≡ some m
    → (driver_update_step env p s).0 ≡ ok m'
    → Passed env p s (driver_update_step env p s).1 m
unfolding driver_update_step update_mission get_mission_by_id
passed env p s m m' found h = ground (arith, missions-ensure_ticket p s)

not_missing :
    (env : Env) (p : DriverStep) (s : Db) (m' : Mission)
    → find p.mission_id s.missions ≡ none
    → (driver_update_step env p s).0 ≢ ok m'
unfolding driver_update_step update_mission get_mission_by_id
not_missing env p s m' missing h = ground arith

-- The position of the request.
pub record Position (p : DriverStep) (lat lng : ℤ) : Type 0 where
  pub latitude : p.latitude ≡ some lat
  pub longitude : p.longitude ≡ some lng

-- What a step needs: on an arrival or a delivery a position, and unless demo login is enabled a
-- configured fence with the position at most its radius away; on a loading a ticket of the mission with
-- weights.
pub record Allowed (env : Env) (p : DriverStep) (m : Mission) (tickets : Table Ticket)
    : Type 0 where
  pub positioned :
      (p.step ≡ arrived) ⊎ (p.step ≡ delivered) → (lat : ℤ) × (lng : ℤ) × Position p lat lng
  pub fenced :
      (p.step ≡ arrived) ⊎ (p.step ≡ delivered)
      → env.is_dev_auth_enabled ≡ false
      → (lat : ℤ) × (lng : ℤ) × (fence : Fence) × Position p lat lng
        × (env.geofence m.mine_id p.step ≡ some fence)
        × (env.haversine_distance lat lng fence.lat fence.lng ≤ fence.radius_m)
  pub weighed :
      p.step ≡ loaded
      → (t : Ticket) × (get_ticket_by_mission_id p.mission_id tickets ≡ some t)
        × ((t.status ≡ empty_registered)
            ⊎ ((t.status ≡ loaded_registered) ⊎ (t.status ≡ pending_hold)))

is_located_step :
    (step : MissionStatus) → (step ≡ arrived) ⊎ (step ≡ delivered) → is_located step ≡ true
is_located_step step (inl e) = ground (arith, e)
is_located_step step (inr e) = ground (arith, e)

located_at :
    (p : DriverStep) → lacks_location p ≡ false → (lat : ℤ) × (lng : ℤ) × Position p lat lng
located_at p h = elim (Option-cases p.latitude) [
  | inl e ↦ absurd (ground (arith, h, e))
  | inr (lat, e) ↦ elim (Option-cases p.longitude) [
    | inl e' ↦ absurd (ground (arith, h, e, e'))
    | inr (lng, e') ↦ (lat, lng, record { latitude = e; longitude = e' })
  ]
]

fence_of :
    (env : Env) (p : DriverStep) (m : Mission) (lat lng : ℤ)
    → is_located p.step ≡ true
    → env.is_dev_auth_enabled ≡ false
    → geofence_check env m p ≡ none
    → Position p lat lng
    → (fence : Fence) × (env.geofence m.mine_id p.step ≡ some fence)
      × (env.haversine_distance lat lng fence.lat fence.lng ≤ fence.radius_m)
unfolding geofence_check is_within_geofence
fence_of env p m lat lng located real clear at =
    let latitude = at.latitude in
    let longitude = at.longitude in
    elim (Option-cases (env.geofence m.mine_id p.step)) [
      | inl e ↦ absurd (ground (arith, located, real, clear, e))
      | inr (fence, e) ↦ (fence, e, ground (arith, located, real, clear, e, latitude, longitude))
    ]

ticket_of :
    (o : Option Ticket) (step : MissionStatus)
    → ticket_check step o ≡ none
    → step ≡ loaded
    → (t : Ticket) × (o ≡ some t)
      × ((t.status ≡ empty_registered)
          ⊎ ((t.status ≡ loaded_registered) ⊎ (t.status ≡ pending_hold)))
unfolding ticket_check
ticket_of none step clear e = absurd (ground (arith, clear, e))
ticket_of (some t) step clear e = (t, refl, status_of t.status (ground (arith, clear, e)))
  where
    status_of :
        (status : TicketStatus)
        → has_weights status ≡ true
        → (status ≡ empty_registered) ⊎ ((status ≡ loaded_registered) ⊎ (status ≡ pending_hold))
    status_of status h = ground (arith, h)

Passed-Allowed :
    (env : Env) (p : DriverStep) (s s' : Db) (m : Mission)
    → Passed env p s s' m
    → Allowed env p m s.tickets
Passed-Allowed env p s s' m q =
    let located = q.located in
    let position : is_located p.step ≡ true → (lat : ℤ) × (lng : ℤ) × Position p lat lng =
      λ e. located_at p (ground (arith, located, e)) in
    record {
      positioned = λ e. position (is_located_step p.step e);
      fenced = λ e real.
          let there = is_located_step p.step e in
          let (lat, lng, at) = position there in
          let (fence, found, near) = fence_of env p m lat lng there real q.inside at in
          (lat, lng, fence, at, found, near);
      weighed =
          λ e. ticket_of (get_ticket_by_mission_id p.mission_id s.tickets) p.step q.ticketed e;
    }

-- A step that goes through was asked by the mission's own driver along an edge of the diagram. An
-- arrival or a delivery has a position, which is within the radius of the configured fence unless demo
-- login is enabled, and a loading has a ticket with weights. The mission's row takes the new status,
-- and no other mission changes.
pub driver_step_ok :
    (env : Env) (p : DriverStep) (s : Db) (m' : Mission)
    → (driver_update_step env p s).0 ≡ ok m'
    → let s' = (driver_update_step env p s).1 in
      (m : Mission) × (find p.mission_id s.missions ≡ some m)
      × (m.driver_id ≡ p.driver_id)
      × Edge m.status p.step driver
      × Allowed env p m s.tickets
      × (find p.mission_id s'.missions
          ≡ some (apply_patch (status_patch p.step (completion env p.step)) m))
      × ((j : ℕ) → j ≢ p.mission_id → find j s'.missions ≡ find j s.missions)
driver_step_ok env p s m' h = elim (Option-cases (find p.mission_id s.missions)) [
  | inl missing ↦ absurd (not_missing env p s m' missing h)
  | inr (m, found) ↦
      let q = passed env p s m m' found h in
      (
        m,
        found,
        q.own,
        (validate_transition-iff-Edge m.status p.step driver).0 q.legal,
        Passed-Allowed env p s (driver_update_step env p s).1 m q,
        rw q.written (find-update_self p.mission_id _ s.missions found),
        λ j ne. rw q.written (find-update_ne j p.mission_id _ s.missions ne),
      )
]

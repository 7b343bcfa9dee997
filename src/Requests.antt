-- ===== src/Requests.antt =====
-- The requests of stores/missionStore.ts that write to the database, as one data type, and what any
-- sequence of them does to the missions.
use Prim.Native.String.{String}
use logestic.Prelude.{ℕ, ◌≤◌, Option, some, List, [], ◌∷◌, ◌≡◌, refl, arith}
use logestic.Prelude.Int.{ℤ}
use logestic.Prelude.Table.{find}
use logestic.Fsm.{MissionStatus, ordinal, settled, MissionTransitionActor}
use logestic.Fsm.Graph.{
  Edge, assign, accept, arrive, load, depart, deliver, verify, verify_by_operation,
}
use logestic.Roles.{UserRole}
use logestic.Store.Tables.{Db, Mission}
use logestic.Env.{Env}
use logestic.Missions.{transition_mission, settle_mission_from_engine}
use logestic.Missions.DriverStep.{DriverStep, driver_update_step}
use logestic.Missions.Payment.{
  hold_mission_payment, release_mission_payment, reverse_mission_payment,
  create_post_settled_adjustment,
}
use logestic.Missions.Progress.{Moves, stays, takes, Changes, unchanged, Changes-find}
use logestic.Missions.Progress.Requests.{
  transition-Changes, settle-Changes, step-Changes, kept-Changes, hold-cases, release-cases,
  reverse-cases,
}
use logestic.Weighbridge.Submit.{TicketWeights, submit_ticket_weights, weighbridge_reject_ticket}
use logestic.Weighbridge.Approve.{weighbridge_approve}
use logestic.Weighbridge.Adjust.{create_adjustment_request, approve_adjustment, reject_adjustment}
use logestic.Weighbridge.Progress.{missions-submit, missions-reject, approve-Changes}
use logestic.Weighbridge.Progress.Adjust.{adjust-Changes}
use logestic.Missions.{get_mission_by_id}
use logestic.Weighbridge.Adjust.{create_adjustment_row, update_adjustment}

pub data Request : Type 0 where
  transition : ℕ → MissionStatus → MissionTransitionActor → Request
  driver_step : DriverStep → Request
  settle : ℕ → Request
  hold release reverse : ℕ → String → ℕ → Request
  post_settled : ℕ → String → Option String → ℕ → Request
  weights : TicketWeights → Request
  approve : ℕ → ℕ → UserRole → Request
  reject : ℕ → String → ℕ → Request
  request_adjustment : ℕ → String → ℤ → ℕ → Request
  approve_adjusting : ℕ → ℕ → Request
  reject_adjusting : ℕ → String → ℕ → Request

-- The database that a request leaves, whatever its outcome. The configuration may differ from one
-- request to the next.
unfoldable pub handle : Env → Request → Db → Db
handle env (transition i to actor) s = (transition_mission env i to actor s).1
handle env (driver_step p) s = (driver_update_step env p s).1
handle env (settle i) s = (settle_mission_from_engine i s).1
handle env (hold i reason user) s = (hold_mission_payment i reason user s).1
handle env (release i reason user) s = (release_mission_payment i reason user s).1
handle env (reverse i reason user) s = (reverse_mission_payment env i reason user s).1
handle env (post_settled i reason bank user) s =
    (create_post_settled_adjustment i reason bank user s).1
handle env (weights p) s = (submit_ticket_weights env p s).1
handle env (approve i user role) s = (weighbridge_approve env i user role s).1
handle env (reject i reason user) s = (weighbridge_reject_ticket i reason user s).1
handle env (request_adjustment i reason net user) s =
    (create_adjustment_request i reason net user s).1
handle env (approve_adjusting i user) s = (approve_adjustment env i user s).1
handle env (reject_adjusting i reason user) s = (reject_adjustment i reason user s).1

unfoldable pub handle_all : List (Env × Request) → Db → Db
unfolding handle
handle_all [] s = s
handle_all ((env, r) ∷ rs) s = handle_all rs (handle env r s)

missions-post_settled :
    (i : ℕ) (reason : String) (bank : Option String) (user : ℕ) (s : Db)
    → (create_post_settled_adjustment i reason bank user s).1.missions ≡ s.missions
unfolding create_post_settled_adjustment get_mission_by_id
missions-post_settled i reason bank user s = ground arith

missions-request_adjustment :
    (i : ℕ) (reason : String) (net : ℤ) (user : ℕ) (s : Db)
    → (create_adjustment_request i reason net user s).1.missions ≡ s.missions
unfolding create_adjustment_request create_adjustment_row get_mission_by_id
missions-request_adjustment i reason net user s = ground arith

missions-reject_adjustment :
    (i : ℕ) (reason : String) (user : ℕ) (s : Db)
    → (reject_adjustment i reason user s).1.missions ≡ s.missions
unfolding reject_adjustment update_adjustment
missions-reject_adjustment i reason user s = ground arith

handle-Changes : (env : Env) (r : Request) (s : Db) → Changes s.missions (handle env r s).missions
unfolding handle
handle-Changes env (transition i to actor) s = transition-Changes env i to actor s
handle-Changes env (driver_step p) s = step-Changes env p s
handle-Changes env (settle i) s = settle-Changes i s
handle-Changes env (hold i reason user) s =
    kept-Changes _ _ i _ (λ m. refl) (hold-cases i reason user s)
handle-Changes env (release i reason user) s =
    kept-Changes _ _ i _ (λ m. refl) (release-cases i reason user s)
handle-Changes env (reverse i reason user) s =
    kept-Changes _ _ i _ (λ m. refl) (reverse-cases env i reason user s)
handle-Changes env (post_settled i reason bank user) s =
    unchanged _ _ (missions-post_settled i reason bank user s)
handle-Changes env (weights p) s = unchanged _ _ (missions-submit env p s)
handle-Changes env (approve i user role) s = approve-Changes env i user role s
handle-Changes env (reject i reason user) s = unchanged _ _ (missions-reject i reason user s)
handle-Changes env (request_adjustment i reason net user) s =
    unchanged _ _ (missions-request_adjustment i reason net user s)
handle-Changes env (approve_adjusting i user) s = adjust-Changes env i user s
handle-Changes env (reject_adjusting i reason user) s =
    unchanged _ _ (missions-reject_adjustment i reason user s)

-- No request loses a mission, and whatever its outcome every mission's status stays or moves along one
-- edge of the diagram.
pub request_progress :
    (env : Env) (r : Request) (s : Db) (j : ℕ) (m : Mission)
    → find j s.missions ≡ some m
    → (m' : Mission) × (find j (handle env r s).missions ≡ some m') × Moves m.status m'.status
request_progress env r s j m found = Changes-find _ _ (handle-Changes env r s) j m found

ordinal-Moves : {a b : MissionStatus} → Moves a b → ordinal a ≤ ordinal b
ordinal-Moves stays = omega arith
ordinal-Moves (takes actor assign) = omega arith
ordinal-Moves (takes actor accept) = omega arith
ordinal-Moves (takes actor arrive) = omega arith
ordinal-Moves (takes actor load) = omega arith
ordinal-Moves (takes actor depart) = omega arith
ordinal-Moves (takes actor deliver) = omega arith
ordinal-Moves (takes actor verify) = omega arith
ordinal-Moves (takes actor verify_by_operation) = omega arith
ordinal-Moves (takes actor Edge.settle) = omega arith

settled-Moves : {a b : MissionStatus} → Moves a b → a ≡ settled → b ≡ settled
settled-Moves stays e = e
settled-Moves (takes actor assign) e = cc
settled-Moves (takes actor accept) e = cc
settled-Moves (takes actor arrive) e = cc
settled-Moves (takes actor load) e = cc
settled-Moves (takes actor depart) e = cc
settled-Moves (takes actor deliver) e = cc
settled-Moves (takes actor verify) e = cc
settled-Moves (takes actor verify_by_operation) e = cc
settled-Moves (takes actor Edge.settle) e = refl

-- Both invariants of a sequence at once.
progress_all :
    (rs : List (Env × Request)) (s : Db) (j : ℕ) (m : Mission)
    → find j s.missions ≡ some m
    → (m' : Mission) × (find j (handle_all rs s).missions ≡ some m')
      × (ordinal m.status ≤ ordinal m'.status)
      × (m.status ≡ settled → m'.status ≡ settled)
unfolding handle_all
progress_all [] s j m found = (m, found, omega arith, λ e. e)
progress_all ((env, r) ∷ rs) s j m found =
    let (m1, found1, move) = request_progress env r s j m found in
    let (m', found', later, final) = progress_all rs (handle env r s) j m1 found1 in
    (m', found', omega (arith, ordinal-Moves move, later), λ e. final (settled-Moves move e))

-- Over any sequence of requests, each under a configuration of its own and with any outcome, no mission
-- is lost and none goes back in the order of the statuses.
requests_progress :
    (rs : List (Env × Request)) (s : Db) (j : ℕ) (m : Mission)
    → find j s.missions ≡ some m
    → (m' : Mission) × (find j (handle_all rs s).missions ≡ some m')
      × (ordinal m.status ≤ ordinal m'.status)
requests_progress rs s j m found =
    let (m', found', later, _) = progress_all rs s j m found in (m', found', later)

-- Over any sequence of requests a settled mission stays settled.
settled_stays :
    (rs : List (Env × Request)) (s : Db) (j : ℕ) (m : Mission)
    → find j s.missions ≡ some m
    → m.status ≡ settled
    → (m' : Mission) × (find j (handle_all rs s).missions ≡ some m') × (m'.status ≡ settled)
settled_stays rs s j m found e =
    let (m', found', _, final) = progress_all rs s j m found in (m', found', final e)

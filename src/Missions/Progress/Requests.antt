-- ===== src/Missions/Progress/Requests.antt =====
-- The requests on missions and on their payments, each as a change of the table of missions.
use Prim.Native.String.{String}
use logestic.Prelude.{ℕ, none, some, ◌≡◌, ◌⊎◌, inl, inr, arith, Option-cases, Bool-cases}
use logestic.Prelude.Table.{Table, find, update}
use logestic.Fsm.{
  MissionStatus, MissionTransitionActor, validate_transition, settled, settlement_engine, verified,
  status_eq, driver,
}
use logestic.Fsm.Graph.{validate_transition-iff-Edge}
use logestic.Store.Tables.{Db, Mission, held, distributed, failed}
use logestic.Missions.Payment.{
  hold_mission_payment, release_mission_payment, reverse_mission_payment,
}
use logestic.Env.{Env}
use logestic.Missions.{
  transition_mission, settle_mission_from_engine, settle_verified_mission, update_mission,
  get_mission_by_id, apply_patch, status_patch, completion, settled_patch, payment_patch,
}
use logestic.Missions.DriverStep.{DriverStep, driver_update_step}
use logestic.Missions.DriverStep.Laws.{missions-ensure_ticket}
use logestic.Reasons.{Reason}
use logestic.Missions.Progress.{rewrites_row, stays, takes, Changes, same, rewrites}

transition-cases :
    (env : Env) (i : ℕ) (to : MissionStatus) (actor : MissionTransitionActor) (s : Db) (m : Mission)
    → find i s.missions ≡ some m
    → ((transition_mission env i to actor s).1.missions ≡ s.missions)
      ⊎ ((validate_transition m.status to actor ≡ none)
          × ((transition_mission env i to actor s).1.missions
              ≡ update i (apply_patch (status_patch to (completion env to))) s.missions))
unfolding transition_mission update_mission get_mission_by_id
transition-cases env i to actor s m found =
    elim (Option-cases (validate_transition m.status to actor)) [
      | inl legal ↦ inr (legal, ground arith)
      | inr (r, illegal) ↦ inl (ground arith)
    ]

transition-missing :
    (env : Env) (i : ℕ) (to : MissionStatus) (actor : MissionTransitionActor) (s : Db)
    → find i s.missions ≡ none
    → (transition_mission env i to actor s).1.missions ≡ s.missions
unfolding transition_mission get_mission_by_id
transition-missing env i to actor s missing = ground arith

pub transition-Changes :
    (env : Env) (i : ℕ) (to : MissionStatus) (actor : MissionTransitionActor) (s : Db)
    → Changes s.missions (transition_mission env i to actor s).1.missions
transition-Changes env i to actor s = elim (Option-cases (find i s.missions)) [
  | inl missing ↦ rw (transition-missing env i to actor s missing) same
  | inr (m, found) ↦ elim (transition-cases env i to actor s m found) [
    | inl unchanged ↦ rw unchanged same
    | inr (legal, written) ↦ rw written (
        rewrites_row s.missions i (apply_patch (status_patch to (completion env to))) m found
          (takes actor ((validate_transition-iff-Edge m.status to actor).0 legal)))
  ]
]

-- A request that rewrites a mission without its status, or does not rewrite it.
pub kept-Changes :
    (ms ms' : Table Mission) (i : ℕ) (f : Mission → Mission)
    → ((m : Mission) → (f m).status ≡ m.status)
    → (ms' ≡ ms) ⊎ (ms' ≡ update i f ms)
    → Changes ms ms'
kept-Changes ms ms' i f keeps (inl e) = rw e same
kept-Changes ms ms' i f keeps (inr e) = rw e (rewrites i f (λ m _. rw (keeps m) stays))

pub hold-cases :
    (i : ℕ) (reason : String) (user : ℕ) (s : Db)
    → let ms' = (hold_mission_payment i reason user s).1.missions in
      (ms' ≡ s.missions) ⊎ (ms' ≡ update i (apply_patch (payment_patch held)) s.missions)
unfolding hold_mission_payment update_mission get_mission_by_id
hold-cases i reason user s = ground arith

pub release-cases :
    (i : ℕ) (reason : String) (user : ℕ) (s : Db)
    → let ms' = (release_mission_payment i reason user s).1.missions in
      (ms' ≡ s.missions) ⊎ (ms' ≡ update i (apply_patch (payment_patch distributed)) s.missions)
unfolding release_mission_payment update_mission get_mission_by_id
release-cases i reason user s = ground arith

pub reverse-cases :
    (env : Env) (i : ℕ) (reason : String) (user : ℕ) (s : Db)
    → let ms' = (reverse_mission_payment env i reason user s).1.missions in
      (ms' ≡ s.missions) ⊎ (ms' ≡ update i (apply_patch (payment_patch failed)) s.missions)
unfolding reverse_mission_payment update_mission get_mission_by_id
reverse-cases env i reason user s = ground arith

settle-missing :
    (i : ℕ) (s : Db)
    → find i s.missions ≡ none
    → (settle_mission_from_engine i s).1.missions ≡ s.missions
unfolding settle_mission_from_engine get_mission_by_id
settle-missing i s missing = ground arith

settle-cases :
    (i : ℕ) (s : Db) (m : Mission)
    → find i s.missions ≡ some m
    → ((settle_mission_from_engine i s).1.missions ≡ s.missions)
      ⊎ ((validate_transition m.status settled settlement_engine ≡ none)
          × ((settle_mission_from_engine i s).1.missions
              ≡ update i (apply_patch settled_patch) s.missions))
unfolding settle_mission_from_engine settle_verified_mission update_mission get_mission_by_id
settle-cases i s m found =
    elim (Option-cases (validate_transition m.status settled settlement_engine)) [
      | inl legal ↦ elim (Bool-cases (status_eq m.status verified)) [
        | inl e ↦ inr (legal, ground arith)
        | inr e ↦ inl (ground arith)
      ]
      | inr (r, illegal) ↦ inl (ground arith)
    ]

pub settle-Changes :
    (i : ℕ) (s : Db) → Changes s.missions (settle_mission_from_engine i s).1.missions
settle-Changes i s = elim (Option-cases (find i s.missions)) [
  | inl missing ↦ rw (settle-missing i s missing) same
  | inr (m, found) ↦ elim (settle-cases i s m found) [
    | inl unchanged ↦ rw unchanged same
    | inr (legal, written) ↦ rw written (
        rewrites_row s.missions i (apply_patch settled_patch) m found (
          takes settlement_engine
            ((validate_transition-iff-Edge m.status settled settlement_engine).0 legal)))
  ]
]

step-missing :
    (env : Env) (p : DriverStep) (s : Db)
    → find p.mission_id s.missions ≡ none
    → (driver_update_step env p s).1.missions ≡ s.missions
unfolding driver_update_step get_mission_by_id
step-missing env p s missing = ground arith

step-illegal :
    (env : Env) (p : DriverStep) (s : Db) (m : Mission) (r : Reason)
    → find p.mission_id s.missions ≡ some m
    → validate_transition m.status p.step driver ≡ some r
    → (driver_update_step env p s).1.missions ≡ s.missions
unfolding driver_update_step get_mission_by_id
step-illegal env p s m r found illegal = ground arith

step-cases :
    (env : Env) (p : DriverStep) (s : Db)
    → let ms' = (driver_update_step env p s).1.missions in
      (ms' ≡ s.missions)
      ⊎ (ms'
          ≡ update p.mission_id
              (apply_patch (status_patch p.step (completion env p.step)))
              s.missions)
unfolding driver_update_step update_mission get_mission_by_id
step-cases env p s = ground (arith, missions-ensure_ticket p s)

pub step-Changes :
    (env : Env) (p : DriverStep) (s : Db)
    → Changes s.missions (driver_update_step env p s).1.missions
step-Changes env p s = elim (Option-cases (find p.mission_id s.missions)) [
  | inl missing ↦ rw (step-missing env p s missing) same
  | inr (m, found) ↦ elim (Option-cases (validate_transition m.status p.step driver)) [
    | inr (r, illegal) ↦ rw (step-illegal env p s m r found illegal) same
    | inl legal ↦ elim (step-cases env p s) [
      | inl unchanged ↦ rw unchanged same
      | inr written ↦ rw written (
          rewrites_row s.missions p.mission_id _ m found
            (takes driver ((validate_transition-iff-Edge m.status p.step driver).0 legal)))
    ]
  ]
]

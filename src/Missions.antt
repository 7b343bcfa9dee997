-- ===== src/Missions.antt =====
-- The mission requests of apps/backend/src/stores/missionStore.ts over the repositories
-- missionsRepository.ts and loadsRepository.ts: status steps by the dispatcher, the driver and the
-- settlement engine, and the payment's hold, release and reversal.
pub mod DriverStep
pub mod Payment
pub mod Progress
use Prim.Native.String.{String}
use logestic.Prelude.{
  ℕ, ◌-◌, Bool, true, false, not, ◌&&◌, ◌||◌, Option, none, some, List, [], ◌∷◌, ◌==◌, ltb, leb,
  if◌then◌else◌,
}
use logestic.Prelude.Int.{ℤ, pos}
use logestic.Prelude.Table.{Table, find, update, next_id, insert}
use logestic.Reasons.{Reason, Fault, record_not_found, rule_not_configured}
use logestic.Fsm.{
  MissionStatus, assigned, accepted, arrived, loaded, delivered, verified, settled,
  MissionTransitionActor, dispatch, driver, settlement_engine, status_eq, validate_transition,
}
use logestic.Store.{
  Outcome, Action, ◌>>=◌, ◌>>◌, pure, refuse, throw, gets, or_refuse, or_throw, refuse_if, modify,
}
use logestic.Store.Tables.{
  Db, Mission, Ticket, TicketStatus, PaymentState, AuditLog, AuditField, Event,
}
use logestic.Env.{Env, Fence}

-- `publishEvent` persists the event.
abbrev pub publish : Event → Action (Unit {0})
publish e = modify (λ s. record s { events = e ∷ s.events })

abbrev pub record_audit : AuditLog → Action (Unit {0})
record_audit a = modify (λ s. record s { audits = a ∷ s.audits })

-- The data of `updateMission`; an absent field stays as it is.
pub record MissionPatch : Type 0 where
  pub status : Option MissionStatus
  pub payment_state : Option PaymentState
  pub completed_at : Option ℕ

abbrev or_keep {ℓ} : {A : Type ℓ} → Option A → A → A
or_keep none old = old
or_keep (some new) old = new

abbrev or_keep_some : Option ℕ → Option ℕ → Option ℕ
or_keep_some none old = old
or_keep_some (some new) old = some new

abbrev pub apply_patch : MissionPatch → Mission → Mission
apply_patch d m = record m {
  status = or_keep d.status m.status;
  payment_state = or_keep d.payment_state m.payment_state;
  completed_at = or_keep_some d.completed_at m.completed_at;
}

abbrev pub status_patch : MissionStatus → Option ℕ → MissionPatch
status_patch to completed = record {
  status = some to;
  payment_state = none;
  completed_at = completed;
}

abbrev pub payment_patch : PaymentState → MissionPatch
payment_patch p = record { status = none; payment_state = some p; completed_at = none }

abbrev pub settled_patch : MissionPatch
settled_patch = record {
  status = some settled;
  payment_state = some PaymentState.settled;
  completed_at = none;
}

unfoldable pub get_mission_by_id : ℕ → Db → Option Mission
get_mission_by_id i s = find i s.missions

-- `updateMission`: null where the row is not there.
unfoldable pub update_mission : ℕ → MissionPatch → Action (Option Mission)
update_mission i d s = elim (find i s.missions) [
  | none ↦ (Outcome.ok none, s)
  | some m ↦ (
    Outcome.ok (some (apply_patch d m)),
    record s { missions = update i (apply_patch d) s.missions },
  )
]

-- `assignMissionFromDispatch`
unfoldable pub assign_mission_from_dispatch : ℕ → Action (Option Mission)
unfolding update_mission
assign_mission_from_dispatch i s = elim (find i s.missions) [
  | none ↦ (Outcome.ok none, s)
  | some m ↦
      if status_eq m.status MissionStatus.created
      then update_mission i (status_patch assigned none) s
      else (Outcome.ok none, s)
]

-- `settleVerifiedMission`
unfoldable pub settle_verified_mission : ℕ → Action (Option Mission)
unfolding update_mission
settle_verified_mission i s = elim (find i s.missions) [
  | none ↦ (Outcome.ok none, s)
  | some m ↦
      if status_eq m.status verified then update_mission i settled_patch s else (Outcome.ok none, s)
]

abbrev pub check : Option Reason → Action (Unit {0})
check none = pure tt
check (some r) = refuse r

module _ (env : Env) where
  abbrev pub completion : MissionStatus → Option ℕ
  completion to = if status_eq to delivered then some env.now else none

  unfoldable pub transition_mission : ℕ → MissionStatus → MissionTransitionActor → Action Mission
  unfolding get_mission_by_id update_mission
  transition_mission i to actor = do
    mission ← or_refuse (← gets (get_mission_by_id i)) Reason.mission_not_found
    check (validate_transition mission.status to actor)
    or_refuse (← update_mission i (status_patch to (completion to))) Reason.update_failed

  unfoldable pub system_assign_mission : ℕ → Action Mission
  unfolding transition_mission
  system_assign_mission i = transition_mission i assigned dispatch

unfoldable pub settle_mission_from_engine : ℕ → Action Mission
unfolding get_mission_by_id settle_verified_mission
settle_mission_from_engine i = do
  row ← or_refuse (← gets (get_mission_by_id i)) Reason.mission_not_found
  check (validate_transition row.status settled settlement_engine)
  updated ← or_refuse (← settle_verified_mission i) Reason.update_failed
  publish (Event.mission_settled i)
  pure updated

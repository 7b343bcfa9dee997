-- ===== src/Fsm.antt =====
-- The mission state machine of apps/backend/src/lib/missionFsm.ts: the chain of statuses, who may
-- take each edge, and the emergency cancellation before a re-dispatch.
use logestic.Prelude.{
  ℕ, Bool, true, false, Option, none, some, List, [], ◌∷◌, any, ◌&&◌, ◌||◌, ◌==◌, if◌then◌else◌,
}
use logestic.Reasons.{Reason}
pub mod Graph

-- `MissionStatus` of the database schema, in the order of `MISSION_STATUSES`.
pub data MissionStatus : Type 0 where
  created assigned accepted arrived loaded in_transit delivered verified settled cancelled :
      MissionStatus

pub data MissionTransitionActor : Type 0 where
  dispatch driver coop_admin operation_admin settlement_engine : MissionTransitionActor

abbrev pub ordinal : MissionStatus → ℕ
ordinal created = 0
ordinal assigned = 1
ordinal accepted = 2
ordinal arrived = 3
ordinal loaded = 4
ordinal in_transit = 5
ordinal delivered = 6
ordinal verified = 7
ordinal settled = 8
ordinal cancelled = 9

abbrev actor_ordinal : MissionTransitionActor → ℕ
actor_ordinal dispatch = 0
actor_ordinal driver = 1
actor_ordinal coop_admin = 2
actor_ordinal operation_admin = 3
actor_ordinal settlement_engine = 4

-- `===` on the literal types.
abbrev pub status_eq : MissionStatus → MissionStatus → Bool
status_eq a b = ordinal a == ordinal b

abbrev pub actor_eq : MissionTransitionActor → MissionTransitionActor → Bool
actor_eq a b = actor_ordinal a == actor_ordinal b

abbrev pub mission_statuses : List MissionStatus
mission_statuses =
    created ∷ assigned ∷ accepted ∷ arrived ∷ loaded ∷ in_transit ∷ delivered ∷ verified ∷ settled
    ∷ cancelled ∷ []

abbrev pub redispatch_cancellable_statuses : List MissionStatus
redispatch_cancellable_statuses = assigned ∷ accepted ∷ arrived ∷ loaded ∷ in_transit ∷ []

abbrev pub redispatch_blocked_statuses : List MissionStatus
redispatch_blocked_statuses = verified ∷ settled ∷ []

abbrev pub active_mission_statuses : List MissionStatus
active_mission_statuses = assigned ∷ accepted ∷ arrived ∷ loaded ∷ in_transit ∷ delivered ∷ []

-- `xs.includes(s)`
abbrev pub includes : List MissionStatus → MissionStatus → Bool
includes xs s = any (status_eq s) xs

-- `NEXT_STATUS`
abbrev next_status : MissionStatus → Option MissionStatus
next_status created = some assigned
next_status assigned = some accepted
next_status accepted = some arrived
next_status arrived = some loaded
next_status loaded = some in_transit
next_status in_transit = some delivered
next_status delivered = some verified
next_status verified = some settled
next_status settled = none
next_status cancelled = none

-- `ACTOR_FOR_EDGE`, a table keyed by "FROM->TO".
actor_for_edge : MissionStatus → MissionStatus → Option MissionTransitionActor
actor_for_edge created assigned = some dispatch
actor_for_edge assigned accepted = some driver
actor_for_edge accepted arrived = some driver
actor_for_edge arrived loaded = some driver
actor_for_edge loaded in_transit = some driver
actor_for_edge in_transit delivered = some driver
actor_for_edge delivered verified = some coop_admin
actor_for_edge verified settled = some settlement_engine
actor_for_edge _ _ = none

-- `DRIVER_STEP_TARGETS`
abbrev pub driver_step_targets : List MissionStatus
driver_step_targets = accepted ∷ arrived ∷ loaded ∷ in_transit ∷ delivered ∷ []

pub expected_next : MissionStatus → Option MissionStatus
expected_next from = next_status from

pub actor_for_transition : MissionStatus → MissionStatus → Option MissionTransitionActor
unfolding actor_for_edge
actor_for_transition from to = actor_for_edge from to

pub is_legal_transition : MissionStatus → MissionStatus → Bool
unfolding expected_next
is_legal_transition from to = elim (expected_next from) [
  | none ↦ false
  | some next ↦ status_eq next to
]

-- The two tests of `canActorTransition` on the actor of the edge.
abbrev actor_allowed : Option MissionTransitionActor → MissionTransitionActor → Bool
actor_allowed none actor = false
actor_allowed (some edge_actor) actor =
    if actor_eq edge_actor actor
    then true
    else if actor_eq edge_actor coop_admin
        && (actor_eq actor coop_admin || actor_eq actor operation_admin)
    then true
    else false

pub can_actor_transition : MissionStatus → MissionStatus → MissionTransitionActor → Bool
unfolding is_legal_transition actor_for_transition
can_actor_transition from to actor =
    if is_legal_transition from to
    then actor_allowed (actor_for_transition from to) actor
    else false

-- `none` is `{ ok: true }`.
unfoldable pub validate_transition :
    MissionStatus → MissionStatus → MissionTransitionActor → Option Reason
unfolding can_actor_transition
validate_transition from to actor =
    if can_actor_transition from to actor then none else some Reason.invalid_transition

pub can_redispatch_cancel : MissionStatus → Bool
can_redispatch_cancel from = includes redispatch_cancellable_statuses from

unfoldable pub validate_redispatch_cancel : MissionStatus → MissionTransitionActor → Option Reason
unfolding can_redispatch_cancel
validate_redispatch_cancel from actor =
    if includes redispatch_blocked_statuses from
    then some Reason.mission_not_redispatchable
    else if can_redispatch_cancel from
    then (if actor_eq actor operation_admin then none else some Reason.invalid_transition)
    else some Reason.invalid_transition

-- The `continue` of a terminal status, and the test on the actor.
abbrev edge_from :
    MissionStatus
    → Option MissionStatus
    → List (MissionStatus × MissionStatus × MissionTransitionActor)
edge_from from none = []
edge_from from (some to) = elim (actor_for_transition from to) [
  | none ↦ []
  | some actor ↦ (from, to, actor) ∷ []
]

abbrev append_edges :
    List (MissionStatus × MissionStatus × MissionTransitionActor)
    → List (MissionStatus × MissionStatus × MissionTransitionActor)
    → List (MissionStatus × MissionStatus × MissionTransitionActor)
append_edges [] ys = ys
append_edges (x ∷ xs) ys = x ∷ append_edges xs ys

pub legal_transitions_from :
    List MissionStatus → List (MissionStatus × MissionStatus × MissionTransitionActor)
unfolding expected_next actor_for_transition
legal_transitions_from [] = []
legal_transitions_from (from ∷ rest) =
    append_edges (edge_from from (expected_next from)) (legal_transitions_from rest)

pub all_legal_transitions : List (MissionStatus × MissionStatus × MissionTransitionActor)
unfolding legal_transitions_from
all_legal_transitions = legal_transitions_from mission_statuses

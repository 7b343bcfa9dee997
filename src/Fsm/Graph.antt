-- ===== src/Fsm/Graph.antt =====
-- The state machine of missions against its diagram: an inductive relation of the eight edges
-- with the actors that may take them.
use logestic.Prelude.{◌≡◌, refl, ◌↔◌, none}
use logestic.Fsm.{
  MissionStatus, created, assigned, accepted, arrived, loaded, in_transit, delivered, verified,
  settled, MissionTransitionActor, dispatch, driver, coop_admin, operation_admin, settlement_engine,
  validate_transition,
}

-- The diagram: `Edge s t a` when the actor `a` may move a mission from `s` to `t`.
pub data Edge : MissionStatus → MissionStatus → MissionTransitionActor → Type 0 where
  assign : Edge created assigned dispatch
  accept : Edge assigned accepted driver
  arrive : Edge accepted arrived driver
  load : Edge arrived loaded driver
  depart : Edge loaded in_transit driver
  deliver : Edge in_transit delivered driver
  verify : Edge delivered verified coop_admin
  verify_by_operation : Edge delivered verified operation_admin
  settle : Edge verified settled settlement_engine

pub ruleset edges =
    (assign, accept, arrive, load, depart, deliver, verify, verify_by_operation, settle)

Edge_of_valid :
    (s t : MissionStatus) (a : MissionTransitionActor)
    → validate_transition s t a ≡ none
    → Edge s t a
unfolding validate_transition
Edge_of_valid created assigned dispatch h = assign
Edge_of_valid assigned accepted driver h = accept
Edge_of_valid accepted arrived driver h = arrive
Edge_of_valid arrived loaded driver h = load
Edge_of_valid loaded in_transit driver h = depart
Edge_of_valid in_transit delivered driver h = deliver
Edge_of_valid delivered verified coop_admin h = verify
Edge_of_valid delivered verified operation_admin h = verify_by_operation
Edge_of_valid verified settled settlement_engine h = settle
Edge_of_valid _ _ _ h = cc

valid_of_Edge :
    {s t : MissionStatus} {a : MissionTransitionActor}
    → Edge s t a
    → validate_transition s t a ≡ none
unfolding validate_transition
valid_of_Edge assign = refl
valid_of_Edge accept = refl
valid_of_Edge arrive = refl
valid_of_Edge load = refl
valid_of_Edge depart = refl
valid_of_Edge deliver = refl
valid_of_Edge verify = refl
valid_of_Edge verify_by_operation = refl
valid_of_Edge settle = refl

-- `validateTransition` accepts a change of status by an actor exactly when the diagram has that
-- edge for that actor.
pub validate_transition-iff-Edge :
    (s t : MissionStatus) (a : MissionTransitionActor)
    → (validate_transition s t a ≡ none) ↔ Edge s t a
validate_transition-iff-Edge s t a = (Edge_of_valid s t a, valid_of_Edge)

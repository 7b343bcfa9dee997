-- ===== src/Weighbridge/Submit/Errors.antt =====
-- Weights that are refused, or that throw, leave the database as it was.
use logestic.Prelude.{Bool, ◌≡◌, ◌⊎◌, arith}
use logestic.Reasons.{Reason, Fault}
use logestic.Store.{ok, refused, throws}
use logestic.Store.Atomic.{ok_or_unchanged}
use logestic.Store.Tables.{Db, Ticket}
use logestic.Env.{Env}
use logestic.Missions.{get_mission_by_id}
use logestic.Weighbridge.Submit.{TicketWeights, submit_ticket_weights, update_ticket}

submit_refused :
    (env : Env) (p : TicketWeights) (s : Db) (r : Reason)
    → (submit_ticket_weights env p s).0 ≡ refused r
    → (submit_ticket_weights env p s).1 ≡ s
unfolding submit_ticket_weights update_ticket get_mission_by_id
submit_refused env p s r h = ground arith

submit_throws :
    (env : Env) (p : TicketWeights) (s : Db) (e : Fault)
    → (submit_ticket_weights env p s).0 ≡ throws e
    → (submit_ticket_weights env p s).1 ≡ s
unfolding submit_ticket_weights update_ticket get_mission_by_id
submit_throws env p s e h = ground arith

-- Weights are taken, or the database is as it was, whatever the request is refused for or throws.
submit_atomic :
    (env : Env) (p : TicketWeights) (s : Db)
    → let (outcome, s') = submit_ticket_weights env p s in
      ((r : Ticket × Bool) × (outcome ≡ ok r)) ⊎ (s' ≡ s)
submit_atomic env p s =
    ok_or_unchanged (submit_ticket_weights env p s) (submit_refused env p s) (submit_throws env p s)

-- ===== src/Weighbridge/Submit/Laws.antt =====
-- What the weights of a ticket and its rejection do: on success one ticket changes, and everything
-- else leaves the database as it was.
use Prim.Native.String.{String}
use logestic.Prelude.{
  ℕ, Bool, true, false, none, some, ◌≡◌, ◌≢◌, refl, arith, Option-cases, inl, inr,
}
use logestic.Prelude.Int.{pos, ltb_ℤ, leb_ℤ}
use logestic.Prelude.Table.{find, update, find-update_self}
use logestic.Reasons.{Reason}
use logestic.Roles.{UserRole, normalize_role, is_operation_admin}
use logestic.Store.{ok, refused}
use logestic.Store.Tables.{Db, Ticket, rejected}
use logestic.Env.{Env}
use logestic.Missions.{get_mission_by_id}
use logestic.Weighbridge.Submit.{
  TicketWeights, is_manual, takes_weights, next_ticket_status, weigh, submit_ticket_weights,
  update_ticket, update_ticket_row, weighbridge_reject_ticket, is_credited, reject,
}
use logestic.Weighbridge.Approve.{weighbridge_approve, is_weighed}

-- The guards that a submission of weights has passed, and what it wrote to the tickets.
record Passed (p : TicketWeights) (s s' : Db) (t t' : Ticket) (anomaly : Bool) : Type 0 where
  pub unweighed : takes_weights t.status ≡ true
  pub empty_known : ltb_ℤ p.empty_weight (pos 0) ≡ false
  pub order : leb_ℤ p.loaded_weight p.empty_weight ≡ false
  pub written :
      s'.tickets
      ≡ update p.ticket_id (weigh p (next_ticket_status p.entry_source anomaly)) s.tickets
  pub result : t' ≡ weigh p (next_ticket_status p.entry_source anomaly) t
  pub missions : s'.missions ≡ s.missions
  pub transactions : s'.transactions ≡ s.transactions

passed :
    (env : Env) (p : TicketWeights) (s : Db) (t t' : Ticket) (anomaly : Bool)
    → find p.ticket_id s.tickets ≡ some t
    → (submit_ticket_weights env p s).0 ≡ ok (t', anomaly)
    → Passed p s (submit_ticket_weights env p s).1 t t' anomaly
unfolding submit_ticket_weights update_ticket get_mission_by_id
passed env p s t t' anomaly found h = ground arith

missing :
    (env : Env) (p : TicketWeights) (s : Db) (r : Ticket × Bool)
    → find p.ticket_id s.tickets ≡ none
    → (submit_ticket_weights env p s).0 ≢ ok r
unfolding submit_ticket_weights
missing env p s r h e = ground arith

supervision :
    (env : Env) (i user : ℕ) (role : UserRole) (s : Db) (t : Ticket)
    → find i s.tickets ≡ some t
    → is_weighed t.status ≡ true
    → t.requires_supervisor_approve ≡ true
    → is_operation_admin (normalize_role role) ≡ false
    → weighbridge_approve env i user role s ≡ (refused Reason.supervisor_approval_required, s)
unfolding weighbridge_approve
supervision env i user role s t found w r o = ground arith

held_manual :
    (p : TicketWeights) (t : Ticket) (anomaly : Bool)
    → is_manual p.entry_source ≡ true
    → is_weighed (weigh p (next_ticket_status p.entry_source anomaly) t).status ≡ true
held_manual p t anomaly m = rw m refl

-- A ticket with weights typed in by hand is approved by an operation administrator only: every other
-- role is refused, and the database stays as it is.
manual_supervised :
    (env : Env) (p : TicketWeights) (s : Db) (t' : Ticket) (anomaly : Bool)
    → (submit_ticket_weights env p s).0 ≡ ok (t', anomaly)
    → is_manual p.entry_source ≡ true
    → (env' : Env) (user : ℕ) (role : UserRole) → is_operation_admin (normalize_role role) ≡ false
    → let s' = (submit_ticket_weights env p s).1 in
      weighbridge_approve env' p.ticket_id user role s'
      ≡ (refused Reason.supervisor_approval_required, s')
manual_supervised env p s t' anomaly h m env' user role o =
    elim (Option-cases (find p.ticket_id s.tickets)) [
      | inl none_there ↦ absurd (missing env p s (t', anomaly) none_there h)
      | inr (t, found) ↦
          let q = passed env p s t t' anomaly found h in
          let f = weigh p (next_ticket_status p.entry_source anomaly) in
          supervision env' p.ticket_id user role _ (f t)
            (rw q.written (find-update_self p.ticket_id f s.tickets found))
            (held_manual p t anomaly m) m o
    ]

rejection :
    (i : ℕ) (reason : String) (user : ℕ) (s : Db)
    → (weighbridge_reject_ticket i reason user s).0 ≡ ok tt
    → (t : Ticket) × (find i s.tickets ≡ some t)
      × (is_credited t.status ≡ false)
      × ((weighbridge_reject_ticket i reason user s).1.tickets ≡ update i reject s.tickets)
unfolding weighbridge_reject_ticket update_ticket_row
rejection i reason user s h = elim (Option-cases (find i s.tickets)) [
  | inl none_there ↦ absurd (ground arith)
  | inr (t, found) ↦ (t, found, ground arith, ground arith)
]

refused_rejected :
    (env : Env) (i user : ℕ) (role : UserRole) (s : Db) (t : Ticket)
    → find i s.tickets ≡ some t
    → t.status ≡ rejected
    → weighbridge_approve env i user role s ≡ (refused Reason.ticket_rejected, s)
unfolding weighbridge_approve
refused_rejected env i user role s t found e = ground arith

-- A ticket that has been rejected had not been credited, and is not credited later: whoever approves it
-- is refused, and the database stays as it is.
rejected_not_approved :
    (i : ℕ) (reason : String) (user : ℕ) (s : Db)
    → (weighbridge_reject_ticket i reason user s).0 ≡ ok tt
    → (env : Env) (user' : ℕ) (role : UserRole)
    → let s' = (weighbridge_reject_ticket i reason user s).1 in
      ((t : Ticket) × (find i s.tickets ≡ some t) × (is_credited t.status ≡ false))
      × (weighbridge_approve env i user' role s' ≡ (refused Reason.ticket_rejected, s'))
rejected_not_approved i reason user s h env user' role =
    let (t, found, uncredited, written) = rejection i reason user s h in
    (
      (t, found, uncredited),
      refused_rejected env i user' role _ (reject t)
          (rw written (find-update_self i reject s.tickets found)) refl,
    )

-- ===== src/Weighbridge/Approve/Credits.antt =====
-- An approval credits the fare of its mission once.
use logestic.Prelude.{ℕ, false, ◌*◌, ◌≤◌, some, ◌≡◌, refl, arith}
use logestic.Prelude.Int.{ℤ, pos}
use logestic.Prelude.Table.{find, find-update_self}
use logestic.Reasons.{Reason}
use logestic.Fsm.{verified}
use logestic.Roles.{UserRole}
use logestic.Store.{ok, refused}
use logestic.Store.Tables.{Db, Ticket, approved, Mission, Load, distributed}
use logestic.Ledger.Policy.{FinancePolicy}
use logestic.Ledger.Split.{MissionSplitResult, record_contribution}
use logestic.Ledger.Split.Conserves.{Credited, after_split-Credited}
use logestic.Ledger.Split.Effect.{split_result, tickets-after_split}
use logestic.Env.{Env, Party, Fare}
use logestic.Weighbridge.Approve.{weighbridge_approve, approve_ticket, verify}
use logestic.Weighbridge.Approve.Effect.{
  Approvable, params_of, verified_db, weighbridge_approve-ok, after_approve,
}

already_approved :
    (env : Env) (i user : ℕ) (role : UserRole) (s : Db) (t : Ticket)
    → find i s.tickets ≡ some t
    → t.status ≡ approved
    → weighbridge_approve env i user role s ≡ (refused Reason.already_approved, s)
unfolding weighbridge_approve
already_approved env i user role s t found e = ground arith

-- The rows of the ticket `i` and its mission after an approval by `user` at the time `now`.
pub record Approved (now i user mission : ℕ) (net : ℤ) (s : Db) : Type 0 where
  pub ticket : Ticket
  pub ticket_row : find i s.tickets ≡ some ticket
  pub is_approved : ticket.status ≡ approved
  pub approver : ticket.approved_by_user_id ≡ some user
  pub no_supervision : ticket.requires_supervisor_approve ≡ false
  pub row : Mission
  pub mission_row : find mission s.missions ≡ some row
  pub is_verified : row.status ≡ verified
  pub is_distributed : row.payment_state ≡ distributed
  pub at : row.verified_at ≡ some now
  pub weight : row.verified_net_tons_kg ≡ some net

module _ (env : Env) (i user : ℕ) (role : UserRole) (s : Db) {t : Ticket} {m : Mission} {l : Load}
    {o h : Party} {f : Fare} {policy : FinancePolicy} {period : ℕ}
    (ready : Approvable env i role s t m l o h f policy period) where
  approved_row :
      find i (after_approve env i user role s ready).tickets ≡ some (approve_ticket user t)
  approved_row =
      rw (tickets-after_split (params_of t m l o h f period) _ (verified_db env i user t f s))
        (find-update_self i (approve_ticket user) s.tickets ready.ticket_row)

  abbrev r : MissionSplitResult
  r = split_result (params_of t m l o h f period) policy t.net_weight

  credited :
      (rials : ℕ)
      → policy.platform_fee_value ≤ 1000000
      → f.total_fare ≡ pos (100 * rials)
      → Credited
          (params_of t m l o h f period)
          r
          s
          (after_approve env i user role s ready)
          (verify env.now f m)
  credited rials fee whole =
      let c =
        after_split-Credited (params_of t m l o h f period) (verified_db env i user t f s)
          t.net_weight policy (verify env.now f m) rials fee whole
          (find-update_self t.mission_id (verify env.now f) s.missions ready.mission_row) in
      record { ledger = c.ledger; pool = c.pool; row = c.row }

  -- An approval whose guards are passed and whose fare, period and policy are configured goes
  -- through, for a fare of whole rials and a fee of at most the whole. The ticket is approved, the
  -- mission verified with the net weight of the ticket and its payment distributed, its sum in the ledger grows by the fare
  -- and the pool of its mine and period by the community's contribution (the first for an active
  -- owner, else by the platform's share alone; the second for an active household).
  pub approve_credits :
      (rials : ℕ)
      → policy.platform_fee_value ≤ 1000000
      → f.total_fare ≡ pos (100 * rials)
      → let (outcome, s') = weighbridge_approve env i user role s in
        let p = params_of t m l o h f period in
        let r = split_result p policy t.net_weight in
        (outcome ≡ ok r)
        × Approved env.now i user t.mission_id t.net_weight s'
        × Credited p r s s' (verify env.now f m)
  approve_credits rials fee whole = rw (weighbridge_approve-ok env i user role s ready) (
    refl,
    let c = credited rials fee whole in
        record {
          ticket = approve_ticket user t;
          ticket_row = approved_row;
          is_approved = refl;
          approver = refl;
          no_supervision = refl;
          row =
              record_contribution r.verified_net_tons_kg r.community_amount
                r.community_rate_rial_per_ton (verify env.now f m);
          mission_row = c.row;
          is_verified = refl;
          is_distributed = refl;
          at = refl;
          weight = refl;
        },
    credited rials fee whole,
  )

  -- A ticket that has been approved is never credited again: whoever approves it next is refused,
  -- and the database stays as it is.
  pub approve_once :
      (env' : Env) (user' : ℕ) (role' : UserRole)
      → let s' = (weighbridge_approve env i user role s).1 in
        weighbridge_approve env' i user' role' s' ≡ (refused Reason.already_approved, s')
  approve_once env' user' role' = rw (weighbridge_approve-ok env i user role s ready) (
      already_approved env' i user' role' (after_approve env i user role s ready)
        (approve_ticket user t) approved_row refl)

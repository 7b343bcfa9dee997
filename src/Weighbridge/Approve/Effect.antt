-- ===== src/Weighbridge/Approve/Effect.antt =====
-- What an approval writes where its guards are passed.
use logestic.Prelude.{ℕ, true, false, not, ◌&&◌, some, ◌≡◌, refl, arith, ◌∷◌}
use logestic.Prelude.Int.{pos, ◌≤ℤ◌}
use logestic.Prelude.Table.{find, update, find-update_self}
use logestic.Fsm.{delivered}
use logestic.Roles.{UserRole, normalize_role, is_operation_admin}
use logestic.Store.{ok}
use logestic.Store.Tables.{Db, Ticket, Mission, Load, Event}
use logestic.Ledger.Policy.{FinancePolicy}
use logestic.Ledger.Split.{SplitParams, update_mission_row}
use logestic.Ledger.Split.Effect.{split_result, after_split, apply_mission_split-ok}
use logestic.Env.{Env, Party, Fare}
use logestic.Missions.{get_mission_by_id}
use logestic.Weighbridge.Submit.{update_ticket_row}
use logestic.Weighbridge.Approve.{
  weighbridge_approve, approve_in_tx, approve_ticket, verify, is_weighed, credit_mission_shares,
  approve_audit,
}

-- The guards of an approval and what it reads: the rows, the parties, the fare and the policy.
pub record Approvable (env : Env) (i : ℕ) (role : UserRole) (s : Db) (t : Ticket) (m : Mission)
    (l : Load) (o h : Party) (f : Fare) (policy : FinancePolicy) (period : ℕ) : Type 0 where
  pub ticket_row : find i s.tickets ≡ some t
  pub weighed : is_weighed t.status ≡ true
  pub supervised :
      (t.requires_supervisor_approve && not (is_operation_admin (normalize_role role))) ≡ false
  pub mission_row : find t.mission_id s.missions ≡ some m
  pub is_delivered : m.status ≡ delivered
  pub load_row : find m.load_id s.loads ≡ some l
  pub owner_known : env.find_fleet_owner m.owner_id ≡ some o
  pub household_known : env.find_household l.household_id ≡ some h
  pub positive : pos 1 ≤ℤ t.net_weight
  pub priced : env.compute_fare t.net_weight l.material_type l.mine_id h.cooperative_id ≡ some f
  pub period_known : env.period_key l.mine_id h.cooperative_id ≡ some period
  pub configured : env.policies l.mine_id h.cooperative_id ≡ some policy

abbrev pub params_of : Ticket → Mission → Load → Party → Party → Fare → ℕ → SplitParams
params_of t m l o h f period = record {
  mission_id = t.mission_id;
  mine_id = l.mine_id;
  period_key = period;
  total_fare = f.total_fare;
  verified_net_tons_kg = some t.net_weight;
  owner_id = m.owner_id;
  owner_active = o.approved;
  household_active = h.approved;
  cooperative_id = h.cooperative_id;
}

-- The database after the two updates at the head of the transaction.
abbrev pub verified_db : Env → ℕ → ℕ → Ticket → Fare → Db → Db
verified_db env i user t f s = record s {
  tickets = update i (approve_ticket user) s.tickets;
  missions = update t.mission_id (verify env.now f) s.missions;
}

module _ (env : Env) (i user : ℕ) (role : UserRole) (s : Db) {t : Ticket} {m : Mission} {l : Load}
    {o h : Party} {f : Fare} {policy : FinancePolicy} {period : ℕ}
    (ready : Approvable env i role s t m l o h f policy period) where
  approve_in_tx-ok : approve_in_tx env i user t m l o h f s ≡ (
    ok (split_result (params_of t m l o h f period) policy t.net_weight),
    let s' =
          after_split
            (params_of t m l o h f period)
            (split_result (params_of t m l o h f period) policy t.net_weight)
            (verified_db env i user t f s) in
        record s' { audits = approve_audit i user t m ∷ s'.audits },
  )
  unfolding approve_in_tx update_ticket_row update_mission_row credit_mission_shares
  approve_in_tx-ok = ground (
    arith,
    apply_mission_split-ok env.policies (params_of t m l o h f period)
        (verified_db env i user t f s) t.net_weight policy (verify env.now f m) refl ready.positive
        ready.configured
        (find-update_self t.mission_id (verify env.now f) s.missions ready.mission_row),
  )

  -- The database that an approval leaves.
  abbrev pub after_approve : Db
  after_approve =
      let p = params_of t m l o h f period in
      let r = split_result p policy t.net_weight in
      let s' = after_split p r (verified_db env i user t f s) in
      record s' {
        audits = approve_audit i user t m ∷ s'.audits;
        events =
            Event.mission_verified t.mission_id i t.net_weight
            ∷ Event.weighbridge_approved i t.mission_id t.net_weight
            ∷ s'.events;
      }

  pub weighbridge_approve-ok :
      weighbridge_approve env i user role s
      ≡ (ok (split_result (params_of t m l o h f period) policy t.net_weight), after_approve)
  unfolding weighbridge_approve get_mission_by_id
  weighbridge_approve-ok = ground (arith, approve_in_tx-ok)

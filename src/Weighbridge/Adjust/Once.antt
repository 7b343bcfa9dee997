-- ===== src/Weighbridge/Adjust/Once.antt =====
-- What the approval of an adjustment writes to the ticket and the adjustment, and to the ledger.
use logestic.Prelude.{ℕ, Bool, Option, some, ◌≡◌, refl, ap, arith, Option-cases, inl, inr}
use logestic.Prelude.Int.{ℤ}
use logestic.Prelude.Table.{Table, find, update, find-update_self}
use logestic.Reasons.{Reason}
use logestic.Store.{ok, refused}
use logestic.Store.Tables.{
  Db, Wallet, owner, TransactionType, Description, Load, Mission, Ticket, adjusted, Adjustment,
  AdjustmentStatus,
}
use logestic.Ledger.Post.{find_or_create_wallet, create_transaction}
use logestic.Ledger.Split.{
  Policies, DeltaParams, apply_fare_delta_in_tx, split_delta, community_delta, contribute,
  get_or_create_open_pool, add_to_pool_total, update_mission_row, post_owner, post_platform,
}
use logestic.Env.{Env, Party}
use logestic.Missions.{get_mission_by_id}
use logestic.Weighbridge.Submit.{update_ticket_row}
use logestic.Weighbridge.Adjust.{
  approve_adjustment, adjust_in_tx, update_adjustment_row, apply_delta, approve_row, adjust_ticket,
}
use logestic.Weighbridge.Adjust.Laws.{same-delta}

abbrev rows : Db → Table Adjustment × Table Ticket
rows s = (s.adjustments, s.tickets)

rows-wallet : (w : Wallet) (s : Db) → rows (find_or_create_wallet w s) ≡ rows s
unfolding find_or_create_wallet
rows-wallet w s = ground arith

rows-post_owner :
    (active : Bool) (o : ℕ) (m : Option ℕ) (amount : ℤ) (type : TransactionType) (d : Description)
    (s : Db)
    → rows (post_owner active o m amount type d s) ≡ rows s
unfolding post_owner create_transaction
rows-post_owner active o m amount type d s = ground (arith, rows-wallet (owner o) s)

rows-post_platform :
    (m : Option ℕ) (amount : ℤ) (type : TransactionType) (d : Description) (s : Db)
    → rows (post_platform m amount type d s) ≡ rows s
unfolding post_platform create_transaction
rows-post_platform m amount type d s = ground arith

rows-contribute :
    (active : Bool) (mine period : ℕ) (amount : ℤ) (s : Db)
    → rows (contribute active mine period amount s).1 ≡ rows s
unfolding contribute get_or_create_open_pool add_to_pool_total
rows-contribute active mine period amount s = ground arith

rows-fare_delta :
    (policies : Policies) (p : DeltaParams) (s : Db)
    → rows (apply_fare_delta_in_tx policies p s).1 ≡ rows s
unfolding apply_fare_delta_in_tx split_delta community_delta
rows-fare_delta policies p s =
    grind (arith, rows-contribute, rows-post_platform, rows-post_owner, rows-wallet)

rows-apply_delta :
    (env : Env) (a : Adjustment) (m : Mission) (l : Load) (o h : Party) (delta : ℤ) (s : Db)
    → rows (apply_delta env a m l o h delta s).1 ≡ rows s
unfolding apply_delta update_mission_row
rows-apply_delta env a m l o h delta s = grind (arith, rows-fare_delta)

in_tx_writes :
    (env : Env) (i user : ℕ) (a : Adjustment) (m : Mission) (l : Load) (o h : Party) (delta : ℤ)
    (s : Db)
    → (adjust_in_tx env i user a m l o h delta s).0 ≡ ok tt
    → rows (adjust_in_tx env i user a m l o h delta s).1 ≡ (
      update i (approve_row user) s.adjustments,
      update a.ticket_id (adjust_ticket a.after_net) s.tickets,
    )
unfolding adjust_in_tx update_ticket_row update_adjustment_row
in_tx_writes env i user a m l o h delta s h0 = grind (arith, rows-apply_delta)

-- What an approval that went through found, and what it wrote.
record Adjusted (i user : ℕ) (s s' : Db) : Type 0 where
  pub a : Adjustment
  pub t : Ticket
  pub found : find i s.adjustments ≡ some a
  pub pending : a.status ≡ AdjustmentStatus.pending
  pub ticket : find a.ticket_id s.tickets ≡ some t
  pub adjustments : s'.adjustments ≡ update i (approve_row user) s.adjustments
  pub tickets : s'.tickets ≡ update a.ticket_id (adjust_ticket a.after_net) s.tickets

module _ (env : Env) (i user : ℕ) (s : Db) (delta : ℤ)
    (done : (approve_adjustment env i user s).0 ≡ ok delta) where
  found_pending :
      (a : Adjustment) × (find i s.adjustments ≡ some a) × (a.status ≡ AdjustmentStatus.pending)
  unfolding approve_adjustment
  found_pending = elim (Option-cases (find i s.adjustments)) [
    | inl missing ↦ absurd (ground arith)
    | inr (a, found) ↦ (a, found, ground arith)
  ]

  module _ {a : Adjustment} {m : Mission} {l : Load} {o h : Party}
      (found : find i s.adjustments ≡ some a) (pending : a.status ≡ AdjustmentStatus.pending)
      (mission : find a.mission_id s.missions ≡ some m) (load : find m.load_id s.loads ≡ some l)
      (owned : env.find_fleet_owner m.owner_id ≡ some o)
      (housed : env.find_household l.household_id ≡ some h) where
    writes : rows (approve_adjustment env i user s).1 ≡ (
      update i (approve_row user) s.adjustments,
      update a.ticket_id (adjust_ticket a.after_net) s.tickets,
    )
    unfolding approve_adjustment get_mission_by_id
    writes = ground (arith, same-delta env a m l h s, in_tx_writes env i user a m l o h delta s)

  approve_adjustment-Adjusted : Adjusted i user s (approve_adjustment env i user s).1
  unfolding approve_adjustment get_mission_by_id
  approve_adjustment-Adjusted =
      let (a, found, pending) = found_pending in
      elim (Option-cases (find a.ticket_id s.tickets)) [
        | inl missing ↦ absurd (ground arith)
        | inr (t, ticket) ↦ elim (Option-cases (find a.mission_id s.missions)) [
          | inl missing ↦ absurd (ground arith)
          | inr (m, mission) ↦ elim (Option-cases (find m.load_id s.loads)) [
            | inl missing ↦ absurd (ground arith)
            | inr (l, load) ↦ elim (Option-cases (env.find_fleet_owner m.owner_id)) [
              | inl missing ↦ absurd (ground arith)
              | inr (o, owned) ↦ elim (Option-cases (env.find_household l.household_id)) [
                | inl missing ↦ absurd (ground arith)
                | inr (h, housed) ↦
                    let w = writes found pending mission load owned housed in
                    record {
                      a = a;
                      t = t;
                      found = found;
                      pending = pending;
                      ticket = ticket;
                      adjustments = ap (λ x. x.0) w;
                      tickets = ap (λ x. x.1) w;
                    }
              ]
            ]
          ]
        ]
      ]

not_pending :
    (env : Env) (i user : ℕ) (s : Db) (a : Adjustment)
    → find i s.adjustments ≡ some a
    → a.status ≡ AdjustmentStatus.approved
    → approve_adjustment env i user s ≡ (refused Reason.invalid_adjustment, s)
unfolding approve_adjustment
not_pending env i user s a found e = ground arith

-- An adjustment that is approved was pending. Its ticket then has the corrected net weight and is
-- adjusted, the adjustment is approved by that user, and whoever approves it again is refused, with the
-- database as it is.
pub adjust_once :
    (env : Env) (i user : ℕ) (s : Db) (delta : ℤ)
    → (approve_adjustment env i user s).0 ≡ ok delta
    → (env' : Env) (user' : ℕ)
    → let s' = (approve_adjustment env i user s).1 in
      (a : Adjustment) × (t : Ticket) × (find i s.adjustments ≡ some a)
      × (a.status ≡ AdjustmentStatus.pending)
      × (find a.ticket_id s.tickets ≡ some t)
      × (find a.ticket_id s'.tickets
          ≡ some (record t { net_weight = a.after_net; status = adjusted }))
      × (find i s'.adjustments
          ≡ some (record a { status = AdjustmentStatus.approved; approved_by_user_id = some user }))
      × (approve_adjustment env' i user' s' ≡ (refused Reason.invalid_adjustment, s'))
adjust_once env i user s delta done env' user' =
    let q = approve_adjustment-Adjusted env i user s delta done in
    let row : find i (approve_adjustment env i user s).1.adjustments ≡ some (approve_row user q.a) =
      rw q.adjustments (find-update_self i (approve_row user) s.adjustments q.found) in
    (
      q.a,
      q.t,
      q.found,
      q.pending,
      q.ticket,
      rw q.tickets (find-update_self q.a.ticket_id _ s.tickets q.ticket),
      row,
      not_pending env' i user' _ _ row refl,
    )

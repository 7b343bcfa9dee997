-- ===== src/Weighbridge/Progress.antt =====
-- The requests at the weighbridge, each as a change of the table of missions.
pub mod Adjust
use Prim.Native.String.{String}
use logestic.Prelude.{
  ℕ, Bool, true, false, Option, none, some, ◌≡◌, ◌≢◌, refl, ◌⊎◌, inl, inr, arith, Option-cases,
  Bool-cases, ◌==◌, ◌∷◌, [],
}
use logestic.Prelude.Int.{ℤ}
use logestic.Prelude.Table.{Table, find, update, find-update_self}
use logestic.Reasons.{Reason, Fault}
use logestic.Fsm.{delivered, verified, status_eq, coop_admin}
use logestic.Fsm.Graph.{Edge, verify}
use logestic.Roles.{UserRole}
use logestic.Store.{Outcome, ok, refused, throws, transaction}
use logestic.Store.Tables.{
  Db, Ticket, Load, Mission, Wallet, owner, TransactionType, Description, Adjustment,
}
use logestic.Ledger.Post.{find_or_create_wallet, create_transaction}
use logestic.Ledger.Split.{
  Policies, SplitParams, DeltaParams, apply_mission_split_in_tx, apply_fare_delta_in_tx,
  split_delta, community_delta, contribute, get_or_create_open_pool, add_to_pool_total,
  update_mission_row, post_owner, post_platform, record_contribution,
}
use logestic.Env.{Env, Party, Fare}
use logestic.Missions.{get_mission_by_id}
use logestic.Missions.Progress.{
  unchanged, Moves, stays, takes, Changes, same, rewrites, rewrites_row,
}
use logestic.Missions.Progress.Requests.{kept-Changes}
use logestic.Weighbridge.Submit.{
  TicketWeights, submit_ticket_weights, update_ticket, update_ticket_row, weighbridge_reject_ticket,
}
use logestic.Weighbridge.Approve
use logestic.Weighbridge.Approve.{weighbridge_approve, approve_in_tx, credit_mission_shares}
use logestic.Weighbridge.Adjust.{
  approve_adjustment, adjust_in_tx, update_adjustment_row, apply_delta, delta_total_fare, reweigh,
}
use logestic.Weighbridge.Adjust.Laws.{same-delta}

pub missions-submit :
    (env : Env) (p : TicketWeights) (s : Db)
    → (submit_ticket_weights env p s).1.missions ≡ s.missions
unfolding submit_ticket_weights update_ticket get_mission_by_id
missions-submit env p s = ground arith

pub missions-reject :
    (i : ℕ) (reason : String) (user : ℕ) (s : Db)
    → (weighbridge_reject_ticket i reason user s).1.missions ≡ s.missions
unfolding weighbridge_reject_ticket update_ticket_row get_mission_by_id
missions-reject i reason user s = ground arith

missions-wallet : (w : Wallet) (s : Db) → (find_or_create_wallet w s).missions ≡ s.missions
unfolding find_or_create_wallet
missions-wallet w s = ground arith

missions-post_owner :
    (active : Bool) (o : ℕ) (m : Option ℕ) (amount : ℤ) (type : TransactionType) (d : Description)
    (s : Db)
    → (post_owner active o m amount type d s).missions ≡ s.missions
unfolding post_owner create_transaction
missions-post_owner active o m amount type d s = ground (arith, missions-wallet (owner o) s)

missions-post_platform :
    (m : Option ℕ) (amount : ℤ) (type : TransactionType) (d : Description) (s : Db)
    → (post_platform m amount type d s).missions ≡ s.missions
unfolding post_platform create_transaction
missions-post_platform m amount type d s = ground arith

missions-contribute :
    (active : Bool) (mine period : ℕ) (amount : ℤ) (s : Db)
    → (contribute active mine period amount s).1.missions ≡ s.missions
unfolding contribute get_or_create_open_pool add_to_pool_total
missions-contribute active mine period amount s = ground arith

missions-fare_delta :
    (policies : Policies) (p : DeltaParams) (s : Db)
    → (apply_fare_delta_in_tx policies p s).1.missions ≡ s.missions
unfolding apply_fare_delta_in_tx split_delta community_delta
missions-fare_delta policies p s =
    grind (arith, missions-contribute, missions-post_platform, missions-post_owner, missions-wallet)

split-cases :
    (policies : Policies) (p : SplitParams) (s : Db)
    → let ms' = (apply_mission_split_in_tx policies p s).1.missions in
      (ms' ≡ s.missions)
      ⊎ ((kg amount rate : ℤ) × (ms'
            ≡ update p.mission_id (record_contribution kg amount rate) s.missions))
unfolding apply_mission_split_in_tx update_mission_row
split-cases policies p s =
    grind (arith, missions-contribute, missions-post_platform, missions-post_owner, missions-wallet)

update-update :
    (i : ℕ) (f g : Mission → Mission) (ms : Table Mission)
    → update i g (update i f ms) ≡ update i (λ m. g (f m)) ms
unfolding update
update-update i f g [] = refl
update-update i f g ((j, m) ∷ ms) = ground (arith, update-update i f g ms)

module _ (env : Env) (i user : ℕ) (t : Ticket) (m : Mission) (l : Load) (o h : Party) (f : Fare)
    (s : Db) where
  abbrev verified_missions : Table Mission
  verified_missions = update t.mission_id (Approve.verify env.now f) s.missions

  tx-cases :
      let ms' = (transaction (approve_in_tx env i user t m l o h f) s).1.missions in
      (ms' ≡ s.missions)
      ⊎ ((ms' ≡ verified_missions)
          ⊎ ((kg amount rate : ℤ) × (ms'
                ≡ update t.mission_id (record_contribution kg amount rate) verified_missions)))
  unfolding approve_in_tx update_ticket_row update_mission_row credit_mission_shares
  tx-cases = grind (arith, split-cases)

  tx-Changes :
      find t.mission_id s.missions ≡ some m
      → m.status ≡ delivered
      → Changes s.missions (transaction (approve_in_tx env i user t m l o h f) s).1.missions
  tx-Changes found at = elim tx-cases [
    | inl unchanged ↦ rw unchanged same
    | inr (inl e) ↦ rw e (
        rewrites_row s.missions t.mission_id (Approve.verify env.now f) m found
          (takes coop_admin (rw at verify)))
    | inr (inr (kg, amount, rate, e)) ↦
        rw (e, update-update)
          (rewrites_row s.missions t.mission_id
            (λ x. record_contribution kg amount rate (Approve.verify env.now f x)) m found
            (takes coop_admin (rw at verify)))
  ]

module _ (env : Env) (i user : ℕ) (role : UserRole) (s : Db) {t : Ticket} {m : Mission}
    (ticket : find i s.tickets ≡ some t) (mission : find t.mission_id s.missions ≡ some m)
    (at : m.status ≡ delivered) where
  reached-cases :
      {l : Load} {o h : Party} {f : Fare}
      → find m.load_id s.loads ≡ some l
      → env.find_fleet_owner m.owner_id ≡ some o
      → env.find_household l.household_id ≡ some h
      → env.compute_fare t.net_weight l.material_type l.mine_id h.cooperative_id ≡ some f
      → let ms' = (weighbridge_approve env i user role s).1.missions in
        (ms' ≡ s.missions)
        ⊎ (ms' ≡ (transaction (approve_in_tx env i user t m l o h f) s).1.missions)
  unfolding weighbridge_approve get_mission_by_id
  reached-cases load owned housed priced = ground arith

  delivered-Changes : Changes s.missions (weighbridge_approve env i user role s).1.missions
  unfolding weighbridge_approve get_mission_by_id
  delivered-Changes = elim (Option-cases (find m.load_id s.loads)) [
    | inl missing ↦ unchanged _ _ (ground arith)
    | inr (l, load) ↦ elim (Option-cases (env.find_fleet_owner m.owner_id)) [
      | inl missing ↦ unchanged _ _ (ground arith)
      | inr (o, owned) ↦ elim (Option-cases (env.find_household l.household_id)) [
        | inl missing ↦ unchanged _ _ (ground arith)
        | inr (h, housed) ↦
            elim (Option-cases
              (env.compute_fare t.net_weight l.material_type l.mine_id h.cooperative_id)) [
                | inl missing ↦ unchanged _ _ (ground arith)
                | inr (f, priced) ↦ elim (reached-cases load owned housed priced) [
                  | inl e ↦ unchanged _ _ e
                  | inr e ↦ rw e (tx-Changes env i user t m l o h f s mission at)
                ]
              ]
      ]
    ]
  ]

approve-missing :
    (env : Env) (i user : ℕ) (role : UserRole) (s : Db)
    → find i s.tickets ≡ none
    → (weighbridge_approve env i user role s).1.missions ≡ s.missions
unfolding weighbridge_approve
approve-missing env i user role s missing = ground arith

approve-orphan :
    (env : Env) (i user : ℕ) (role : UserRole) (s : Db) (t : Ticket)
    → find i s.tickets ≡ some t
    → find t.mission_id s.missions ≡ none
    → (weighbridge_approve env i user role s).1.missions ≡ s.missions
unfolding weighbridge_approve get_mission_by_id
approve-orphan env i user role s t ticket missing = ground arith

approve-early :
    (env : Env) (i user : ℕ) (role : UserRole) (s : Db) (t : Ticket) (m : Mission)
    → find i s.tickets ≡ some t
    → find t.mission_id s.missions ≡ some m
    → status_eq m.status delivered ≡ false
    → (weighbridge_approve env i user role s).1.missions ≡ s.missions
unfolding weighbridge_approve get_mission_by_id
approve-early env i user role s t m ticket mission early = ground arith

delivered_of_eq : (m : Mission) → status_eq m.status delivered ≡ true → m.status ≡ delivered
delivered_of_eq m e = ground arith

pub approve-Changes :
    (env : Env) (i user : ℕ) (role : UserRole) (s : Db)
    → Changes s.missions (weighbridge_approve env i user role s).1.missions
approve-Changes env i user role s = elim (Option-cases (find i s.tickets)) [
  | inl missing ↦ unchanged _ _ (approve-missing env i user role s missing)
  | inr (t, ticket) ↦ elim (Option-cases (find t.mission_id s.missions)) [
    | inl missing ↦ unchanged _ _ (approve-orphan env i user role s t ticket missing)
    | inr (m, mission) ↦ elim (Bool-cases (status_eq m.status delivered)) [
      | inl at ↦ delivered-Changes env i user role s ticket mission (delivered_of_eq m at)
      | inr early ↦ unchanged _ _ (approve-early env i user role s t m ticket mission early)
    ]
  ]
]

apply_delta-cases :
    (env : Env) (a : Adjustment) (m : Mission) (l : Load) (o h : Party) (delta : ℤ) (s : Db)
    → let ms' = (apply_delta env a m l o h delta s).1.missions in
      (ms' ≡ s.missions) ⊎ (ms' ≡ update a.mission_id (reweigh a.after_net) s.missions)
unfolding apply_delta update_mission_row
apply_delta-cases env a m l o h delta s = grind (arith, missions-fare_delta)

pub adjust_tx-cases :
    (env : Env) (i user : ℕ) (a : Adjustment) (m : Mission) (l : Load) (o h : Party) (delta : ℤ)
    (s : Db)
    → let ms' = (transaction (adjust_in_tx env i user a m l o h delta) s).1.missions in
      (ms' ≡ s.missions) ⊎ (ms' ≡ update a.mission_id (reweigh a.after_net) s.missions)
unfolding adjust_in_tx update_ticket_row update_adjustment_row
adjust_tx-cases env i user a m l o h delta s = grind (arith, apply_delta-cases)

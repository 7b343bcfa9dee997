-- ===== src/Weighbridge/Adjust/Laws.antt =====
-- An adjustment is approved once, and an approval that does not go through changes nothing.
use logestic.Prelude.{ℕ, ◌≡◌, ◌≢◌, ◌⊎◌, arith}
use logestic.Prelude.Int.{ℤ}
use logestic.Reasons.{Reason}
use logestic.Store.{ok, refused, transaction}
use logestic.Store.Atomic.{
  Atomic, done, Atomic-or_refuse, Atomic-bind, Atomic-read, Atomic-transaction, ok_or_same,
}
use logestic.Store.Tables.{Db, Load, Mission, Adjustment}
use logestic.Ledger.Split.{
  apply_fare_delta_in_tx, split_delta, community_delta, contribute, get_or_create_open_pool,
  add_to_pool_total, update_mission_row,
}
use logestic.Env.{Env, Party}
use logestic.Missions.{get_mission_by_id}
use logestic.Weighbridge.Submit.{update_ticket_row}
use logestic.Weighbridge.Adjust.{
  approve_adjustment, adjust_in_tx, update_adjustment_row, apply_delta, delta_total_fare,
}

pub same-delta :
    (env : Env) (a : Adjustment) (m : Mission) (l : Load) (h : Party) (s : Db)
    → (delta_total_fare env a m l h s).1 ≡ s
unfolding delta_total_fare
same-delta env a m l h s = ground arith

fare_delta-ne-refused :
    (env : Env) (a : Adjustment) (m : Mission) (l : Load) (o h : Party) (delta : ℤ) (s : Db)
    (e : Reason)
    → (apply_delta env a m l o h delta s).0 ≢ refused e
unfolding apply_delta apply_fare_delta_in_tx split_delta community_delta contribute
    get_or_create_open_pool add_to_pool_total update_mission_row
fare_delta-ne-refused env a m l o h delta s e r = ground arith

in_tx-ne-refused :
    (env : Env) (i user : ℕ) (a : Adjustment) (m : Mission) (l : Load) (o h : Party) (delta : ℤ)
    (s : Db) (e : Reason)
    → (adjust_in_tx env i user a m l o h delta s).0 ≢ refused e
unfolding adjust_in_tx update_ticket_row update_adjustment_row
in_tx-ne-refused env i user a m l o h delta s e r = grind (arith, fare_delta-ne-refused)

module _ (env : Env) (i user : ℕ) (s : Db) where
  Atomic-tx :
      (a : Adjustment) (m : Mission) (l : Load) (o h : Party) (delta : ℤ)
      → Atomic s (transaction (adjust_in_tx env i user a m l o h delta) s)
  Atomic-tx a m l o h delta =
      Atomic-transaction s (adjust_in_tx env i user a m l o h delta)
        (in_tx-ne-refused env i user a m l o h delta s)

  approve_adjustment-Atomic : Atomic s (approve_adjustment env i user s)
  unfolding approve_adjustment get_mission_by_id
  approve_adjustment-Atomic =
      search (Atomic-or_refuse, Atomic-read, same-delta, Atomic-bind, Atomic-tx, done) depth 30

  -- The approval of an adjustment goes through, or the database is as it was, whatever it is refused for
  -- or throws.
  adjust_atomic :
      let (outcome, s') = approve_adjustment env i user s in
      ((delta : ℤ) × (outcome ≡ ok delta)) ⊎ (s' ≡ s)
  adjust_atomic = ok_or_same _ approve_adjustment-Atomic

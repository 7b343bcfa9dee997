-- ===== src/Tests/Requests.antt =====
-- The requests on tickets, adjustments and payments at concrete inputs.
use logestic.Prelude.{◌-◌, ◌≤◌, ◌<◌, Bool, none, some, [], ◌∷◌, ◌≡◌, refl, ◌⊎◌, arith}
use logestic.Prelude.Int.{pos, ◌+ℤ◌, ◌-ℤ◌}
use logestic.Prelude.Rounding.{scale}
use logestic.Prelude.Table.{find}
use logestic.Reasons.{Reason}
use logestic.Fsm.{loaded, verified}
use logestic.Store.{ok, refused}
use logestic.Store.Tables.{
  Db, Ticket, pending_empty, pending_hold, adjusted, manual, Mission, distributed, Adjustment,
  AdjustmentStatus,
}
use logestic.Weighbridge.Submit.{TicketWeights, weigh, update_ticket_row}
use logestic.Weighbridge.Adjust.{
  approve_adjustment, new_adjustment, delta_total_fare, adjust_in_tx, update_adjustment_row,
  apply_delta,
}
use logestic.Weighbridge.Adjust.Once.{adjust_once}
use logestic.Tests.Data.{db_at, mission_at, ticket, env}

abbrev unweighed : Ticket
unweighed = record ticket { status = pending_empty }

abbrev unweighed_db : Db
unweighed_db = record (db_at loaded) { tickets = (3, unweighed) ∷ [] }

-- 20 tons by hand.
abbrev weights : TicketWeights
weights = record {
  ticket_id = 3;
  empty_weight = pos 1000000;
  loaded_weight = pos 3000000;
  user_id = 7;
  entry_source = manual;
  entry_note = none;
  reason_code = none;
}

abbrev weighed : Ticket
weighed = weigh weights pending_hold unweighed

abbrev paid_mission : Mission
paid_mission = record (mission_at verified) {
  payment_state = distributed;
  verified_at = some 900000;
}

abbrev paid_db : Db
paid_db = record (db_at verified) {
  missions = (2, paid_mission) ∷ [];
  adjustments = (6, new_adjustment 3 2 "tare" (pos 2000000) (pos 1990000) 7) ∷ [];
}

approved_run : (approve_adjustment env 6 8 paid_db).0 ≡ ok (pos 0)
unfolding approve_adjustment find delta_total_fare adjust_in_tx update_adjustment_row apply_delta
    update_ticket_row ◌-ℤ◌ ◌+ℤ◌ logestic.Ledger.Split.apply_fare_delta_in_tx
    logestic.Ledger.Policy.compute_community_contribution_with_policy scale
    logestic.Prelude.Rounding.round_div logestic.Ledger.Split.contribute
    logestic.Ledger.Split.find_pool_by_mine_period logestic.Ledger.Split.post_platform
    logestic.Ledger.Split.post_owner logestic.Ledger.Post.find_or_create_wallet
    logestic.Ledger.Split.update_mission_row
approved_run = refl

adjust_once_example :
    let s' = (approve_adjustment env 6 8 paid_db).1 in
    (a : Adjustment) × (t : Ticket) × (find 6 paid_db.adjustments ≡ some a)
    × (a.status ≡ AdjustmentStatus.pending)
    × (find a.ticket_id paid_db.tickets ≡ some t)
    × (find a.ticket_id s'.tickets
        ≡ some (record t { net_weight = a.after_net; status = adjusted }))
    × (find 6 s'.adjustments
        ≡ some (record a { status = AdjustmentStatus.approved; approved_by_user_id = some 8 }))
    × (approve_adjustment env 6 9 s' ≡ (refused Reason.invalid_adjustment, s'))
adjust_once_example = adjust_once env 6 8 paid_db (pos 0) approved_run env 9

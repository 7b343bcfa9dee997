-- ===== src/Settlement/Paid.antt =====
-- `markBatchPaid`: the missions of a batch are settled, its payouts are written and the batch is
-- settled, in one transaction.
pub mod Missions
pub mod Laws
use Prim.Native.String.{String}
use logestic.Prelude.{
  ℕ, Bool, true, false, Option, none, some, List, [], ◌∷◌, ◌++◌, filter, length, ◌==◌, not,
  if◌then◌else◌, map,
}
use logestic.Prelude.Table.{Table, find, update}
use logestic.Reasons.{Reason, mission_settle_failed}
use logestic.Store.{
  Outcome, Action, ◌>>=◌, ◌>>◌, pure, gets, or_refuse, or_throw, refuse_if, modify, transaction,
}
use logestic.Store.Batches
use logestic.Store.Batches.{
  Batch, settled, in_bank_queue, Reference, given, Payout, PayoutStatus, completed,
}
use logestic.Store.Tables.{Db, Line, Mission, Event}
use logestic.Missions.{publish, settle_verified_mission}
use logestic.Settlement.Batch.{update_batch, batch_with}

-- The lines of a batch.
abbrev pub lines_of : ℕ → Table Line → Table Line
lines_of i = filter (λ (_, l). l.batch_id == i)

-- The loop that settles the missions of the lines.
unfoldable pub settle_lines : Table Line → Action (Unit {0})
unfolding settle_verified_mission
settle_lines [] = pure tt
settle_lines ((_, l) ∷ ls) = elim l.mission_id [
  | none ↦ settle_lines ls
  | some m ↦ (do or_throw (← settle_verified_mission m) mission_settle_failed; settle_lines ls)
]

abbrev pub pay : ℕ → Reference → Batch → Batch
pay now reference b = record b {
  status = settled;
  paid_at = some now;
  payment_reference = some reference;
}

-- The payout that a paid batch has for each line.
abbrev pub completed_payout : ℕ → String → ℕ × Line → Payout
completed_payout i reference (id, _) = record {
  settlement_batch_id = i;
  settlement_line_id = id;
  status = completed;
  bank_reference = some reference;
}

abbrev pub payouts_of : ℕ → List Payout → List Payout
payouts_of i = filter (λ p. p.settlement_batch_id == i)

abbrev pub without_payouts_of : ℕ → List Payout → List Payout
without_payouts_of i = filter (λ p. not (p.settlement_batch_id == i))

abbrev pub mission_ids : Table Line → List ℕ
mission_ids [] = []
mission_ids ((_, l) ∷ ls) = elim l.mission_id [
  | none ↦ mission_ids ls
  | some m ↦ m ∷ mission_ids ls
]

-- The `mission.settled` events, in the order of the lines.
unfoldable pub publish_paid : ℕ → Reference → List ℕ → Action (Unit {0})
publish_paid i reference [] = pure tt
publish_paid i reference (m ∷ ms) =
    publish (Event.mission_paid m i reference) >> publish_paid i reference ms

unfoldable pub mark_paid_in_tx : ℕ → ℕ → String → Action Batch
unfolding settle_lines update_batch
mark_paid_in_tx now i reference = do
  lines ← gets (λ s. lines_of i s.lines)
  settle_lines lines
  updated ← update_batch i (pay now (given reference))
  modify (λ s. record s {
    payouts = map (completed_payout i reference) lines ++ without_payouts_of i s.payouts;
  })
  pure updated

unfoldable pub mark_batch_paid : ℕ → ℕ → String → Action Batch
unfolding mark_paid_in_tx publish_paid
mark_batch_paid now i reference = do
  or_refuse (← gets (batch_with in_bank_queue i)) Reason.invalid_batch_status
  lines ← gets (λ s. lines_of i s.lines)
  updated ← transaction (mark_paid_in_tx now i reference)
  publish (Event.settlement_settled i (given reference) (length lines))
  publish_paid i (given reference) (mission_ids lines)
  pure updated

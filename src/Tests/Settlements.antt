-- ===== src/Tests/Settlements.antt =====
-- Batches, their payment and their payouts at concrete inputs.
use logestic.Prelude.{ℕ, true, false, none, some, [], ◌∷◌, ◌++◌, map, ◌≡◌, inl, refl}
use logestic.Prelude.Int.{pos}
use logestic.Prelude.Table.{find}
use logestic.Reasons.{mission_settle_failed}
use logestic.Roles.{UserRole, coop_admin, operation_admin}
use logestic.Fsm.{verified, delivered, MissionStatus}
use logestic.Store.{ok, throws}
use logestic.Store.Batches.{
  Batch, BatchStatus, calculated, ready_for_settlement, in_bank_queue, owner_weekly, BatchApproval,
  given, Payout, completed,
}
use logestic.Store.Tables.{Db, Line, owner, Mission, PaymentState}
use logestic.Missions.{settle_verified_mission, update_mission}
use logestic.Settlement.Paid.{
  mark_batch_paid, lines_of, completed_payout, without_payouts_of, mission_ids,
}
use logestic.Settlement.Paid.Missions.{member}
use logestic.Settlement.Paid.Laws.{mark_paid_ok}
use logestic.Settlement.Payouts.{Bank, Totals, find_payout, pay_line, pay_lines, payout_request}
use logestic.Settlement.Payouts.Rows.{requests_for}
use logestic.Settlement.Payouts.Laws.{IsFinal, final_never_requested, pay_lines-IsFinal}
use logestic.Settlement.Payouts.Unsettled.{NotYetPaid, accepted_and_forgotten}
use logestic.Tests.Data.{db_at, mission_at}

abbrev batch_at : BatchStatus → Batch
batch_at status = record {
  mine_id = some 5;
  period_start = 100;
  period_end = 200;
  batch_type = owner_weekly;
  status = status;
  created_by_user_id = some 7;
  locked_at = some 300;
  sent_to_bank_at = none;
  paid_at = none;
  payment_reference = none;
  failure_reason = none;
}

abbrev line : Line
line = record {
  batch_id = 6;
  wallet = owner 21;
  amount = pos 5000;
  mission_id = some 2;
  hourly_work_log_id = none;
  note = none;
}

abbrev db : MissionStatus → BatchStatus → Db
db mission status = record (db_at mission) {
  batches = (6, batch_at status) ∷ [];
  lines = (8, line) ∷ [];
}

abbrev approval : UserRole → ℕ → BatchApproval
approval role user = record { settlement_batch_id = 6; approver_role = role; user_id = user }

abbrev approved_db : Db
approved_db = record (db verified calculated) {
  batch_approvals = approval coop_admin 11 ∷ approval operation_admin 12 ∷ [];
}

abbrev locked_batch : Batch
locked_batch = record (batch_at ready_for_settlement) { locked_at = some 400 }

abbrev queued_db : Db
queued_db = db verified in_bank_queue

abbrev paid_batch : Batch
paid_batch = record (batch_at BatchStatus.settled) {
  paid_at = some 500;
  payment_reference = some (given "R1");
}

pays : (mark_batch_paid 500 6 "R1" queued_db).0 ≡ ok paid_batch
unfolding mark_batch_paid update_mission find
pays = refl

mark_paid_ok_example :
    let s' = (mark_batch_paid 500 6 "R1" queued_db).1 in
    let ls = lines_of 6 queued_db.lines in
    (b : Batch) × (find 6 queued_db.batches ≡ some b)
    × (b.status ≡ in_bank_queue)
    × (find 6 s'.batches
        ≡ some (record b {
          status = BatchStatus.settled;
          paid_at = some 500;
          payment_reference = some (given "R1");
        }))
    × ((j : ℕ)
        → member j (mission_ids ls) ≡ true
        → (m : Mission) × (find j queued_db.missions ≡ some m)
          × (m.status ≡ verified)
          × (find j s'.missions
              ≡ some (record m {
                status = MissionStatus.settled;
                payment_state = PaymentState.settled;
              })))
    × ((j : ℕ) → member j (mission_ids ls) ≡ false → find j s'.missions ≡ find j queued_db.missions)
    × (s'.payouts ≡ map (completed_payout 6 "R1") ls ++ without_payouts_of 6 queued_db.payouts)
    × (s'.transactions ≡ queued_db.transactions)
mark_paid_ok_example = mark_paid_ok 500 6 "R1" queued_db paid_batch pays

-- The bank accepts everything.
abbrev bank : Bank
bank = record {
  now = 600;
  iban_of = λ _. some "IR06";
  initiate = λ _ _. record { accepted = true; bank_ref = "B1" };
}

abbrev totals : Totals
totals = record { completed_count = 0; failed_count = 0; skipped_count = 0; first_completed = none }

abbrev one_completed : Totals
one_completed = record totals { completed_count = 1; first_completed = some (some "B1") }

abbrev done_payout : Payout
done_payout = record {
  settlement_batch_id = 6;
  settlement_line_id = 8;
  status = completed;
  bank_reference = some "B0";
}

abbrev done_db : Db
done_db = record queued_db { payouts = done_payout ∷ [] }

final_never_requested_example :
    let s' = (pay_lines bank 6 done_db.lines totals done_db).1 in
    (find_payout 8 s'.payouts ≡ some done_payout)
    × (requests_for 8 s'.bank_requests ≡ requests_for 8 done_db.bank_requests)
unfolding find_payout
final_never_requested_example =
    final_never_requested bank 6 8 done_db.lines totals done_db done_payout refl (inl refl)

pay_lines-IsFinal_example :
    (p : Payout) × (find_payout 8 (pay_lines bank 6 queued_db.lines totals queued_db).1.payouts
      ≡ some p)
    × IsFinal p.status
unfolding pay_lines find update_mission settle_verified_mission
pay_lines-IsFinal_example =
    pay_lines-IsFinal bank 6 queued_db.lines totals one_completed queued_db refl 8 line "IR06" refl
      refl

abbrev unverified_db : Db
unverified_db = db delivered in_bank_queue

accepted_and_forgotten_example :
    let (outcome, s') = pay_line bank 6 (8, line) totals unverified_db in
    let request = payout_request 6 8 line "IR06" in
    (outcome ≡ throws mission_settle_failed)
    × (s'.bank_requests
        ≡ (request, bank.initiate unverified_db.bank_requests request)
          ∷ unverified_db.bank_requests)
    × (s'.missions ≡ unverified_db.missions)
    × NotYetPaid 8 s'
unfolding find find_payout
accepted_and_forgotten_example =
    accepted_and_forgotten bank 6 8 2 line "IR06" totals unverified_db (mission_at delivered)
      (inl refl) refl refl refl refl refl

-- ===== src/Settlement/Paid/Laws.antt =====
-- A batch that is marked as paid: its missions are settled and its lines have completed payouts;
-- otherwise nothing is written.
use Prim.Native.String.{String}
use logestic.Prelude.{
  ℕ, true, false, none, some, List, [], ◌∷◌, ◌++◌, length, ◌≡◌, ◌≢◌, refl, ◌⊎◌, inl, inr, arith,
  map, Option-cases,
}
use logestic.Prelude.Table.{Table, find, update, find-update_self}
use logestic.Reasons.{Reason}
use logestic.Fsm.{verified, MissionStatus}
use logestic.Store.{Outcome, Action, ok, refused, throws, transaction, pure, gets, ◌>>=◌, ◌>>◌}
use logestic.Store.Atomic.{
  Atomic, Atomic-ok, unchanged_refused, Atomic-bind, Atomic-transaction, ok_or_same,
}
use logestic.Store.Batches.{Batch, BatchStatus, in_bank_queue, given}
use logestic.Store.Tables.{Db, Line, Mission, PaymentState, Event}
use logestic.Missions.{publish, settle_verified_mission}
use logestic.Settlement.Batch.{batch_with, update_batch}
use logestic.Settlement.Paid.{
  mark_batch_paid, mark_paid_in_tx, settle_lines, lines_of, pay, completed_payout,
  without_payouts_of, mission_ids, publish_paid,
}
use logestic.Settlement.Paid.Missions.{
  EachVerified, settle_all, settle_lines-Settled, settle_all-members, settle_all-others, member,
}

publish-rows :
    (i : ℕ) (r : logestic.Store.Batches.Reference) (ms : List ℕ) (s : Db)
    → let (outcome, s') = publish_paid i r ms s in
      (outcome ≡ ok tt)
      × (s'.batches ≡ s.batches)
      × (s'.missions ≡ s.missions)
      × (s'.payouts ≡ s.payouts)
      × (s'.transactions ≡ s.transactions)
unfolding publish_paid
publish-rows i r [] s = (refl, refl, refl, refl, refl)
publish-rows i r (m ∷ ms) s = publish-rows i r ms _

-- The loop never refuses.
settle_lines-ne-refused :
    (ls : Table Line) (s : Db) (e : Reason) → (settle_lines ls s).0 ≢ refused e
unfolding settle_lines
settle_lines-ne-refused [] s e h = cc
settle_lines-ne-refused ((k, l) ∷ ls) s e h = elim (Option-cases l.mission_id) [
  | inl without ↦ settle_lines-ne-refused ls s e (ground arith)
  | inr (m, has) ↦ ground (arith, settle_lines-ne-refused ls (settle_verified_mission m s).1 e)
]

in_tx-ne-refused :
    (now i : ℕ) (reference : String) (s : Db) (e : Reason)
    → (mark_paid_in_tx now i reference s).0 ≢ refused e
unfolding mark_paid_in_tx
in_tx-ne-refused now i reference s e h = grind (arith, settle_lines-ne-refused)

record Written (now i : ℕ) (reference : String) (b : Batch) (s s' : Db) : Type 0 where
  pub queued : b.status ≡ in_bank_queue
  pub each : EachVerified (mission_ids (lines_of i s.lines)) s.missions
  pub batches : s'.batches ≡ update i (pay now (given reference)) s.batches
  pub missions : s'.missions ≡ settle_all (mission_ids (lines_of i s.lines)) s.missions
  pub payouts :
      s'.payouts
      ≡ map (completed_payout i reference) (lines_of i s.lines) ++ without_payouts_of i s.payouts
  pub transactions : s'.transactions ≡ s.transactions

missing :
    (now i : ℕ) (reference : String) (s : Db) (r : Batch)
    → find i s.batches ≡ none
    → (mark_batch_paid now i reference s).0 ≢ ok r
unfolding mark_batch_paid
missing now i reference s r e h = ground arith

loop_settled :
    (now i : ℕ) (reference : String) (s : Db) (r : Batch)
    → (mark_batch_paid now i reference s).0 ≡ ok r
    → (settle_lines (lines_of i s.lines) s).0 ≡ ok tt
unfolding mark_batch_paid mark_paid_in_tx
loop_settled now i reference s r h = ground arith

queued :
    (now i : ℕ) (reference : String) (s : Db) (b r : Batch)
    → find i s.batches ≡ some b
    → (mark_batch_paid now i reference s).0 ≡ ok r
    → b.status ≡ in_bank_queue
unfolding mark_batch_paid
queued now i reference s b r found h = ground arith

-- The database after the transaction.
abbrev paid_db : ℕ → ℕ → String → Db → Db
paid_db now i reference s = record s {
  missions = settle_all (mission_ids (lines_of i s.lines)) s.missions;
  batches = update i (pay now (given reference)) s.batches;
  payouts =
      map (completed_payout i reference) (lines_of i s.lines) ++ without_payouts_of i s.payouts;
}

in_tx-ok :
    (now i : ℕ) (reference : String) (s : Db) (b : Batch)
    → find i s.batches ≡ some b
    → settle_lines (lines_of i s.lines) s
      ≡ (ok tt, record s { missions = settle_all (mission_ids (lines_of i s.lines)) s.missions })
    → mark_paid_in_tx now i reference s
      ≡ (ok (pay now (given reference) b), paid_db now i reference s)
unfolding mark_paid_in_tx update_batch
in_tx-ok now i reference s b found run = ground arith

written :
    (now i : ℕ) (reference : String) (s : Db) (b r : Batch)
    → find i s.batches ≡ some b
    → (mark_batch_paid now i reference s).0 ≡ ok r
    → Written now i reference b s (mark_batch_paid now i reference s).1
unfolding mark_batch_paid
written now i reference s b r found h =
    let ls = lines_of i s.lines in
    let at = queued now i reference s b r found h in
    let loop = loop_settled now i reference s r h in
    let q = settle_lines-Settled ls s loop in
    let run : settle_lines ls s
        ≡ (ok tt, record s { missions = settle_all (mission_ids ls) s.missions }) =
      λ k. (loop k, q.written k) in
    let tx = in_tx-ok now i reference s b found run in
    let rows =
      publish-rows i (given reference) (mission_ids ls) (record (paid_db now i reference s) {
        events = Event.settlement_settled i (given reference) (length ls) ∷ s.events;
      }) in
    record {
      queued = at;
      each = q.each;
      batches = ground (arith, tx, rows);
      missions = ground (arith, tx, rows);
      payouts = ground (arith, tx, rows);
      transactions = ground (arith, tx, rows);
    }

-- A batch that is marked as paid was in the bank's queue and is settled then. The mission of each of its
-- lines was verified and is settled with its payment, and every other mission stays as it was. Each of
-- its lines has one completed payout with the reference, in place of the payouts that the batch had; the
-- payouts of other batches stay, and no transaction is posted.
pub mark_paid_ok :
    (now i : ℕ) (reference : String) (s : Db) (r : Batch)
    → (mark_batch_paid now i reference s).0 ≡ ok r
    → let s' = (mark_batch_paid now i reference s).1 in
      let ls = lines_of i s.lines in
      (b : Batch) × (find i s.batches ≡ some b)
      × (b.status ≡ in_bank_queue)
      × (find i s'.batches
          ≡ some (record b {
            status = BatchStatus.settled;
            paid_at = some now;
            payment_reference = some (given reference);
          }))
      × ((j : ℕ)
          → member j (mission_ids ls) ≡ true
          → (m : Mission) × (find j s.missions ≡ some m)
            × (m.status ≡ verified)
            × (find j s'.missions
                ≡ some (record m {
                  status = MissionStatus.settled;
                  payment_state = PaymentState.settled;
                })))
      × ((j : ℕ) → member j (mission_ids ls) ≡ false → find j s'.missions ≡ find j s.missions)
      × (s'.payouts ≡ map (completed_payout i reference) ls ++ without_payouts_of i s.payouts)
      × (s'.transactions ≡ s.transactions)
mark_paid_ok now i reference s r h = elim (Option-cases (find i s.batches)) [
  | inl none_there ↦ absurd (missing now i reference s r none_there h)
  | inr (b, found) ↦
      let w = written now i reference s b r found h in
      let ms = mission_ids (lines_of i s.lines) in
      (
        b,
        found,
        w.queued,
        rw w.batches (find-update_self i (pay now (given reference)) s.batches found),
        λ j isin. rw w.missions (settle_all-members ms s.missions j w.each isin),
        λ j out. rw w.missions (settle_all-others ms s.missions j out),
        w.payouts,
        w.transactions,
      )
]

module _ (now i : ℕ) (reference : String) (s : Db) where
  Atomic-tx : Atomic s (transaction (mark_paid_in_tx now i reference) s)
  Atomic-tx =
      Atomic-transaction s (mark_paid_in_tx now i reference) (in_tx-ne-refused now i reference s)

  -- The events that follow the transaction.
  abbrev events_of_paid : Batch → Action Batch
  events_of_paid updated = do
    publish (Event.settlement_settled i (given reference) (length (lines_of i s.lines)))
    publish_paid i (given reference) (mission_ids (lines_of i s.lines))
    pure updated

  always_published : (updated : Batch) (s' : Db) → (events_of_paid updated s').0 ≡ ok updated
  always_published updated s' =
      let before = record s' {
        events =
            Event.settlement_settled i (given reference) (length (lines_of i s.lines)) ∷ s'.events;
      } in
      ground (arith, publish-rows i (given reference) (mission_ids (lines_of i s.lines)) before)

  Atomic-paid : Atomic s (mark_batch_paid now i reference s)
  unfolding mark_batch_paid
  Atomic-paid =
      let bound =
        Atomic-bind s (transaction (mark_paid_in_tx now i reference)) events_of_paid Atomic-tx
          (λ updated s'.
            Atomic-ok s updated (events_of_paid updated s') (always_published updated s')) in
      elim (Option-cases (batch_with in_bank_queue i s)) [
        | inl none_there ↦ rw none_there (unchanged_refused Reason.invalid_batch_status)
        | inr (b, queued) ↦ rw queued bound
      ]

  -- A batch is marked as paid, or the database is as it was, whatever it is refused for or throws: no
  -- mission is settled where another one of the batch cannot be.
  mark_paid_atomic :
      let (outcome, s') = mark_batch_paid now i reference s in
      ((r : Batch) × (outcome ≡ ok r)) ⊎ (s' ≡ s)
  mark_paid_atomic = ok_or_same (mark_batch_paid now i reference s) Atomic-paid

-- ===== src/Settlement/Close/Due.antt =====
-- What makes a mission or a log due in a weekly close, said of the rows of the tables.
use logestic.Prelude.{
  ℕ, ◌≤◌, true, false, ◌&&◌, Option, none, some, ◌==◌, ==_iff, ==_refl, ◌≡◌, ◌≢◌, inl, inr, arith,
  Option-cases,
}
use logestic.Prelude.Table.{find, RowIn, row_fails}
use logestic.Fsm.{verified}
use logestic.Store.Batches.{Batch, HourlyLog, HourlyStatus}
use logestic.Store.Tables.{Db, Line, Load, Mission, Ticket, TicketStatus, PaymentState}
use logestic.Settlement.Period.{Period}
use logestic.Settlement.Eligible.{
  is_pending_hold, is_mission_due, is_log_due, has_pending_hold_ticket, is_mission_taken,
  is_log_taken, is_mission_eligible_for_settlement, has_id, batch_of, is_within,
}
use logestic.Settlement.Close.Unique.{weekly}

-- A time in the period.
pub record Within (p : Period) (o : Option ℕ) : Type 0 where
  pub time : ℕ
  pub given : o ≡ some time
  pub from : p.period_start ≤ time
  pub until : time ≤ p.period_end

-- A mission of the table, verified in the period, with a payment that is neither held nor
-- failed, without a ticket on hold, of a load of the mine, and on no line of a live weekly batch.
pub record DueMission (mine : ℕ) (p : Period) (s : Db) (i : ℕ) (m : Mission) : Type 0 where
  pub row : RowIn i m s.missions
  pub is_verified : m.status ≡ verified
  pub unheld : m.payment_state ≢ PaymentState.held
  pub unfailed : m.payment_state ≢ PaymentState.failed
  pub not_held :
      (k : ℕ) (t : Ticket)
      → RowIn k t s.tickets
      → t.mission_id ≡ i
      → t.status ≢ TicketStatus.pending_hold
  pub load : (l : Load) × (find m.load_id s.loads ≡ some l) × (l.mine_id ≡ mine)
  pub within : Within p m.verified_at
  pub untaken :
      (k : ℕ) (x : Line) (b : Batch)
      → RowIn k x s.lines
      → x.mission_id ≡ some i
      → find x.batch_id s.batches ≡ some b
      → weekly b ≡ false

-- An approved log of the table and the mine, verified in the period, and on no line of a live weekly
-- batch.
pub record DueLog (mine : ℕ) (p : Period) (s : Db) (i : ℕ) (l : HourlyLog) : Type 0 where
  pub row : RowIn i l s.hourly_logs
  pub of_mine : l.mine_id ≡ mine
  pub is_approved : l.status ≡ HourlyStatus.approved
  pub within : Within p l.consultant_verified_at
  pub untaken :
      (k : ℕ) (x : Line) (b : Batch)
      → RowIn k x s.lines
      → x.hourly_work_log_id ≡ some i
      → find x.batch_id s.batches ≡ some b
      → weekly b ≡ false

within_of : (p : Period) (o : Option ℕ) → is_within p o ≡ true → Within p o
within_of p none h = absurd (cc)
within_of p (some t) h = record {
  time = t;
  given = λ _. some t;
  from = ground (arith, h);
  until = ground (arith, h);
}

line_fails :
    (i : ℕ) (o : Option ℕ) (x : Line) (b : Batch) (s : Db)
    → (has_id i o && batch_of weekly x s) ≡ false
    → o ≡ some i
    → find x.batch_id s.batches ≡ some b
    → weekly b ≡ false
line_fails i o x b s h e found = let own = ==_refl i in ground (arith, h, e, found, own)

module _ (mine : ℕ) (p : Period) (s : Db) where
  pub due_mission :
      (i : ℕ) (m : Mission)
      → RowIn i m s.missions
      → is_mission_due weekly mine p s (i, m) ≡ true
      → DueMission mine p s i m
  unfolding is_mission_due is_mission_eligible_for_settlement has_pending_hold_ticket
      is_mission_taken
  due_mission i m row due = record {
    row = row;
    is_verified = ground (arith, due);
    unheld = λ e. absurd (ground (arith, due, e));
    unfailed = λ e. absurd (ground (arith, due, e));
    not_held = λ k t there e held.
        let fails =
          row_fails (λ (_, t'). t'.mission_id == i && is_pending_hold t'.status) k t s.tickets
            (ground (arith, due)) there in
        absurd (ground (arith, fails, e, held, ==_iff t.mission_id i));
    load = elim (Option-cases (find m.load_id s.loads)) [
      | inl none_there ↦ absurd (ground (arith, due, none_there))
      | inr (l, found) ↦ (l, found, ground (arith, due, found, ==_iff l.mine_id mine))
    ];
    within = within_of p m.verified_at (ground (arith, due));
    untaken = λ k x b there e found.
        line_fails i x.mission_id x b s
          (row_fails (λ (_, l). has_id i l.mission_id && batch_of weekly l s) k x s.lines
            (ground (arith, due)) there)
          e found;
  }

  pub due_log :
      (i : ℕ) (l : HourlyLog)
      → RowIn i l s.hourly_logs
      → is_log_due weekly mine p s (i, l) ≡ true
      → DueLog mine p s i l
  unfolding is_log_due is_log_taken
  due_log i l row due = record {
    row = row;
    of_mine = ground (arith, due, ==_iff l.mine_id mine);
    is_approved = ground (arith, due);
    within = within_of p l.consultant_verified_at (ground (arith, due));
    untaken = λ k x b there e found.
        line_fails i x.hourly_work_log_id x b s
          (row_fails (λ (_, l). has_id i l.hourly_work_log_id && batch_of weekly l s) k x s.lines
            (ground (arith, due)) there)
          e found;
  }

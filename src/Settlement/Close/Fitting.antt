-- ===== src/Settlement/Close/Fitting.antt =====
-- The lines that the closes make fit into their batch: weekly ones are of missions that no live
-- weekly batch has, the lines of the other closes are in other batches, and those of hourly logs and
-- pools have no mission.
use logestic.Prelude.{
  ℕ, Bool, true, false, not, ◌&&◌, Option, some, [], ◌∷◌, ◌≡◌, inl, inr, refl, arith, Bool-cases,
}
use logestic.Prelude.Int.{pos, leb_ℤ}
use logestic.Prelude.Table.{none_passes, Table, find}
use logestic.Store.Batches.{Batch, HourlyLog}
use logestic.Store.Tables.{Db, Line, Mission}
use logestic.Settlement.Period.{Period}
use logestic.Settlement.Eligible.{
  batch_of, has_id, is_mission_taken, is_mission_due, mission_line, mission_lines, hourly_lines,
  owner_lines, owner_credit_for_mission, has_wallet, is_log_due, owner_credit_for_hourly,
  hourly_line,
}
use logestic.Settlement.Close.Unique.{weekly, in_weekly, Fits, no_mission, other_type, not_taken}
use logestic.Prelude.Every.{All, nil, cons, All-append}

has_own_id : (i : ℕ) (o : Option ℕ) → o ≡ some i → has_id i o ≡ true
has_own_id i o e = ground arith

not_taken_line :
    (i : ℕ) (s : Db)
    → is_mission_taken weekly i s ≡ false
    → (k : ℕ) (x : Line) → find k s.lines ≡ some x
    → x.mission_id ≡ some i
    → in_weekly s.batches x ≡ false
unfolding is_mission_taken
not_taken_line i s h k x at of =
    let row =
      none_passes (λ (_, l). has_id i l.mission_id && batch_of weekly l s) s.lines k x h at in
    let own = has_own_id i x.mission_id of in ground (arith, row, own)

-- A due mission is not taken.
due_free :
    (test : Batch → Bool) (mine : ℕ) (p : Period) (s : Db) (i : ℕ) (m : Mission)
    → is_mission_due test mine p s (i, m) ≡ true
    → is_mission_taken test i s ≡ false
unfolding is_mission_due
due_free test mine p s i m h = ground arith

pub mission_lines-Fits :
    (mine : ℕ) (p : Period) (b : Batch) (s : Db) (j : ℕ) (ms : Table Mission)
    → All (Fits s.batches s.lines j b) (mission_lines weekly mine p j s ms)
unfolding mission_lines
mission_lines-Fits mine p b s j [] = nil
mission_lines-Fits mine p b s j ((i, m) ∷ ms) =
    let amount = owner_credit_for_mission i s in
    let line = mission_line j i m amount in
    let later = mission_lines-Fits mine p b s j ms in
    elim (Bool-cases (is_mission_due weekly mine p s (i, m))) [
      | inl due ↦ elim (Bool-cases (not (leb_ℤ amount (pos 0)) && has_wallet m.owner_id s)) [
        | inl e ↦
            rw (due, e)
              (cons line (mission_lines weekly mine p j s ms)
                (not_taken i refl refl (not_taken_line i s (due_free weekly mine p s i m due)))
                later)
        | inr e ↦ rw (due, e) later
      ]
      | inr e ↦ rw e later
    ]

pub mission_lines-other :
    (test : Batch → Bool) (mine : ℕ) (p : Period) (b : Batch) (s : Db) (j : ℕ) (ms : Table Mission)
    → weekly b ≡ false
    → All (Fits s.batches s.lines j b) (mission_lines test mine p j s ms)
unfolding mission_lines
mission_lines-other test mine p b s j [] w = nil
mission_lines-other test mine p b s j ((i, m) ∷ ms) w =
    let amount = owner_credit_for_mission i s in
    let later = mission_lines-other test mine p b s j ms w in
    elim (Bool-cases (
      is_mission_due test mine p s (i, m)
      && not (leb_ℤ amount (pos 0))
      && has_wallet m.owner_id s)) [
        | inl e ↦ rw e (
            cons (mission_line j i m amount) (mission_lines test mine p j s ms) (other_type refl w)
              later)
        | inr e ↦ rw e later
      ]

pub hourly_lines-Fits :
    (test : Batch → Bool) (mine : ℕ) (p : Period) (b : Batch) (s : Db) (j : ℕ)
    (ls : Table HourlyLog)
    → All (Fits s.batches s.lines j b) (hourly_lines test mine p j s ls)
unfolding hourly_lines
hourly_lines-Fits test mine p b s j [] = nil
hourly_lines-Fits test mine p b s j ((i, l) ∷ ls) =
    let amount = owner_credit_for_hourly i s in
    let later = hourly_lines-Fits test mine p b s j ls in
    elim (Bool-cases (
      is_log_due test mine p s (i, l)
      && not (leb_ℤ amount (pos 0))
      && has_wallet l.fleet_owner_id s)) [
        | inl e ↦ rw e (
            cons (hourly_line j i l amount) (hourly_lines test mine p j s ls) (no_mission refl refl)
              later)
        | inr e ↦ rw e later
      ]

pub owner_lines-weekly :
    (mine : ℕ) (p : Period) (b : Batch) (s : Db) (j : ℕ)
    → All (Fits s.batches s.lines j b) (owner_lines weekly mine p j s)
unfolding owner_lines
owner_lines-weekly mine p b s j =
    All-append (mission_lines weekly mine p j s s.missions)
      (hourly_lines weekly mine p j s s.hourly_logs) (mission_lines-Fits mine p b s j s.missions)
      (hourly_lines-Fits weekly mine p b s j s.hourly_logs)

pub owner_lines-other :
    (test : Batch → Bool) (mine : ℕ) (p : Period) (b : Batch) (s : Db) (j : ℕ)
    → weekly b ≡ false
    → All (Fits s.batches s.lines j b) (owner_lines test mine p j s)
unfolding owner_lines
owner_lines-other test mine p b s j w =
    All-append (mission_lines test mine p j s s.missions)
      (hourly_lines test mine p j s s.hourly_logs)
      (mission_lines-other test mine p b s j s.missions w)
      (hourly_lines-Fits test mine p b s j s.hourly_logs)

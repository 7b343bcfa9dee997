-- ===== src/Settlement/Close/Cycle.antt =====
-- The household close, and the daily cycle that runs the closes of all mines, keep the weekly
-- batches apart.
use logestic.Prelude.{
  ℕ, true, Option, some, List, [], ◌∷◌, ◌≡◌, ◌≢◌, inl, inr, refl, sym, ◌∙◌, arith, Bool-cases, ◌==◌,
  ==_iff, not, filter, length,
}
use mathlib.Core.List.{reverse}
use logestic.Prelude.Table.{
  Table, find, insert, next_id, find-insert_self, find-insert_old, lt-next_id,
}
use logestic.Store.{◌>>=◌}
use logestic.Store.Keeps.{
  Keeps, Keeps-if, Keeps-same, Keeps-bind, Keeps-or_refuse, Keeps-or_throw, Keeps-refuse_if,
}
use logestic.Store.Batches.{Batch}
use logestic.Store.Tables
use logestic.Store.Tables.{Db, Line}
use logestic.Settlement.Period.{Period}
use logestic.Settlement.Close.{
  run_mine, run_mines, run_daily_settlement_cycle, finish_household, is_distribution, CloseEnv,
  create_batch, insert_lines, append_lines, attempt, append_pool_distribution_lines,
  request_approvals, owner_weekly_close, distribute_unless_done, household_monthly_close,
}
use logestic.Settlement.Close.Unique.{in_weekly, WeeklyOnce}
use logestic.Prelude.Every.{nil}
use logestic.Settlement.Close.Untouched.{distribute_unless_done-Keeps, attempt-Keeps}
use logestic.Settlement.Close.Once.{
  WeeklyOnceIn, fitting_batch, missionless, append_lines-new, owner_weekly_close-WeeklyOnceIn,
}

-- A batch that is taken out again, where no line is in it.
forgotten :
    (batches batches' : Table Batch) (lines : Table Line)
    → WeeklyOnce batches lines
    → ((k : ℕ) (b : Batch) → find k batches ≡ some b → find k batches' ≡ some b)
    → WeeklyOnce batches' lines
forgotten batches batches' lines w same =
    let old : (k : ℕ) (l : Line)
        → find k lines ≡ some l
        → in_weekly batches' l ≡ in_weekly batches l =
      λ k l at.
        let (b, row) = w.known k l at in
        let row' = same l.batch_id b row in ground (arith, row, row') in
    record {
      known = λ k l at. let (b, row) = w.known k l at in (b, same l.batch_id b row);
      once = λ k k' i l l' at at' of of' live live'.
          w.once k k' i l l' at at' of of' (sym (old k l at) ∙ live) (sym (old k' l' at') ∙ live');
    }

find-drop :
    (k j : ℕ) (t : Table Batch) (b : Batch)
    → find k t ≡ some b
    → k ≢ j
    → find k (filter (λ (i, _). not (i == j)) t) ≡ some b
unfolding find
find-drop k j [] b h ne = h
find-drop k j ((i, x) ∷ t) b h ne = ground (arith, find-drop k j t b, ==_iff k i, ==_iff i j)

no_rows : (ds : List Tables.Transaction) → (length ds == 0) ≡ true → ds ≡ []
no_rows [] e = refl
no_rows (_ ∷ ds) e = absurd (ground arith)

-- What the household close does after its pool is distributed.
household_batch :
    (b : Batch) (k : ℕ) (s : Db)
    → WeeklyOnceIn s
    → Keeps WeeklyOnceIn (
        (create_batch b (λ _. []) >>= λ i.
        (append_pool_distribution_lines i k >>= finish_household i))
          s)
unfolding create_batch append_pool_distribution_lines finish_household request_approvals
    WeeklyOnceIn insert_lines
household_batch b k s w =
    let j = next_id s.batches in
    let ds = reverse (filter (is_distribution k) s.transactions) in
    elim (Bool-cases (length ds == 0)) [
      | inl none_paid ↦ rw none_paid (record {
        after =
            forgotten s.batches (filter (λ (i, _). not (i == j)) (insert b s.batches))
              (append_lines j ds s.lines) (let e = no_rows ds none_paid in rw (e, append_lines) w)
              (λ i x at.
                find-drop i j (insert b s.batches) x (find-insert_old i b s.batches at)
                  (let older = lt-next_id i s.batches x at in λ e. ground arith));
      })
      | inr paid ↦ rw paid (record {
        after =
            missionless (insert b s.batches) s.lines _ b j (fitting_batch s b [] w nil)
              (find-insert_self b s.batches) (append_lines-new j ds s.lines);
      })
    ]

distribute-WeeklyOnceIn :
    (env : CloseEnv) (p : Period) (k : ℕ) (s : Db)
    → WeeklyOnceIn s
    → Keeps WeeklyOnceIn (distribute_unless_done env p k s)
unfolding WeeklyOnceIn
distribute-WeeklyOnceIn env p k s w =
    let kept = distribute_unless_done-Keeps s env p k s (record { batches = refl; lines = refl }) in
    let e = kept.after.batches in let e' = kept.after.lines in record { after = rw (e, e') w }

pub household_monthly_close-WeeklyOnceIn :
    (env : CloseEnv) (mine year month : ℕ) (user : Option ℕ) (s : Db)
    → WeeklyOnceIn s
    → Keeps WeeklyOnceIn (household_monthly_close env mine year month user s)
unfolding household_monthly_close
household_monthly_close-WeeklyOnceIn env mine year month user s w =
    search
      (
        Keeps-refuse_if, Keeps-or_throw, Keeps-or_refuse, Keeps-bind, distribute-WeeklyOnceIn,
        household_batch,
      )
      depth 30

attempt_weekly :
    (env : CloseEnv) (mine at : ℕ) (user : Option ℕ) (s : Db)
    → WeeklyOnceIn s
    → Keeps WeeklyOnceIn (attempt (owner_weekly_close env mine at user) s)
attempt_weekly env mine at user s w =
    attempt-Keeps s WeeklyOnceIn (owner_weekly_close env mine at user) s
      (owner_weekly_close-WeeklyOnceIn env mine at user s w)

attempt_household :
    (env : CloseEnv) (mine year month : ℕ) (user : Option ℕ) (s : Db)
    → WeeklyOnceIn s
    → Keeps WeeklyOnceIn (attempt (household_monthly_close env mine year month user) s)
attempt_household env mine year month user s w =
    attempt-Keeps s WeeklyOnceIn (household_monthly_close env mine year month user) s
      (household_monthly_close-WeeklyOnceIn env mine year month user s w)

run_mine-WeeklyOnceIn :
    (env : CloseEnv) (at mine : ℕ) (s : Db)
    → WeeklyOnceIn s
    → Keeps WeeklyOnceIn (run_mine env at mine s)
unfolding run_mine
run_mine-WeeklyOnceIn env at mine s w =
    search (Keeps-bind, attempt_weekly, attempt_household, Keeps-if, Keeps-same) depth 30

run_mines-WeeklyOnceIn :
    (env : CloseEnv) (at : ℕ) (mines : List ℕ) (s : Db)
    → WeeklyOnceIn s
    → Keeps WeeklyOnceIn (run_mines env at mines s)
unfolding run_mines
run_mines-WeeklyOnceIn env at [] s w = record { after = w }
run_mines-WeeklyOnceIn env at (m ∷ ms) s w =
    let later = λ (t : Db). run_mines-WeeklyOnceIn env at ms t in
    search (Keeps-bind, run_mine-WeeklyOnceIn, later, Keeps-same) depth 30

-- A run of the daily cycle, whatever it ends with, keeps every mission in one live weekly batch.
pub cycle_once :
    (env : CloseEnv) (at : ℕ) (mines : List ℕ) (s : Db)
    → WeeklyOnce s.batches s.lines
    → WeeklyOnce
        (run_daily_settlement_cycle env at mines s).1.batches
        (run_daily_settlement_cycle env at mines s).1.lines
unfolding run_daily_settlement_cycle WeeklyOnceIn
cycle_once env at [] s w = (run_mines-WeeklyOnceIn env at env.mines s w).after
cycle_once env at (m ∷ ms) s w = (run_mines-WeeklyOnceIn env at (m ∷ ms) s w).after

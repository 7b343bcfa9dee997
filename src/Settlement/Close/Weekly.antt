-- ===== src/Settlement/Close/Weekly.antt =====
-- What the weekly close of a mine's owners does: the batch that it makes, whom its lines pay, and
-- that the next close of its bucket is refused.
use logestic.Prelude.{
  ℕ, true, false, not, ◌&&◌, Option, some, [], ◌∷◌, any, ◌≡◌, ◌⊎◌, inl, inr, refl, sym, ap, ◌∙◌,
  arith, Bool-cases, Option-cases,
}
use logestic.Prelude.Int.{pos, leb_ℤ}
use logestic.Prelude.Table.{Table, RowIn, at_top, below, find, insert, next_id, find-insert_self}
use logestic.Reasons.{Reason}
use logestic.Store.{ok, refused}
use logestic.Store.Batches.{Batch, owner_weekly, HourlyLog}
use logestic.Store.Tables.{Db, Line, Mission}
use logestic.Settlement.Period.{Period, owner_period_bounds}
use logestic.Settlement.Eligible.{
  is_mission_due, is_log_due, mission_line, hourly_line, mission_lines, hourly_lines, owner_lines,
  owner_credit_for_mission, owner_credit_for_hourly, has_wallet,
}
use logestic.Settlement.Close.{
  CloseEnv, exists_batch, is_batch_of, new_batch, insert_lines, create_batch, owner_weekly_close,
  request_approvals, has_no_lines,
}
use logestic.Settlement.Close.Due.{DueMission, DueLog, due_mission, due_log}
use logestic.Settlement.Close.Unique.{weekly, find-insert_lines}
use logestic.Prelude.Every.{All, nil, cons, All-append}

-- A line of the batch that pays the owner of a due mission, or of a due log, the positive sum of the
-- credits that the owner's wallet had for it.
pub data PaysOwner (mine : ℕ) (p : Period) (j : ℕ) (s : Db) (x : Line) : Type 0 where
  for_mission :
      (i : ℕ) (m : Mission)
      → DueMission mine p s i m
      → leb_ℤ x.amount (pos 0) ≡ false
      → x ≡ mission_line j i m (owner_credit_for_mission i s)
      → PaysOwner mine p j s x
  for_log :
      (i : ℕ) (l : HourlyLog)
      → DueLog mine p s i l
      → leb_ℤ x.amount (pos 0) ≡ false
      → x ≡ hourly_line j i l (owner_credit_for_hourly i s)
      → PaysOwner mine p j s x

module _ (mine : ℕ) (p : Period) (j : ℕ) (s : Db) where
  mission_lines-PaysOwner :
      (ms : Table Mission)
      → ((i : ℕ) (m : Mission) → RowIn i m ms → RowIn i m s.missions)
      → All (PaysOwner mine p j s) (mission_lines weekly mine p j s ms)
  unfolding mission_lines
  mission_lines-PaysOwner [] within = nil
  mission_lines-PaysOwner ((i, m) ∷ ms) within =
      let amount = owner_credit_for_mission i s in
      let later = mission_lines-PaysOwner ms (λ k n row. within k n (below (i, m) ms row)) in
      elim (Bool-cases (
        is_mission_due weekly mine p s (i, m)
        && not (leb_ℤ amount (pos 0))
        && has_wallet m.owner_id s)) [
          | inl e ↦ rw e (
              cons (mission_line j i m amount) (mission_lines weekly mine p j s ms)
                (for_mission i m
                  (due_mission mine p s i m (within i m (at_top ms)) (ground (arith, e)))
                  (ground (arith, e)) refl)
                later)
          | inr e ↦ rw e later
        ]

  hourly_lines-PaysOwner :
      (ls : Table HourlyLog)
      → ((i : ℕ) (l : HourlyLog) → RowIn i l ls → RowIn i l s.hourly_logs)
      → All (PaysOwner mine p j s) (hourly_lines weekly mine p j s ls)
  unfolding hourly_lines
  hourly_lines-PaysOwner [] within = nil
  hourly_lines-PaysOwner ((i, l) ∷ ls) within =
      let amount = owner_credit_for_hourly i s in
      let later = hourly_lines-PaysOwner ls (λ k n row. within k n (below (i, l) ls row)) in
      elim (Bool-cases (
        is_log_due weekly mine p s (i, l)
        && not (leb_ℤ amount (pos 0))
        && has_wallet l.fleet_owner_id s)) [
          | inl e ↦ rw e (
              cons (hourly_line j i l amount) (hourly_lines weekly mine p j s ls)
                (for_log i l (due_log mine p s i l (within i l (at_top ls)) (ground (arith, e)))
                  (ground (arith, e)) refl)
                later)
          | inr e ↦ rw e later
        ]

  owner_lines-PaysOwner : All (PaysOwner mine p j s) (owner_lines weekly mine p j s)
  unfolding owner_lines
  owner_lines-PaysOwner =
      All-append (mission_lines weekly mine p j s s.missions)
        (hourly_lines weekly mine p j s s.hourly_logs)
        (mission_lines-PaysOwner s.missions (λ i m row. row))
        (hourly_lines-PaysOwner s.hourly_logs (λ i l row. row))

-- What a close that gives the batch `i` has done.
pub record Closed (env : CloseEnv) (mine at : ℕ) (user : Option ℕ) (i : ℕ) (s s' : Db)
    : Type 0 where
  pub days : ℕ
  pub configured : env.owner_period_days mine ≡ some days
  pub id : i ≡ next_id s.batches
  pub first : exists_batch mine (owner_period_bounds at days).period_start owner_weekly s ≡ false
  pub batches :
      s'.batches ≡ insert (new_batch mine (owner_period_bounds at days) owner_weekly user) s.batches
  pub lines :
      s'.lines ≡ insert_lines (owner_lines weekly mine (owner_period_bounds at days) i s) s.lines
  pub missions : s'.missions ≡ s.missions
  pub transactions : s'.transactions ≡ s.transactions

pub closed :
    (env : CloseEnv) (mine at : ℕ) (user : Option ℕ) (i : ℕ) (s : Db)
    → (owner_weekly_close env mine at user s).0 ≡ ok i
    → Closed env mine at user i s (owner_weekly_close env mine at user s).1
unfolding owner_weekly_close create_batch request_approvals
closed env mine at user i s h = elim (Option-cases (env.owner_period_days mine)) [
  | inl e ↦ absurd (ground arith)
  | inr (days, e) ↦
      let p = owner_period_bounds at days in
      elim (Bool-cases (exists_batch mine p.period_start owner_weekly s)) [
        | inl taken ↦ absurd (ground arith)
        | inr first ↦ elim (Bool-cases (has_no_lines (owner_lines weekly mine p 0 s))) [
          | inl e' ↦ absurd (ground arith)
          | inr e' ↦
              let id : i ≡ next_id s.batches = ground arith in
              record {
                days = days;
                configured = e;
                id = id;
                first = first;
                batches = ground arith;
                lines = ground arith;
                missions = ground arith;
                transactions = ground arith;
              }
        ]
      ]
]

refused_again :
    (env : CloseEnv) (mine at : ℕ) (user : Option ℕ) (days : ℕ) (t : Db)
    → env.owner_period_days mine ≡ some days
    → exists_batch mine (owner_period_bounds at days).period_start owner_weekly t ≡ true
    → owner_weekly_close env mine at user t ≡ (refused Reason.batch_exists_for_period, t)
unfolding owner_weekly_close
refused_again env mine at user days t configured taken = ground arith

exists_new :
    (mine : ℕ) (p : Period) (user : Option ℕ) (batches : Table Batch) (t : Db)
    → t.batches ≡ insert (new_batch mine p owner_weekly user) batches
    → exists_batch mine p.period_start owner_weekly t ≡ true
unfolding exists_batch insert
exists_new mine p user batches t e =
    ap (any (λ (_, b). is_batch_of mine p.period_start owner_weekly b)) e ∙ ground arith

module _ (env : CloseEnv) (mine at : ℕ) (user : Option ℕ) (i : ℕ) (s : Db)
    (done : (owner_weekly_close env mine at user s).0 ≡ ok i) where
  abbrev after : Db
  after = (owner_weekly_close env mine at user s).1

  -- A weekly close that ends with a batch has a period length for the mine. There was no live weekly
  -- batch of the mine for that period, and now there is the new one, CALCULATED, under its id. Each
  -- line of the database is an old one, or a line of this batch that pays the owner of a mission of the
  -- table that is due (verified in the period, not held or failed, of a load of the mine), or of an
  -- approved log of the table, with no line in a live weekly batch,
  -- the positive sum of the credits of the owner's wallet for it. Missions and transactions stay.
  pub weekly_close_ok :
      (days : ℕ) × (env.owner_period_days mine ≡ some days)
      × (let p = owner_period_bounds at days in
          (exists_batch mine p.period_start owner_weekly s ≡ false)
          × (find i after.batches ≡ some (new_batch mine p owner_weekly user))
          × ((k : ℕ) (x : Line)
              → find k after.lines ≡ some x
              → PaysOwner mine p i s x ⊎ (find k s.lines ≡ some x))
          × (after.missions ≡ s.missions)
          × (after.transactions ≡ s.transactions))
  weekly_close_ok =
      let c = closed env mine at user i s done in
      let p = owner_period_bounds at c.days in
      let b = new_batch mine p owner_weekly user in
      (
        c.days,
        c.configured,
        (
          c.first,
          ap (find i) c.batches
              ∙ ap (λ n. find n (insert b s.batches)) c.id
              ∙ find-insert_self b s.batches,
          (λ k x row.
              find-insert_lines (PaysOwner mine p i s) (owner_lines weekly mine p i s) s.lines
                (owner_lines-PaysOwner mine p i s) k x (ap (find k) (sym c.lines) ∙ row)),
          c.missions,
          c.transactions,
        ),
      )

  -- On the database that a weekly close with a batch has left, a further close of the mine in the same
  -- bucket is refused, by whomever, and writes nothing.
  pub bucket_closed_once :
      (days at' : ℕ) (user' : Option ℕ)
      → env.owner_period_days mine ≡ some days
      → (owner_period_bounds at' days).period_start ≡ (owner_period_bounds at days).period_start
      → owner_weekly_close env mine at' user' after
        ≡ (refused Reason.batch_exists_for_period, after)
  bucket_closed_once days at' user' configured same =
      let c = closed env mine at user i s done in
      let e : c.days ≡ days = let e' = c.configured in cc in
      let p = owner_period_bounds at days in
      let rows : after.batches ≡ insert (new_batch mine p owner_weekly user) s.batches =
        c.batches
        ∙ ap (λ d. insert (new_batch mine (owner_period_bounds at d) owner_weekly user) s.batches)
            e in
      refused_again env mine at' user' days after configured (
        ap (λ n. exists_batch mine n owner_weekly after) same
        ∙ exists_new mine p user s.batches after rows)

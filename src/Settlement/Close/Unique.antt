-- ===== src/Settlement/Close/Unique.antt =====
-- The lines of live weekly batches: those of one mission stand in one batch. What a new batch and new
-- lines do to that.
use logestic.Prelude.{
  ℕ, Bool, true, false, none, some, List, ◌≡◌, ◌⊎◌, inl, inr, refl, sym, ap, ◌∙◌, arith,
}
use logestic.Prelude.Table.{
  find_inserted, Table, find, insert, next_id, find-insert_self, find-insert_old,
}
use logestic.Prelude.Every.{All, nil, cons}
use logestic.Store.Batches.{Batch, owner_weekly}
use logestic.Store.Tables.{Line}
use logestic.Settlement.Eligible.{live_of_type}
use logestic.Settlement.Close.{insert_lines}

abbrev pub weekly : Batch → Bool
weekly = live_of_type owner_weekly

-- The test of the batch of a line.
abbrev pub in_weekly : Table Batch → Line → Bool
in_weekly batches l = elim (find l.batch_id batches) [ none ↦ false | some b ↦ weekly b ]

-- Every line has its batch, and two lines of a mission in live weekly batches are in the same one.
pub record WeeklyOnce (batches : Table Batch) (lines : Table Line) : Type 0 where
  pub known :
      (k : ℕ) (l : Line) → find k lines ≡ some l → (b : Batch) × (find l.batch_id batches ≡ some b)
  pub once :
      (k k' i : ℕ) (l l' : Line)
      → find k lines ≡ some l
      → find k' lines ≡ some l'
      → l.mission_id ≡ some i
      → l'.mission_id ≡ some i
      → in_weekly batches l ≡ true
      → in_weekly batches l' ≡ true
      → l.batch_id ≡ l'.batch_id

-- A line that may be added to the batch `j`: it has no mission, the batch is no live weekly one, or
-- no line of the mission is in a live weekly batch.
pub data Fits (batches : Table Batch) (lines : Table Line) (j : ℕ) (b : Batch) (l : Line)
    : Type 0 where
  no_mission : l.batch_id ≡ j → l.mission_id ≡ none → Fits batches lines j b l
  other_type : l.batch_id ≡ j → weekly b ≡ false → Fits batches lines j b l
  not_taken :
      (i : ℕ)
      → l.batch_id ≡ j
      → l.mission_id ≡ some i
      → ((k : ℕ) (x : Line)
          → find k lines ≡ some x
          → x.mission_id ≡ some i
          → in_weekly batches x ≡ false)
      → Fits batches lines j b l

pub find-insert_lines :
    (P : Line → Type 0) (ls : List Line) (t : Table Line)
    → All P ls
    → (k : ℕ) (x : Line) → find k (insert_lines ls t) ≡ some x
    → P x ⊎ (find k t ≡ some x)
unfolding insert_lines
find-insert_lines P _ t nil k x h = inr h
find-insert_lines P _ t (cons l ls p ps) k x h =
    elim (find-insert_lines P ls (insert l t) ps k x h) [
      | inl new ↦ inl new
      | inr later ↦ elim (find_inserted k l x t later) [
        | inl (_, e) ↦ inl (rw⁻¹ e p)
        | inr old ↦ inr old
      ]
    ]

module _ (batches : Table Batch) (lines : Table Line) (b : Batch)
    (w : WeeklyOnce batches lines) where
  abbrev j : ℕ
  j = next_id batches

  old_batch :
      (k : ℕ) (l : Line)
      → find k lines ≡ some l
      → find l.batch_id (insert b batches) ≡ find l.batch_id batches
  old_batch k l h = let (x, at) = w.known k l h in find-insert_old l.batch_id b batches at ∙ sym at

  old_weekly :
      (k : ℕ) (l : Line)
      → find k lines ≡ some l
      → in_weekly (insert b batches) l ≡ in_weekly batches l
  old_weekly k l h = let e = old_batch k l h in rw (in_weekly, e) refl

  batch_of_fitting : (x : Line) → Fits batches lines j b x → x.batch_id ≡ j
  batch_of_fitting x (no_mission e _) = e
  batch_of_fitting x (other_type e _) = e
  batch_of_fitting x (not_taken _ e _ _) = e

  new_row : (x : Line) → x.batch_id ≡ j → find x.batch_id (insert b batches) ≡ some b
  new_row x e = ap (λ n. find n (insert b batches)) e ∙ find-insert_self b batches

  new_weekly : (x : Line) → x.batch_id ≡ j → in_weekly (insert b batches) x ≡ weekly b
  new_weekly x e = let row = new_row x e in rw (in_weekly, row) refl

  -- A line of a mission in a live weekly batch is a new one, or it was one before.
  abbrev IsFresh : ℕ → Line → Type 0
  IsFresh i x =
      (x.batch_id ≡ j)
      × ((k : ℕ) (y : Line)
          → find k lines ≡ some y
          → y.mission_id ≡ some i
          → in_weekly batches y ≡ false)

  fitting :
      (i : ℕ) (x : Line)
      → Fits batches lines j b x
      → x.mission_id ≡ some i
      → in_weekly (insert b batches) x ≡ true
      → IsFresh i x
  fitting i x (no_mission e none_there) of live = absurd (cc)
  fitting i x (other_type e other) of live =
      let same = new_weekly x e in absurd (ground (arith, same, other, live))
  fitting i x (not_taken i' e of' free) of live =
      let same : i' ≡ i = cc in (e, λ k y at of_y. free k y at (rw same of_y))

  module _ (lines' : Table Line)
      (new : (k : ℕ) (x : Line)
        → find k lines' ≡ some x
        → Fits batches lines j b x ⊎ (find k lines ≡ some x)) where
    old_or_added :
        (k i : ℕ) (x : Line)
        → find k lines' ≡ some x
        → x.mission_id ≡ some i
        → in_weekly (insert b batches) x ≡ true
        → IsFresh i x ⊎ ((find k lines ≡ some x) × (in_weekly batches x ≡ true))
    old_or_added k i x at of live = elim (new k x at) [
      | inl fits ↦ inl (fitting i x fits of live)
      | inr old ↦ inr (old, sym (old_weekly k x old) ∙ live)
    ]

    both :
        (k k' i : ℕ) (l l' : Line)
        → l.mission_id ≡ some i
        → l'.mission_id ≡ some i
        → IsFresh i l ⊎ ((find k lines ≡ some l) × (in_weekly batches l ≡ true))
        → IsFresh i l' ⊎ ((find k' lines ≡ some l') × (in_weekly batches l' ≡ true))
        → l.batch_id ≡ l'.batch_id
    both k k' i l l' of of' (inl (e, _)) (inl (e', _)) = e ∙ sym e'
    both k k' i l l' of of' (inl (e, free)) (inr (at', live')) =
        let no_longer = free k' l' at' of' in absurd (cc)
    both k k' i l l' of of' (inr (at, live)) (inl (e', free)) =
        let no_longer = free k l at of in absurd (cc)
    both k k' i l l' of of' (inr (at, live)) (inr (at', live')) =
        w.once k k' i l l' at at' of of' live live'

    known' :
        (k : ℕ) (l : Line)
        → find k lines' ≡ some l
        → (x : Batch) × (find l.batch_id (insert b batches) ≡ some x)
    known' k l at = elim (new k l at) [
      | inl fits ↦ (b, new_row l (batch_of_fitting l fits))
      | inr old ↦ let (x, there) = w.known k l old in (x, old_batch k l old ∙ there)
    ]

    -- With the batch, and with lines that fit into it.
    pub with_batch : WeeklyOnce (insert b batches) lines'
    with_batch = record {
      known = known';
      once = λ k k' i l l' at at' of of' live live'.
          both k k' i l l' of of' (old_or_added k i l at of live)
            (old_or_added k' i l' at' of' live');
    }

-- ===== src/Settlement/Close/Once.antt =====
-- No mission is paid to its owner by two live weekly batches: every close keeps that, and so does
-- the life of a batch after it.
use logestic.Prelude.{
  ℕ, Bool, true, false, Option, none, some, List, [], ◌∷◌, ◌≡◌, ◌⊎◌, inl, inr, refl, sym, ap, ◌∙◌,
  filter, if◌then◌else◌,
}
use mathlib.Core.List.{reverse}
use logestic.Prelude.Table.{find_inserted, Table, find, insert, next_id, find-insert_self}
use logestic.Store.{pure, ◌>>=◌}
use logestic.Store.Keeps.{Keeps, Keeps-same, Keeps-bind, Keeps-or_throw, Keeps-refuse_if}
use logestic.Store.Batches.{Batch, combined_legacy}
use logestic.Store.Tables
use logestic.Store.Tables.{Db, Line}
use logestic.Reasons.{Reason}
use logestic.Pool.{Distribution, PoolEnv, distribute_pool}
use logestic.Settlement.Period.{Period, month_bounds_utc}
use logestic.Settlement.Eligible.{owner_lines, any_live}
use logestic.Settlement.Close.{
  append_if_distributed, distribute_found, publish_calculated, is_distribution, has_pool_line,
  CloseEnv, new_batch, create_batch, insert_lines, append_lines, pool_line, attempt,
  append_pool_distribution_lines, distribute_for_month, request_approvals, monthly_close,
  owner_weekly_close,
}
use logestic.Settlement.Close.Unique.{WeeklyOnce, Fits, with_batch, find-insert_lines}
use logestic.Prelude.Every.{All}
use logestic.Settlement.Close.Fitting.{owner_lines-weekly, owner_lines-other}
use logestic.Settlement.Close.Untouched.{Untouched, distribute_pool-Keeps, attempt-Keeps}

unfoldable pub WeeklyOnceIn : Db → Type 0
WeeklyOnceIn s = WeeklyOnce s.batches s.lines

-- New batches with lines that fit.
pub fitting_batch :
    (s : Db) (b : Batch) (ls : List Line)
    → WeeklyOnceIn s
    → All (Fits s.batches s.lines (next_id s.batches) b) ls
    → WeeklyOnce (insert b s.batches) (insert_lines ls s.lines)
unfolding WeeklyOnceIn
fitting_batch s b ls w fits =
    with_batch s.batches s.lines b w (insert_lines ls s.lines)
      (find-insert_lines (Fits s.batches s.lines (next_id s.batches) b) ls s.lines fits)

-- Lines without a mission may be added to any batch.
pub missionless :
    (batches : Table Batch) (lines lines' : Table Line) (b : Batch) (j : ℕ)
    → WeeklyOnce batches lines
    → find j batches ≡ some b
    → ((k : ℕ) (x : Line)
        → find k lines' ≡ some x
        → ((x.batch_id ≡ j) × (x.mission_id ≡ none)) ⊎ (find k lines ≡ some x))
    → WeeklyOnce batches lines'
missionless batches lines lines' b j w row new = record {
  known = λ k l at. elim (new k l at) [
    | inl (e, _) ↦ (b, ap (λ n. find n batches) e ∙ row)
    | inr old ↦ w.known k l old
  ];
  once = λ k k' i l l' at at' of of' live live'. elim (new k l at) [
    | inl (_, e) ↦ absurd (cc)
    | inr old ↦ elim (new k' l' at') [
      | inl (_, e) ↦ absurd (cc)
      | inr old' ↦ w.once k k' i l l' old old' of of' live live'
    ]
  ];
}

row_unless :
    (b : Bool) (k : ℕ) (l x : Line) (t : Table Line)
    → find k (if b then t else insert l t) ≡ some x
    → (l ≡ x) ⊎ (find k t ≡ some x)
row_unless true k l x t h = inr h
row_unless false k l x t h = elim (find_inserted k l x t h) [
  | inl (_, e) ↦ inl e
  | inr old ↦ inr old
]

pub append_lines-new :
    (j : ℕ) (ds : List Tables.Transaction) (t : Table Line) (k : ℕ) (x : Line)
    → find k (append_lines j ds t) ≡ some x
    → ((x.batch_id ≡ j) × (x.mission_id ≡ none)) ⊎ (find k t ≡ some x)
unfolding append_lines
append_lines-new j [] t k x h = inr h
append_lines-new j (d ∷ ds) t k x h = elim (append_lines-new j ds _ k x h) [
  | inl new ↦ inl new
  | inr later ↦ elim (row_unless (has_pool_line j d.wallet t) k (pool_line j d) x t later) [
    | inl made ↦ inl (ap (λ l. l.batch_id) (sym made), ap (λ l. l.mission_id) (sym made))
    | inr old ↦ inr old
  ]
]

pub owner_weekly_close-WeeklyOnceIn :
    (env : CloseEnv) (mine at : ℕ) (user : Option ℕ) (s : Db)
    → WeeklyOnceIn s
    → Keeps WeeklyOnceIn (owner_weekly_close env mine at user s)
unfolding owner_weekly_close create_batch request_approvals WeeklyOnceIn
owner_weekly_close-WeeklyOnceIn env mine at user s w =
    search (Keeps-or_throw, Keeps-refuse_if, fitting_batch, owner_lines-weekly, Keeps-same) depth 30

-- The property, and the batch of a close.
record Made (j : ℕ) (b : Batch) (s : Db) : Type 0 where
  pub once : WeeklyOnceIn s
  pub row : find j s.batches ≡ some b

Made-Untouched : (j : ℕ) (b : Batch) (s t : Db) → Made j b s → Untouched s t → Made j b t
unfolding WeeklyOnceIn
Made-Untouched j b s t m u = record {
  once = let w = m.once in let e = u.batches in let e' = u.lines in rw (e, e') w;
  row = ap (find j) u.batches ∙ m.row;
}

append_pool-Made :
    (j pool : ℕ) (b : Batch) (s : Db)
    → Made j b s
    → Keeps (Made j b) (append_pool_distribution_lines j pool s)
unfolding append_pool_distribution_lines WeeklyOnceIn
append_pool-Made j pool b s m = record {
  after = record {
    once =
        missionless s.batches s.lines _ b j m.once m.row
          (append_lines-new j (reverse (filter (is_distribution pool) s.transactions)) s.lines);
    row = m.row;
  };
}

attempt_pool-Made :
    (j : ℕ) (b : Batch) (env : PoolEnv) (k : ℕ) (s : Db)
    → Made j b s
    → Keeps (Made j b) (attempt (distribute_pool env k) s)
attempt_pool-Made j b env k s m =
    let kept =
      attempt-Keeps s (Untouched s) (distribute_pool env k) s
        (distribute_pool-Keeps s env k s (record { batches = refl; lines = refl })) in
    record { after = Made-Untouched j b s _ m kept.after }

append_if_distributed-Made :
    (j k : ℕ) (b : Batch) (r : Reason ⊎ Distribution) (s : Db)
    → Made j b s
    → Keeps (Made j b) (append_if_distributed j k r s)
unfolding append_if_distributed
append_if_distributed-Made j k b (inl _) s m = record { after = m }
append_if_distributed-Made j k b (inr _) s m =
    search (Keeps-bind, append_pool-Made, Keeps-same) depth 10

distribute_found-Made :
    (env : PoolEnv) (j : ℕ) (b : Batch) (pool : Option ℕ) (s : Db)
    → Made j b s
    → Keeps (Made j b) (distribute_found env j pool s)
unfolding distribute_found
distribute_found-Made env j b none s m = record { after = m }
distribute_found-Made env j b (some k) s m =
    Keeps-bind (Made j b) s (attempt (distribute_pool env k)) (append_if_distributed j k)
      (attempt_pool-Made j b env k s m) (λ r t n. append_if_distributed-Made j k b r t n)

distribute_for_month-Made :
    (env : CloseEnv) (mine : ℕ) (p : Period) (j : ℕ) (b : Batch) (s : Db)
    → Made j b s
    → Keeps (Made j b) (distribute_for_month env mine p j s)
unfolding distribute_for_month
distribute_for_month-Made env mine p j b s m =
    search (Keeps-or_throw, distribute_found-Made) depth 10

-- What a close does after it has made its batch.
finish_monthly :
    (env : CloseEnv) (mine : ℕ) (p : Period) (j : ℕ) (b : Batch) (s : Db)
    → Made j b s
    → Keeps WeeklyOnceIn (
        (distribute_for_month env mine p j >>= λ _.
        (request_approvals j >>= λ _. (publish_calculated j >>= λ _. pure j)))
          s)
unfolding request_approvals WeeklyOnceIn
finish_monthly env mine p j b s m =
    let kept =
      Keeps-bind (Made j b) s (distribute_for_month env mine p j)
        (λ _. request_approvals j >>= λ _. (publish_calculated j >>= λ _. pure j))
        (distribute_for_month-Made env mine p j b s m)
        (λ _ t n. record { after = record { once = n.once; row = n.row } }) in
    record { after = kept.after.once }

new_monthly :
    (b : Batch) (ls : List Line) (s : Db)
    → WeeklyOnceIn s
    → All (Fits s.batches s.lines (next_id s.batches) b) ls
    → Made
        (next_id s.batches)
        b
        (record s { batches = insert b s.batches; lines = insert_lines ls s.lines })
unfolding WeeklyOnceIn
new_monthly b ls s w fits = record {
  once = fitting_batch s b ls w fits;
  row = find-insert_self b s.batches;
}

pub monthly_close-WeeklyOnceIn :
    (env : CloseEnv) (mine year month : ℕ) (user : Option ℕ) (s : Db)
    → WeeklyOnceIn s
    → Keeps WeeklyOnceIn (monthly_close env mine year month user s)
unfolding monthly_close create_batch
monthly_close-WeeklyOnceIn env mine year month user s w =
    let p = month_bounds_utc year month in
    let j = next_id s.batches in
    let b = new_batch mine p combined_legacy user in
    let ls = owner_lines any_live mine p j s in
    let made = new_monthly b ls s w (owner_lines-other any_live mine p b s j refl) in
    let rest =
      finish_monthly env mine p j b
        (record s { batches = insert b s.batches; lines = insert_lines ls s.lines }) made in
    search (Keeps-refuse_if, rest) depth 10

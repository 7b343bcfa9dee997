-- ===== src/Settlement/Close/Complete.antt =====
-- The weekly close leaves no mission out: a due mission with a credit gets its line.
use logestic.Prelude.{
  ℕ, true, false, not, ◌&&◌, Option, some, List, [], ◌∷◌, ◌++◌, ◌≡◌, inl, inr, ap, ◌∙◌, ◌==◌,
  ==_iff, arith, Bool-cases,
}
use logestic.Prelude.Int.{pos, leb_ℤ}
use logestic.Prelude.Table.{Table, find, insert, find-insert_self, find-insert_old, next_id}
use logestic.Store.{ok}
use logestic.Store.Tables.{Db, Line, Mission}
use logestic.Settlement.Period.{Period, owner_period_bounds}
use logestic.Settlement.Eligible.{
  is_mission_due, mission_line, mission_lines, hourly_lines, owner_lines, owner_credit_for_mission,
  has_wallet,
}
use logestic.Settlement.Close.{CloseEnv, insert_lines, owner_weekly_close}
use logestic.Settlement.Close.Unique.{weekly}
use logestic.Settlement.Close.Weekly.{closed}

pub data In {A : Type 0} (a : A) : List A → Type 0 where
  here : (xs : List A) → In a (a ∷ xs)
  there : (x : A) (xs : List A) → In a xs → In a (x ∷ xs)

In-append : {A : Type 0} (a : A) (xs ys : List A) → In a xs → In a (xs ++ ys)
In-append a _ ys (here xs) = here (xs ++ ys)
In-append a _ ys (there x xs h) = there x (xs ++ ys) (In-append a xs ys h)

insert_lines-old :
    (ls : List Line) (t : Table Line) (k : ℕ) (x : Line)
    → find k t ≡ some x
    → find k (insert_lines ls t) ≡ some x
unfolding insert_lines
insert_lines-old [] t k x h = h
insert_lines-old (l ∷ ls) t k x h = insert_lines-old ls (insert l t) k x (find-insert_old k l t h)

find-insert_lines_of :
    (x : Line) (ls : List Line) (t : Table Line)
    → In x ls
    → (k : ℕ) × (find k (insert_lines ls t) ≡ some x)
unfolding insert_lines
find-insert_lines_of x _ t (here ls) =
    (next_id t, insert_lines-old ls (insert x t) (next_id t) x (find-insert_self x t))
find-insert_lines_of x _ t (there l ls h) = find-insert_lines_of x ls (insert l t) h

row-In : {A : Type 0} (k : ℕ) (a : A) (t : Table A) → find k t ≡ some a → In (k, a) t
unfolding find
row-In k a [] h = absurd (cc)
row-In k a ((j, b) ∷ t) h = elim (Bool-cases (k == j)) [
  | inl e ↦
      let key : j ≡ k = ground (arith, ==_iff k j) in
      let value : b ≡ a = ground arith in rw (key, value) (here t)
  | inr e ↦ there (j, b) t (row-In k a t (ground arith))
]

module _ (mine : ℕ) (p : Period) (batch : ℕ) (s : Db) (i : ℕ) (m : Mission)
    (due : is_mission_due weekly mine p s (i, m) ≡ true)
    (credited : leb_ℤ (owner_credit_for_mission i s) (pos 0) ≡ false)
    (wallet : has_wallet m.owner_id s ≡ true) where
  due_line :
      (ms : Table Mission)
      → In (i, m) ms
      → In
          (mission_line batch i m (owner_credit_for_mission i s))
          (mission_lines weekly mine p batch s ms)
  unfolding mission_lines
  due_line _ (here ms) = rw (due, credited, wallet) (here (mission_lines weekly mine p batch s ms))
  due_line _ (there (j, x) ms h) =
      let later = due_line ms h in
      elim (Bool-cases (
        is_mission_due weekly mine p s (j, x)
        && not (leb_ℤ (owner_credit_for_mission j s) (pos 0))
        && has_wallet x.owner_id s)) [ inl e ↦ rw e (there _ _ later) | inr e ↦ rw e later ]

-- After a weekly close that ends with the batch `i`, every mission of the mine that is eligible in
-- the period, has no line in a live weekly batch and a positive sum of credits in its owner's wallet
-- has a line of that sum in the batch.
pub weekly_close_complete :
    (env : CloseEnv) (mine at : ℕ) (user : Option ℕ) (i days : ℕ) (s : Db)
    → (owner_weekly_close env mine at user s).0 ≡ ok i
    → env.owner_period_days mine ≡ some days
    → (k : ℕ) (m : Mission) → find k s.missions ≡ some m
    → is_mission_due weekly mine (owner_period_bounds at days) s (k, m) ≡ true
    → leb_ℤ (owner_credit_for_mission k s) (pos 0) ≡ false
    → has_wallet m.owner_id s ≡ true
    → (n : ℕ) × (find n (owner_weekly_close env mine at user s).1.lines
        ≡ some (mission_line i k m (owner_credit_for_mission k s)))
unfolding owner_lines
weekly_close_complete env mine at user i days s done configured k m row due credited wallet =
    let c = closed env mine at user i s done in
    let p = owner_period_bounds at days in
    let e : c.days ≡ days = let e' = c.configured in cc in
    let line = mission_line i k m (owner_credit_for_mission k s) in
    let ls = owner_lines weekly mine p i s in
    let (n, found) = find-insert_lines_of line ls s.lines (
      In-append line (mission_lines weekly mine p i s s.missions)
        (hourly_lines weekly mine p i s s.hourly_logs)
        (due_line mine p i s k m due credited wallet s.missions (row-In k m s.missions row))) in
    (
      n,
      ap (find n) (
            c.lines
            ∙ ap
                (λ d. insert_lines (owner_lines weekly mine (owner_period_bounds at d) i s) s.lines)
                e)
          ∙ found,
    )

-- ===== src/Statements/Lines.antt =====
-- The lines of a statement under the insertion of a draft's lines and under the edit of one line.
use logestic.Prelude.{
  ℕ, suc, ◌+◌, ◌≤◌, ◌<◌, true, false, some, List, [], ◌∷◌, ◌==◌, ==_iff, length, ◌≡◌, ◌≢◌, inl, inr,
  refl, ap, ◌∙◌, arith, Bool-cases, if◌then◌else◌,
}
use logestic.Prelude.Int.{ℤ, pos, ◌+ℤ◌, int_laws}
use logestic.Prelude.Table.{Table, find, update, insert, next_id}
use logestic.Prelude.Every.{All, nil, cons}
use logestic.Store.Statements.{StatementLine}
use logestic.Statements.{statement_lines_of, total_of}
use logestic.Statements.Draft.{TimedLine, write_lines, sum_lines}
use logestic.Statements.Review.{LineParams, edit_line}
use logestic.Statements.Steps.{BelongsTo}

-- A table whose newer rows have greater ids, as a sequence gives them.
pub data IsKeyed {A : Type 0} : Table A → Type 0 where
  no_rows : IsKeyed []
  newer : (j : ℕ) (a : A) (t : Table A) → next_id t ≤ j → IsKeyed t → IsKeyed ((j, a) ∷ t)

module _ {A : Type 0} where
  pub IsKeyed-insert : (a : A) (t : Table A) → IsKeyed t → IsKeyed (insert a t)
  unfolding insert
  IsKeyed-insert a t h = newer (next_id t) a t (omega arith) h

  pub next_id-insert : (a : A) (t : Table A) → next_id t < next_id (insert a t)
  unfolding insert next_id
  next_id-insert a t = omega arith

  pub next_id-update : (i : ℕ) (f : A → A) (t : Table A) → next_id (update i f t) ≡ next_id t
  unfolding next_id update
  next_id-update i f [] = refl
  next_id-update i f ((j, a) ∷ t) = let rest = next_id-update i f t in cc

  pub IsKeyed-update : (i : ℕ) (f : A → A) (t : Table A) → IsKeyed t → IsKeyed (update i f t)
  unfolding update
  IsKeyed-update i f _ no_rows = no_rows
  IsKeyed-update i f _ (newer j a t h k) =
      newer j (if i == j then f a else a) (update i f t) (omega (arith, h, next_id-update i f t))
        (IsKeyed-update i f t k)

  -- A row of no old id.
  update-fresh : (i : ℕ) (f : A → A) (t : Table A) → next_id t ≤ i → update i f t ≡ t
  unfolding update next_id
  update-fresh i f [] h = refl
  update-fresh i f ((j, a) ∷ t) h =
      let rest = update-fresh i f t (omega arith) in
      let other : (i == j) ≡ false = ground (arith, h, ==_iff i j) in rw (other, rest) refl

-- What belongs to no statement that is there.
abbrev pub Known : ℕ → ℕ × StatementLine → Type 0
Known n x = x.1.period_statement_id < n

pub no_lines : (n : ℕ) (t : Table StatementLine) → All (Known n) t → statement_lines_of n t ≡ []
no_lines n _ nil = refl
no_lines n _ (cons x xs h hs) =
    let rest = no_lines n xs hs in
    let other : (x.1.period_statement_id == n) ≡ false =
      ground (arith, h, ==_iff x.1.period_statement_id n) in
    rw other rest

pub Known-weaken : (n m : ℕ) (t : Table StatementLine) → n ≤ m → All (Known n) t → All (Known m) t
Known-weaken n m _ h nil = nil
Known-weaken n m _ h (cons x xs k ks) = cons x xs (omega (arith, h, k)) (Known-weaken n m xs h ks)

module _ (i : ℕ) where
  -- The lines of a draft are on top of the old ones.
  pub total-write_lines :
      (f : StatementLine → ℤ) (ls : List TimedLine) (t : Table StatementLine)
      → All (BelongsTo i) ls
      → total_of f (statement_lines_of i (write_lines ls t))
        ≡ sum_lines f ls +ℤ total_of f (statement_lines_of i t)
  unfolding write_lines sum_lines total_of insert
  total-write_lines f _ t nil = omega int_laws
  total-write_lines f _ t (cons l ls h hs) =
      let rest = total-write_lines f ls (insert l.1 t) hs in
      let own : (l.1.period_statement_id == i) ≡ true =
        ground (arith, h.0, ==_iff l.1.period_statement_id i) in
      let top : total_of f (statement_lines_of i (insert l.1 t))
          ≡ f l.1 +ℤ total_of f (statement_lines_of i t) =
        rw own refl in
      rest ∙ rw top (omega int_laws)

  pub length-write_lines :
      (ls : List TimedLine) (t : Table StatementLine)
      → All (BelongsTo i) ls
      → length (statement_lines_of i (write_lines ls t))
        ≡ length ls + length (statement_lines_of i t)
  unfolding write_lines insert
  length-write_lines _ t nil = omega arith
  length-write_lines _ t (cons l ls h hs) =
      let rest = length-write_lines ls (insert l.1 t) hs in
      let own : (l.1.period_statement_id == i) ≡ true =
        ground (arith, h.0, ==_iff l.1.period_statement_id i) in
      let top : length (statement_lines_of i (insert l.1 t))
          ≡ suc (length (statement_lines_of i t)) =
        rw own refl in
      rest ∙ rw top (omega arith)

  pub others-write_lines :
      (k : ℕ) (ls : List TimedLine) (t : Table StatementLine)
      → k ≢ i
      → All (BelongsTo i) ls
      → statement_lines_of k (write_lines ls t) ≡ statement_lines_of k t
  unfolding write_lines insert
  others-write_lines k _ t ne nil = refl
  others-write_lines k _ t ne (cons l ls h hs) =
      let rest = others-write_lines k ls (insert l.1 t) ne hs in
      let other : (l.1.period_statement_id == k) ≡ false =
        ground (arith, h.0, ne, ==_iff l.1.period_statement_id k) in
      rest ∙ rw other refl

  pub Known-write_lines :
      (n : ℕ) (ls : List TimedLine) (t : Table StatementLine)
      → i < n
      → All (BelongsTo i) ls
      → All (Known n) t
      → All (Known n) (write_lines ls t)
  unfolding write_lines insert
  Known-write_lines n _ t lt nil ks = ks
  Known-write_lines n _ t lt (cons l ls h hs) ks =
      Known-write_lines n ls (insert l.1 t) lt hs
        (cons (next_id t, l.1) t (omega (arith, h.0, lt)) ks)

pub IsKeyed-write_lines :
    (ls : List TimedLine) (t : Table StatementLine) → IsKeyed t → IsKeyed (write_lines ls t)
unfolding write_lines
IsKeyed-write_lines [] t k = k
IsKeyed-write_lines ((_, l) ∷ ls) t k = IsKeyed-write_lines ls (insert l t) (IsKeyed-insert l t k)

pub Known-update :
    (n j : ℕ) (p : LineParams) (t : Table StatementLine)
    → All (Known n) t
    → All (Known n) (update j (edit_line p) t)
unfolding update
Known-update n j p _ nil = nil
Known-update n j p _ (cons (k, l) xs h hs) = cons _ _ (ground (arith, h)) (Known-update n j p xs hs)

find-below :
    (i j : ℕ) (l : StatementLine) (t : Table StatementLine)
    → find j (statement_lines_of i t) ≡ some l
    → j < next_id t
unfolding find next_id
find-below i j l [] h = absurd (cc)
find-below i j l ((k, x) ∷ t) h = elim (Bool-cases (x.period_statement_id == i)) [
  | inl e ↦ elim (Bool-cases (j == k)) [
    | inl e' ↦ ground (arith, e', ==_iff j k)
    | inr e' ↦ omega (arith, find-below i j l t (ground (arith, h, e, e')))
  ]
  | inr e ↦ omega (arith, find-below i j l t (ground (arith, h, e)))
]

later :
    (i j m : ℕ) (l x : StatementLine) (t : Table StatementLine)
    → (j == m) ≡ false
    → find j (statement_lines_of i ((m, x) ∷ t)) ≡ some l
    → find j (statement_lines_of i t) ≡ some l
unfolding find
later i j m l x t e h = elim (Bool-cases (x.period_statement_id == i)) [
  | inl own ↦ ground (arith, h, own, e)
  | inr own ↦ ground (arith, h, own)
]

-- The edit of a line of one statement changes no line of another one.
pub others-update :
    (i k j : ℕ) (p : LineParams) (l : StatementLine) (t : Table StatementLine)
    → k ≢ i
    → IsKeyed t
    → find j (statement_lines_of i t) ≡ some l
    → statement_lines_of k (update j (edit_line p) t) ≡ statement_lines_of k t
unfolding update find
others-update i k j p l _ ne no_rows h = refl
others-update i k j p l _ ne (newer m x t above keyed) h = elim (Bool-cases (j == m)) [
  | inl e ↦ elim (Bool-cases (x.period_statement_id == i)) [
    | inl own ↦
        let rest = update-fresh j (edit_line p) t (ground (arith, e, ==_iff j m)) in
        let other : (x.period_statement_id == k) ≡ false =
          ground (arith, own, ne, ==_iff x.period_statement_id i, ==_iff x.period_statement_id k) in
        rw (e, rest, other) refl
    | inr own ↦
        let below = find-below i j l t (ground (arith, h, own)) in
        absurd (ground (arith, below, above, e, ==_iff j m))
  ]
  | inr e ↦
      let there : find j (statement_lines_of i t) ≡ some l = later i j m l x t e h in
      let rest = others-update i k j p l t ne keyed there in rw (e, rest) refl
]

-- The lines of a new statement are those of its draft.
pub total-new :
    (i : ℕ) (f : StatementLine → ℤ) (ls : List TimedLine) (t : Table StatementLine)
    → statement_lines_of i t ≡ []
    → All (BelongsTo i) ls
    → total_of f (statement_lines_of i (write_lines ls t)) ≡ sum_lines f ls
unfolding total_of
total-new i f ls t empty own =
    let before : total_of f (statement_lines_of i t) ≡ pos 0 = ap (total_of f) empty in
    total-write_lines i f ls t own ∙ rw before (omega int_laws)

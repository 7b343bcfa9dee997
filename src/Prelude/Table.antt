-- ===== src/Prelude/Table.antt =====
-- A database table as its rows by id, the newest first. `find` is `findUnique` by id, `update`
-- rewrites the row of an id, and `insert` gives the next id of the sequence.
use Prim.Native.Nat.{ℕ, suc, ◌<◌, max}
use mathlib.Core.Path.{◌≡◌}
use mathlib.Core.Logic.{◌≢◌, ◌⊎◌, inl, inr}
use mathlib.Core.Bool.{Bool, false}
use logestic.Prelude.Lists.{any}
use mathlib.Core.Option.{Option, none, some}
use mathlib.Core.List.{List, [], ◌∷◌}
use native.Mathlib.Omega.{arith}
use logestic.Prelude.Tests.{◌==◌, ==_iff, Bool-cases, if◌then◌else◌}

abbrev pub Table {ℓ} : Type ℓ → Type ℓ
Table A = List (ℕ × A)

-- A row of a table, under its id.
pub data RowIn {A : Type 0} (i : ℕ) (a : A) : Table A → Type 0 where
  at_top : (t : Table A) → RowIn i a ((i, a) ∷ t)
  below : (x : ℕ × A) (t : Table A) → RowIn i a t → RowIn i a (x ∷ t)

-- A row fails a test that every row fails.
pub row_fails :
    {A : Type 0} (p : ℕ × A → Bool) (i : ℕ) (a : A) (t : Table A)
    → any p t ≡ false
    → RowIn i a t
    → p (i, a) ≡ false
row_fails p i a _ h (at_top t) = ground (arith, h)
row_fails p i a _ h (below x t row) = row_fails p i a t (ground (arith, h)) row

abbrev pub map_option {ℓ κ} : {A : Type ℓ} {B : Type κ} → (A → B) → Option A → Option B
map_option f none = none
map_option f (some a) = some (f a)

module _ {ℓ} {A : Type ℓ} where
  unfoldable pub find : ℕ → Table A → Option A
  find i [] = none
  find i ((j, a) ∷ t) = if i == j then some a else find i t

  unfoldable pub update : ℕ → (A → A) → Table A → Table A
  update i f [] = []
  update i f ((j, a) ∷ t) = (j, if i == j then f a else a) ∷ update i f t

  unfoldable pub next_id : Table A → ℕ
  next_id [] = 1
  next_id ((j, _) ∷ t) = max (suc j) (next_id t)

  unfoldable pub insert : A → Table A → Table A
  unfolding next_id
  insert a t = (next_id t, a) ∷ t

  -- A row is found after an update as it was, and rewritten if it is the updated one.
  pub find-update :
      (j i : ℕ) (f : A → A) (t : Table A)
      → find j (update i f t) ≡ (if j == i then map_option f (find j t) else find j t)
  unfolding find update
  find-update j i f [] = ground arith
  find-update j i f ((k, a) ∷ t) = ground (arith, find-update j i f t)

  pub find-update_self :
      (i : ℕ) (f : A → A) (t : Table A) {a : A}
      → find i t ≡ some a
      → find i (update i f t) ≡ some (f a)
  find-update_self i f t h = ground (arith, find-update i i f t)

  pub find-update_ne :
      (j i : ℕ) (f : A → A) (t : Table A) → j ≢ i → find j (update i f t) ≡ find j t
  find-update_ne j i f t h = ground (arith, find-update j i f t)

  pub lt-next_id : (i : ℕ) (t : Table A) (a : A) → find i t ≡ some a → i < next_id t
  unfolding find next_id
  lt-next_id i [] a h = cc
  lt-next_id i ((k, b) ∷ t) a h = ground (arith, lt-next_id i t a)

  pub find-insert :
      (i : ℕ) (a : A) (t : Table A)
      → find i (insert a t) ≡ (if i == next_id t then some a else find i t)
  unfolding find insert
  find-insert i a t = λ _. find i (insert a t)

  pub find-insert_self : (a : A) (t : Table A) → find (next_id t) (insert a t) ≡ some a
  unfolding find insert
  find-insert_self a t = ground arith

  -- A new row hides no old one.
  pub find-insert_old :
      (i : ℕ) (a : A) (t : Table A) {b : A} → find i t ≡ some b → find i (insert a t) ≡ some b
  unfolding find insert
  find-insert_old i a t {b} h = ground (arith, lt-next_id i t b h)

  -- Nothing in a table passes a test that no row of it passes.
  pub none_passes :
      (p : ℕ × A → Bool) (t : Table A) (k : ℕ) (x : A)
      → any p t ≡ false
      → find k t ≡ some x
      → p (k, x) ≡ false
  unfolding find
  none_passes p [] k x h at = cc
  none_passes p ((j, a) ∷ t) k x h at = elim (Bool-cases (k == j)) [
    | inl e ↦ ground (arith, ==_iff k j)
    | inr e ↦ none_passes p t k x (ground arith) (ground arith)
  ]

  -- A row that is found after an insertion.
  pub find_inserted :
      (k : ℕ) (a x : A) (t : Table A)
      → find k (insert a t) ≡ some x
      → ((k ≡ next_id t) × (a ≡ x)) ⊎ (find k t ≡ some x)
  find_inserted k a x t h = ground (arith, find-insert k a t, ==_iff k (next_id t))

-- ===== src/Prelude/Every.antt =====
-- Lists whose every element has a property.
use mathlib.Core.List.{List, [], ◌∷◌, ◌++◌}

pub data All {A : Type 0} (P : A → Type 0) : List A → Type 0 where
  nil : All P []
  cons : (x : A) (xs : List A) → P x → All P xs → All P (x ∷ xs)

pub All-append :
    {A : Type 0} {P : A → Type 0} (xs ys : List A) → All P xs → All P ys → All P (xs ++ ys)
All-append _ ys nil h = h
All-append _ ys (cons x xs p ps) h = cons x (xs ++ ys) p (All-append xs ys ps h)

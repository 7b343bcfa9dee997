-- ===== src/Identity/Digits.antt =====
-- Texts as lists of UTF-16 code units, and their decimal digits.
use logestic.Prelude.{
  ℕ, zero, suc, ◌+◌, ◌-◌, ◌<◌, Bool, true, ◌&&◌, List, [], ◌∷◌, ◌++◌, leb, every, filter, length,
  ◌≡◌, ◌≢◌, refl, arith,
}

abbrev pub Text : Type 0
Text = List ℕ

-- `\d`
abbrev pub is_digit : ℕ → Bool
is_digit c = leb 48 c && leb c 57

-- `Number(c)` of a digit
abbrev pub digit_value : ℕ → ℕ
digit_value c = c - 48

-- `String(n)` of a number below ten
abbrev pub digit_char : ℕ → ℕ
digit_char n = 48 + n

pub IsDigit-digit_char : (n : ℕ) → n < 10 → is_digit (digit_char n) ≡ true
IsDigit-digit_char n h = ground arith

module _ {A : Type 0} where
  -- `xs.slice(0, n)`
  unfoldable pub take : ℕ → List A → List A
  take zero xs = []
  take (suc n) [] = []
  take (suc n) (x ∷ xs) = x ∷ take n xs

  -- `xs.slice(n)`
  unfoldable pub drop : ℕ → List A → List A
  drop zero xs = xs
  drop (suc n) [] = []
  drop (suc n) (x ∷ xs) = drop n xs

  pub length-drop : (n : ℕ) (xs : List A) → length (drop n xs) ≡ length xs - n
  unfolding drop
  length-drop zero xs = ground arith
  length-drop (suc n) [] = ground arith
  length-drop (suc n) (x ∷ xs) = ground (arith, length-drop n xs)

  pub every-drop :
      (p : A → Bool) (n : ℕ) (xs : List A) → every p xs ≡ true → every p (drop n xs) ≡ true
  unfolding drop
  every-drop p zero xs h = h
  every-drop p (suc n) [] h = refl
  every-drop p (suc n) (x ∷ xs) h = every-drop p n xs (ground arith)

  pub every-append :
      (p : A → Bool) (xs ys : List A)
      → every p xs ≡ true
      → every p ys ≡ true
      → every p (xs ++ ys) ≡ true
  every-append p [] ys h k = k
  every-append p (x ∷ xs) ys h k = ground (arith, every-append p xs ys)

  pub every-filter : (p : A → Bool) (xs : List A) → every p (filter p xs) ≡ true
  every-filter p [] = refl
  every-filter p (x ∷ xs) = ground (arith, every-filter p xs)

  pub filter-every : (p : A → Bool) (xs : List A) → every p xs ≡ true → filter p xs ≡ xs
  filter-every p [] h = refl
  filter-every p (x ∷ xs) h = ground (arith, filter-every p xs)

-- Two texts that differ in one digit.
pub data OneDigitOff : Text → Text → Type 0 where
  here :
      (a b : ℕ) (rest : Text)
      → is_digit a ≡ true
      → is_digit b ≡ true
      → a ≢ b
      → OneDigitOff (a ∷ rest) (b ∷ rest)
  there : (c : ℕ) (xs ys : Text) → OneDigitOff xs ys → OneDigitOff (c ∷ xs) (c ∷ ys)

-- ===== src/Identity/Iban/Mod97.antt =====
-- The remainder that the loop computes digit by digit is that of the whole number, and it changes
-- with any one digit and with any two neighbours that are swapped.
use logestic.Prelude.{ℕ, ◌+◌, ◌*◌, ◌%◌, ◌<◌, true, [], ◌∷◌, ◌≡◌, ◌≢◌, refl, arith}
use logestic.Identity.Digits.{Text, is_digit, digit_value, OneDigitOff, here, there}
use logestic.Identity.Iban.{remainder_from}

-- The number that a text of digits writes, the highest digit first, after the number `n`.
unfoldable pub decimal_from : ℕ → Text → ℕ
decimal_from n [] = n
decimal_from n (c ∷ cs) = decimal_from (n * 10 + digit_value c) cs

pub remainder-decimal : (cs : Text) (n : ℕ) → remainder_from (n % 97) cs ≡ decimal_from n cs % 97
unfolding remainder_from decimal_from
remainder-decimal [] n = refl
remainder-decimal (c ∷ cs) n =
    let step : (n % 97 * 10 + digit_value c) % 97 ≡ (n * 10 + digit_value c) % 97 = omega arith in
    rw step (remainder-decimal cs (n * 10 + digit_value c))

-- The loop keeps two remainders apart.
pub remainder_from-differs :
    (cs : Text) (r r' : ℕ) → r < 97 → r' < 97 → r ≢ r' → remainder_from r cs ≢ remainder_from r' cs
unfolding remainder_from
remainder_from-differs [] r r' h h' ne = ne
remainder_from-differs (c ∷ cs) r r' h h' ne =
    remainder_from-differs cs _ _ (omega arith) (omega arith) (λ e. ne (omega (arith, e)))

pub remainder-one_off :
    (xs ys : Text)
    → OneDigitOff xs ys
    → (r : ℕ) → r < 97
    → remainder_from r xs ≢ remainder_from r ys
unfolding remainder_from
remainder-one_off _ _ (here a b rest isa isb ne) r h =
    remainder_from-differs rest _ _ (omega arith) (omega arith) (λ e. ne (ground (arith, e)))
remainder-one_off _ _ (there c xs ys off) r h =
    remainder-one_off xs ys off ((r * 10 + digit_value c) % 97) (omega arith)

-- Two texts that differ by two neighbouring digits that are swapped.
pub data Swapped : Text → Text → Type 0 where
  swap_here :
      (a b : ℕ) (rest : Text)
      → is_digit a ≡ true
      → is_digit b ≡ true
      → a ≢ b
      → Swapped (a ∷ b ∷ rest) (b ∷ a ∷ rest)
  swap_there : (c : ℕ) (xs ys : Text) → Swapped xs ys → Swapped (c ∷ xs) (c ∷ ys)

pub remainder-Swapped :
    (xs ys : Text) → Swapped xs ys → (r : ℕ) → r < 97 → remainder_from r xs ≢ remainder_from r ys
unfolding remainder_from
remainder-Swapped _ _ (swap_here a b rest isa isb ne) r h =
    remainder_from-differs rest _ _ (omega arith) (omega arith) (λ e. ne (ground (arith, e)))
remainder-Swapped _ _ (swap_there c xs ys off) r h =
    remainder-Swapped xs ys off ((r * 10 + digit_value c) % 97) (omega arith)

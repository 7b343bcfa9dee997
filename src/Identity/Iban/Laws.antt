-- ===== src/Identity/Iban/Laws.antt =====
-- What an accepted IBAN is: its number has the remainder one. So no wrong digit and no two swapped
-- digits of the account are accepted. And what a mask shows.
use logestic.Prelude.{
  ℕ, ◌+◌, ◌*◌, ◌%◌, true, ◌&&◌, [], ◌∷◌, ◌++◌, every, length, ◌==◌, ◌≡◌, refl, ap, ◌∙◌, arith,
  Bool-cases, inl, inr,
}
use logestic.Identity.Digits.{Text, is_digit, digit_value, take, drop}
use logestic.Identity.Iban.{
  normalize_iban, is_iran_iban, expand, expand_char, rearrange, remainder_from,
  validate_iran_iban_checksum,
}
use logestic.Identity.Iban.Mod97.{decimal_from, remainder-decimal}

-- The parts of an IBAN of the right form.
pub data IranForm : Text → Type 0 where
  iran :
      (c d : ℕ) (account : Text)
      → is_digit c ≡ true
      → is_digit d ≡ true
      → every is_digit account ≡ true
      → length account ≡ 22
      → IranForm (73 ∷ 82 ∷ c ∷ d ∷ account)

pub is_iran_iban-IranForm : (n : Text) → is_iran_iban n ≡ true → IranForm n
unfolding is_iran_iban
is_iran_iban-IranForm [] h = absurd (cc)
is_iran_iban-IranForm (a ∷ []) h = absurd (cc)
is_iran_iban-IranForm (a ∷ b ∷ []) h = absurd (ground arith)
is_iran_iban-IranForm (a ∷ b ∷ c ∷ []) h = absurd (ground arith)
is_iran_iban-IranForm (a ∷ b ∷ c ∷ d ∷ account) h =
    let ea : a ≡ 73 = ground arith in
    let eb : b ≡ 82 = ground arith in
    rw (ea, eb) (iran c d account (ground arith) (ground arith) (ground arith) (ground arith))

expand-digits :
    (ds rest : Text) → every is_digit ds ≡ true → expand (ds ++ rest) ≡ ds ++ expand rest
unfolding expand expand_char
expand-digits [] rest h = refl
expand-digits (d ∷ ds) rest h = ground (arith, expand-digits ds rest)

expand_char-digit : (c : ℕ) → is_digit c ≡ true → expand_char c ≡ c ∷ []
unfolding expand_char
expand_char-digit c h = ground arith

-- The digits whose number is checked.
abbrev pub checked : ℕ → ℕ → Text → Text
checked c d account = account ++ 49 ∷ 56 ∷ 50 ∷ 55 ∷ c ∷ d ∷ []

pub expand-rearrange :
    (c d : ℕ) (account : Text)
    → is_digit c ≡ true
    → is_digit d ≡ true
    → every is_digit account ≡ true
    → expand (rearrange (73 ∷ 82 ∷ c ∷ d ∷ account)) ≡ checked c d account
unfolding rearrange take drop expand
expand-rearrange c d account hc hd ha =
    expand-digits account (73 ∷ 82 ∷ c ∷ d ∷ []) ha
    ∙ rw (expand_char-digit c hc, expand_char-digit d hd) refl

decimal-append :
    (xs ys : Text) (n : ℕ) → decimal_from n (xs ++ ys) ≡ decimal_from (decimal_from n xs) ys
unfolding decimal_from
decimal-append [] ys n = refl
decimal-append (x ∷ xs) ys n = decimal-append xs ys (n * 10 + digit_value x)

-- The number of an IBAN: its account, then the letters IR as 18 and 27, then its two check digits.
abbrev pub iban_number : Text → ℕ
iban_number n = decimal_from 0 (drop 4 n) * 1000000 + 182700 + decimal_from 0 (take 2 (drop 2 n))

form-number : (n : Text) → IranForm n → remainder_from 0 (expand (rearrange n)) ≡ iban_number n % 97
unfolding decimal_from take drop
form-number _ (iran c d account hc hd ha len) =
    let digits = checked c d account in
    let m = decimal_from 0 account in
    let value = decimal-append account (49 ∷ 56 ∷ 50 ∷ 55 ∷ c ∷ d ∷ []) 0 in
    let r : remainder_from 0 digits ≡ decimal_from 0 digits % 97 = remainder-decimal digits 0 in
    ap (remainder_from 0) (expand-rearrange c d account hc hd ha) ∙ r ∙ omega (arith, value)

module _ (upper_of : ℕ → Text) where
  -- The checksum accepts a text just where its normal form is IR and 24 digits, and its number has the
  -- remainder one modulo 97.
  pub valid-number :
      (iban : Text)
      → let n = normalize_iban upper_of iban in
        validate_iran_iban_checksum upper_of iban ≡ (is_iran_iban n && (iban_number n % 97 == 1))
  unfolding validate_iran_iban_checksum
  valid-number iban =
      let n = normalize_iban upper_of iban in
      elim (Bool-cases (is_iran_iban n)) [
        | inl form ↦ let e = form-number n (is_iran_iban-IranForm n form) in ground (arith, e)
        | inr other ↦ ground arith
      ]

-- ===== src/Identity/Iban.antt =====
-- lib/iban.ts: the normal form of an IBAN, its checksum by ISO 13616, and its mask. What
-- `toUpperCase` makes of a character beyond ASCII is an argument.
pub mod Mod97
pub mod Laws
pub mod Errors
use logestic.Prelude.{
  ℕ, zero, suc, ◌+◌, ◌*◌, ◌-◌, ◌/◌, ◌%◌, Bool, true, false, not, ◌&&◌, ◌||◌, Option, none, some,
  List, [], ◌∷◌, ◌++◌, any, every, filter, length, ◌==◌, leb, ltb, if◌then◌else◌,
}
use logestic.Identity.Digits.{Text, is_digit, digit_value, digit_char, take, drop}

-- `\s`, which is also what `trim` takes away
abbrev other_spaces : List ℕ
other_spaces = 32 ∷ 160 ∷ 5760 ∷ 8232 ∷ 8233 ∷ 8239 ∷ 8287 ∷ 12288 ∷ 65279 ∷ []

unfoldable pub is_space : ℕ → Bool
is_space c = (leb 9 c && leb c 13) || (leb 8192 c && leb c 8202) || any (λ d. c == d) other_spaces

-- `[a-z]` and `[A-Z]`
abbrev pub is_lower : ℕ → Bool
is_lower c = leb 97 c && leb c 122

abbrev pub is_upper : ℕ → Bool
is_upper c = leb 65 c && leb c 90

module _ (upper_of : ℕ → Text) where
  unfoldable pub upper_char : ℕ → Text
  upper_char c = if ltb c 128 then (if is_lower c then (c - 32) ∷ [] else c ∷ []) else upper_of c

  unfoldable pub to_upper_case : Text → Text
  unfolding upper_char
  to_upper_case [] = []
  to_upper_case (c ∷ cs) = upper_char c ++ to_upper_case cs

  unfoldable pub normalize_iban : Text → Text
  unfolding to_upper_case is_space
  normalize_iban iban = to_upper_case (filter (λ c. not (is_space c)) iban)

-- `/^IR\d{24}$/`
unfoldable pub is_iran_iban : Text → Bool
is_iran_iban (a ∷ b ∷ rest) = a == 73 && b == 82 && length rest == 24 && every is_digit rest
is_iran_iban _ = false

-- A letter becomes its number, from 10 for A to 35 for Z.
unfoldable pub expand_char : ℕ → Text
expand_char c =
    if is_upper c then digit_char ((c - 55) / 10) ∷ digit_char ((c - 55) % 10) ∷ [] else c ∷ []

unfoldable pub expand : Text → Text
unfolding expand_char
expand [] = []
expand (c ∷ cs) = expand_char c ++ expand cs

-- The loop, from the remainder that it has so far.
unfoldable pub remainder_from : ℕ → Text → ℕ
remainder_from r [] = r
remainder_from r (c ∷ cs) = remainder_from ((r * 10 + digit_value c) % 97) cs

-- The first four characters are moved to the end.
unfoldable pub rearrange : Text → Text
unfolding take drop
rearrange n = drop 4 n ++ take 4 n

module _ (upper_of : ℕ → Text) where
  unfoldable pub validate_iran_iban_checksum : Text → Bool
  unfolding normalize_iban is_iran_iban expand remainder_from rearrange
  validate_iran_iban_checksum iban =
      let n = normalize_iban upper_of iban in
      if not (is_iran_iban n) then false else remainder_from 0 (expand (rearrange n)) == 1

  -- `"—"`, and the stars between the ends that are shown
  abbrev pub no_iban : Text
  no_iban = 8212 ∷ []

  abbrev stars : Text
  stars = 32 ∷ 42 ∷ 42 ∷ 42 ∷ 42 ∷ 42 ∷ 42 ∷ 42 ∷ 42 ∷ 32 ∷ []

  -- The text where there is one and it is not blank.
  unfoldable pub mask_iban : Option Text → Text
  unfolding normalize_iban take drop
  mask_iban none = no_iban
  mask_iban (some iban) =
      let n = normalize_iban upper_of iban in
      if every is_space iban
      then no_iban
      else if ltb (length n) 8
      then no_iban
      else take 4 n ++ stars ++ drop (length n - 4) n

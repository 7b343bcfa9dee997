-- ===== src/Identity/NationalId.antt =====
-- lib/nationalId.ts: the Iranian national id, nine digits and a check digit.
pub mod Laws
pub mod Errors
use logestic.Prelude.{
  ℕ, zero, suc, ◌+◌, ◌*◌, ◌-◌, ◌%◌, Bool, true, false, not, ◌&&◌, Option, none, some, List, [], ◌∷◌,
  ◌++◌, every, filter, length, ◌==◌, ltb, if◌then◌else◌,
}
use logestic.Identity.Digits.{Text, is_digit, digit_value, digit_char, take, drop}

unfoldable pub normalize_national_id : Text → Text
normalize_national_id raw = filter is_digit raw

-- The loop over the first `k` digits, `k` at most nine: the factor starts at `k + 1`.
unfoldable pub weighted_sum : ℕ → Text → ℕ
weighted_sum zero ds = 0
weighted_sum (suc k) [] = 0
weighted_sum (suc k) (d ∷ ds) = digit_value d * suc (suc k) + weighted_sum k ds

-- The check digit that the weighted sum asks for.
unfoldable pub expected_check : ℕ → ℕ
expected_check sum =
    let remainder = sum % 11 in if ltb remainder 2 then remainder else 11 - remainder

-- `/^(\d)\1{9}$/` on ten digits
unfoldable pub all_same : Text → Bool
all_same [] = false
all_same (d ∷ ds) = every (λ c. c == d) ds

-- `digits[9]`
unfoldable pub tenth : Text → ℕ
unfolding drop
tenth ds = elim (drop 9 ds) [ [] ↦ 0 | c ∷ _ ↦ digit_value c ]

unfoldable pub validate_iran_national_id_checksum : Text → Bool
unfolding normalize_national_id weighted_sum expected_check all_same tenth
validate_iran_national_id_checksum raw =
    let digits = normalize_national_id raw in
    if not (length digits == 10 && every is_digit digits)
    then false
    else if all_same digits
    then false
    else tenth digits == expected_check (weighted_sum 9 digits)

-- `padStart(n, "0")`: zeros are put before a text that is shorter, `short` of them.
unfoldable pub zeros : ℕ → Text
zeros zero = []
zeros (suc short) = digit_char 0 ∷ zeros short

abbrev pub pad_start : ℕ → Text → Text
pad_start n text = zeros (n - length text) ++ text

-- `slice(-n)`
abbrev pub last_of : ℕ → Text → Text
last_of n text = drop (length text - n) text

unfoldable pub national_id_base : Text → Text
unfolding zeros drop
national_id_base seed9 = last_of 9 (pad_start 9 (filter is_digit seed9))

unfoldable pub national_id_from_seed : Text → Text
unfolding national_id_base weighted_sum expected_check
national_id_from_seed seed9 =
    let base = national_id_base seed9 in
    base ++ digit_char (expected_check (weighted_sum 9 base)) ∷ []

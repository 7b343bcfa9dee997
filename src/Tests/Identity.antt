-- ===== src/Tests/Identity.antt =====
-- National ids and IBANs at concrete inputs.
use logestic.Prelude.{ℕ, ◌%◌, true, false, ◌&&◌, some, List, [], ◌∷◌, ◌++◌, ◌==◌, ◌≡◌, refl, arith}
use logestic.Identity.Digits.{Text, take, digit_char, OneDigitOff, here, there}
use logestic.Identity.NationalId.{
  normalize_national_id, validate_iran_national_id_checksum, national_id_from_seed,
}
use logestic.Identity.NationalId.Laws.{valid-from_seed}
use logestic.Identity.Iban.{normalize_iban, is_iran_iban, validate_iran_iban_checksum, mask_iban}
use logestic.Identity.Iban.Laws.{iban_number, valid-number}
use logestic.Identity.Iban.Errors.{one_wrong_digit_rejected}

-- The digits of a number below ten each.
abbrev digits : List ℕ → Text
digits [] = []
digits (d ∷ ds) = digit_char d ∷ digits ds

abbrev seed : Text
seed = digits (2 ∷ 4 ∷ 0 ∷ 6 ∷ 7 ∷ 0 ∷ 1 ∷ 2 ∷ 8 ∷ [])

-- Ten times the same digit is made of a seed of nine, and it is not valid.
repeated :
    validate_iran_national_id_checksum
      (national_id_from_seed (digits (1 ∷ 1 ∷ 1 ∷ 1 ∷ 1 ∷ 1 ∷ 1 ∷ 1 ∷ 1 ∷ [])))
    ≡ false
unfolding validate_iran_national_id_checksum national_id_from_seed
repeated = refl

-- With a dash after the third digit.
abbrev raw_id : Text
raw_id = digits (2 ∷ 4 ∷ 0 ∷ []) ++ 45 ∷ digits (6 ∷ 7 ∷ 0 ∷ 1 ∷ 2 ∷ 8 ∷ 1 ∷ [])

abbrev other_id : Text
other_id = digits (4 ∷ 4 ∷ 0 ∷ 6 ∷ 7 ∷ 0 ∷ 1 ∷ 2 ∷ 8 ∷ 1 ∷ [])

valid-from_seed_example :
    national_id_from_seed (take 9 (normalize_national_id raw_id)) ≡ normalize_national_id raw_id
unfolding validate_iran_national_id_checksum
valid-from_seed_example = valid-from_seed raw_id refl

-- Nothing beyond ASCII.
abbrev upper_of : ℕ → Text
upper_of c = c ∷ []

-- "ir06 2960000000100324200001"
abbrev iban : Text
iban =
    105
    ∷ 114
    ∷ 48
    ∷ 54
    ∷ 32
    ∷ digits
        (2 ∷ 9 ∷ 6 ∷ 0 ∷ 0 ∷ 0 ∷ 0 ∷ 0 ∷ 0 ∷ 0 ∷ 1 ∷ 0 ∷ 0 ∷ 3 ∷ 2 ∷ 4 ∷ 2 ∷ 0 ∷ 0 ∷ 0 ∷ 0 ∷ 1 ∷ [])

abbrev rest : Text
rest = digits (6 ∷ 0 ∷ 0 ∷ 0 ∷ 0 ∷ 0 ∷ 0 ∷ 0 ∷ 1 ∷ 0 ∷ 0 ∷ 3 ∷ 2 ∷ 4 ∷ 2 ∷ 0 ∷ 0 ∷ 0 ∷ 0 ∷ 1 ∷ [])

abbrev account_of : ℕ → ℕ → Text
account_of a b = 73 ∷ 82 ∷ 48 ∷ 54 ∷ a ∷ b ∷ rest

normal : normalize_iban upper_of iban ≡ account_of 50 57
unfolding normalize_iban
normal = refl

normal_wrong : normalize_iban upper_of (account_of 55 57) ≡ account_of 55 57
unfolding normalize_iban
normal_wrong = refl

normal_swapped : normalize_iban upper_of (account_of 57 50) ≡ account_of 57 50
unfolding normalize_iban
normal_swapped = refl

wrong : OneDigitOff (account_of 50 57) (account_of 55 57)
wrong = there 73 (82 ∷ 48 ∷ 54 ∷ 50 ∷ 57 ∷ rest) (82 ∷ 48 ∷ 54 ∷ 55 ∷ 57 ∷ rest) (
    there 82 (48 ∷ 54 ∷ 50 ∷ 57 ∷ rest) (48 ∷ 54 ∷ 55 ∷ 57 ∷ rest) (
      there 48 (54 ∷ 50 ∷ 57 ∷ rest) (54 ∷ 55 ∷ 57 ∷ rest) (
        there 54 (50 ∷ 57 ∷ rest) (55 ∷ 57 ∷ rest)
          (here 50 55 (57 ∷ rest) refl refl (omega arith)))))

valid-number_example :
    let n = normalize_iban upper_of iban in
    validate_iran_iban_checksum upper_of iban ≡ (is_iran_iban n && (iban_number n % 97 == 1))
valid-number_example = valid-number upper_of iban

accepted : validate_iran_iban_checksum upper_of iban ≡ true
unfolding validate_iran_iban_checksum
accepted = refl

one_wrong_digit_rejected_example : validate_iran_iban_checksum upper_of (account_of 55 57) ≡ false
one_wrong_digit_rejected_example =
    one_wrong_digit_rejected upper_of iban (account_of 55 57) (rw (normal, normal_wrong) wrong)
      accepted

-- The first and the last four characters are shown.
masked :
    mask_iban upper_of (some iban)
    ≡ 73 ∷ 82 ∷ 48 ∷ 54 ∷ 32 ∷ 42 ∷ 42 ∷ 42 ∷ 42 ∷ 42 ∷ 42 ∷ 42 ∷ 42 ∷ 32 ∷ 48 ∷ 48 ∷ 48 ∷ 49 ∷ []
unfolding mask_iban
masked = refl

-- ===== src/Identity/NationalId/Laws.antt =====
-- What the check digit promises: the ids that are made of a seed are valid, a valid id is made of
-- its first nine digits, and how far a wrong digit is noticed.
use logestic.Prelude.{
  ℕ, zero, suc, ◌+◌, ◌*◌, ◌-◌, ◌<◌, Bool, true, false, not, ◌&&◌, [], ◌∷◌, ◌++◌, every, filter,
  length, length-append, ◌==◌, if◌then◌else◌, ◌≡◌, refl, sym, ap, ◌∙◌, arith,
}
use logestic.Identity.Digits.{
  Text, is_digit, digit_value, digit_char, take, drop, IsDigit-digit_char, length-drop, every-drop,
  every-append, every-filter, filter-every,
}
use logestic.Identity.NationalId.{
  normalize_national_id, weighted_sum, expected_check, all_same, tenth,
  validate_iran_national_id_checksum, zeros, national_id_base, national_id_from_seed,
}

-- Whatever the sum, the check digit is one digit.
pub expected_check-bound : (sum : ℕ) → expected_check sum < 10
unfolding expected_check
expected_check-bound sum = ground arith

zeros-length : (n : ℕ) → length (zeros n) ≡ n
unfolding zeros
zeros-length zero = refl
zeros-length (suc n) = omega (arith, zeros-length n)

zeros-digits : (n : ℕ) → every is_digit (zeros n) ≡ true
unfolding zeros
zeros-digits zero = refl
zeros-digits (suc n) = zeros-digits n

base-length : (seed9 : Text) → length (national_id_base seed9) ≡ 9
unfolding national_id_base
base-length seed9 =
    let ds = filter is_digit seed9 in
    let padded = zeros (9 - length ds) ++ ds in
    let l = length-append (zeros (9 - length ds)) ds in
    omega (arith, length-drop (length padded - 9) padded, l, zeros-length (9 - length ds))

base-digits : (seed9 : Text) → every is_digit (national_id_base seed9) ≡ true
unfolding national_id_base
base-digits seed9 =
    let ds = filter is_digit seed9 in
    let padded = zeros (9 - length ds) ++ ds in
    every-drop is_digit (length padded - 9) padded (
      every-append is_digit (zeros (9 - length ds)) ds (zeros-digits (9 - length ds))
        (every-filter is_digit seed9))

weighted_sum-append :
    (k : ℕ) (ds rest : Text) → length ds ≡ k → weighted_sum k (ds ++ rest) ≡ weighted_sum k ds
unfolding weighted_sum
weighted_sum-append zero ds rest h = refl
weighted_sum-append (suc k) [] rest h = absurd (omega arith)
weighted_sum-append (suc k) (d ∷ ds) rest h =
    ap (λ n. digit_value d * suc (suc k) + n) (weighted_sum-append k ds rest (omega arith))

drop-append : (n : ℕ) (xs ys : Text) → length xs ≡ n → drop n (xs ++ ys) ≡ ys
unfolding drop
drop-append zero [] ys h = refl
drop-append zero (x ∷ xs) ys h = absurd (omega arith)
drop-append (suc n) [] ys h = absurd (omega arith)
drop-append (suc n) (x ∷ xs) ys h = drop-append n xs ys (omega arith)

-- A text of nine digits and a check digit.
module _ (base : Text) (check : ℕ) where
  abbrev id : Text
  id = base ++ digit_char check ∷ []

  id-digits : every is_digit base ≡ true → check < 10 → every is_digit id ≡ true
  id-digits h k =
      every-append is_digit base (digit_char check ∷ []) h
        (ground (arith, IsDigit-digit_char check))

  pub validate-id :
      length base ≡ 9
      → every is_digit base ≡ true
      → check < 10
      → validate_iran_national_id_checksum id
        ≡ (not (all_same id) && (check == expected_check (weighted_sum 9 base)))
  unfolding validate_iran_national_id_checksum normalize_national_id tenth
  validate-id l h k =
      let ds = id-digits h k in
      let same = filter-every is_digit id ds in
      let n = length-append base (digit_char check ∷ []) in
      let ten : length id ≡ 10 = omega (arith, n) in
      let sum = weighted_sum-append 9 base (digit_char check ∷ []) l in
      let last = drop-append 9 base (digit_char check ∷ []) l in
      rw same (ground (arith, ds, ten, sum, last))

-- The id that is made of a seed, of any length and with any other characters in it, is valid unless
-- all its ten digits are the same.
from_seed-valid :
    (seed9 : Text)
    → validate_iran_national_id_checksum (national_id_from_seed seed9)
      ≡ not (all_same (national_id_from_seed seed9))
unfolding national_id_from_seed
from_seed-valid seed9 =
    let base = national_id_base seed9 in
    let check = expected_check (weighted_sum 9 base) in
    validate-id base check (base-length seed9) (base-digits seed9)
      (expected_check-bound (weighted_sum 9 base))
    ∙ ground arith

take-drop_last :
    (n : ℕ) (ds : Text)
    → length ds ≡ suc n
    → every is_digit ds ≡ true
    → (c : ℕ) × (is_digit c ≡ true)
      × (drop n ds ≡ c ∷ [])
      × (ds ≡ take n ds ++ c ∷ [])
      × (length (take n ds) ≡ n)
      × (every is_digit (take n ds) ≡ true)
unfolding take drop
take-drop_last n [] l h = absurd (omega arith)
take-drop_last zero (d ∷ []) l h = (d, ground arith, refl, refl, refl, refl)
take-drop_last zero (d ∷ e ∷ ds) l h = absurd (omega arith)
take-drop_last (suc n) (d ∷ ds) l h =
    let (c, isd, last, split, len, digits) = take-drop_last n ds (omega arith) (ground arith) in
    (c, isd, last, ap (λ xs. d ∷ xs) split, omega (arith, len), ground (arith, digits))

base-same : (ds : Text) → length ds ≡ 9 → every is_digit ds ≡ true → national_id_base ds ≡ ds
unfolding national_id_base zeros drop
base-same ds l h = let same = filter-every is_digit ds h in rw same (rw l (rw l refl))

accepted :
    (a b c : Bool)
    → (if not a then false else if b then false else c) ≡ true
    → (a ≡ true) × (c ≡ true)
accepted true false true h = (refl, refl)
accepted true false false h = absurd (cc)
accepted true true c h = absurd (cc)
accepted false b c h = absurd (cc)

ten_digits : (n : ℕ) (b : Bool) → ((n == 10) && b) ≡ true → (n ≡ 10) × (b ≡ true)
ten_digits n b h = (ground arith, ground arith)

-- The guards of an accepted id.
pub record IsAccepted (ds : Text) : Type 0 where
  pub ten : length ds ≡ 10
  pub digits : every is_digit ds ≡ true
  pub check : (tenth ds == expected_check (weighted_sum 9 ds)) ≡ true

pub valid-IsAccepted :
    (raw : Text)
    → validate_iran_national_id_checksum raw ≡ true
    → IsAccepted (normalize_national_id raw)
unfolding validate_iran_national_id_checksum
valid-IsAccepted raw h =
    let ds = normalize_national_id raw in
    let (form, check) =
      accepted ((length ds == 10) && every is_digit ds) (all_same ds)
        (tenth ds == expected_check (weighted_sum 9 ds)) h in
    let (ten, digits) = ten_digits (length ds) (every is_digit ds) form in
    record { ten = ten; digits = digits; check = check }

tenth-digit_char :
    (ds : Text) (c : ℕ)
    → drop 9 ds ≡ c ∷ []
    → is_digit c ≡ true
    → (n : ℕ) → (tenth ds == n) ≡ true
    → digit_char n ≡ c
unfolding tenth
tenth-digit_char ds c last isd n h =
    let at : digit_value c ≡ n = ground (arith, last) in ground arith

of_accepted : (ds : Text) → IsAccepted ds → national_id_from_seed (take 9 ds) ≡ ds
unfolding national_id_from_seed
of_accepted ds ok =
    let (c, isd, last, split, len, firsts) = take-drop_last 9 ds ok.ten ok.digits in
    let base : Text = take 9 ds in
    let same = base-same base len firsts in
    let sum : weighted_sum 9 ds ≡ weighted_sum 9 base =
      ap (weighted_sum 9) split ∙ weighted_sum-append 9 base (c ∷ []) len in
    let check =
      tenth-digit_char ds c last isd (expected_check (weighted_sum 9 base)) (rw⁻¹ sum ok.check) in
    rw (same, check) (sym split)

-- An id that the checksum accepts, written in any way, is the one that is made of its first nine digits.
pub valid-from_seed :
    (raw : Text)
    → validate_iran_national_id_checksum raw ≡ true
    → national_id_from_seed (take 9 (normalize_national_id raw)) ≡ normalize_national_id raw
valid-from_seed raw h = of_accepted (normalize_national_id raw) (valid-IsAccepted raw h)

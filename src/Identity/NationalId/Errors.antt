-- ===== src/Identity/NationalId/Errors.antt =====
-- How far the checksum notices a wrong digit.
use logestic.Prelude.{
  ℕ, zero, suc, ◌+◌, ◌*◌, ◌%◌, ◌≤◌, ◌<◌, true, [], ◌∷◌, length, ◌≡◌, ◌≢◌, ◌⊎◌, refl, ap, arith, inl,
  inr,
}
use logestic.Identity.Digits.{Text, is_digit, digit_value, drop, OneDigitOff, here, there}
use logestic.Identity.NationalId.{
  normalize_national_id, weighted_sum, expected_check, tenth, validate_iran_national_id_checksum,
}
use logestic.Identity.NationalId.Laws.{IsAccepted, valid-IsAccepted}

-- One of the weighted digits differs.
record SumDiffers (k : ℕ) (xs ys : Text) : Type 0 where
  rest : ℕ
  a : ℕ
  b : ℕ
  factor : ℕ
  two_or_more : 2 ≤ factor
  at_most_ten : factor ≤ suc k
  a_digit : a < 10
  b_digit : b < 10
  differ : a ≢ b
  left : weighted_sum k xs ≡ rest + a * factor
  right : weighted_sum k ys ≡ rest + b * factor
  same_last : drop k xs ≡ drop k ys

-- The check digit differs.
record LastDiffers (k : ℕ) (xs ys : Text) : Type 0 where
  a : ℕ
  b : ℕ
  a_digit : is_digit a ≡ true
  b_digit : is_digit b ≡ true
  differ : a ≢ b
  same_sum : weighted_sum k xs ≡ weighted_sum k ys
  left : drop k xs ≡ a ∷ []
  right : drop k ys ≡ b ∷ []

where_differs :
    (k : ℕ) (xs ys : Text)
    → OneDigitOff xs ys
    → length xs ≡ suc k
    → SumDiffers k xs ys ⊎ LastDiffers k xs ys
unfolding weighted_sum drop
where_differs zero _ _ (here a b [] isa isb ne) l = inr (record {
  a = a;
  b = b;
  a_digit = isa;
  b_digit = isb;
  differ = ne;
  same_sum = refl;
  left = refl;
  right = refl;
})
where_differs zero _ _ (here a b (c ∷ rest) isa isb ne) l = absurd (omega arith)
where_differs zero _ _ (there c _ _ (here a b rest isa isb ne)) l = absurd (omega arith)
where_differs zero _ _ (there c _ _ (there d xs ys off)) l = absurd (omega arith)
where_differs (suc k) _ _ (here a b rest isa isb ne) l = inl (record {
  rest = weighted_sum k rest;
  a = digit_value a;
  b = digit_value b;
  factor = suc (suc k);
  two_or_more = omega arith;
  at_most_ten = omega arith;
  a_digit = ground arith;
  b_digit = ground arith;
  differ = λ e. ne (ground arith);
  left = omega arith;
  right = omega arith;
  same_last = refl;
})
where_differs (suc k) _ _ (there c xs ys off) l = elim (where_differs k xs ys off (omega arith)) [
  | inl d ↦ inl (record {
    rest = digit_value c * suc (suc k) + d.rest;
    a = d.a;
    b = d.b;
    factor = d.factor;
    two_or_more = d.two_or_more;
    at_most_ten = omega (arith, d.at_most_ten);
    a_digit = d.a_digit;
    b_digit = d.b_digit;
    differ = d.differ;
    left = omega (arith, d.left);
    right = omega (arith, d.right);
    same_last = d.same_last;
  })
  | inr d ↦ inr (record {
    a = d.a;
    b = d.b;
    a_digit = d.a_digit;
    b_digit = d.b_digit;
    differ = d.differ;
    same_sum = omega (arith, d.same_sum);
    left = d.left;
    right = d.right;
  })
]

-- A factor from two to ten is no zero divisor modulo eleven.
remainders_differ :
    (w r a b : ℕ) → 2 ≤ w → w ≤ 10 → a < 10 → b < 10 → a ≢ b → (r + a * w) % 11 ≢ (r + b * w) % 11
remainders_differ zero r a b lo hi ha hb ne e = absurd (omega arith)
remainders_differ (suc zero) r a b lo hi ha hb ne e = absurd (omega arith)
remainders_differ (suc (suc zero)) r a b lo hi ha hb ne e = ne (omega arith)
remainders_differ (suc (suc (suc zero))) r a b lo hi ha hb ne e = ne (omega arith)
remainders_differ (suc (suc (suc (suc zero)))) r a b lo hi ha hb ne e = ne (omega arith)
remainders_differ (suc (suc (suc (suc (suc zero))))) r a b lo hi ha hb ne e = ne (omega arith)
remainders_differ (suc (suc (suc (suc (suc (suc zero)))))) r a b lo hi ha hb ne e = ne (omega arith)
remainders_differ (suc (suc (suc (suc (suc (suc (suc zero))))))) r a b lo hi ha hb ne e =
    ne (omega arith)
remainders_differ (suc (suc (suc (suc (suc (suc (suc (suc zero)))))))) r a b lo hi ha hb ne e =
    ne (omega arith)
remainders_differ (suc (suc (suc (suc (suc (suc (suc (suc (suc zero))))))))) r a b lo hi ha hb ne
      e =
    ne (omega arith)
remainders_differ (suc (suc (suc (suc (suc (suc (suc (suc (suc (suc zero)))))))))) r a b lo hi ha hb
      ne e =
    ne (omega arith)
remainders_differ (suc (suc (suc (suc (suc (suc (suc (suc (suc (suc (suc w))))))))))) r a b lo hi ha
      hb ne e =
    absurd (omega arith)

-- Two sums with different remainders ask for the same check digit only where it is one.
only_one : (m n : ℕ) → m % 11 ≢ n % 11 → expected_check m ≡ expected_check n → expected_check m ≡ 1
unfolding expected_check
only_one m n ne e = ground arith

both_accepted :
    (xs ys : Text)
    → OneDigitOff xs ys
    → IsAccepted xs
    → IsAccepted ys
    → (tenth xs ≡ 1) × (tenth ys ≡ 1)
unfolding tenth
both_accepted xs ys off okx oky = elim (where_differs 9 xs ys off okx.ten) [
  | inl d ↦
      let m = weighted_sum 9 xs in
      let n = weighted_sum 9 ys in
      let apart =
        remainders_differ d.factor d.rest d.a d.b d.two_or_more d.at_most_ten d.a_digit d.b_digit
          d.differ in
      let ne : m % 11 ≢ n % 11 = rw (d.left, d.right) apart in
      let last : tenth xs ≡ tenth ys =
        ap (λ ds. elim ds as (λ _. ℕ) [ [] ↦ 0 | c ∷ _ ↦ digit_value c ]) d.same_last in
      let one = only_one m n ne in
      (ground (arith, okx.check, oky.check), ground (arith, okx.check, oky.check))
  | inr d ↦ absurd (ground (arith, okx.check, oky.check))
]

-- Where two ids that differ in one digit are both accepted, both have the check digit one: any other
-- single wrong digit is noticed.
one_wrong_digit :
    (raw raw' : Text)
    → OneDigitOff (normalize_national_id raw) (normalize_national_id raw')
    → validate_iran_national_id_checksum raw ≡ true
    → validate_iran_national_id_checksum raw' ≡ true
    → (tenth (normalize_national_id raw) ≡ 1) × (tenth (normalize_national_id raw') ≡ 1)
one_wrong_digit raw raw' off valid valid' =
    both_accepted (normalize_national_id raw) (normalize_national_id raw') off
      (valid-IsAccepted raw valid) (valid-IsAccepted raw' valid')

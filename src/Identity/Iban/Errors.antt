-- ===== src/Identity/Iban/Errors.antt =====
-- The wrong digits that the checksum of an IBAN notices.
use logestic.Prelude.{
  ℕ, true, false, [], ◌∷◌, ◌++◌, ◌≡◌, ◌≢◌, ◌⊎◌, refl, sym, ◌∙◌, arith, inl, inr, Bool-cases,
}
use logestic.Identity.Digits.{Text, is_digit, take, drop, OneDigitOff, here, there}
use logestic.Identity.Iban.{
  normalize_iban, is_iran_iban, expand, rearrange, remainder_from, validate_iran_iban_checksum,
}
use logestic.Identity.Iban.Mod97.{
  remainder-one_off, Swapped, swap_here, swap_there, remainder-Swapped,
}
use logestic.Identity.Iban.Laws.{IranForm, iran, is_iran_iban-IranForm, checked, expand-rearrange}

one_off-prefix : (zs xs ys : Text) → OneDigitOff xs ys → OneDigitOff (zs ++ xs) (zs ++ ys)
one_off-prefix [] xs ys off = off
one_off-prefix (z ∷ zs) xs ys off = there z (zs ++ xs) (zs ++ ys) (one_off-prefix zs xs ys off)

one_off-suffix : (xs ys zs : Text) → OneDigitOff xs ys → OneDigitOff (xs ++ zs) (ys ++ zs)
one_off-suffix _ _ zs (here a b rest isa isb ne) = here a b (rest ++ zs) isa isb ne
one_off-suffix _ _ zs (there c xs ys off) =
    there c (xs ++ zs) (ys ++ zs) (one_off-suffix xs ys zs off)

Swapped-suffix : (xs ys zs : Text) → Swapped xs ys → Swapped (xs ++ zs) (ys ++ zs)
Swapped-suffix _ _ zs (swap_here a b rest isa isb ne) = swap_here a b (rest ++ zs) isa isb ne
Swapped-suffix _ _ zs (swap_there c xs ys off) =
    swap_there c (xs ++ zs) (ys ++ zs) (Swapped-suffix xs ys zs off)

-- The first characters differ, or a later one does.
one_off-cons :
    (x y : ℕ) (xs ys : Text)
    → OneDigitOff (x ∷ xs) (y ∷ ys)
    → ((is_digit x ≡ true) × (is_digit y ≡ true) × (x ≢ y) × (xs ≡ ys))
      ⊎ ((x ≡ y) × OneDigitOff xs ys)
one_off-cons _ _ _ _ (here a b rest isa isb ne) = inl (isa, isb, ne, refl)
one_off-cons _ _ _ _ (there c xs ys off) = inr (refl, off)

-- Behind the digits of the letters IR.
behind_letters :
    (xs ys : Text)
    → OneDigitOff xs ys
    → OneDigitOff (49 ∷ 56 ∷ 50 ∷ 55 ∷ xs) (49 ∷ 56 ∷ 50 ∷ 55 ∷ ys)
behind_letters xs ys off = one_off-prefix (49 ∷ 56 ∷ 50 ∷ 55 ∷ []) xs ys off

checked-one_off :
    (c d c' d' : ℕ) (account account' : Text)
    → OneDigitOff (73 ∷ 82 ∷ c ∷ d ∷ account) (73 ∷ 82 ∷ c' ∷ d' ∷ account')
    → OneDigitOff (checked c d account) (checked c' d' account')
checked-one_off c d c' d' account account' off = elim (one_off-cons 73 73 _ _ off) [
  | inl (_, _, ne, _) ↦ absurd (ne refl)
  | inr (_, off1) ↦ elim (one_off-cons 82 82 _ _ off1) [
    | inl (_, _, ne, _) ↦ absurd (ne refl)
    | inr (_, off2) ↦ elim (one_off-cons c c' _ _ off2) [
      | inl (isc, isc', ne, same) ↦
          let ed : d ≡ d' = cc in
          let ea : account ≡ account' = cc in
          rw (ed, ea)
            (one_off-prefix account' _ _ (behind_letters _ _ (here c c' (d' ∷ []) isc isc' ne)))
      | inr (ec, off3) ↦ elim (one_off-cons d d' _ _ off3) [
        | inl (isd, isd', ne, same) ↦
            rw (ec, same)
              (one_off-prefix account' _ _
                (behind_letters _ _ (there c' _ _ (here d d' [] isd isd' ne))))
        | inr (ed, off4) ↦
            rw (ec, ed) (one_off-suffix account account' (49 ∷ 56 ∷ 50 ∷ 55 ∷ c' ∷ d' ∷ []) off4)
      ]
    ]
  ]
]

forms-one_off :
    (n n' : Text)
    → IranForm n
    → IranForm n'
    → OneDigitOff n n'
    → remainder_from 0 (expand (rearrange n)) ≢ remainder_from 0 (expand (rearrange n'))
forms-one_off _ _ (iran c d account hc hd ha _) (iran c' d' account' hc' hd' ha' _) off =
    rw (expand-rearrange c d account hc hd ha, expand-rearrange c' d' account' hc' hd' ha')
      (remainder-one_off _ _ (checked-one_off c d c' d' account account' off) 0 (omega arith))

forms-Swapped :
    (n n' : Text)
    → IranForm n
    → IranForm n'
    → take 4 n ≡ take 4 n'
    → Swapped (drop 4 n) (drop 4 n')
    → remainder_from 0 (expand (rearrange n)) ≢ remainder_from 0 (expand (rearrange n'))
unfolding take drop
forms-Swapped _ _ (iran c d account hc hd ha _) (iran c' d' account' hc' hd' ha' _) same off =
    let ec : c ≡ c' = cc in
    let ed : d ≡ d' = cc in
    rw (expand-rearrange c d account hc hd ha, expand-rearrange c' d' account' hc' hd' ha', ec, ed)
      (remainder-Swapped _ _ (Swapped-suffix account account' _ off) 0 (omega arith))

module _ (upper_of : ℕ → Text) where
  accepted :
      (iban : Text)
      → validate_iran_iban_checksum upper_of iban ≡ true
      → let n = normalize_iban upper_of iban in
        IranForm n × (remainder_from 0 (expand (rearrange n)) ≡ 1)
  unfolding validate_iran_iban_checksum
  accepted iban h =
      let n = normalize_iban upper_of iban in
      let form : is_iran_iban n ≡ true = ground arith in
      (is_iran_iban-IranForm n form, ground arith)

  -- Two IBANs whose normal forms differ in one digit are not both accepted.
  pub one_wrong_digit_rejected :
      (iban iban' : Text)
      → OneDigitOff (normalize_iban upper_of iban) (normalize_iban upper_of iban')
      → validate_iran_iban_checksum upper_of iban ≡ true
      → validate_iran_iban_checksum upper_of iban' ≡ false
  one_wrong_digit_rejected iban iban' off h =
      elim (Bool-cases (validate_iran_iban_checksum upper_of iban')) [
        | inr rejected ↦ rejected
        | inl h' ↦
            let (form, one) = accepted iban h in
            let (form', one') = accepted iban' h' in
            absurd (forms-one_off _ _ form form' off (one ∙ sym one'))
      ]

  -- Nor are two whose normal forms differ by two neighbouring digits of the account that are swapped.
  neighbours_rejected :
      (iban iban' : Text)
      → take 4 (normalize_iban upper_of iban) ≡ take 4 (normalize_iban upper_of iban')
      → Swapped (drop 4 (normalize_iban upper_of iban)) (drop 4 (normalize_iban upper_of iban'))
      → validate_iran_iban_checksum upper_of iban ≡ true
      → validate_iran_iban_checksum upper_of iban' ≡ false
  neighbours_rejected iban iban' same off h =
      elim (Bool-cases (validate_iran_iban_checksum upper_of iban')) [
        | inr rejected ↦ rejected
        | inl h' ↦
            let (form, one) = accepted iban h in
            let (form', one') = accepted iban' h' in
            absurd (forms-Swapped _ _ form form' same off (one ∙ sym one'))
      ]

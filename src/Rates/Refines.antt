-- ===== src/Rates/Refines.antt =====
-- The cards of a key as a line of time: which rate is offered when, and what an activation does to it.
use logestic.Prelude.{
  ℕ, ◌≤◌, Bool, true, false, ◌&&◌, ◌||◌, Option, none, some, [], ◌∷◌, ◌==◌, ==_iff, ==_refl, leb,
  ◌≡◌, inl, inr, refl, sym, ap, ◌∙◌, arith, any, Bool-cases, if◌then◌else◌,
}
use text.Mathlib.TextPositions.{compare_refl}
use logestic.Prelude.Table.{Table, find, update, map_option}
use logestic.Prelude.Every.{All, cons}
use logestic.Rates.{
  OperationType, tonnage, hourly, operation_eq, RateCard, draft, archived, Cards, Key, key_of,
  has_key, is_in_range, is_valid_at, later, get_rate_card_valid_at, get_active_rate_card,
  is_previous, archive, archive_previous, activate_row, activate_rate_card, written, is_active,
  is_draft, cooperative_eq,
}

-- The start and the rate of a card.
abbrev pub offer : RateCard → ℕ × ℕ
offer c = (c.effective_from, c.rate)

-- The abstract view of a key: the offer at each time.
abbrev pub Timeline : Type 0
Timeline = ℕ → Option (ℕ × ℕ)

-- From its start on a new offer takes the place of those before it.
unfoldable pub offer_from : ℕ × ℕ → Timeline → Timeline
offer_from (from, rate) line at = if leb from at then some (from, rate) else line at

-- The cards of the key make the line of time.
unfoldable pub Implements : Key → Table RateCard → Timeline → Type 0
Implements k t line = (at : ℕ) → map_option offer (get_active_rate_card k at t) ≡ line at

-- What the rows are like where the cards of a key are activated in the order of their starts, by the
-- draft `d` of the id `i`: the row of the id is the draft; and of the cards of the draft's key each is
-- of its cooperative, an ACTIVE one has no end, and an ARCHIVED one ends by the start of the draft.
-- Nothing is asked of the cards of other keys.
pub record InOrder (i : ℕ) (d : RateCard) (row : ℕ × RateCard) : Type 0 where
  pub same_row : row.0 == i ≡ true → row.1 ≡ d
  pub one_cooperative :
      has_key (key_of d) row.1 ≡ true → cooperative_eq row.1.cooperative_id d.cooperative_id ≡ true
  pub open_active :
      has_key (key_of d) row.1 ≡ true → is_active row.1.status ≡ true → row.1.effective_to ≡ none
  pub ended :
      has_key (key_of d) row.1 ≡ true
      → row.1.status ≡ archived
      → (to : ℕ) × (row.1.effective_to ≡ some to) × (to ≤ d.effective_from)

-- A row after the activation.
abbrev activated : ℕ → RateCard → ℕ × RateCard → RateCard
activated i d (j, c) =
    let kept = if is_previous i d (j, c) then archive d.effective_from c else c in
    if i == j then activate_row kept else kept

later-offer :
    (c c' : RateCard) (a a' : Option RateCard)
    → offer c ≡ offer c'
    → map_option offer a ≡ map_option offer a'
    → offer (later c a) ≡ offer (later c' a')
unfolding later
later-offer c c' none none e h = e
later-offer c c' none (some b') e h = absurd (cc)
later-offer c c' (some b) none e h = absurd (cc)
later-offer c c' (some b) (some b') e h =
    let same : offer b ≡ offer b' = cc in
    let test : leb b'.effective_from c'.effective_from ≡ leb b.effective_from c.effective_from =
      ap (λ x. leb x c'.effective_from) (sym (ap (λ x. x.0) same))
      ∙ ap (λ x. leb b.effective_from x) (sym (ap (λ x. x.0) e)) in
    elim (Bool-cases (leb b.effective_from c.effective_from)) [
      | inl y ↦ let y' = test ∙ y in rw (y, y') e
      | inr n ↦ let n' = test ∙ n in rw (n, n') same
    ]

later-same :
    (c : RateCard) (a : Option RateCard) (b : Bool) (o : ℕ × ℕ)
    → offer c ≡ o
    → map_option offer a ≡ (if b then some o else none)
    → offer (later c a) ≡ o
unfolding later
later-same c none b o e h = e
later-same c (some x) false o e h = absurd (cc)
later-same c (some x) true o e h =
    let same : offer x ≡ o = cc in
    elim (Bool-cases (leb x.effective_from c.effective_from)) [ inl y ↦ rw y e | inr n ↦ rw n same ]

operation_refl : (o : OperationType) → operation_eq o o ≡ true
operation_refl tonnage = refl
operation_refl hourly = refl

own_key : (d : RateCard) → has_key (key_of d) d ≡ true
unfolding has_key
own_key d =
    let text = compare_refl d.material_type in
    let operation = operation_refl d.operation_type in
    let mine = ==_refl d.mine_id in ground (arith, mine, operation, text)

drafts_of :
    (i : ℕ) (d : RateCard) (t : Table RateCard)
    → find i t ≡ some d
    → any (λ (j, _). j == i) t ≡ true
unfolding find
drafts_of i d [] h = cc
drafts_of i d ((j, c) ∷ t) h = ground (arith, drafts_of i d t, ==_iff i j, ==_iff j i)

module _ (i : ℕ) (d : RateCard) (drafted : d.status ≡ draft) (endless : d.effective_to ≡ none) where
  abbrev k : Key
  k = key_of d

  offer-activated : (j : ℕ) (c : RateCard) → offer (activated i d (j, c)) ≡ offer c
  offer-activated j c = elim (Bool-cases (is_previous i d (j, c))) [
    | inl p ↦ elim (Bool-cases (i == j)) [ inl e ↦ rw (p, e) refl | inr e ↦ rw (p, e) refl ]
    | inr p ↦ elim (Bool-cases (i == j)) [ inl e ↦ rw (p, e) refl | inr e ↦ rw (p, e) refl ]
  ]

  key-activated : (j : ℕ) (c : RateCard) → has_key k (activated i d (j, c)) ≡ has_key k c
  unfolding has_key
  key-activated j c = elim (Bool-cases (is_previous i d (j, c))) [
    | inl p ↦ elim (Bool-cases (i == j)) [ inl e ↦ rw (p, e) refl | inr e ↦ rw (p, e) refl ]
    | inr p ↦ elim (Bool-cases (i == j)) [ inl e ↦ rw (p, e) refl | inr e ↦ rw (p, e) refl ]
  ]

  -- Before the start of the draft a row is valid as it was.
  valid_before :
      (at j : ℕ) (c : RateCard)
      → leb d.effective_from at ≡ false
      → InOrder i d (j, c)
      → (has_key k (activated i d (j, c)) && is_valid_at at false (activated i d (j, c)))
        ≡ (has_key k c && is_valid_at at false c)
  unfolding is_valid_at is_in_range is_previous
  valid_before at j c before row = elim (Bool-cases (j == i)) [
    | inl e ↦
        let same = row.same_row e in
        let there = ap is_draft (ap (λ x. x.status) same ∙ drafted) in
        let start = ap (λ x. x.effective_from) same in
        let kept = offer-activated j c in
        let start' = ap (λ x. x.0) kept in
        ground (arith, ==_iff i j, ==_iff j i, there, start, start', before)
    | inr e ↦
        let keyed' = key-activated j c in
        elim (Bool-cases (has_key k c)) [
          | inl own ↦ let open_one = row.open_active own in ground (arith, ==_iff i j, ==_iff j i)
          | inr other ↦ ground (arith, keyed', other)
        ]
  ]

  -- From its start on the draft is the one valid row.
  valid_after :
      (at j : ℕ) (c : RateCard)
      → leb d.effective_from at ≡ true
      → InOrder i d (j, c)
      → (has_key k (activated i d (j, c)) && is_valid_at at false (activated i d (j, c)))
        ≡ (has_key k d && j == i)
  unfolding is_valid_at is_in_range is_previous
  valid_after at j c from row = elim (Bool-cases (j == i)) [
    | inl e ↦
        let same = row.same_row e in
        let there = ap (λ x. x.status) same ∙ drafted in
        let start = ap (λ x. x.effective_from) same in
        let end = ap (λ x. x.effective_to) same ∙ endless in
        let keyed = ap (has_key k) same in
        let keyed' = key-activated j c in
        ground (arith, ==_iff i j, ==_iff j i, there, start, end, keyed, keyed', from)
    | inr e ↦
        let keyed' = key-activated j c in
        elim (Bool-cases (has_key k c)) [
          | inl own ↦
              let open_one = row.open_active own in
              let ended = row.ended own in
              let one = row.one_cooperative in ground (arith, ==_iff i j, ==_iff j i)
          | inr other ↦ ground (arith, keyed', other, e)
        ]
  ]

  abbrev after : Table RateCard → Table RateCard
  after t = update i activate_row (archive_previous i d t)

  -- At each time before the start the same offer is found.
  offer_before :
      (at : ℕ) (t : Table RateCard)
      → leb d.effective_from at ≡ false
      → All (InOrder i d) t
      → map_option offer (get_rate_card_valid_at k at false (after t))
        ≡ map_option offer (get_rate_card_valid_at k at false t)
  unfolding get_rate_card_valid_at archive_previous update
  offer_before at [] before rows = refl
  offer_before at ((j, c) ∷ t) before (cons _ _ row rows) =
      let same = valid_before at j c before row in
      let rest = offer_before at t before rows in
      elim (Bool-cases (has_key k c && is_valid_at at false c)) [
        | inl e ↦
            let e' = same ∙ e in
            rw (e, e')
              (ap some (later-offer (activated i d (j, c)) c _ _ (offer-activated j c) rest))
        | inr e ↦ let e' = same ∙ e in rw (e, e') rest
      ]

  abbrev drafts : Table RateCard → Bool
  drafts = any (λ (j, _). j == i)

  -- At each time from the start on the draft is found, once it is among the rows.
  offer_after :
      (at : ℕ) (t : Table RateCard)
      → has_key k d ≡ true
      → leb d.effective_from at ≡ true
      → All (InOrder i d) t
      → map_option offer (get_rate_card_valid_at k at false (after t))
        ≡ (if drafts t then some (offer d) else none)
  unfolding get_rate_card_valid_at archive_previous update
  offer_after at [] keyed from rows = refl
  offer_after at ((j, c) ∷ t) keyed from (cons _ _ row rows) =
      let same = valid_after at j c from row in
      let rest = offer_after at t keyed from rows in
      elim (Bool-cases (j == i)) [
        | inl e ↦
            let both : (has_key k d && j == i) ≡ true = ground (arith, keyed, e) in
            let e' = same ∙ both in
            let own = offer-activated j c ∙ ap offer (row.same_row e) in
            let found : (if (j == i) || drafts t then some (offer d) else none) ≡ some (offer d) =
              ground (arith, e) in
            rw e' (
              ap some (later-same (activated i d (j, c)) _ (drafts t) (offer d) own rest)
              ∙ sym found)
        | inr e ↦
            let both : (has_key k d && j == i) ≡ false = ground (arith, keyed, e) in
            let e' = same ∙ both in rw (e', e) rest
      ]

-- The activation of a draft without an end implements the publication of its offer. Where the cards of
-- the draft's key are all of its cooperative, the ACTIVE ones without an end and the ARCHIVED ones ended
-- by its start, and made a line of time before, they make that line with the draft's offer published in
-- it, at every time.
pub activate_refines :
    (i user : ℕ) (d : RateCard) (s : Cards) (line : Timeline)
    → find i s.cards ≡ some d
    → d.status ≡ draft
    → d.effective_to ≡ none
    → All (InOrder i d) s.cards
    → Implements (key_of d) s.cards line
    → (s' : Cards) × (activate_rate_card i user s ≡ inr s')
      × Implements (key_of d) s'.cards (offer_from (offer d) line)
unfolding activate_rate_card written offer_from Implements get_active_rate_card
activate_refines i user d s line row drafted endless rows made = (
  written i d user s,
  (ground (arith, row, drafted)),
  λ at. elim (Bool-cases (leb d.effective_from at)) [
    | inl e ↦
        let there = drafts_of i d s.cards row in
        let found = offer_after i d drafted endless at s.cards (own_key d) e rows in
        rw e (found ∙ rw there refl)
    | inr e ↦ rw e (offer_before i d drafted endless at s.cards e rows ∙ made at)
  ],
)

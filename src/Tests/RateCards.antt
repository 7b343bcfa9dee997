-- ===== src/Tests/RateCards.antt =====
-- Rate cards at concrete inputs: a card that is ACTIVE since 10, a draft from 20 on, and a card of
-- another mine.
use logestic.Prelude.{none, some, [], ◌∷◌, ◌≡◌, inr, refl}
use logestic.Prelude.Table.{find, map_option}
use logestic.Prelude.Every.{All, nil, cons}
use logestic.Rates.{
  RateCard, CardStatus, draft, active, tonnage, ton, Cards, key_of, has_key, activate_rate_card,
  get_active_rate_card,
}
use logestic.Rates.Refines.{InOrder, Timeline, offer_from, offer, Implements, activate_refines}

abbrev card : CardStatus → RateCard
card status = record {
  mine_id = 5;
  cooperative_id = none;
  operation_type = tonnage;
  material_type = "iron";
  unit_type = ton;
  rate = 1500000;
  effective_from = 10;
  effective_to = none;
  status = status;
  created_by = some 1;
}

abbrev next_card : RateCard
next_card = record (card draft) { rate = 1700000; effective_from = 20 }

-- An ACTIVE card of another mine, with an end.
abbrev other_card : RateCard
other_card = record (card active) { mine_id = 6; effective_to = some 900 }

abbrev rate_db : Cards
rate_db = record { cards = (2, next_card) ∷ (1, card active) ∷ (3, other_card) ∷ []; audits = [] }

abbrev before : Timeline
before at = map_option offer (get_active_rate_card (key_of next_card) at rate_db.cards)

in_order : All (InOrder 2 next_card) rate_db.cards
unfolding has_key
in_order =
    cons (2, next_card) ((1, card active) ∷ (3, other_card) ∷ [])
      (record {
        same_row = λ e. refl;
        one_cooperative = λ e. refl;
        open_active = λ own e. refl;
        ended = λ own e. absurd (cc);
      })
      (cons (1, card active) ((3, other_card) ∷ [])
        (record {
          same_row = λ e. absurd (cc);
          one_cooperative = λ e. refl;
          open_active = λ own e. refl;
          ended = λ own e. absurd (cc);
        })
        (cons (3, other_card) []
          (record {
            same_row = λ e. absurd (cc);
            one_cooperative = λ own. absurd (cc);
            open_active = λ own e. absurd (cc);
            ended = λ own e. absurd (cc);
          })
          nil))

makes_before : Implements (key_of next_card) rate_db.cards before
unfolding Implements
makes_before at = refl

activate_refines_example :
    (s' : Cards) × (activate_rate_card 2 7 rate_db ≡ inr s')
    × Implements (key_of next_card) s'.cards (offer_from (offer next_card) before)
unfolding find
activate_refines_example =
    activate_refines 2 7 next_card rate_db before refl refl refl in_order makes_before

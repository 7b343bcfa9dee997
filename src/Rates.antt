-- ===== src/Rates.antt =====
-- The rate cards of repositories/rateCardsRepository.ts: drafts, their activation, which archives the
-- cards before them, and the card that is valid at a time.
pub mod Refines
use Prim.Native.String.{String, compare as compare_text}
use Prim.Native.Nat.{Ordering}
use logestic.Prelude.{
  ℕ, suc, Bool, true, false, not, ◌&&◌, ◌||◌, Option, none, some, List, [], ◌∷◌, ◌++◌, ◌==◌, leb,
  ltb, ◌⊎◌, inl, inr, if◌then◌else◌, length,
}
use logestic.Prelude.Table.{Table, find, update, insert, next_id}

pub data OperationType : Type 0 where
  tonnage hourly : OperationType

pub data UnitType : Type 0 where
  ton hour : UnitType

pub data CardStatus : Type 0 where
  draft active archived : CardStatus

-- Rates are in ten-thousandths of a rial.
pub record RateCard : Type 0 where
  pub mine_id : ℕ
  pub cooperative_id : Option ℕ
  pub operation_type : OperationType
  pub material_type : String
  pub unit_type : UnitType
  pub rate : ℕ
  pub effective_from : ℕ
  pub effective_to : Option ℕ
  pub status : CardStatus
  pub created_by : Option ℕ

-- The reason of an audit log: the card that supersedes, or the number of those superseded.
pub data CardReason : Type 0 where
  superseded_by_rate_card archived_previous : ℕ → CardReason
  first_active : CardReason

pub record CardAudit : Type 0 where
  pub card : ℕ
  pub before_status : CardStatus
  pub after_status : CardStatus
  pub performed_by_user_id : ℕ
  pub reason : CardReason

pub record Cards : Type 0 where
  pub cards : Table RateCard
  pub audits : List CardAudit

abbrev text_eq : String → String → Bool
text_eq a b = elim (compare_text a b) [ Ordering.eq ↦ true | _ ↦ false ]

abbrev pub operation_eq : OperationType → OperationType → Bool
operation_eq tonnage tonnage = true
operation_eq hourly hourly = true
operation_eq _ _ = false

abbrev pub is_draft : CardStatus → Bool
is_draft draft = true
is_draft _ = false

abbrev pub is_active : CardStatus → Bool
is_active active = true
is_active _ = false

-- What a card is looked for by.
pub record Key : Type 0 where
  pub mine_id : ℕ
  pub operation_type : OperationType
  pub material_type : String

unfoldable pub has_key : Key → RateCard → Bool
has_key k c =
    (c.mine_id == k.mine_id)
    && operation_eq c.operation_type k.operation_type
    && text_eq c.material_type k.material_type

abbrev pub key_of : RateCard → Key
key_of c = record {
  mine_id = c.mine_id;
  operation_type = c.operation_type;
  material_type = c.material_type;
}

-- `dateRangeFilter`
unfoldable pub is_in_range : ℕ → RateCard → Bool
is_in_range at c =
    leb c.effective_from at && elim c.effective_to [ none ↦ true | some to ↦ ltb at to ]

-- `validAtFilter`
unfoldable pub is_valid_at : ℕ → Bool → RateCard → Bool
unfolding is_in_range
is_valid_at at true c = is_in_range at c && is_active c.status
is_valid_at at false c = is_in_range at c && not (is_draft c.status)

-- Of two cards the one that begins later; of equal ones the newer row, where the source leaves it
-- to the database.
unfoldable pub later : RateCard → Option RateCard → RateCard
later c none = c
later c (some d) = if leb d.effective_from c.effective_from then c else d

unfoldable pub get_rate_card_valid_at : Key → ℕ → Bool → Table RateCard → Option RateCard
unfolding has_key is_valid_at later
get_rate_card_valid_at k at active_only [] = none
get_rate_card_valid_at k at active_only ((_, c) ∷ t) =
    let rest = get_rate_card_valid_at k at active_only t in
    if has_key k c && is_valid_at at active_only c then some (later c rest) else rest

-- `getActiveRateCard`, which passes `false`
unfoldable pub get_active_rate_card : Key → ℕ → Table RateCard → Option RateCard
unfolding get_rate_card_valid_at
get_active_rate_card k now t = get_rate_card_valid_at k now false t

unfoldable pub create_draft_rate_card : RateCard → Cards → ℕ × Cards
create_draft_rate_card c s = (
  next_id s.cards,
  record s { cards = insert (record c { effective_to = none; status = draft }) s.cards },
)

abbrev pub cooperative_eq : Option ℕ → Option ℕ → Bool
cooperative_eq none none = true
cooperative_eq (some a) (some b) = a == b
cooperative_eq _ _ = false

-- The query of the cards that a draft supersedes.
unfoldable pub is_previous : ℕ → RateCard → ℕ × RateCard → Bool
unfolding has_key
is_previous i d (j, c) =
    has_key (key_of d) c
    && is_active c.status
    && not (j == i)
    && cooperative_eq c.cooperative_id d.cooperative_id

abbrev pub archive : ℕ → RateCard → RateCard
archive from c = record c { status = archived; effective_to = some from }

-- The loop over them.
unfoldable pub archive_previous : ℕ → RateCard → Table RateCard → Table RateCard
unfolding is_previous
archive_previous i d [] = []
archive_previous i d ((j, c) ∷ t) =
    (j, if is_previous i d (j, c) then archive d.effective_from c else c) ∷ archive_previous i d t

unfoldable pub archive_audits : ℕ → RateCard → ℕ → Table RateCard → List CardAudit
unfolding is_previous
archive_audits i d user [] = []
archive_audits i d user ((j, c) ∷ t) =
    let rest = archive_audits i d user t in
    if is_previous i d (j, c)
    then record {
      card = j;
      before_status = active;
      after_status = archived;
      performed_by_user_id = user;
      reason = superseded_by_rate_card i;
    }
      ∷ rest
    else rest

abbrev activation_reason : ℕ → CardReason
activation_reason n = if n == 0 then first_active else archived_previous n

abbrev pub activate_row : RateCard → RateCard
activate_row c = record c { status = active }

pub data CardFault : Type 0 where
  rate_card_not_found not_draft : CardFault

-- The writes of an activation. The newest audit is the first of the list.
unfoldable pub written : ℕ → RateCard → ℕ → Cards → Cards
unfolding archive_previous archive_audits
written i d user s =
    let audits = archive_audits i d user s.cards in
    record {
      cards = update i activate_row (archive_previous i d s.cards);
      audits =
          record {
            card = i;
            before_status = draft;
            after_status = active;
            performed_by_user_id = user;
            reason = activation_reason (length audits);
          }
          ∷ (audits ++ s.audits);
    }

-- `activateRateCard`, in one transaction: what throws has written nothing.
unfoldable pub activate_rate_card : ℕ → ℕ → Cards → CardFault ⊎ Cards
unfolding written
activate_rate_card i user s = elim (find i s.cards) [
  | none ↦ inl rate_card_not_found
  | some d ↦ if not (is_draft d.status) then inl not_draft else inr (written i d user s)
]

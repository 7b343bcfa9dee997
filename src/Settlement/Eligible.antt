-- ===== src/Settlement/Eligible.antt =====
-- What a close puts into a batch: lib/settlementEligibility.ts, and the queries and loops of
-- repositories/settlementRepository.ts that find the missions and the hourly logs of a period with
-- the credits of their owners.
use Prim.Native.String.{String}
use text.Mathlib.Text.{find?}
use logestic.Prelude.{
  ℕ, zero, suc, ◌/◌, is_some, Bool, true, false, not, ◌&&◌, ◌||◌, Option, none, some, List, [], ◌∷◌,
  ◌++◌, any, ◌==◌, leb, if◌then◌else◌,
}
use logestic.Prelude.Int.{ℤ, pos, leb_ℤ}
use logestic.Prelude.Table.{Table, find}
use logestic.Fsm.{verified, status_eq}
use logestic.Store.Batches.{Batch, BatchStatus, BatchType, HourlyLog, HourlyStatus}
use logestic.Store.Tables
use logestic.Store.Tables.{
  Db, Line, LineNote, Mission, Ticket, TicketStatus, PaymentState, Wallet, owner, TransactionType,
  Description,
}
use logestic.Ledger.Post.{wallet_eq, of_wallet, of_mission, ledger_sum}
use logestic.Settlement.Period.{Period}

-- `notIn: ["HELD", "FAILED"]`
abbrev is_payable_state : PaymentState → Bool
is_payable_state PaymentState.held = false
is_payable_state PaymentState.failed = false
is_payable_state _ = true

abbrev pub is_pending_hold : TicketStatus → Bool
is_pending_hold TicketStatus.pending_hold = true
is_pending_hold _ = false

-- The mission has an open hold at the weighbridge.
unfoldable pub has_pending_hold_ticket : ℕ → Table Ticket → Bool
has_pending_hold_ticket i = any (λ (_, t). t.mission_id == i && is_pending_hold t.status)

-- `missionEligibleForSettlementWhere`
unfoldable pub is_mission_eligible_for_settlement : ℕ → Mission → Db → Bool
unfolding has_pending_hold_ticket
is_mission_eligible_for_settlement i m s =
    status_eq m.status verified
    && is_payable_state m.payment_state
    && not (has_pending_hold_ticket i s.tickets)

abbrev pub is_within : Period → Option ℕ → Bool
is_within p none = false
is_within p (some t) = leb p.period_start t && leb t p.period_end

-- `status: { notIn: ["CANCELLED", "FAILED"] }`
abbrev pub is_live : BatchStatus → Bool
is_live BatchStatus.cancelled = false
is_live BatchStatus.failed = false
is_live _ = true

abbrev pub batch_type_eq : BatchType → BatchType → Bool
batch_type_eq BatchType.owner_weekly BatchType.owner_weekly = true
batch_type_eq BatchType.household_monthly BatchType.household_monthly = true
batch_type_eq BatchType.combined_legacy BatchType.combined_legacy = true
batch_type_eq _ _ = false

-- The batches that keep a mission or a log out of another one: all live ones for the monthly
-- close, and the weekly ones of these for the weekly close.
abbrev pub any_live : Batch → Bool
any_live b = is_live b.status

abbrev pub live_of_type : BatchType → Batch → Bool
live_of_type type b = is_live b.status && batch_type_eq b.batch_type type

abbrev pub has_id : ℕ → Option ℕ → Bool
has_id i none = false
has_id i (some j) = j == i

abbrev pub batch_of : (Batch → Bool) → Line → Db → Bool
batch_of test l s = elim (find l.batch_id s.batches) [ none ↦ false | some b ↦ test b ]

-- A line of the mission, or of the log, in such a batch.
unfoldable pub is_mission_taken : (Batch → Bool) → ℕ → Db → Bool
is_mission_taken test i s = any (λ (_, l). has_id i l.mission_id && batch_of test l s) s.lines

unfoldable pub is_log_taken : (Batch → Bool) → ℕ → Db → Bool
is_log_taken test i s = any (λ (_, l). has_id i l.hourly_work_log_id && batch_of test l s) s.lines

abbrev load_of_mine : ℕ → Mission → Db → Bool
load_of_mine mine m s = elim (find m.load_id s.loads) [ none ↦ false | some l ↦ l.mine_id == mine ]

unfoldable pub is_mission_due : (Batch → Bool) → ℕ → Period → Db → ℕ × Mission → Bool
unfolding is_mission_eligible_for_settlement is_mission_taken
is_mission_due test mine p s (i, m) =
    is_mission_eligible_for_settlement i m s
    && load_of_mine mine m s
    && is_within p m.verified_at
    && not (is_mission_taken test i s)

abbrev is_approved_log : HourlyStatus → Bool
is_approved_log HourlyStatus.approved = true
is_approved_log _ = false

unfoldable pub is_log_due : (Batch → Bool) → ℕ → Period → Db → ℕ × HourlyLog → Bool
unfolding is_log_taken
is_log_due test mine p s (i, l) =
    (l.mine_id == mine)
    && is_approved_log l.status
    && is_within p l.consultant_verified_at
    && not (is_log_taken test i s)

abbrev pub is_credit : TransactionType → Bool
is_credit TransactionType.credit = true
is_credit _ = false

-- `findWalletForOwner`
abbrev pub has_wallet : ℕ → Db → Bool
has_wallet o s = any (wallet_eq (owner o)) s.wallets

abbrev pub is_owner_credit : ℕ → ℕ → Tables.Transaction → Bool
is_owner_credit o i t = of_wallet (owner o) t && of_mission i t && is_credit t.type

unfoldable pub owner_credit_for_mission : ℕ → Db → ℤ
owner_credit_for_mission i s = elim (find i s.missions) [
  | none ↦ pos 0
  | some m ↦
      if has_wallet m.owner_id s
      then ledger_sum (is_owner_credit m.owner_id i) s.transactions
      else pos 0
]

-- The text of a description up to its number, and the number.
abbrev pub description_tag : Description → String
description_tag Description.split_owner = "OPERATIONAL_SPLIT:OWNER"
description_tag Description.split_platform = "OPERATIONAL_SPLIT:PLATFORM"
description_tag Description.adjustment_owner = "OPERATIONAL_SPLIT:OWNER_ADJ"
description_tag Description.adjustment_platform = "OPERATIONAL_SPLIT:PLATFORM_ADJ"
description_tag (Description.hourly_owner _) = "OPERATIONAL_SPLIT:HOURLY_OWNER#"
description_tag (Description.hourly_platform _) = "OPERATIONAL_SPLIT:HOURLY_PLATFORM#"
description_tag (Description.pool_share _) = "POOL_DISTRIBUTION#"
description_tag (Description.pool_remainder _) = "POOL_REMAINDER#"
description_tag (Description.pool_remainder_coop _) = "POOL_REMAINDER_COOP#"

abbrev description_number : Description → ℕ
description_number Description.split_owner = 0
description_number Description.split_platform = 0
description_number Description.adjustment_owner = 0
description_number Description.adjustment_platform = 0
description_number (Description.hourly_owner i) = i
description_number (Description.hourly_platform i) = i
description_number (Description.pool_share i) = i
description_number (Description.pool_remainder i) = i
description_number (Description.pool_remainder_coop i) = i

-- The decimal digits of a number start with those of `i`; the number itself is fuel enough.
unfoldable pub starts_with_digits : ℕ → ℕ → ℕ → Bool
starts_with_digits zero i n = false
starts_with_digits (suc fuel) i n =
    let shorter = starts_with_digits fuel i (n / 10) in i == n || (leb 10 n && shorter)

-- Whether the text contains `HOURLY_CREDIT_OWNER#<i>`.
unfoldable pub contains_hourly_credit : ℕ → Description → Bool
unfolding starts_with_digits
contains_hourly_credit i d =
    let n = description_number d in
    is_some (find? (description_tag d) "HOURLY_CREDIT_OWNER#") && starts_with_digits (suc n) i n

abbrev pub is_hourly_credit : ℕ → ℕ → Tables.Transaction → Bool
is_hourly_credit o i t =
    of_wallet (owner o) t && is_credit t.type && contains_hourly_credit i t.description

unfoldable pub owner_credit_for_hourly : ℕ → Db → ℤ
owner_credit_for_hourly i s = elim (find i s.hourly_logs) [
  | none ↦ pos 0
  | some l ↦
      if has_wallet l.fleet_owner_id s
      then ledger_sum (is_hourly_credit l.fleet_owner_id i) s.transactions
      else pos 0
]

abbrev pub mission_line : ℕ → ℕ → Mission → ℤ → Line
mission_line batch i m amount = record {
  batch_id = batch;
  wallet = owner m.owner_id;
  amount = amount;
  mission_id = some i;
  hourly_work_log_id = none;
  note = some LineNote.mission_owner;
}

abbrev pub hourly_line : ℕ → ℕ → HourlyLog → ℤ → Line
hourly_line batch i l amount = record {
  batch_id = batch;
  wallet = owner l.fleet_owner_id;
  amount = amount;
  mission_id = none;
  hourly_work_log_id = some i;
  note = some LineNote.hourly_owner;
}

-- The two loops: a credit of nothing, or no wallet, gives no line.
unfoldable pub mission_lines : (Batch → Bool) → ℕ → Period → ℕ → Db → Table Mission → List Line
unfolding is_mission_due owner_credit_for_mission
mission_lines test mine p batch s [] = []
mission_lines test mine p batch s ((i, m) ∷ ms) =
    let rest = mission_lines test mine p batch s ms in
    let amount = owner_credit_for_mission i s in
    if is_mission_due test mine p s (i, m) && not (leb_ℤ amount (pos 0)) && has_wallet m.owner_id s
    then mission_line batch i m amount ∷ rest
    else rest

unfoldable pub hourly_lines : (Batch → Bool) → ℕ → Period → ℕ → Db → Table HourlyLog → List Line
unfolding is_log_due owner_credit_for_hourly
hourly_lines test mine p batch s [] = []
hourly_lines test mine p batch s ((i, l) ∷ ls) =
    let rest = hourly_lines test mine p batch s ls in
    let amount = owner_credit_for_hourly i s in
    if is_log_due test mine p s (i, l)
      && not (leb_ℤ amount (pos 0))
      && has_wallet l.fleet_owner_id s
    then hourly_line batch i l amount ∷ rest
    else rest

unfoldable pub owner_lines : (Batch → Bool) → ℕ → Period → ℕ → Db → List Line
unfolding mission_lines hourly_lines
owner_lines test mine p batch s =
    mission_lines test mine p batch s s.missions ++ hourly_lines test mine p batch s s.hourly_logs

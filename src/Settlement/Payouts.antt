-- ===== src/Settlement/Payouts.antt =====
-- `executePayoutsForBatch` of services/settlementService.ts: one request to the bank for each line
-- that has no final payout, and the status of the batch by the counts. The bank adapter, the
-- accounts and the clock are arguments; the adapter may answer by all that it answered before.
pub mod Rows
pub mod Laws
pub mod Unsettled
use Prim.Native.String.{String}
use logestic.Prelude.{
  ℕ, suc, ◌+◌, Bool, true, false, not, ◌&&◌, ◌||◌, Option, none, some, List, [], ◌∷◌, ◌++◌, length,
  ◌==◌, ltb, leb, is_some, filter, if◌then◌else◌, map,
}
use mathlib.Core.List.{reverse}
use logestic.Prelude.Int.{ℤ, pos}
use logestic.Prelude.Rounding.{round_div}
use logestic.Prelude.Table.{Table, find, update}
use logestic.Reasons.{
  Fault, mission_settle_failed, bank_adapter_disabled, batch_not_found_error,
  invalid_batch_status_error, batch_not_locked,
}
use logestic.Store.{
  Outcome, Action, ok, refused, throws, ◌>>=◌, ◌>>◌, pure, throw, gets, or_throw, refuse_if, modify,
  transaction,
}
use logestic.Store.Batches
use logestic.Store.Batches.{
  Batch, BatchStatus, ready_for_settlement, in_bank_queue, settled, manual_review, Reference, given,
  auto, Payout, PayoutStatus, pending, processing, completed, failed, PayoutRequest, PayoutAnswer,
}
use logestic.Store.Tables.{Db, Line, Wallet, Event, AuditField}
use logestic.Missions.{publish, record_audit, settle_verified_mission}
use logestic.Settlement.Batch.{batch_audit, batch_status_eq, update_batch, send_to_bank}
use logestic.Settlement.Paid.{lines_of, mission_ids, publish_paid}

pub record Bank : Type 0 where
  pub now : ℕ
  -- `bank_iban` of the wallet's owner or household, where it is not blank
  pub iban_of : Wallet → Option String
  -- `initiatePayout`
  pub initiate : List (PayoutRequest × PayoutAnswer) → PayoutRequest → PayoutAnswer

unfoldable pub find_payout : ℕ → List Payout → Option Payout
find_payout line [] = none
find_payout line (p ∷ ps) = if p.settlement_line_id == line then some p else find_payout line ps

-- The counts of a run, and the bank's reference of the first completed line.
pub record Totals : Type 0 where
  pub completed_count : ℕ
  pub failed_count : ℕ
  pub skipped_count : ℕ
  pub first_completed : Option (Option String)

abbrev first_of : Option (Option String) → Option String → Option (Option String)
first_of none ref = some ref
first_of (some old) ref = some old

abbrev pub count_completed : Option String → Totals → Totals
count_completed ref t = record t {
  completed_count = suc t.completed_count;
  first_completed = first_of t.first_completed ref;
}

abbrev pub count_failed : Totals → Totals
count_failed t = record t { failed_count = suc t.failed_count }

abbrev pub count_skipped : Totals → Totals
count_skipped t = record t { skipped_count = suc t.skipped_count }

abbrev pub set_status : PayoutStatus → Payout → Payout
set_status status p = record p { status = status }

abbrev pub finish_payout : PayoutStatus → Option String → Payout → Payout
finish_payout status ref p = record p { status = status; bank_reference = ref }

-- `ref || null`
abbrev pub or_null : String → Option String
or_null String.[] = none
or_null (String.◌∷◌ c s) = some (String.◌∷◌ c s)

-- The update of the payout of a line.
unfoldable pub update_payout : ℕ → (Payout → Payout) → List Payout → List Payout
update_payout line f [] = []
update_payout line f (p ∷ ps) =
    (if p.settlement_line_id == line then f p else p) ∷ update_payout line f ps

-- The payout is marked as processing, and made where there is none.
unfoldable pub begin_payout : ℕ → ℕ → Option Payout → Db → Db
unfolding update_payout
begin_payout i line none s = record s {
  payouts =
      (record {
        settlement_batch_id = i;
        settlement_line_id = line;
        status = processing;
        bank_reference = none;
      })
      ∷ s.payouts;
}
begin_payout i line (some _) s = record s {
  payouts = update_payout line (set_status processing) s.payouts;
}

-- `Math.round` of the line's amount, in rials
abbrev pub payout_request : ℕ → ℕ → Line → String → PayoutRequest
payout_request i id line iban = record {
  settlement_batch_id = i;
  settlement_line_id = id;
  iban = iban;
  amount_rial = round_div line.amount 100;
}

-- The call of the bank.
unfoldable pub initiate_payout : Bank → PayoutRequest → Action PayoutAnswer
initiate_payout bank request s =
    let answer = bank.initiate s.bank_requests request in
    (ok answer, record s { bank_requests = (request, answer) ∷ s.bank_requests })

-- The transaction after an accepted request.
unfoldable pub complete_in_tx : ℕ → Line → String → Action (Unit {0})
unfolding update_payout
complete_in_tx id line ref = do
  modify
      (λ s. record s { payouts = update_payout id (finish_payout completed (some ref)) s.payouts })
  elim line.mission_id [
    | none ↦ pure tt
    | some m ↦ (do or_throw (← settle_verified_mission m) mission_settle_failed; pure tt)
  ]

unfoldable pub request_payout : Bank → ℕ → ℕ → Line → String → Totals → Action Totals
unfolding initiate_payout complete_in_tx update_payout
request_payout bank i id line iban t = do
  answer ← initiate_payout bank (payout_request i id line iban)
  if answer.accepted
      then (do
        transaction (complete_in_tx id line answer.bank_ref)
        publish (Event.payout_completed i id answer.bank_ref)
        pure (count_completed (some answer.bank_ref) t))
      else (do
        modify (λ s. record s {
          payouts = update_payout id (finish_payout failed (or_null answer.bank_ref)) s.payouts;
        })
        publish (Event.payout_failed i id answer.bank_ref)
        pure (count_failed t))

abbrev pub begin_and_request : Bank → ℕ → ℕ → Line → Option Payout → Totals → Action Totals
begin_and_request bank i id line existing t = elim (bank.iban_of line.wallet) [
  | none ↦ pure (count_skipped t)
  | some iban ↦ modify (begin_payout i id existing) >> request_payout bank i id line iban t
]

abbrev pub by_existing : Bank → ℕ → ℕ → Line → Totals → Option Payout → Action Totals
by_existing bank i id line t none = begin_and_request bank i id line none t
by_existing bank i id line t (some p) = elim p.status [
  | completed ↦ pure (count_skipped (count_completed p.bank_reference t))
  | failed ↦ pure (count_skipped (count_failed t))
  | _ ↦ begin_and_request bank i id line (some p) t
]

-- One round of the loop. Every line has an export row, and its payee is always internal.
unfoldable pub pay_line : Bank → ℕ → ℕ × Line → Totals → Action Totals
unfolding find_payout begin_payout request_payout
pay_line bank i (id, line) t = do
  existing ← gets (λ s. find_payout id s.payouts)
  by_existing bank i id line t existing

unfoldable pub pay_lines : Bank → ℕ → Table Line → Totals → Action Totals
unfolding pay_line
pay_lines bank i [] t = pure t
pay_lines bank i (l ∷ ls) t = pay_line bank i l t >>= pay_lines bank i ls

abbrev pub has_iban : Bank → ℕ × Line → Bool
has_iban bank (_, l) = is_some (bank.iban_of l.wallet)

abbrev pub review : ℕ → Batch → Batch
review failures b = record b {
  status = manual_review;
  failure_reason = some "partial_payout_failure";
}

abbrev pub primary_reference : ℕ → Totals → Reference
primary_reference i t = elim t.first_completed [
  | none ↦ auto i
  | some ref ↦ elim ref [ none ↦ auto i | some r ↦ given r ]
]

abbrev pub settle_batch : ℕ → Reference → Batch → Batch
settle_batch now reference b = record b {
  status = settled;
  paid_at = some now;
  payment_reference = some reference;
}

-- What follows the loop.
unfoldable pub conclude : Bank → ℕ → Table Line → Totals → Action Totals
unfolding update_batch publish_paid
conclude bank i lines t =
    if ltb 0 t.failed_count
    then (do
      update_batch i (review t.failed_count)
      record_audit
          (batch_audit i "OVERRIDE" (("status", AuditField.batch_status manual_review) ∷ []) 0 "")
      pure t)
    else if leb (length (filter (has_iban bank) lines)) t.completed_count
        && ltb 0 (length (filter (has_iban bank) lines))
    then (do
      let reference = primary_reference i t
      update_batch i (settle_batch bank.now reference)
      publish (Event.settlement_settled i reference t.completed_count)
      publish_paid i reference (mission_ids lines)
      pure t)
    else pure t

abbrev no_totals : Totals
no_totals = record {
  completed_count = 0;
  failed_count = 0;
  skipped_count = 0;
  first_completed = none;
}

abbrev is_payable : BatchStatus → Bool
is_payable b = batch_status_eq b ready_for_settlement || batch_status_eq b in_bank_queue

abbrev throw_if : Bool → Fault → Action (Unit {0})
throw_if true e = throw e
throw_if false e = pure tt

-- A refusal of `sendToBank` becomes an error.
abbrev refusal_throws : {A : Type 0} → Action A → Fault → Action A
refusal_throws m e s =
    let (r, s') = m s in
    elim r [ ok a ↦ (ok a, s') | refused _ ↦ (throws e, s') | throws e' ↦ (throws e', s') ]

unfoldable pub execute_payouts_for_batch : Option Bank → ℕ → Action Totals
unfolding pay_lines conclude send_to_bank
execute_payouts_for_batch adapter i = do
  bank ← or_throw adapter bank_adapter_disabled
  batch ← or_throw (← gets (λ s. find i s.batches)) batch_not_found_error
  throw_if (not (is_payable batch.status)) invalid_batch_status_error
  throw_if (not (is_some batch.locked_at)) batch_not_locked
  (if batch_status_eq batch.status ready_for_settlement
      then (refusal_throws (send_to_bank bank.now i) invalid_batch_status_error >> pure tt)
      else pure tt)
  lines ← gets (λ s. reverse (lines_of i s.lines))
  t ← pay_lines bank i lines no_totals
  conclude bank i lines t

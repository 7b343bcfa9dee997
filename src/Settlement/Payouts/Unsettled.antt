-- ===== src/Settlement/Payouts/Unsettled.antt =====
-- The line of a mission that is not verified: the bank accepts its payout, the transaction that
-- records it throws, and the payout stays as it was before the bank was asked.
use Prim.Native.String.{String}
use logestic.Prelude.{
  ℕ, true, false, Option, none, some, ◌∷◌, ◌≡◌, ◌⊎◌, inl, inr, refl, ◌∙◌, arith, Option-cases,
}
use logestic.Prelude.Table.{find}
use logestic.Fsm.{verified, status_eq}
use logestic.Reasons.{mission_settle_failed}
use logestic.Store.{throws, transaction}
use logestic.Store.Batches.{Payout, processing, completed, PayoutRequest}
use logestic.Store.Tables.{Db, Line, Mission}
use logestic.Settlement.Paid.Missions.{settle_early}
use logestic.Settlement.Payouts.{
  Bank, Totals, find_payout, begin_payout, complete_in_tx, request_payout, pay_line, payout_request,
  finish_payout, update_payout, initiate_payout,
}
use logestic.Settlement.Payouts.Rows.{find_payout-begin}

complete_in_tx-throws :
    (id m : ℕ) (l : Line) (ref : String) (s : Db) (x : Mission)
    → l.mission_id ≡ some m
    → find m s.missions ≡ some x
    → status_eq x.status verified ≡ false
    → transaction (complete_in_tx id l ref) s ≡ (throws mission_settle_failed, s)
unfolding complete_in_tx
complete_in_tx-throws id m l ref s x has found e =
    let s1 : Db = record s {
      payouts = update_payout id (finish_payout completed (some ref)) s.payouts;
    } in
    let early = settle_early m s1 x found e in ground (arith, early)

-- The state in which the bank has been asked and has answered.
abbrev pub asked : Bank → PayoutRequest → Db → Db
asked bank request s = record s {
  bank_requests = (request, bank.initiate s.bank_requests request) ∷ s.bank_requests;
}

request-throws :
    (bank : Bank) (i id m : ℕ) (l : Line) (iban : String) (t : Totals) (s : Db) (x : Mission)
    → l.mission_id ≡ some m
    → find m s.missions ≡ some x
    → status_eq x.status verified ≡ false
    → (bank.initiate s.bank_requests (payout_request i id l iban)).accepted ≡ true
    → request_payout bank i id l iban t s
      ≡ (throws mission_settle_failed, asked bank (payout_request i id l iban) s)
unfolding request_payout initiate_payout
request-throws bank i id m l iban t s x has found e accepted =
    let answer = bank.initiate s.bank_requests (payout_request i id l iban) in
    let tx =
      complete_in_tx-throws id m l answer.bank_ref (asked bank (payout_request i id l iban) s) x has
        found e in
    ground (arith, tx)

-- No payout of a line is completed or failed, nor pending.
abbrev pub NotYetPaid : ℕ → Db → Type 0
NotYetPaid id s =
    (find_payout id s.payouts ≡ none)
    ⊎ ((p : Payout) × (find_payout id s.payouts ≡ some p) × (p.status ≡ processing))

round-begins :
    (bank : Bank) (i id : ℕ) (l : Line) (iban : String) (t : Totals) (s : Db)
    → NotYetPaid id s
    → bank.iban_of l.wallet ≡ some iban
    → pay_line bank i (id, l) t s
      ≡ request_payout bank i id l iban t (begin_payout i id (find_payout id s.payouts) s)
unfolding pay_line
round-begins bank i id l iban t s (inl missing) has = ground arith
round-begins bank i id l iban t s (inr (p, found, at)) has = ground arith

begun-processing :
    (i id : ℕ) (s : Db)
    → (p : Payout) × (find_payout id (begin_payout i id (find_payout id s.payouts) s).payouts
        ≡ some p)
      × (p.status ≡ processing)
begun-processing i id s = elim (Option-cases (find_payout id s.payouts)) [
  | inl missing ↦ (_, find_payout-begin i id s (find_payout id s.payouts) refl, rw missing refl)
  | inr (p, found) ↦ (_, find_payout-begin i id s (find_payout id s.payouts) refl, rw found refl)
]

begin-same :
    (i id : ℕ) (o : Option Payout) (s : Db)
    → ((begin_payout i id o s).missions ≡ s.missions)
      × ((begin_payout i id o s).bank_requests ≡ s.bank_requests)
unfolding begin_payout
begin-same i id none s = (refl, refl)
begin-same i id (some p) s = (refl, refl)

-- Where the mission of a line is there and not verified, the bank accepts the payout and the line has no
-- payout or one that is being processed, the round throws. The bank has one request more, the missions
-- are as they were, and the line has a payout that is being processed: a further run asks the bank for
-- the same line again.
pub accepted_and_forgotten :
    (bank : Bank) (i id m : ℕ) (l : Line) (iban : String) (t : Totals) (s : Db) (x : Mission)
    → NotYetPaid id s
    → bank.iban_of l.wallet ≡ some iban
    → l.mission_id ≡ some m
    → find m s.missions ≡ some x
    → status_eq x.status verified ≡ false
    → (bank.initiate s.bank_requests (payout_request i id l iban)).accepted ≡ true
    → let (outcome, s') = pay_line bank i (id, l) t s in
      let request = payout_request i id l iban in
      (outcome ≡ throws mission_settle_failed)
      × (s'.bank_requests ≡ (request, bank.initiate s.bank_requests request) ∷ s.bank_requests)
      × (s'.missions ≡ s.missions)
      × NotYetPaid id s'
accepted_and_forgotten bank i id m l iban t s x waiting has on found e accepted =
    let s1 = begin_payout i id (find_payout id s.payouts) s in
    let (missions, requests) = begin-same i id (find_payout id s.payouts) s in
    let (p, at, status) = begun-processing i id s in
    let run =
      round-begins bank i id l iban t s waiting has
      ∙ request-throws bank i id m l iban t s1 x on (rw missions found) e (rw requests accepted) in
    (
      λ k. (run k).0,
      ground (arith, run, requests),
      ground (arith, run, missions),
      inr (p, ground (arith, run, at), status),
    )

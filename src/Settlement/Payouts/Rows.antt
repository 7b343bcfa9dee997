-- ===== src/Settlement/Payouts/Rows.antt =====
-- What a round of the payout loop does to the payouts and to the bank's requests of other lines.
use Prim.Native.String.{String}
use logestic.Prelude.{
  ℕ, false, Option, none, some, List, [], ◌∷◌, filter, ◌==◌, ◌≡◌, refl, ◌∙◌, arith, Bool-cases,
  Option-cases, inl, inr,
}
use logestic.Store.{transaction}
use logestic.Store.Batches.{Payout, processing, completed, failed, PayoutRequest, PayoutAnswer}
use logestic.Store.Tables.{Db, Line}
use logestic.Missions.{settle_verified_mission, update_mission}
use logestic.Settlement.Payouts.{
  Bank, Totals, find_payout, update_payout, begin_payout, complete_in_tx, request_payout, pay_line,
  payout_request, initiate_payout, finish_payout, begin_and_request, by_existing, set_status,
  or_null,
}

-- The requests that the bank got for a line, the last first.
abbrev pub requests_for :
    ℕ → List (PayoutRequest × PayoutAnswer) → List (PayoutRequest × PayoutAnswer)
requests_for id = filter (λ (r, _). r.settlement_line_id == id)

pub record Untouched (id : ℕ) (s s' : Db) : Type 0 where
  pub payout : find_payout id s'.payouts ≡ find_payout id s.payouts
  pub requests : requests_for id s'.bank_requests ≡ requests_for id s.bank_requests

pub Untouched-refl : (id : ℕ) (s : Db) → Untouched id s s
Untouched-refl id s = record { payout = refl; requests = refl }

pub Untouched-trans :
    (id : ℕ) (s s' s'' : Db) → Untouched id s s' → Untouched id s' s'' → Untouched id s s''
Untouched-trans id s s' s'' a b = record {
  payout = b.payout ∙ a.payout;
  requests = b.requests ∙ a.requests;
}

-- An update keeps the line of a payout.
abbrev pub KeepsLine : (Payout → Payout) → Type 0
KeepsLine f = (p : Payout) → (f p).settlement_line_id ≡ p.settlement_line_id

pub find_payout-update_ne :
    (id k : ℕ) (f : Payout → Payout)
    → KeepsLine f
    → (id == k) ≡ false
    → (ps : List Payout) → find_payout id (update_payout k f ps) ≡ find_payout id ps
unfolding find_payout update_payout
find_payout-update_ne id k f keeps ne [] = refl
find_payout-update_ne id k f keeps ne (p ∷ ps) =
    ground (arith, keeps p, find_payout-update_ne id k f keeps ne ps)

pub find_payout-update_self :
    (id : ℕ) (f : Payout → Payout)
    → KeepsLine f
    → (ps : List Payout) (p : Payout) → find_payout id ps ≡ some p
    → find_payout id (update_payout id f ps) ≡ some (f p)
unfolding find_payout update_payout
find_payout-update_self id f keeps [] p h = ground arith
find_payout-update_self id f keeps (q ∷ ps) p h =
    ground (arith, keeps q, find_payout-update_self id f keeps ps p)

pub settle_keeps :
    (m : ℕ) (s : Db)
    → let s' = (settle_verified_mission m s).1 in
      (s'.payouts ≡ s.payouts) × (s'.bank_requests ≡ s.bank_requests)
unfolding settle_verified_mission update_mission
settle_keeps m s = (ground arith, ground arith)

-- The payout of a line while the bank is asked.
abbrev pub begun : ℕ → ℕ → Option Payout → Payout
begun i id none = record {
  settlement_batch_id = i;
  settlement_line_id = id;
  status = processing;
  bank_reference = none;
}
begun i id (some p) = set_status processing p

pub find_payout-begin :
    (i id : ℕ) (s : Db) (o : Option Payout)
    → find_payout id s.payouts ≡ o
    → find_payout id (begin_payout i id o s).payouts ≡ some (begun i id o)
unfolding begin_payout find_payout
find_payout-begin i id s none missing = ground arith
find_payout-begin i id s (some p) found =
    find_payout-update_self id (set_status processing) (λ _. refl) s.payouts p found

pub begin-Untouched :
    (i id k : ℕ) (s : Db)
    → (id == k) ≡ false
    → (o : Option Payout) → Untouched id s (begin_payout i k o s)
unfolding begin_payout find_payout
begin-Untouched i id k s ne none = record { payout = ground arith; requests = refl }
begin-Untouched i id k s ne (some p) = record {
  payout = find_payout-update_ne id k _ (λ _. refl) ne s.payouts;
  requests = refl;
}

-- After the bank has answered.
pub complete-Untouched :
    (id k : ℕ) (l : Line) (ref : String) (s : Db)
    → (id == k) ≡ false
    → Untouched id s (complete_in_tx k l ref s).1
unfolding complete_in_tx
complete-Untouched id k l ref s ne =
    let one =
      find_payout-update_ne id k (finish_payout completed (some ref)) (λ _. refl) ne s.payouts in
    elim (Option-cases l.mission_id) [
      | inl without ↦ record { payout = ground (arith, one); requests = ground arith }
      | inr (m, has) ↦
          let s1 : Db = record s {
            payouts = update_payout k (finish_payout completed (some ref)) s.payouts;
          } in
          let keeps = settle_keeps m s1 in
          record { payout = ground (arith, one, keeps); requests = ground (arith, keeps) }
    ]

transaction-Untouched :
    (id k : ℕ) (l : Line) (ref : String) (s : Db)
    → (id == k) ≡ false
    → Untouched id s (transaction (complete_in_tx k l ref) s).1
transaction-Untouched id k l ref s ne =
    let q = complete-Untouched id k l ref s ne in
    record { payout = ground (arith, q.payout); requests = ground (arith, q.requests) }

pub request-Untouched :
    (bank : Bank) (i id k : ℕ) (l : Line) (iban : String) (t : Totals) (s : Db)
    → (id == k) ≡ false
    → Untouched id s (request_payout bank i k l iban t s).1
unfolding request_payout initiate_payout
request-Untouched bank i id k l iban t s ne =
    let request = payout_request i k l iban in
    let answer = bank.initiate s.bank_requests request in
    let asked : Db = record s { bank_requests = (request, answer) ∷ s.bank_requests } in
    elim (Bool-cases answer.accepted) [
      | inl accepted ↦
          let q = transaction-Untouched id k l answer.bank_ref asked ne in
          record { payout = ground (arith, q.payout); requests = ground (arith, q.requests) }
      | inr rejected ↦
          let q =
            find_payout-update_ne id k (finish_payout failed (or_null answer.bank_ref)) (λ _. refl)
              ne s.payouts in
          record { payout = ground (arith, q); requests = ground arith }
    ]

begin_and_request-Untouched :
    (bank : Bank) (i id k : ℕ) (l : Line) (o : Option Payout) (t : Totals) (s : Db)
    → (id == k) ≡ false
    → Untouched id s (begin_and_request bank i k l o t s).1
begin_and_request-Untouched bank i id k l o t s ne = elim (Option-cases (bank.iban_of l.wallet)) [
  | inl no_iban ↦ rw (begin_and_request, no_iban) (Untouched-refl id s)
  | inr (iban, has) ↦
      let s1 = begin_payout i k o s in
      let b = begin-Untouched i id k s ne o in
      let q = request-Untouched bank i id k l iban t s1 ne in
      rw (begin_and_request, has)
        (Untouched-trans id s s1 (request_payout bank i k l iban t s1).1 b q)
]

by_existing-Untouched :
    (bank : Bank) (i id k : ℕ) (l : Line) (t : Totals) (o : Option Payout) (s : Db)
    → (id == k) ≡ false
    → Untouched id s (by_existing bank i k l t o s).1
by_existing-Untouched bank i id k l t none s ne =
    begin_and_request-Untouched bank i id k l none t s ne
by_existing-Untouched bank i id k l t (some p) s ne =
    let q = begin_and_request-Untouched bank i id k l (some p) t s ne in
    record { payout = ground (arith, q.payout); requests = ground (arith, q.requests) }

-- A round for another line.
pub pay_line-Untouched :
    (bank : Bank) (i id k : ℕ) (l : Line) (t : Totals) (s : Db)
    → (id == k) ≡ false
    → Untouched id s (pay_line bank i (k, l) t s).1
unfolding pay_line
pay_line-Untouched bank i id k l t s ne =
    by_existing-Untouched bank i id k l t (find_payout k s.payouts) s ne

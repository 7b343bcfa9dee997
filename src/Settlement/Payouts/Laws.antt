-- ===== src/Settlement/Payouts/Laws.antt =====
-- What a run of the payout loop promises: a line with a final payout is not requested again, and
-- after a run every line that the bank can be asked for has one. And where it does not hold: what
-- the bank accepted is forgotten where the line's mission cannot be settled.
use Prim.Native.String.{String}
use logestic.Prelude.{
  ℕ, Option, none, some, [], ◌∷◌, ◌==◌, ==_iff, ◌≡◌, ◌⊎◌, refl, sym, ap, ◌∙◌, arith, Bool-cases,
  Option-cases, inl, inr,
}
use logestic.Prelude.Table.{Table, find}
use logestic.Store.{Outcome, ok, refused, throws, ◌>>=◌}
use logestic.Store.Batches.{Payout, PayoutStatus, processing, completed}
use logestic.Store.Tables.{Db, Line}
use logestic.Settlement.Payouts.{
  Bank, Totals, find_payout, begin_payout, complete_in_tx, request_payout, pay_line, pay_lines,
  by_existing, payout_request, finish_payout, update_payout, initiate_payout, begin_and_request,
  or_null,
}
use logestic.Settlement.Payouts.Rows.{
  Untouched, Untouched-refl, requests_for, pay_line-Untouched, find_payout-begin,
  find_payout-update_self, begun, settle_keeps,
}

-- The statuses that are never asked for again.
abbrev pub IsFinal : PayoutStatus → Type 0
IsFinal status = (status ≡ completed) ⊎ (status ≡ PayoutStatus.failed)

only_counts :
    (bank : Bank) (i id : ℕ) (l : Line) (t : Totals) (s : Db) (q : Payout)
    → IsFinal q.status
    → (by_existing bank i id l t (some q) s).1 ≡ s
only_counts bank i id l t s q (inl e) = rw e refl
only_counts bank i id l t s q (inr e) = rw e refl

-- A round for a line with a final payout only counts.
pub pay_line-final :
    (bank : Bank) (i id : ℕ) (l : Line) (t : Totals) (s : Db) (p : Payout)
    → find_payout id s.payouts ≡ some p
    → IsFinal p.status
    → (pay_line bank i (id, l) t s).1 ≡ s
unfolding pay_line
pay_line-final bank i id l t s p found final = rw found (only_counts bank i id l t s p final)

pay_line-kept :
    (bank : Bank) (i id k : ℕ) (l : Line) (t : Totals) (s : Db) (p : Payout)
    → find_payout id s.payouts ≡ some p
    → IsFinal p.status
    → Untouched id s (pay_line bank i (k, l) t s).1
pay_line-kept bank i id k l t s p found final = elim (Bool-cases (id == k)) [
  | inl same ↦
      let e : id ≡ k = (==_iff id k).0 same in
      let at : find_payout k s.payouts ≡ some p = rw (sym e) found in
      rw (pay_line-final bank i k l t s p at final) (Untouched-refl id s)
  | inr ne ↦ pay_line-Untouched bank i id k l t s ne
]

-- A line that has a completed or a failed payout keeps it in a run of the loop over any lines, whatever
-- the bank answers and however the run ends, and the bank gets no further request for the line.
pub final_never_requested :
    (bank : Bank) (i id : ℕ) (ls : Table Line) (t : Totals) (s : Db) (p : Payout)
    → find_payout id s.payouts ≡ some p
    → IsFinal p.status
    → let s' = (pay_lines bank i ls t s).1 in
      (find_payout id s'.payouts ≡ some p)
      × (requests_for id s'.bank_requests ≡ requests_for id s.bank_requests)
unfolding pay_lines
final_never_requested bank i id [] t s p found final = (found, refl)
final_never_requested bank i id ((k, l) ∷ ls) t s p found final =
    let one = pay_line-kept bank i id k l t s p found final in
    let s1 = (pay_line bank i (k, l) t s).1 in
    let rest : (t' : Totals)
        → (find_payout id (pay_lines bank i ls t' s1).1.payouts ≡ some p)
          × (requests_for id (pay_lines bank i ls t' s1).1.bank_requests
              ≡ requests_for id s1.bank_requests) =
      λ t'. final_never_requested bank i id ls t' s1 p (one.payout ∙ found) final in
    after_round (pay_line bank i (k, l) t s) one rest
  where
    after_round :
        (x : Outcome Totals × Db)
        → Untouched id s x.1
        → ((t' : Totals)
            → (find_payout id (pay_lines bank i ls t' x.1).1.payouts ≡ some p)
              × (requests_for id (pay_lines bank i ls t' x.1).1.bank_requests
                  ≡ requests_for id x.1.bank_requests))
        → let s' = (((λ (_ : Db). x) >>= pay_lines bank i ls) s).1 in
          (find_payout id s'.payouts ≡ some p)
          × (requests_for id s'.bank_requests ≡ requests_for id s.bank_requests)
    after_round (ok t', s1) one rest = ((rest t').0, (rest t').1 ∙ one.requests)
    after_round (refused e, s1) one rest = (one.payout ∙ found, one.requests)
    after_round (throws e, s1) one rest = (one.payout ∙ found, one.requests)

abbrev pub HasFinal : ℕ → Db → Type 0
HasFinal id s = (p : Payout) × (find_payout id s.payouts ≡ some p) × IsFinal p.status

HasFinal-run :
    (id : ℕ) (x : Outcome Totals × Db) (o : Outcome Totals) (s : Db)
    → x ≡ (o, s)
    → HasFinal id x.1
    → HasFinal id s
HasFinal-run id x o s run h =
    let (p, found, final) = h in
    let same : x.1 ≡ s = λ k. (run k).1 in (p, ground (arith, found, same), final)

accepted-HasFinal :
    (id : ℕ) (l : Line) (ref : String) (s : Db) (p : Payout)
    → find_payout id s.payouts ≡ some p
    → HasFinal id (complete_in_tx id l ref s).1
unfolding complete_in_tx
accepted-HasFinal id l ref s p found =
    let done = finish_payout completed (some ref) in
    let one = find_payout-update_self id done (λ _. refl) s.payouts p found in
    elim (Option-cases l.mission_id) [
      | inl without ↦ (done p, ground (arith, one), inl refl)
      | inr (m, has) ↦
          let s1 : Db = record s { payouts = update_payout id done s.payouts } in
          let keeps = settle_keeps m s1 in (done p, ground (arith, one, keeps), inl refl)
    ]

request-HasFinal :
    (bank : Bank) (i id : ℕ) (l : Line) (iban : String) (t t' : Totals) (s : Db) (p : Payout)
    → find_payout id s.payouts ≡ some p
    → (request_payout bank i id l iban t s).0 ≡ ok t'
    → HasFinal id (request_payout bank i id l iban t s).1
unfolding request_payout initiate_payout
request-HasFinal bank i id l iban t t' s p found h =
    let request = payout_request i id l iban in
    let answer = bank.initiate s.bank_requests request in
    let asked : Db = record s { bank_requests = (request, answer) ∷ s.bank_requests } in
    elim (Bool-cases answer.accepted) [
      | inl accepted ↦
          let (q, at, final) = accepted-HasFinal id l answer.bank_ref asked p found in
          (q, ground (arith, at), final)
      | inr rejected ↦
          let done = finish_payout PayoutStatus.failed (or_null answer.bank_ref) in
          let one = find_payout-update_self id done (λ _. refl) s.payouts p found in
          (done p, ground (arith, one), inr refl)
    ]

begin_and_request-HasFinal :
    (bank : Bank) (i id : ℕ) (l : Line) (iban : String) (o : Option Payout) (t t' : Totals) (s : Db)
    → bank.iban_of l.wallet ≡ some iban
    → find_payout id s.payouts ≡ o
    → (begin_and_request bank i id l o t s).0 ≡ ok t'
    → HasFinal id (begin_and_request bank i id l o t s).1
begin_and_request-HasFinal bank i id l iban o t t' s has found h =
    let s1 = begin_payout i id o s in
    let at = find_payout-begin i id s o found in
    let run : begin_and_request bank i id l o t s ≡ request_payout bank i id l iban t s1 =
      rw (begin_and_request, has) refl in
    let q =
      request-HasFinal bank i id l iban t t' s1 (begun i id o) at (ap (λ x. x.0) (sym run) ∙ h) in
    rw run q

asks_again :
    (bank : Bank) (i id : ℕ) (l : Line) (t : Totals) (p : Payout) (s : Db)
    → (p.status ≡ PayoutStatus.pending) ⊎ (p.status ≡ processing)
    → by_existing bank i id l t (some p) s ≡ begin_and_request bank i id l (some p) t s
asks_again bank i id l t p s (inl e) = ground arith
asks_again bank i id l t p s (inr e) = ground arith

status_cases : (x : PayoutStatus) → IsFinal x ⊎ ((x ≡ PayoutStatus.pending) ⊎ (x ≡ processing))
status_cases PayoutStatus.pending = inr (inl refl)
status_cases processing = inr (inr refl)
status_cases completed = inl (inl refl)
status_cases PayoutStatus.failed = inl (inr refl)

-- After a round that ends well, the line has a final payout, where its payee has an IBAN.
by_existing-HasFinal :
    (bank : Bank) (i id : ℕ) (l : Line) (iban : String) (t t' : Totals) (o : Option Payout) (s : Db)
    → bank.iban_of l.wallet ≡ some iban
    → find_payout id s.payouts ≡ o
    → (by_existing bank i id l t o s).0 ≡ ok t'
    → HasFinal id (by_existing bank i id l t o s).1
by_existing-HasFinal bank i id l iban t t' none s has found h =
    begin_and_request-HasFinal bank i id l iban none t t' s has found h
by_existing-HasFinal bank i id l iban t t' (some p) s has found h = elim (status_cases p.status) [
  | inl final ↦ (p, ground (arith, found, only_counts bank i id l t s p final), final)
  | inr waiting ↦
      let run = asks_again bank i id l t p s waiting in
      let h' = ap (λ x. x.0) (sym run) ∙ h in
      rw run (begin_and_request-HasFinal bank i id l iban (some p) t t' s has found h')
]

pay_line-HasFinal :
    (bank : Bank) (i id : ℕ) (l : Line) (iban : String) (t t' : Totals) (s : Db)
    → bank.iban_of l.wallet ≡ some iban
    → (pay_line bank i (id, l) t s).0 ≡ ok t'
    → HasFinal id (pay_line bank i (id, l) t s).1
unfolding pay_line
pay_line-HasFinal bank i id l iban t t' s has h =
    by_existing-HasFinal bank i id l iban t t' (find_payout id s.payouts) s has refl h

-- The first round of a run that ends well.
first_round :
    (bank : Bank) (i : ℕ) (x : ℕ × Line) (ls : Table Line) (t t' : Totals) (s : Db)
    → (pay_lines bank i (x ∷ ls) t s).0 ≡ ok t'
    → (t1 : Totals) × (s1 : Db) × (pay_line bank i x t s ≡ (ok t1, s1))
      × (pay_lines bank i (x ∷ ls) t s ≡ pay_lines bank i ls t1 s1)
unfolding pay_lines
first_round bank i x ls t t' s h = after_round (pay_line bank i x t s) refl h
  where
    after_round :
        (y : Outcome Totals × Db)
        → pay_line bank i x t s ≡ y
        → (((λ (_ : Db). y) >>= pay_lines bank i ls) s).0 ≡ ok t'
        → (t1 : Totals) × (s1 : Db) × (pay_line bank i x t s ≡ (ok t1, s1))
          × (((λ (_ : Db). pay_line bank i x t s) >>= pay_lines bank i ls) s
              ≡ pay_lines bank i ls t1 s1)
    after_round (refused e, s1) run h = absurd (cc)
    after_round (throws e, s1) run h = absurd (cc)
    after_round (ok t1, s1) run h = (t1, s1, run, rw run refl)

-- Where a run of the loop ends without throwing, every line whose payee has an IBAN has a completed or
-- a failed payout then.
pub pay_lines-IsFinal :
    (bank : Bank) (i : ℕ) (ls : Table Line) (t t' : Totals) (s : Db)
    → (pay_lines bank i ls t s).0 ≡ ok t'
    → (id : ℕ) (l : Line) (iban : String) → find id ls ≡ some l
    → bank.iban_of l.wallet ≡ some iban
    → (p : Payout) × (find_payout id (pay_lines bank i ls t s).1.payouts ≡ some p)
      × IsFinal p.status
unfolding find
pay_lines-IsFinal bank i [] t t' s h id l iban here has = absurd (ground arith)
pay_lines-IsFinal bank i ((k, x) ∷ ls) t t' s h id l iban here has =
    let (t1, s1, one, run) = first_round bank i (k, x) ls t t' s h in
    elim (Bool-cases (id == k)) [
      | inl same ↦
          let e : id ≡ k = (==_iff id k).0 same in
          let first : x ≡ l = ground arith in
          let at_id : pay_line bank i (id, x) t s ≡ (ok t1, s1) = rw e one in
          let after =
            pay_line-HasFinal bank i id x iban t t1 s (rw first has) (ground (arith, at_id)) in
          let (p, found, final) =
            HasFinal-run id (pay_line bank i (id, x) t s) (ok t1) s1 at_id after in
          let kept = final_never_requested bank i id ls t1 s1 p found final in
          (p, rw run kept.0, final)
      | inr ne ↦ rw run (
          pay_lines-IsFinal bank i ls t1 t' s1 (ap (λ y. y.0) (sym run) ∙ h) id l iban
            (ground arith) has)
    ]

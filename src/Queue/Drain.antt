-- ===== src/Queue/Drain.antt =====
-- The pump ends, with nothing pending, and then every job has been completed or has failed.
use logestic.Prelude.{
  ℕ, zero, suc, ◌≤◌, ◌<◌, Bool, true, false, some, List, [], ◌∷◌, ◌++◌, any, length, length-append,
  ◌==◌, ==_iff, ◌≡◌, ◌⊎◌, refl, sym, ap, ◌∙◌, arith, Bool-cases, inl, inr,
}
use logestic.Prelude.Table.{Table, find}
use logestic.Queue.{
  Job, FailedJob, State, Runner, Round, Request, is_final, put, run_one, pump_loop, pump, as_queued,
  add_job,
}
use logestic.Queue.Measure.{
  rank, total-put, find-put, find-put_self, Ran, skips, finishes, requeues, breaks, run_one-Ran,
}

module _ {P : Type 0} (runner : Runner P) where
  Ran-rank :
      (id : ℕ) (s : State P) (r : Round P) → Ran runner id s r → r.0 ≡ true → rank r.1 ≤ rank s
  Ran-rank id s r (skips run _) h = rw run (omega arith)
  Ran-rank id s r (breaks broke _) h = absurd (cc)
  Ran-rank id s r (finishes j j' found final _ jobs pending) h =
      let t = total-put id j j' s.jobs found in rw (jobs, pending) (ground (arith, t, final))
  Ran-rank id s r (requeues j found at again _ jobs pending) h =
      let t = total-put id j (as_queued runner id j) s.jobs found in
      let n = length-append s.pending (id ∷ []) in
      rw (jobs, pending) (ground (arith, t, n, at, again))

  -- The jobs that are not done are pending.
  abbrev pub pending_member : ℕ → List ℕ → Bool
  pending_member id = any (λ k. k == id)

  abbrev pub Waiting : State P → Type 0
  Waiting s =
      (id : ℕ) (j : Job P)
      → find id s.jobs ≡ some j
      → is_final j.status ≡ false
      → pending_member id s.pending ≡ true

  -- While the job `id` is run, it is not pending.
  abbrev pub WaitingBut : ℕ → State P → Type 0
  WaitingBut id s =
      (k : ℕ) (j : Job P)
      → find k s.jobs ≡ some j
      → is_final j.status ≡ false
      → (id == k) ≡ false
      → pending_member k s.pending ≡ true

  member-append :
      (id k : ℕ) (xs : List ℕ)
      → pending_member id xs ≡ true
      → pending_member id (xs ++ k ∷ []) ≡ true
  member-append id k [] h = absurd (cc)
  member-append id k (x ∷ xs) h = ground (arith, member-append id k xs)

  member-last : (id : ℕ) (xs : List ℕ) → pending_member id (xs ++ id ∷ []) ≡ true
  member-last id [] = ground arith
  member-last id (x ∷ xs) = ground (arith, member-last id xs)

  -- What a job of the table is after another one has been put there.
  after_put :
      (id : ℕ) (j j' : Job P) (t t' : Table (Job P))
      → find id t ≡ some j
      → t' ≡ put id j' t
      → (k : ℕ) (x : Job P) → find k t' ≡ some x
      → ((id ≡ k) × (j' ≡ x)) ⊎ (((id == k) ≡ false) × (find k t ≡ some x))
  after_put id j j' t t' found put_there k x at = elim (Bool-cases (id == k)) [
    | inl same ↦
        let e : id ≡ k = (==_iff id k).0 same in
        let self = find-put_self id j j' t found in
        let at' : find id (put id j' t) ≡ some x =
          sym (ap (find id) put_there) ∙ ap (λ n. find n t') e ∙ at in
        inl (e, cc)
    | inr ne ↦
        let other = find-put id k j' t ne in
        let at' : find k (put id j' t) ≡ some x = sym (ap (find k) put_there) ∙ at in
        inr (ne, sym other ∙ at')
  ]

  Ran-Waiting :
      (id : ℕ) (s : State P) (r : Round P)
      → Ran runner id s r
      → r.0 ≡ true
      → WaitingBut id s
      → Waiting r.1
  Ran-Waiting id s r (breaks broke _) h w = absurd (cc)
  Ran-Waiting id s r (skips run only_final) h w = rw run (λ k x at open_job.
      elim (Bool-cases (id == k)) [
        | inl same ↦
            let e : id ≡ k = (==_iff id k).0 same in
            let final = only_final x (ap (λ n. find n s.jobs) e ∙ at) in absurd (cc)
        | inr ne ↦ w k x at open_job ne
      ])
  Ran-Waiting id s r (finishes j j' found final _ jobs pending) h w = λ k x at open_job.
      elim (after_put id j j' s.jobs r.1.jobs found jobs k x at) [
        | inl (_, e) ↦ let final' : is_final x.status ≡ true = rw⁻¹ e final in absurd (cc)
        | inr (ne, before) ↦ rw pending (w k x before open_job ne)
      ]
  Ran-Waiting id s r (requeues j found _ _ _ jobs pending) h w = λ k x at open_job.
      elim (after_put id j (as_queued runner id j) s.jobs r.1.jobs found jobs k x at) [
        | inl (e, _) ↦ rw (pending, sym e) (member-last id s.pending)
        | inr (ne, before) ↦ rw pending (member-append k id s.pending (w k x before open_job ne))
      ]

  -- Where the row of every failed job is written, no round throws.
  Ran-well :
      (id : ℕ) (s : State P) (r : Round P)
      → Ran runner id s r
      → runner.row_written id ≡ true
      → r.0 ≡ true
  Ran-well id s r (skips run _) written = λ k. (run k).0
  Ran-well id s r (finishes _ _ _ _ well _ _) written = well
  Ran-well id s r (requeues _ _ _ _ well _ _) written = well
  Ran-well id s r (breaks _ lost) written = absurd (cc)

  record Drained (r : Round P) : Type 0 where
    well : r.0 ≡ true
    none_pending : r.1.pending ≡ []
    stopped : r.1.pump_runs ≡ false
    waiting : Waiting r.1

  begins :
      (id : ℕ) (rest : List ℕ) (s : State P)
      → s.pending ≡ id ∷ rest
      → Waiting s
      → WaitingBut id (record s { pending = rest })
  begins id rest s e w k j found at ne = let m = w k j found at in ground (arith, m)

  module _ (fuel : ℕ) (s : State P) where
    loop_end :
        s.pending ≡ [] → pump_loop runner (suc fuel) s ≡ (true, record s { pump_runs = false })
    unfolding pump_loop
    loop_end e = ground arith

    loop_round :
        (id : ℕ) (rest : List ℕ)
        → s.pending ≡ id ∷ rest
        → let r = run_one runner id (record s { pending = rest }) in
          r.0 ≡ true → pump_loop runner (suc fuel) s ≡ pump_loop runner fuel r.1
    unfolding pump_loop
    loop_round id rest e well = ground arith

    round-Drained :
        ((id : ℕ) → runner.row_written id ≡ true)
        → ((s' : State P) → rank s' < fuel → Waiting s' → Drained (pump_loop runner fuel s'))
        → rank s < suc fuel
        → Waiting s
        → (p : List ℕ) → s.pending ≡ p
        → Drained (pump_loop runner (suc fuel) s)
    round-Drained written go less w [] e =
        rw (loop_end e) (record { well = refl; none_pending = e; stopped = refl; waiting = w })
    round-Drained written go less w (id ∷ rest) e =
        let s0 : State P = record s { pending = rest } in
        let r = run_one runner id s0 in
        let ran = run_one-Ran runner id s0 in
        let well = Ran-well id s0 r ran (written id) in
        let n = Ran-rank id s0 r ran well in
        let len = ap length e in
        rw (loop_round id rest e well) (
          go r.1 (omega (arith, n, len, less))
            (Ran-Waiting id s0 r ran well (begins id rest s e w)))

  loop-Drained :
      ((id : ℕ) → runner.row_written id ≡ true)
      → (fuel : ℕ) (s : State P) → rank s < fuel
      → Waiting s
      → Drained (pump_loop runner fuel s)
  loop-Drained written zero s less w = absurd (omega arith)
  loop-Drained written (suc fuel) s less w =
      round-Drained fuel s written (loop-Drained written fuel) less w s.pending refl

  -- A new job is pending, and the others are as they were.
  pub add-Waiting :
      (id now : ℕ) (request : Request P) (s : State P)
      → Waiting s
      → Waiting (add_job id now request s)
  unfolding add_job find
  add-Waiting id now request s w = λ k j found at. elim (Bool-cases (k == id)) [
    | inl same ↦ let e : k ≡ id = (==_iff k id).0 same in rw e (member-last id s.pending)
    | inr ne ↦ member-append k id s.pending (w k j (ground arith) at)
  ]

  -- The states that requests and rounds lead to from the empty queue, in any order. A round that throws
  -- has no next one.
  pub data Reached : State P → Type 0 where
    starts :
        (failed_jobs : Table (FailedJob P))
        → Reached (record {
          jobs = [];
          pending = [];
          pump_runs = false;
          failed_jobs = failed_jobs;
          calls = [];
          resolved = [];
        })
    adds :
        (id now : ℕ) (request : Request P) (s : State P)
        → Reached s
        → Reached (add_job id now request s)
    switches : (runs : Bool) (s : State P) → Reached s → Reached (record s { pump_runs = runs })
    rounds :
        (id : ℕ) (rest : List ℕ) (s : State P)
        → s.pending ≡ id ∷ rest
        → (run_one runner id (record s { pending = rest })).0 ≡ true
        → Reached s
        → Reached (run_one runner id (record s { pending = rest })).1

  pub Reached-Waiting : (s : State P) → Reached s → Waiting s
  unfolding find
  Reached-Waiting _ (starts failed_jobs) = λ id j found at. absurd (ground arith)
  Reached-Waiting _ (adds id now request s r) = add-Waiting id now request s (Reached-Waiting s r)
  Reached-Waiting _ (switches runs s r) = Reached-Waiting s r
  Reached-Waiting _ (rounds id rest s e well r) =
      let s0 : State P = record s { pending = rest } in
      Ran-Waiting id s0 (run_one runner id s0) (run_one-Ran runner id s0) well
        (begins id rest s e (Reached-Waiting s r))

  -- The pump ends: from every state that requests and rounds in any order lead to, where the rows of failed
  -- jobs are written, more rounds than the attempts left and the entries pending are enough. Then nothing is
  -- pending, and every job is completed or has failed.
  pub pump-drained :
      ((id : ℕ) → runner.row_written id ≡ true)
      → (fuel : ℕ) (s : State P) → s.pump_runs ≡ false
      → rank s < fuel
      → Reached s
      → let s' = pump runner fuel s in
        (s'.pending ≡ [])
        × (s'.pump_runs ≡ false)
        × ((id : ℕ) (j : Job P) → find id s'.jobs ≡ some j → is_final j.status ≡ true)
  unfolding pump
  pump-drained written fuel s idle less reached =
      let d =
        loop-Drained written fuel (record s { pump_runs = true }) less
          (Reached-Waiting s reached) in
      rw idle (
        d.none_pending,
        d.stopped,
        λ id j found. elim (Bool-cases (is_final j.status)) [
          | inl final ↦ final
          | inr at ↦
              let m = d.waiting id j found at in
              let none_left = ap (pending_member id) d.none_pending in absurd (cc)
        ],
      )

-- ===== src/Queue/Measure.antt =====
-- Each round takes something off the work that is left: the attempts of the jobs that are not done, and
-- the entries that are pending.
use Prim.Native.String.{String}
use logestic.Prelude.{
  ℕ, suc, ◌+◌, ◌-◌, ◌<◌, true, false, some, [], ◌∷◌, ◌++◌, length, ◌==◌, ltb, if◌then◌else◌, ◌≡◌,
  refl, arith, Bool-cases, Option-cases, inl, inr,
}
use logestic.Prelude.Table.{Table, find}
use logestic.Queue.{
  Job, State, Runner, Answer, returns, raises, Round, is_final, put, fail_job, run_handler, run_one,
  as_failed, as_active, as_completed, as_queued, called, has_handler, no_handler,
}

module _ {P : Type 0} where
  -- The attempts that a job has left.
  abbrev pub left : Job P → ℕ
  left j = if is_final j.status then 0 else j.max_attempts - j.attempts

  abbrev pub total : Table (Job P) → ℕ
  total [] = 0
  total ((_, j) ∷ t) = left j + total t

  pub total-put :
      (id : ℕ) (j j' : Job P) (t : Table (Job P))
      → find id t ≡ some j
      → total (put id j' t) + left j ≡ total t + left j'
  unfolding find put
  total-put id j j' [] h = absurd (ground arith)
  total-put id j j' ((k, a) ∷ t) h = elim (Bool-cases (id == k)) [
    | inl same ↦ let e : a ≡ j = ground arith in rw (e, same) (omega arith)
    | inr other ↦ let rest = total-put id j j' t (ground arith) in rw other (omega (arith, rest))
  ]

  pub put-put : (id : ℕ) (a b : Job P) (t : Table (Job P)) → put id a (put id b t) ≡ put id a t
  unfolding put
  put-put id a b [] = refl
  put-put id a b ((k, j) ∷ t) = elim (Bool-cases (id == k)) [
    | inl same ↦ ground arith
    | inr other ↦ ground (arith, put-put id a b t)
  ]

  pub find-put :
      (id k : ℕ) (j : Job P) (t : Table (Job P))
      → (id == k) ≡ false
      → find k (put id j t) ≡ find k t
  unfolding find put
  find-put id k j [] ne = refl
  find-put id k j ((l, a) ∷ t) ne = elim (Bool-cases (id == l)) [
    | inl same ↦ ground arith
    | inr other ↦ ground (arith, find-put id k j t ne)
  ]

  pub find-put_self :
      (id : ℕ) (j j' : Job P) (t : Table (Job P))
      → find id t ≡ some j
      → find id (put id j' t) ≡ some j'
  unfolding find put
  find-put_self id j j' [] h = absurd (ground arith)
  find-put_self id j j' ((l, a) ∷ t) h = elim (Bool-cases (id == l)) [
    | inl same ↦ ground arith
    | inr other ↦ ground (arith, find-put_self id j j' t)
  ]

  -- The work that is left.
  abbrev pub rank : State P → ℕ
  rank s = total s.jobs + length s.pending

  -- What a round does.
  pub data Ran (runner : Runner P) (id : ℕ) (s : State P) (r : Round P) : Type 0 where
    skips :
        r ≡ (true, s)
        → ((j : Job P) → find id s.jobs ≡ some j → is_final j.status ≡ true)
        → Ran runner id s r
    finishes :
        (j j' : Job P)
        → find id s.jobs ≡ some j
        → is_final j'.status ≡ true
        → r.0 ≡ true
        → r.1.jobs ≡ put id j' s.jobs
        → r.1.pending ≡ s.pending
        → Ran runner id s r
    requeues :
        (j : Job P)
        → find id s.jobs ≡ some j
        → is_final j.status ≡ false
        → suc j.attempts < j.max_attempts
        → r.0 ≡ true
        → r.1.jobs ≡ put id (as_queued runner id j) s.jobs
        → r.1.pending ≡ s.pending ++ id ∷ []
        → Ran runner id s r
    breaks : r.0 ≡ false → runner.row_written id ≡ false → Ran runner id s r

  module _ (runner : Runner P) (id : ℕ) where
    fail-Ran :
        (j a : Job P) (message : String) (s0 s : State P)
        → find id s0.jobs ≡ some j
        → ((d : Job P) → put id d s.jobs ≡ put id d s0.jobs)
        → s.pending ≡ s0.pending
        → Ran runner id s0 (fail_job runner id a message s)
    unfolding fail_job
    fail-Ran j a message s0 s found jobs pending =
        let done = as_failed a message (runner.time_at_end id a.attempts) in
        elim (Bool-cases (runner.row_written id)) [
          | inl written ↦
              finishes j done found refl (ground arith) (ground (arith, jobs done))
                (ground (arith, pending))
          | inr lost ↦ breaks (ground arith) lost
        ]

    handler-Ran :
        (j : Job P) (s : State P)
        → find id s.jobs ≡ some j
        → is_final j.status ≡ false
        → Ran runner id s (run_handler runner id j s)
    unfolding run_handler
    handler-Ran j s found at = by_answer (runner.answer id (suc j.attempts)) refl
      where
        by_answer :
            (answer : Answer P)
            → runner.answer id (suc j.attempts) ≡ answer
            → Ran runner id s (run_handler runner id j s)
        by_answer (returns value) e =
            let done = as_completed runner id j value in
            let twice = put-put id done (as_active runner id j) s.jobs in
            finishes j done found refl (ground (arith, e)) (ground (arith, e, twice))
              (ground (arith, e))
        by_answer (raises message) e =
            let twice = put-put id (as_queued runner id j) (as_active runner id j) s.jobs in
            elim (Bool-cases (ltb (suc j.attempts) j.max_attempts)) [
              | inl again ↦
                  requeues j found at (ground arith) (ground (arith, e)) (ground (arith, e, twice))
                    (ground (arith, e))
              | inr last ↦
                  let run : run_handler runner id j s
                      ≡ fail_job runner id (as_active runner id j) message (called runner id j s) =
                    ground (arith, e) in
                  rw run (
                    fail-Ran j (as_active runner id j) message s (called runner id j s) found
                      (λ d. put-put id d (as_active runner id j) s.jobs) refl)
            ]

    pub run_one-Ran : (s : State P) → Ran runner id s (run_one runner id s)
    unfolding run_one
    run_one-Ran s = elim (Option-cases (find id s.jobs)) [
      | inl missing ↦ skips (ground arith) (λ j found. absurd (cc))
      | inr (j, found) ↦ elim (Bool-cases (is_final j.status)) [
        | inl final ↦ skips (ground arith) (λ j' found'. ground arith)
        | inr at ↦ elim (Bool-cases (has_handler j.queue j.job_name)) [
          | inl has ↦
              let run : run_one runner id s ≡ run_handler runner id j s = ground arith in
              rw run (handler-Ran j s found at)
          | inr unknown ↦
              let run : run_one runner id s
                  ≡ fail_job runner id j (no_handler j.queue j.job_name) s =
                ground arith in
              rw run (fail-Ran j j (no_handler j.queue j.job_name) s s found (λ d. refl) refl)
        ]
      ]
    ]

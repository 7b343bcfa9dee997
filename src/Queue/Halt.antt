-- ===== src/Queue/Halt.antt =====
-- Where the row of a failed job cannot be written, the loop of the pump throws while `processing` is
-- set: every later `enqueue` leaves its job pending.
use Prim.Native.String.{String}
use logestic.Prelude.{
  ℕ, zero, suc, ◌+◌, true, false, List, [], ◌∷◌, length, length-append, ◌≡◌, refl, sym, ap, ◌∙◌,
  arith, Bool-cases, Option-cases, inl, inr,
}
use logestic.Prelude.Table.{find}
use logestic.Queue.{
  Job, State, Runner, Round, Request, is_final, fail_job, run_handler, run_one, pump_loop, pump,
  add_job, enqueue, as_active, called, no_handler, has_handler,
}

module _ {P : Type 0} (runner : Runner P) where
  fail-runs :
      (id : ℕ) (j : Job P) (message : String) (s : State P)
      → (fail_job runner id j message s).1.pump_runs ≡ s.pump_runs
  unfolding fail_job
  fail-runs id j message s = ground arith

  handler-runs :
      (id : ℕ) (j : Job P) (s : State P) → (run_handler runner id j s).1.pump_runs ≡ s.pump_runs
  unfolding run_handler
  handler-runs id j s =
      let last =
        λ (message : String). fail-runs id (as_active runner id j) message (called runner id j s) in
      ground (arith, last)

  round-runs : (id : ℕ) (s : State P) → (run_one runner id s).1.pump_runs ≡ s.pump_runs
  unfolding run_one
  round-runs id s = elim (Option-cases (find id s.jobs)) [
    | inl missing ↦ ground arith
    | inr (j, found) ↦ elim (Bool-cases (is_final j.status)) [
      | inl final ↦ ground arith
      | inr at ↦ elim (Bool-cases (has_handler j.queue j.job_name)) [
        | inl has ↦
            let run : run_one runner id s ≡ run_handler runner id j s = ground arith in
            ap (λ r. r.1.pump_runs) run ∙ handler-runs id j s
        | inr unknown ↦
            let message = no_handler j.queue j.job_name in
            let run : run_one runner id s ≡ fail_job runner id j message s = ground arith in
            ap (λ r. r.1.pump_runs) run ∙ fail-runs id j message s
      ]
    ]
  ]

  round_of_loop :
      (fuel id : ℕ) (rest : List ℕ) (s : State P)
      → s.pending ≡ id ∷ rest
      → let r = run_one runner id (record s { pending = rest }) in
        pump_loop runner (suc fuel) s
        ≡ (elim r.0 as (λ _. Round P) [ true ↦ pump_loop runner fuel r.1 | false ↦ (false, r.1) ])
  unfolding pump_loop
  round_of_loop fuel id rest s e = ground arith

  end_of_loop : (fuel : ℕ) (s : State P) → s.pending ≡ [] → (pump_loop runner (suc fuel) s).0 ≡ true
  unfolding pump_loop
  end_of_loop fuel s e = ground arith

  no_rounds : (s : State P) → (pump_loop runner zero s).0 ≡ true
  unfolding pump_loop
  no_rounds s = refl

  step-runs :
      (fuel : ℕ) (s : State P)
      → ((s' : State P)
          → s'.pump_runs ≡ true
          → (pump_loop runner fuel s').0 ≡ false
          → (pump_loop runner fuel s').1.pump_runs ≡ true)
      → s.pump_runs ≡ true
      → (pump_loop runner (suc fuel) s).0 ≡ false
      → (p : List ℕ) → s.pending ≡ p
      → (pump_loop runner (suc fuel) s).1.pump_runs ≡ true
  step-runs fuel s go runs broke [] e = let well = end_of_loop fuel s e in absurd (cc)
  step-runs fuel s go runs broke (id ∷ rest) e =
      let r = run_one runner id (record s { pending = rest }) in
      let kept : r.1.pump_runs ≡ true = round-runs id (record s { pending = rest }) ∙ runs in
      let run = round_of_loop fuel id rest s e in
      elim (Bool-cases r.0) [
        | inl well ↦
            let on : pump_loop runner (suc fuel) s ≡ pump_loop runner fuel r.1 =
              run ∙ rw well refl in
            ap (λ x. x.1.pump_runs) on ∙ go r.1 kept (sym (ap (λ x. x.0) on) ∙ broke)
        | inr threw ↦
            let on : pump_loop runner (suc fuel) s ≡ (false, r.1) = run ∙ rw threw refl in
            ap (λ x. x.1.pump_runs) on ∙ kept
      ]

  loop-runs :
      (fuel : ℕ) (s : State P)
      → s.pump_runs ≡ true
      → (pump_loop runner fuel s).0 ≡ false
      → (pump_loop runner fuel s).1.pump_runs ≡ true
  loop-runs zero s runs broke = let well = no_rounds s in absurd (cc)
  loop-runs (suc fuel) s runs broke = step-runs fuel s (loop-runs fuel) runs broke s.pending refl

  -- Requests that come one after the other.
  unfoldable pub enqueue_all : ℕ → List (ℕ × ℕ × Request P) → State P → State P
  unfolding enqueue
  enqueue_all fuel [] s = s
  enqueue_all fuel ((id, now, request) ∷ rest) s =
      enqueue_all fuel rest (enqueue runner fuel id now request s)

  enqueue_busy :
      (fuel id now : ℕ) (request : Request P) (s : State P)
      → s.pump_runs ≡ true
      → enqueue runner fuel id now request s ≡ add_job id now request s
  unfolding enqueue pump add_job
  enqueue_busy fuel id now request s runs = ground arith

  busy :
      (fuel : ℕ) (requests : List (ℕ × ℕ × Request P)) (s : State P)
      → s.pump_runs ≡ true
      → let s' = enqueue_all fuel requests s in
        (s'.calls ≡ s.calls)
        × (s'.resolved ≡ s.resolved)
        × (length s'.pending ≡ length s.pending + length requests)
  unfolding enqueue_all add_job
  busy fuel [] s runs = (refl, refl, omega arith)
  busy fuel ((id, now, request) ∷ rest) s runs =
      let q = busy fuel rest (add_job id now request s) runs in
      let n = length-append s.pending (id ∷ []) in
      let e = enqueue_busy fuel id now request s runs in
      let on : enqueue_all fuel ((id, now, request) ∷ rest) s
          ≡ enqueue_all fuel rest (add_job id now request s) =
        ap (enqueue_all fuel rest) e in
      (
        ap (λ x. x.calls) on ∙ q.0,
        ap (λ x. x.resolved) on ∙ q.1,
        ap (λ x. length x.pending) on ∙ omega (arith, q.2, n),
      )

  -- Where a run of the pump throws, the jobs of all later requests stay pending: whatever is enqueued, no
  -- handler is called and no caller is answered.
  pub thrown_pump_halts :
      (fuel : ℕ) (s : State P) (later : ℕ) (requests : List (ℕ × ℕ × Request P))
      → (pump_loop runner fuel (record s { pump_runs = true })).0 ≡ false
      → let s' = (pump_loop runner fuel (record s { pump_runs = true })).1 in
        let s'' = enqueue_all later requests s' in
        (s''.calls ≡ s'.calls)
        × (s''.resolved ≡ s'.resolved)
        × (length s''.pending ≡ length s'.pending + length requests)
  thrown_pump_halts fuel s later requests broke =
      busy later requests _ (loop-runs fuel (record s { pump_runs = true }) refl broke)

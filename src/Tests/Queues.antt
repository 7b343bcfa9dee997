-- ===== src/Tests/Queues.antt =====
-- The job queue at concrete inputs.
use logestic.Prelude.{
  ℕ, ◌+◌, Bool, true, false, none, some, List, [], ◌∷◌, length, ◌==◌, ◌≡◌, refl, arith,
  if◌then◌else◌,
}
use logestic.Prelude.Table.{find}
use logestic.Queue.{
  State, Job, Runner, Request, returns, raises, QueueName, is_final, add_job, pump_loop, pump,
  backoff_ms,
}
use logestic.Queue.Drain.{starts, adds, pump-drained}
use logestic.Queue.Halt.{enqueue_all, thrown_pump_halts}

abbrev idle : State ℕ
idle = record {
  jobs = [];
  pending = [];
  pump_runs = false;
  failed_jobs = [];
  calls = [];
  resolved = [];
}

-- Job 1 succeeds at its third attempt, any other one never.
abbrev runner : Bool → Runner ℕ
runner stored = record {
  answer = λ id attempt.
      if (id == 1) then (if (attempt == 3) then returns 7 else raises "busy") else raises "down";
  time_at_start = λ _ attempt. attempt;
  time_at_end = λ _ attempt. attempt;
  row_written = λ _. stored;
}

abbrev request : Request ℕ
request = record {
  queue = QueueName.kpi;
  job_name = "daily-snapshot";
  payload = 0;
  correlation_id = none;
  wait = true;
}

abbrev two_jobs : State ℕ
two_jobs = add_job 2 10 request (add_job 1 9 request idle)

-- Three calls for the first job, four for the second one, in turn.
calls :
    (pump (runner true) 11 two_jobs).calls
    ≡ (2, 4) ∷ (2, 3) ∷ (1, 3) ∷ (2, 2) ∷ (1, 2) ∷ (2, 1) ∷ (1, 1) ∷ []
unfolding pump add_job find
calls = refl

backoffs : (backoff_ms 1 ≡ 1000) × (backoff_ms 3 ≡ 4000) × (backoff_ms 7 ≡ 30000)
unfolding backoff_ms
backoffs = (refl, refl, refl)

pump-drained_example :
    let s' = pump (runner true) 11 two_jobs in
    (s'.pending ≡ [])
    × (s'.pump_runs ≡ false)
    × ((id : ℕ) (j : Job ℕ) → find id s'.jobs ≡ some j → is_final j.status ≡ true)
unfolding add_job
pump-drained_example =
    pump-drained (runner true) (λ id. refl) 11 two_jobs refl (omega arith)
      (adds 2 10 request _ (adds 1 9 request _ (starts [])))

abbrev later : List (ℕ × ℕ × Request ℕ)
later = (3, 20, request) ∷ []

thrown_pump_halts_example :
    let s' = (pump_loop (runner false) 11 (record two_jobs { pump_runs = true })).1 in
    let s'' = enqueue_all (runner false) 5 later s' in
    (s''.calls ≡ s'.calls)
    × (s''.resolved ≡ s'.resolved)
    × (length s''.pending ≡ length s'.pending + length later)
unfolding pump_loop add_job find
thrown_pump_halts_example = thrown_pump_halts (runner false) 11 two_jobs 5 later refl

-- ===== src/Queue.antt =====
-- The in-memory job queue: queues/jobQueue.ts, queues/types.ts, queues/handlers/index.ts and
-- repositories/failedJobsRepository.ts. One round of the pump is one step; a job that is enqueued
-- while a handler runs stands before the round. The handlers, the clock and whether the database
-- takes a row are arguments, by job and attempt.
pub mod Measure
pub mod Drain
pub mod Halt
use Prim.Native.String.{String, ◌++◌ as append, compare as compare_text}
use Prim.Native.Nat.{Ordering}
use logestic.Prelude.{
  ℕ, zero, suc, ◌+◌, ◌*◌, ◌-◌, ◌^◌, Bool, true, false, not, ◌||◌, Option, none, some, List, [], ◌∷◌,
  ◌++◌, any, filter, ◌==◌, ltb, if◌then◌else◌, map,
}
use logestic.Prelude.Table.{Table, find, update, insert, next_id}
use Prim.Native.Nat.{min}

pub data QueueName : Type 0 where
  settlement notification reconciliation event_log kpi : QueueName

pub data JobStatus : Type 0 where
  queued active completed failed : JobStatus

pub record Job (P : Type 0) : Type 0 where
  pub queue : QueueName
  pub job_name : String
  pub payload : P
  pub status : JobStatus
  pub attempts : ℕ
  pub max_attempts : ℕ
  pub correlation_id : Option String
  pub created_at : ℕ
  pub started_at : Option ℕ
  pub completed_at : Option ℕ
  pub error : Option String
  pub result : Option P
  -- whether `_resolve` is there
  pub waits : Bool

-- A row of the failed jobs, with its status "failed" or "retried".
pub record FailedJob (P : Type 0) : Type 0 where
  pub queue_name : QueueName
  pub job_name : String
  pub payload : P
  pub error_message : String
  pub attempts : ℕ
  pub max_attempts : ℕ
  pub correlation_id : Option String
  pub failed_at : ℕ
  pub retried_at : Option ℕ
  pub retried : Bool

-- `pump_runs` is `processing`. The handlers' calls, by job and attempt, and the promises that were
-- resolved with their job are kept in the order of time, the last first.
pub record State (P : Type 0) : Type 0 where
  pub jobs : Table (Job P)
  pub pending : List ℕ
  pub pump_runs : Bool
  pub failed_jobs : Table (FailedJob P)
  pub calls : List (ℕ × ℕ)
  pub resolved : List (ℕ × Job P)

pub data Answer (P : Type 0) : Type 0 where
  returns : P → Answer P
  raises : String → Answer P

-- What the queue calls.
pub record Runner (P : Type 0) : Type 0 where
  pub answer : ℕ → ℕ → Answer P
  pub time_at_start : ℕ → ℕ → ℕ
  pub time_at_end : ℕ → ℕ → ℕ
  -- whether the row of a failed job is written
  pub row_written : ℕ → Bool

abbrev pub max_job_attempts : ℕ
max_job_attempts = 4

-- In milliseconds.
unfoldable pub backoff_ms : ℕ → ℕ
backoff_ms attempt = min (2 ^ (attempt - 1) * 1000) 30000

-- The name of a queue in a handler's key.
abbrev queue_text : QueueName → String
queue_text settlement = "settlement"
queue_text notification = "notification"
queue_text reconciliation = "reconciliation"
queue_text event_log = "event_log"
queue_text kpi = "kpi"

abbrev text_eq : String → String → Bool
text_eq a b = elim (compare_text a b) [ Ordering.eq ↦ true | _ ↦ false ]

abbrev handlers : List String
handlers =
    "settlement:monthly-close" ∷ "settlement:distribute-pool" ∷ "settlement:export-excel"
    ∷ "settlement:execute-payouts" ∷ "settlement:daily-cycle-cron" ∷ "notification:push"
    ∷ "notification:sms" ∷ "notification:in-app" ∷ "reconciliation:nightly-run"
    ∷ "event_log:persist-event" ∷ "kpi:daily-snapshot" ∷ []

-- Whether `getJobHandler` has one.
unfoldable pub has_handler : QueueName → String → Bool
has_handler queue name = any (text_eq (append (queue_text queue) (append ":" name))) handlers

abbrev pub no_handler : QueueName → String → String
no_handler queue name = append "no_handler:" (append (queue_text queue) (append ":" name))

abbrev pub is_final : JobStatus → Bool
is_final queued = false
is_final active = false
is_final completed = true
is_final failed = true

-- What a caller gives to `enqueue`.
pub record Request (P : Type 0) : Type 0 where
  pub queue : QueueName
  pub job_name : String
  pub payload : P
  pub correlation_id : Option String
  pub wait : Bool

-- What `retryFailedJob` throws, or the request that it enqueues.
pub data Retry (P : Type 0) : Type 0 where
  failed_job_not_found job_not_retryable : Retry P
  retries : Request P → State P → Retry P

-- A round ends well, or it throws.
abbrev pub Round : Type 0 → Type 0
Round P = Bool × State P

module _ {P : Type 0} where
  -- A job of the map is changed in place.
  unfoldable pub put : ℕ → Job P → Table (Job P) → Table (Job P)
  put id j [] = []
  put id j ((k, a) ∷ t) = if id == k then (k, j) ∷ t else (k, a) ∷ put id j t

  -- `job._resolve?.(…)`
  abbrev pub resolve : ℕ → Job P → State P → State P
  resolve id job s = if job.waits then record s { resolved = (id, job) ∷ s.resolved } else s

  abbrev row_of : Job P → String → ℕ → FailedJob P
  row_of job message now = record {
    queue_name = job.queue;
    job_name = job.job_name;
    payload = job.payload;
    error_message = message;
    attempts = job.attempts;
    max_attempts = job.max_attempts;
    correlation_id = job.correlation_id;
    failed_at = now;
    retried_at = none;
    retried = false;
  }

  abbrev pub as_failed : Job P → String → ℕ → Job P
  as_failed job message now = record job {
    status = failed;
    error = some message;
    completed_at = some now;
  }

  module _ (runner : Runner P) where
    unfoldable pub fail_job : ℕ → Job P → String → State P → Round P
    unfolding put
    fail_job id job message s =
        let now = runner.time_at_end id job.attempts in
        let done = as_failed job message now in
        let s1 : State P = record s { jobs = put id done s.jobs } in
        if runner.row_written id
        then (
          true,
          resolve id done
              (record s1 { failed_jobs = insert (row_of job message now) s.failed_jobs }),
        )
        else (false, s1)

    -- The job before its handler is called, and after it has returned.
    abbrev pub as_active : ℕ → Job P → Job P
    as_active id job = record job {
      attempts = suc job.attempts;
      status = active;
      started_at = some (runner.time_at_start id (suc job.attempts));
    }

    abbrev pub as_completed : ℕ → Job P → P → Job P
    as_completed id job value = record (as_active id job) {
      result = some value;
      status = completed;
      completed_at = some (runner.time_at_end id (suc job.attempts));
    }

    abbrev pub as_queued : ℕ → Job P → Job P
    as_queued id job = record (as_active id job) { status = queued }

    -- The call of the handler is written down.
    abbrev pub called : ℕ → Job P → State P → State P
    called id job s = record s {
      jobs = put id (as_active id job) s.jobs;
      calls = (id, suc job.attempts) ∷ s.calls;
    }

    unfoldable pub run_handler : ℕ → Job P → State P → Round P
    unfolding fail_job put
    run_handler id job s =
        let s1 = called id job s in
        elim (runner.answer id (suc job.attempts)) [
          | returns value ↦
              let done = as_completed id job value in
              (true, resolve id done (record s1 { jobs = put id done s1.jobs }))
          | raises message ↦
              if ltb (suc job.attempts) job.max_attempts
              then (
                true,
                record s1 {
                  jobs = put id (as_queued id job) s1.jobs;
                  pending = s.pending ++ id ∷ [];
                },
              )
              else fail_job id (as_active id job) message s1
        ]

    unfoldable pub run_one : ℕ → State P → Round P
    unfolding run_handler fail_job has_handler
    run_one id s = elim (find id s.jobs) [
      | none ↦ (true, s)
      | some job ↦
          if is_final job.status
          then (true, s)
          else if has_handler job.queue job.job_name
          then run_handler id job s
          else fail_job id job (no_handler job.queue job.job_name) s
    ]

    -- The loop of `pump`. Where a round throws, so does the loop.
    unfoldable pub pump_loop : ℕ → State P → Round P
    unfolding run_one
    pump_loop zero s = (true, s)
    pump_loop (suc fuel) s = elim s.pending [
      | [] ↦ (true, record s { pump_runs = false })
      | id ∷ rest ↦
          let (well, s') = run_one id (record s { pending = rest }) in
          elim well [ true ↦ pump_loop fuel s' | false ↦ (false, s') ]
    ]

    unfoldable pub pump : ℕ → State P → State P
    unfolding pump_loop
    pump fuel s = if s.pump_runs then s else (pump_loop fuel (record s { pump_runs = true })).1

  abbrev pub new_job : ℕ → Request P → Job P
  new_job now request = record {
    queue = request.queue;
    job_name = request.job_name;
    payload = request.payload;
    status = queued;
    attempts = 0;
    max_attempts = max_job_attempts;
    correlation_id = request.correlation_id;
    created_at = now;
    started_at = none;
    completed_at = none;
    error = none;
    result = none;
    waits = request.wait;
  }

  -- `enqueue` up to its call of `pump`; the id is a new UUID.
  unfoldable pub add_job : ℕ → ℕ → Request P → State P → State P
  add_job id now request s = record s {
    jobs = (id, new_job now request) ∷ s.jobs;
    pending = s.pending ++ id ∷ [];
  }

  unfoldable pub enqueue : Runner P → ℕ → ℕ → ℕ → Request P → State P → State P
  unfolding add_job pump
  enqueue runner fuel id now request s = pump runner fuel (add_job id now request s)

  abbrev as_retried : ℕ → FailedJob P → FailedJob P
  as_retried now row = record row { retried = true; retried_at = some now }

  unfoldable pub retry_failed_job : ℕ → ℕ → Bool → State P → Retry P
  retry_failed_job now i wait s = elim (find i s.failed_jobs) [
    | none ↦ failed_job_not_found
    | some row ↦
        if row.retried
        then job_not_retryable
        else retries
            (record {
              queue = row.queue_name;
              job_name = row.job_name;
              payload = row.payload;
              correlation_id = row.correlation_id;
              wait = wait;
            })
            (record s { failed_jobs = update i (as_retried now) s.failed_jobs })
  ]

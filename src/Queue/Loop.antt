-- ===== src/Queue/Loop.antt =====
-- The loop of src/orchestration/in-memory-job-queue.ts: `drain` and `runJob`, cut where the handler's
-- promise settles.
use shld.Prelude.{
  ℕ, ◌+◌, String, Bool, true, false, Option, none, some, List, [], ◌∷◌, keep, any, leb,
  if◌then◌else◌,
}
use shld.Queue.Jobs.{
  same_job_type, JobState, waiting, active, completed, failed, AbortReason, timeout, Job,
  is_waiting, change_job,
}
use shld.Queue.InMemory.{Queue, with_jobs, with_state, aborted}

-- how a handler's promise settles: an error carries its message
pub data Settled : Type 0 where
  fulfilled : Settled
  rejected : String → Settled

abbrev pub is_cancellation : Option AbortReason → Bool
is_cancellation (some AbortReason.cancelled) = true
is_cancellation _ = false

module _ {P : Type 0} where
  -- `sort((a, b) => a.priority - b.priority)`, which is stable
  unfoldable pub insert_by_priority : Job P → List (Job P) → List (Job P)
  insert_by_priority job [] = job ∷ []
  insert_by_priority job (other ∷ jobs) =
      let rest = insert_by_priority job jobs in
      if leb job.priority other.priority then job ∷ other ∷ jobs else other ∷ rest

  unfoldable pub sort_by_priority : List (Job P) → List (Job P)
  sort_by_priority [] = []
  sort_by_priority (job ∷ jobs) = insert_by_priority job (sort_by_priority jobs)

  abbrev pub first : List (Job P) → Option (Job P)
  first [] = none
  first (job ∷ jobs) = some job

  -- `pending()[0]`
  unfoldable pub next_pending : List (Job P) → Option (Job P)
  next_pending jobs = first (sort_by_priority (keep (λ j. is_waiting j.state) jobs))

  -- `runJob` up to the call of the handler
  unfoldable pub begun : Job P → Job P
  begun job = record job {
    state = active;
    attempts_made = job.attempts_made + 1;
    controller = none;
  }

  -- a turn of the loop in `drain`: it ends when no job waits or a handler is missing
  unfoldable pub run_next : Queue P → Option (Job P) → Queue P
  unfolding begun
  run_next q none = record q { draining = false }
  run_next q (some job) =
      if any (same_job_type job.job_type) q.handlers
      then record q { jobs = change_job job.job_id begun q.jobs; running = some job.job_id }
      else record q { draining = false }

  unfoldable pub take_next : Queue P → Queue P
  unfolding run_next
  take_next q = run_next q (next_pending q.jobs)

  -- `runJob` from where the handler's promise settles
  unfoldable pub settled_job : Settled → Job P → Job P
  settled_job fulfilled job = with_state completed job
  settled_job (rejected message) job =
      if is_cancellation job.controller
      then with_state JobState.cancelled job
      else if leb job.max_attempts job.attempts_made
      then record job { state = failed; failed_reason = some message }
      else with_state waiting job

  unfoldable pub settle_held : Settled → Queue P → Option (List ℕ) → Queue P
  unfolding settled_job
  settle_held outcome q none = q
  settle_held outcome q (some id) = record q {
    jobs = change_job id (settled_job outcome) q.jobs;
    running = none;
  }

  unfoldable pub settle_running : Settled → Queue P → Queue P
  unfolding settle_held
  settle_running outcome q = settle_held outcome q q.running

  -- the timer of the attempt fires
  unfoldable pub time_out_held : Queue P → Option (List ℕ) → Queue P
  time_out_held q none = q
  time_out_held q (some id) = with_jobs (change_job id (aborted timeout) q.jobs) q

  unfoldable pub time_out : Queue P → Queue P
  unfolding time_out_held
  time_out q = time_out_held q q.running

-- ===== src/Queue/InMemory.antt =====
-- src/orchestration/in-memory-job-queue.ts. The methods are functions on the queue; what happens
-- while a handler runs is a list of requests, in their order, and how its promise settles.
-- `running` is the job that `runJob` holds; `draining` says whether `drainPromise` is set.
use shld.Prelude.{
  ℕ, suc, Bool, true, false, not, ◌&&◌, Option, none, some, List, [], ◌∷◌, ◌++◌, map, keep, get_or,
  if◌then◌else◌,
}
use shld.Prelude.Text.{codes}
use shld.Queue.Jobs.{
  JobType, job_type_name, same_job_type, JobState, waiting, delayed, active, AbortReason,
  EnqueueParams, EnqueueResult, Job, DeadLetterJob, is_cancelled, is_failed, find_job, change_job,
  set_job,
}

pub record Queue (P : Type 0) : Type 0 where
  pub jobs : List (Job P)
  pub handlers : List JobType
  pub started : Bool
  pub draining : Bool
  pub running : Option (List ℕ)

abbrev pub new_queue : {P : Type 0} → Queue P
new_queue = record { jobs = []; handlers = []; started = false; draining = false; running = none }

abbrev default_max_attempts : ℕ
default_max_attempts = 3

abbrev default_timeout_ms : ℕ
default_timeout_ms = 300000

-- `params.delayMs ? "delayed" : "waiting"`
abbrev first_state : Option ℕ → JobState
first_state (some (suc ms)) = delayed
first_state _ = waiting

abbrev pub is_cancellable : JobState → Bool
is_cancellable waiting = true
is_cancellable delayed = true
is_cancellable active = true
is_cancellable _ = false

module _ {P : Type 0} where
  -- `${organizationId}:${jobType}:${idempotencyKey}`
  abbrev pub id_of : EnqueueParams P → List ℕ
  id_of params =
      codes params.organization_id
      ++ codes ":"
      ++ codes (job_type_name params.job_type)
      ++ codes ":"
      ++ codes params.idempotency_key

  abbrev pub new_job : EnqueueParams P → Job P
  new_job params = record {
    job_id = id_of params;
    job_type = params.job_type;
    organization_id = params.organization_id;
    payload = params.payload;
    priority = get_or params.priority 0;
    max_attempts = get_or params.max_attempts default_max_attempts;
    timeout_ms = get_or params.timeout_ms default_timeout_ms;
    attempts_made = 0;
    state = first_state params.delay_ms;
    failed_reason = none;
    controller = none;
  }

  abbrev pub with_jobs : List (Job P) → Queue P → Queue P
  with_jobs jobs q = record q { jobs = jobs }

  unfoldable pub ensure_draining : Queue P → Queue P
  ensure_draining q = record q { draining = true }

  abbrev pub is_reused : Option (Job P) → Bool
  is_reused none = false
  is_reused (some job) = not (is_cancelled job.state)

  -- `enqueue` once it has looked the id up
  unfoldable pub enqueue_found :
      EnqueueParams P → Queue P → Option (Job P) → EnqueueResult × Queue P
  unfolding ensure_draining
  enqueue_found params q existing =
      let stored = with_jobs (set_job (new_job params) existing q.jobs) q in
      if is_reused existing then (record { job_id = id_of params; deduplicated = true }, q) else (
        record { job_id = id_of params; deduplicated = false },
        if q.started then ensure_draining stored else stored,
      )

  unfoldable pub enqueue : EnqueueParams P → Queue P → EnqueueResult × Queue P
  unfolding enqueue_found
  enqueue params q = enqueue_found params q (find_job (id_of params) q.jobs)

  abbrev pub register_handler : JobType → Queue P → Queue P
  register_handler job_type q = record q { handlers = job_type ∷ q.handlers }

  -- only the first `abort` of a controller sets its reason
  abbrev pub aborted : AbortReason → Job P → Job P
  aborted reason job = record job {
    controller = elim job.controller [ none ↦ some reason | some first ↦ some first ];
  }

  abbrev pub with_state : JobState → Job P → Job P
  with_state state job = record job { state = state }

  -- what `cancel` does to a job, and what it returns
  unfoldable pub cancelled_job : JobState → Job P → Job P
  cancelled_job waiting job = with_state JobState.cancelled job
  cancelled_job delayed job = with_state JobState.cancelled job
  cancelled_job active job = aborted AbortReason.cancelled job
  cancelled_job _ job = job

  unfoldable pub cancel_found : List ℕ → Queue P → Option (Job P) → Bool × Queue P
  unfolding cancelled_job
  cancel_found id q none = (false, q)
  cancel_found id q (some job) =
      (is_cancellable job.state, with_jobs (change_job id (λ j. cancelled_job j.state j) q.jobs) q)

  unfoldable pub cancel : List ℕ → Queue P → Bool × Queue P
  unfolding cancel_found
  cancel id q = cancel_found id q (find_job id q.jobs)

  abbrev pub start : Queue P → Queue P
  start q = ensure_draining (record q { started = true })

  abbrev pub stop : Queue P → Queue P
  stop q = record q { started = false }

  abbrev pub dead_letter : Job P → DeadLetterJob P
  dead_letter job = record {
    job_id = job.job_id;
    job_type = job.job_type;
    payload = job.payload;
    failed_reason = get_or job.failed_reason "unknown";
    attempts_made = job.attempts_made;
  }

  abbrev is_of_type : Option JobType → Job P → Bool
  is_of_type none job = true
  is_of_type (some job_type) job = same_job_type job.job_type job_type

  unfoldable pub get_dead_letter_jobs : Option JobType → Queue P → List (DeadLetterJob P)
  get_dead_letter_jobs job_type q =
      map dead_letter (keep (λ j. is_failed j.state && is_of_type job_type j) q.jobs)

  -- what `replayDeadLetterJob` does to a job
  unfoldable pub replayed_job : Job P → Job P
  replayed_job job =
      if is_failed job.state then record job { state = waiting; attempts_made = 0 } else job

  unfoldable pub replay_found : List ℕ → Queue P → Option (Job P) → Queue P
  unfolding replayed_job ensure_draining
  replay_found id q none = q
  replay_found id q (some job) =
      let replayed = with_jobs (change_job id replayed_job q.jobs) q in
      if not (is_failed job.state)
      then q
      else if q.started
      then ensure_draining replayed
      else replayed

  unfoldable pub replay_dead_letter_job : List ℕ → Queue P → Queue P
  unfolding replay_found
  replay_dead_letter_job id q = replay_found id q (find_job id q.jobs)

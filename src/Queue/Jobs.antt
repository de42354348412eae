-- ===== src/Queue/Jobs.antt =====
-- src/orchestration/job-queue.ts and the `InternalJob` of in-memory-job-queue.ts. A job id is the
-- list of its code points. A priority is not negative. The payload's type is a parameter.
use shld.Prelude.{
  ℕ, String, Bool, true, false, Option, none, some, List, [], ◌∷◌, ◌++◌, if◌then◌else◌,
}
use shld.Prelude.Text.{codes, text_eq}

pub data JobType : Type 0 where
  classify_change prepare_repository run_deepsec_diff run_deepsec_full normalize_deepsec_output
        apply_routing_policy wait_for_target run_strix_validation normalize_strix_output
        correlate_findings run_deepsec_revalidation run_strix_retest generate_receipt
        deliver_webhook :
      JobType

abbrev pub job_type_name : JobType → String
job_type_name classify_change = "classify_change"
job_type_name prepare_repository = "prepare_repository"
job_type_name run_deepsec_diff = "run_deepsec_diff"
job_type_name run_deepsec_full = "run_deepsec_full"
job_type_name normalize_deepsec_output = "normalize_deepsec_output"
job_type_name apply_routing_policy = "apply_routing_policy"
job_type_name wait_for_target = "wait_for_target"
job_type_name run_strix_validation = "run_strix_validation"
job_type_name normalize_strix_output = "normalize_strix_output"
job_type_name correlate_findings = "correlate_findings"
job_type_name run_deepsec_revalidation = "run_deepsec_revalidation"
job_type_name run_strix_retest = "run_strix_retest"
job_type_name generate_receipt = "generate_receipt"
job_type_name deliver_webhook = "deliver_webhook"

-- `a === b` of two job types
abbrev pub same_job_type : JobType → JobType → Bool
same_job_type a b = text_eq (codes (job_type_name a)) (codes (job_type_name b))

pub data JobState : Type 0 where
  waiting delayed active completed failed cancelled : JobState

-- why a controller was aborted
pub data AbortReason : Type 0 where
  cancelled timeout : AbortReason

pub record EnqueueParams (P : Type 0) : Type 0 where
  pub job_type : JobType
  pub organization_id : String
  pub idempotency_key : String
  pub payload : P
  pub priority : Option ℕ
  pub max_attempts : Option ℕ
  pub timeout_ms : Option ℕ
  pub delay_ms : Option ℕ

pub record EnqueueResult : Type 0 where
  pub job_id : List ℕ
  pub deduplicated : Bool

-- `controller` is the reason that the attempt's controller was aborted for, if it was
pub record Job (P : Type 0) : Type 0 where
  pub job_id : List ℕ
  pub job_type : JobType
  pub organization_id : String
  pub payload : P
  pub priority : ℕ
  pub max_attempts : ℕ
  pub timeout_ms : ℕ
  pub attempts_made : ℕ
  pub state : JobState
  pub failed_reason : Option String
  pub controller : Option AbortReason

pub record DeadLetterJob (P : Type 0) : Type 0 where
  pub job_id : List ℕ
  pub job_type : JobType
  pub payload : P
  pub failed_reason : String
  pub attempts_made : ℕ

abbrev pub is_waiting : JobState → Bool
is_waiting waiting = true
is_waiting _ = false

abbrev pub is_cancelled : JobState → Bool
is_cancelled JobState.cancelled = true
is_cancelled _ = false

abbrev pub is_failed : JobState → Bool
is_failed failed = true
is_failed _ = false

module _ {P : Type 0} where
  -- `jobs.get(jobId)`
  unfoldable pub find_job : List ℕ → List (Job P) → Option (Job P)
  find_job id [] = none
  find_job id (job ∷ jobs) =
      let rest = find_job id jobs in if text_eq job.job_id id then some job else rest

  -- a write to the object that the map holds under the id
  unfoldable pub change_job : List ℕ → (Job P → Job P) → List (Job P) → List (Job P)
  change_job id f [] = []
  change_job id f (job ∷ jobs) =
      (if text_eq job.job_id id then f job else job) ∷ change_job id f jobs

  -- `jobs.set(job.jobId, job)` keeps the place of a key that is there
  abbrev pub set_job : Job P → Option (Job P) → List (Job P) → List (Job P)
  set_job job none jobs = jobs ++ (job ∷ [])
  set_job job (some old) jobs = change_job job.job_id (λ _. job) jobs

-- ===== src/Tests/Queue.antt =====
-- The in-memory queue with three jobs.
use shld.Prelude.{◌≡◌, refl, ◌↔◌, ℕ, String, none, some, true, List, [], ◌∷◌}
use shld.Queue.Jobs.{
  EnqueueParams, Job, run_strix_validation, generate_receipt, JobType, waiting, find_job,
  change_job,
}
use shld.Queue.InMemory.{
  enqueue, enqueue_found, cancel, cancel_found, cancelled_job, ensure_draining, id_of,
}
use shld.Queue.Loop.{
  next_pending, sort_by_priority, insert_by_priority, Settled, rejected, take_next, run_next, begun,
  settle_running, settle_held, settled_job,
}
use shld.Queue.Events.{
  Event, enqueued, cancel_called, registered, start_called, loop_turned, handler_settled, run, step,
}
use shld.Queue.Order.{IsNext, next_pending-IsNext}
use shld.Queue.Once.{IsQueued, enqueue-once}
use shld.Prelude.Text.{text_eq}

abbrev request : JobType → String → ℕ → EnqueueParams ℕ
request job_type key priority = record {
  job_type = job_type;
  organization_id = "acme";
  idempotency_key = key;
  payload = 7;
  priority = some priority;
  max_attempts = none;
  timeout_ms = none;
  delay_ms = none;
}

-- two validations and a receipt, of which the first validation has been cancelled
abbrev three_requests : List (Event ℕ)
three_requests =
    cancel_called (id_of (request run_strix_validation "a" 1))
    ∷ enqueued (request generate_receipt "c" 5)
    ∷ enqueued (request run_strix_validation "b" 2)
    ∷ enqueued (request run_strix_validation "a" 1)
    ∷ registered run_strix_validation
    ∷ []

-- then the loop runs the second validation, which fails
abbrev one_failure : List (Event ℕ)
one_failure = handler_settled (rejected "no target") ∷ loop_turned ∷ start_called ∷ three_requests

enqueue-once_example :
    (((enqueue (request generate_receipt "c" 9) (run one_failure)).0.deduplicated ≡ true)
      ↔ IsQueued (request generate_receipt "c" 9) (run one_failure))
    × (enqueue
          (request generate_receipt "c" 9)
          (enqueue (request generate_receipt "c" 9) (run one_failure)).1
        ≡ (
          record { job_id = id_of (request generate_receipt "c" 9); deduplicated = true },
          (enqueue (request generate_receipt "c" 9) (run one_failure)).1,
        ))
enqueue-once_example = enqueue-once (request generate_receipt "c" 9) (run one_failure)

abbrev fails_always : Job ℕ → Settled
fails_always job = rejected "no target"

service_runs : Unit {0}
unfolding run step enqueue enqueue_found cancel cancel_found cancelled_job ensure_draining find_job
    change_job text_eq next_pending sort_by_priority insert_by_priority take_next run_next begun
    settle_running settle_held settled_job
service_runs = tt

-- the job that is waiting for its second attempt
abbrev second_validation : Job ℕ
second_validation = record {
  job_id = id_of (request run_strix_validation "b" 2);
  job_type = run_strix_validation;
  organization_id = "acme";
  payload = 7;
  priority = 2;
  max_attempts = 3;
  timeout_ms = 300000;
  attempts_made = 1;
  state = waiting;
  failed_reason = none;
  controller = none;
}

next_pending-IsNext_example : IsNext second_validation (run one_failure).jobs
unfolding service_runs
next_pending-IsNext_example = next_pending-IsNext (run one_failure).jobs second_validation refl

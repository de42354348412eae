-- ===== src/Queue/Events.antt =====
-- Every sequence of calls and events on the queue of src/orchestration/in-memory-job-queue.ts.
use shld.Prelude.{ℕ, Bool, false, Option, none, some, List, [], ◌∷◌, if◌then◌else◌}
use shld.Queue.Jobs.{JobType, EnqueueParams}
use shld.Queue.InMemory.{
  Queue, new_queue, enqueue, cancel, start, stop, replay_dead_letter_job, register_handler,
}
use shld.Queue.Loop.{Settled, take_next, settle_running, time_out}

-- A call of a method, by a client or by a running handler, or an event of the loop.
pub data Event (P : Type 0) : Type 0 where
  enqueued : EnqueueParams P → Event P
  cancel_called replay_called : List ℕ → Event P
  registered : JobType → Event P
  start_called stop_called loop_turned timer_fired : Event P
  handler_settled : Settled → Event P

-- a loop that is not draining, or that waits for a handler, does not take a job
abbrev pub loop_is_free : Bool → Option (List ℕ) → Bool
loop_is_free draining none = draining
loop_is_free draining (some id) = false

module _ {P : Type 0} where
  unfoldable pub step : Event P → Queue P → Queue P
  step (enqueued params) q = (enqueue params q).1
  step (cancel_called id) q = (cancel id q).1
  step (replay_called id) q = replay_dead_letter_job id q
  step (registered job_type) q = register_handler job_type q
  step start_called q = start q
  step stop_called q = stop q
  step loop_turned q = if loop_is_free q.draining q.running then take_next q else q
  step timer_fired q = time_out q
  step (handler_settled outcome) q = settle_running outcome q

  unfoldable pub run : List (Event P) → Queue P
  run [] = new_queue
  run (e ∷ earlier) = step e (run earlier)

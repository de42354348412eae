-- ===== src/Queue/Drain.antt =====
-- The loop `drain` of src/orchestration/in-memory-job-queue.ts, for handlers that call nothing on
-- the queue: it ends, and why.
use shld.Prelude.{
  ◌≡◌, ℕ, zero, suc, ◌+◌, ◌<◌, Bool, true, false, Option, none, some, List, All, any, if◌then◌else◌,
}
use shld.Queue.Jobs.{Job, find_job, same_job_type, is_waiting}
use shld.Queue.InMemory.{Queue}
use shld.Queue.Loop.{Settled, fulfilled, take_next, run_next, settle_running}
use shld.Queue.Order.{IsNext}
use shld.Queue.Work.{work}
use shld.Queue.Reach.{IsSoundQueue}

-- the turns that the loop still takes
abbrev turns : Bool → ℕ → ℕ
turns true n = n + 1
turns false n = 0

module _ {P : Type 0} where
  -- how the handler that the loop holds settles
  abbrev held_outcome : (Job P → Settled) → Option (Job P) → Settled
  held_outcome handler none = fulfilled
  held_outcome handler (some job) = handler job

  abbrev find_held : Option (List ℕ) → List (Job P) → Option (Job P)
  find_held none jobs = none
  find_held (some id) jobs = find_job id jobs

  -- the body of the loop
  unfoldable pub turn : (Job P → Settled) → Queue P → Queue P
  turn handler q =
      let t = take_next q in settle_running (held_outcome handler (find_held t.running t.jobs)) t

  -- `drain`, for as many turns as `fuel` allows
  unfoldable pub drain : ℕ → (Job P → Settled) → Queue P → Option (Queue P)
  drain zero handler q = none
  drain (suc fuel) handler q =
      let rest = drain fuel handler (turn handler q) in if q.draining then rest else some q

  -- no job waits, or the next one is of a type that nobody registered a handler for
  pub data IsFinished (q : Queue P) : Type 0 where
    nothing_waits : All (λ j. is_waiting j.state ≡ false) q.jobs → IsFinished q
    no_handler :
        (job : Job P)
        → IsNext job q.jobs
        → any (same_job_type job.job_type) q.handlers ≡ false
        → IsFinished q

  -- the rest of a turn, once the loop has looked for a job
  after : (Job P → Settled) → Queue P → Option (Job P) → Queue P
  after handler q o =
      let t = run_next q o in settle_running (held_outcome handler (find_held t.running t.jobs)) t

  -- a turn ends the loop, or it makes an attempt
  data Turned (q r : Queue P) : Type 0 where
    ended : r.draining ≡ false → IsFinished r → Turned q r
    attempted : r.draining ≡ q.draining → work r.jobs < work q.jobs → Turned q r

  -- it returns, and has nothing left to do
  pub record Returns (o : Option (Queue P)) : Type 0 where
    pub result : Queue P
    pub returned : o ≡ some result
    pub finished : IsFinished result
    pub sound : IsSoundQueue result

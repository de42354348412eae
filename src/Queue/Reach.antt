-- ===== src/Queue/Reach.antt =====
-- Every queue that calls and events on src/orchestration/in-memory-job-queue.ts can reach.
use mathlib.Core.Path.{subst}
use shld.Prelude.{
  ap, sym, ◌∙◌, ◌≡◌, refl, ℕ, Bool, true, Option, none, some, List, [], All, All-middle, arith, any,
  Bool-cases, inl, inr, get_or,
}
use shld.Queue.Jobs.{
  JobState, waiting, active, Job, EnqueueParams, is_cancelled, find_job, change_job, same_job_type,
  timeout, is_failed,
}
use shld.Queue.InMemory.{
  Queue, enqueue, cancel, start, replay_dead_letter_job, cancel_found, replay_found, enqueue_found,
  ensure_draining, new_job, aborted, id_of, cancelled_job, replayed_job,
}
use shld.Queue.Loop.{
  Settled, take_next, settle_held, time_out_held, run_next, settle_running, time_out, begun,
  settled_job, next_pending,
}
use shld.Queue.Events.{
  Event, enqueued, cancel_called, replay_called, registered, start_called, stop_called, loop_turned,
  timer_fired, handler_settled, step, loop_is_free,
}
use shld.Queue.Map.{find_job-changed}
use shld.Queue.Order.{IsNext, next_pending-IsNext}
use shld.Queue.SoundJob.{
  IsSound, new_job-IsSound, cancelled_job-IsSound, replayed_job-IsSound, aborted-IsSound,
  settled_job-IsSound, begun-IsSound, unheld-IsSound, picked-IsSound, cancelled_job-id,
  cancelled_job-active, unheld, waits, conflict, replayed_job-id, replayed_job-active,
  settled_job-id, begun-id,
}
use shld.Queue.Sound.{IsSoundMap, change-IsSoundMap, held-IsSoundMap, append-IsSoundMap}

free_loop :
    (draining : Bool) (running : Option (List ℕ))
    → loop_is_free draining running ≡ true
    → running ≡ none
free_loop draining running h = ground arith

module _ {P : Type 0} where
  abbrev pub IsSoundQueue : Queue P → Type 0
  IsSoundQueue q = IsSoundMap q.running q.jobs

  cancel_found-IsSound :
      (id : List ℕ) (q : Queue P) (o : Option (Job P))
      → IsSoundQueue q
      → IsSoundQueue (cancel_found id q o).1
  unfolding cancel_found cancelled_job
  cancel_found-IsSound id q none s = s
  cancel_found-IsSound id q (some job) s =
      change-IsSoundMap q.running id (λ j. cancelled_job j.state j) q.jobs
        (λ j h. cancelled_job-id j h) (λ j found a. cancelled_job-active j a)
        (λ j h found sj. cancelled_job-IsSound q.running j sj) s

  replayed-IsSound :
      (id : List ℕ) (q : Queue P)
      → IsSoundQueue q
      → IsSoundMap q.running (change_job id replayed_job q.jobs)
  replayed-IsSound id q s =
      change-IsSoundMap q.running id replayed_job q.jobs (λ j h. replayed_job-id j h)
        (λ j found a. replayed_job-active j a) (λ j h found sj. replayed_job-IsSound q.running j sj)
        s

  replay_found-IsSound :
      (id : List ℕ) (q : Queue P) (o : Option (Job P))
      → IsSoundQueue q
      → IsSoundQueue (replay_found id q o)
  unfolding replay_found ensure_draining
  replay_found-IsSound id q none s = s
  replay_found-IsSound id q (some job) s = elim (Bool-cases (is_failed job.state)) [
    | inl f ↦ elim (Bool-cases q.started) [
      | inl b ↦ rw (f, b) (replayed-IsSound id q s)
      | inr b ↦ rw (f, b) (replayed-IsSound id q s)
    ]
    | inr f ↦ rw f s
  ]

  time_out_held-IsSound :
      (q : Queue P) (o : Option (List ℕ)) → IsSoundQueue q → IsSoundQueue (time_out_held q o)
  unfolding time_out_held
  time_out_held-IsSound q none s = s
  time_out_held-IsSound q (some id) s =
      change-IsSoundMap q.running id (aborted timeout) q.jobs (λ j h. h) (λ j found a. a)
        (λ j h found sj. aborted-IsSound q.running j sj) s

  state_of : Option (Job P) → JobState
  state_of none = waiting
  state_of (some j) = j.state

  pub settle_held-IsSound :
      (outcome : Settled) (q : Queue P) (o : Option (List ℕ))
      → q.running ≡ o
      → IsSoundQueue q
      → IsSoundQueue (settle_held outcome q o)
  unfolding settle_held state_of
  settle_held-IsSound outcome q none e s = s
  settle_held-IsSound outcome q (some id) e s =
      held-IsSoundMap (some id) none id (settled_job outcome) q.jobs
        (λ j h. settled_job-id outcome j h)
        (λ j h found sj.
          let (k, found2, a) = s.present id e in
          settled_job-IsSound (some id) outcome j
            (sj.tried (inl (ap state_of (sym found ∙ found2) ∙ a))) sj)
        (λ j ne sj. unheld-IsSound id none j ne sj) (λ k h. unheld h)
        (subst (λ r. IsSoundMap r q.jobs) e s)

  -- the next job is the one that the map holds under its id
  pub next-found :
      (q : Queue P) (job : Job P)
      → IsNext job q.jobs
      → IsSoundQueue q
      → find_job job.job_id q.jobs ≡ some job
  next-found q job n s =
      All-middle _ n.before job n.after
        (subst (All (λ j. find_job j.job_id q.jobs ≡ some j)) n.place s.keyed)

  pub next-waits :
      (q : Queue P) (job j : Job P)
      → IsNext job q.jobs
      → IsSoundQueue q
      → find_job job.job_id q.jobs ≡ some j
      → j.state ≡ waiting
  unfolding state_of
  next-waits q job j n s found =
      ap state_of (sym found ∙ next-found q job n s) ∙ waits job.state n.waits

  -- the loop holds no job, and takes a waiting one
  run_next-IsSound :
      (q : Queue P) (o : Option (Job P))
      → q.running ≡ none
      → next_pending q.jobs ≡ o
      → IsSoundQueue q
      → IsSoundQueue (run_next q o)
  unfolding run_next begun state_of
  run_next-IsSound q none e p s = s
  run_next-IsSound q (some job) e p s =
      elim (Bool-cases (any (same_job_type job.job_type) q.handlers)) [
        | inl b ↦ rw b (
            let n = next_pending-IsNext q.jobs job p in
            let found = next-found q job n s in
            held-IsSoundMap none (some job.job_id) job.job_id begun q.jobs (λ j h. begun-id j h)
              (λ j h found2 sj.
                let w = next-waits q job j n s found2 in
                subst (λ i. IsSound (some i) (begun j)) h (begun-IsSound j w sj))
              (λ j ne sj. picked-IsSound (some job.job_id) j sj)
              (λ k h.
                subst
                  (λ i.
                    (x : Job P) × (find_job i (change_job job.job_id begun q.jobs) ≡ some x)
                    × (x.state ≡ active))
                  (ap (λ o. get_or o []) h)
                  (
                    begun job,
                    find_job-changed job.job_id begun q.jobs job (λ j g. begun-id j g) found,
                    refl,
                  ))
              (subst (λ r. IsSoundMap r q.jobs) e s))
        | inr b ↦ rw b s
      ]

  enqueue_found-IsSound :
      (params : EnqueueParams P) (q : Queue P) (o : Option (Job P))
      → find_job (id_of params) q.jobs ≡ o
      → IsSoundQueue q
      → IsSoundQueue (enqueue_found params q o).1
  unfolding enqueue_found ensure_draining state_of
  enqueue_found-IsSound params q none e s = elim (Bool-cases q.started) [
    | inl b ↦
        rw b (
          append-IsSoundMap q.running (new_job params) q.jobs e (new_job-IsSound q.running params)
            s)
    | inr b ↦
        rw b (
          append-IsSoundMap q.running (new_job params) q.jobs e (new_job-IsSound q.running params)
            s)
  ]
  enqueue_found-IsSound params q (some old) e s = elim (Bool-cases (is_cancelled old.state)) [
    | inl c ↦
        let replaced =
          change-IsSoundMap q.running (id_of params) (λ _. new_job params) q.jobs (λ j h. refl)
            (λ j found a. conflict old.state j.state c (ap state_of (sym e ∙ found)) a)
            (λ j h found sj. new_job-IsSound q.running params) s in
        elim (Bool-cases q.started) [ inl b ↦ rw (c, b) replaced | inr b ↦ rw (c, b) replaced ]
    | inr c ↦ rw c s
  ]

  start-IsSound : (q : Queue P) → IsSoundQueue q → IsSoundQueue (start q)
  unfolding ensure_draining
  start-IsSound q s = s

  pub take_next-IsSound :
      (q : Queue P) → q.running ≡ none → IsSoundQueue q → IsSoundQueue (take_next q)
  unfolding take_next
  take_next-IsSound q free s = run_next-IsSound q (next_pending q.jobs) free refl s

  -- Every call and every event keeps the invariant.
  pub step-IsSound : (e : Event P) (q : Queue P) → IsSoundQueue q → IsSoundQueue (step e q)
  unfolding step enqueue cancel replay_dead_letter_job settle_running time_out
  step-IsSound (enqueued params) q s =
      enqueue_found-IsSound params q (find_job (id_of params) q.jobs) refl s
  step-IsSound (cancel_called id) q s = cancel_found-IsSound id q (find_job id q.jobs) s
  step-IsSound (replay_called id) q s = replay_found-IsSound id q (find_job id q.jobs) s
  step-IsSound (registered job_type) q s = s
  step-IsSound start_called q s = start-IsSound q s
  step-IsSound stop_called q s = s
  step-IsSound loop_turned q s = elim (Bool-cases (loop_is_free q.draining q.running)) [
    | inl b ↦ rw b (take_next-IsSound q (free_loop q.draining q.running b) s)
    | inr b ↦ rw b s
  ]
  step-IsSound timer_fired q s = time_out_held-IsSound q q.running s
  step-IsSound (handler_settled outcome) q s = settle_held-IsSound outcome q q.running refl s

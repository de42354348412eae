-- ===== src/Queue/SoundJob.antt =====
-- What holds of each job of src/orchestration/in-memory-job-queue.ts between two events.
use shld.Prelude.{
  ◌≡◌, ◌⊎◌, ℕ, ◌≤◌, ◌<◌, true, false, Option, none, some, List, ◌==◌, arith, if◌then◌else◌,
}
use shld.Prelude.Text.{text_eq, text_eq_iff}
use shld.Queue.Jobs.{
  JobState, waiting, delayed, active, completed, failed, Job, EnqueueParams, timeout, is_waiting,
  is_cancelled,
}
use shld.Queue.InMemory.{new_job, aborted, cancelled_job, replayed_job}
use shld.Queue.Loop.{Settled, begun, settled_job}

module _ {P : Type 0} where
  -- the attempts that a job gets: one, where it asks for none
  abbrev pub limit : Job P → ℕ
  limit job = if job.max_attempts == 0 then 1 else job.max_attempts

  -- what holds of a job while the loop runs the job of the id `running`
  pub record IsSound (running : Option (List ℕ)) (job : Job P) : Type 0 where
    pub bounded : job.attempts_made ≤ limit job
    pub has_attempt : (job.state ≡ waiting) ⊎ (job.state ≡ delayed) → job.attempts_made < limit job
    pub dead : job.state ≡ failed → job.attempts_made ≡ limit job
    pub tried : (job.state ≡ active) ⊎ (job.state ≡ completed) → 0 < job.attempts_made
    pub held : job.state ≡ active → running ≡ some job.job_id

  pub new_job-IsSound :
      (r : Option (List ℕ)) (params : EnqueueParams P) → IsSound r (new_job params)
  new_job-IsSound r params = ground arith

  pub cancelled_job-IsSound :
      (r : Option (List ℕ)) (j : Job P) → IsSound r j → IsSound r (cancelled_job j.state j)
  unfolding cancelled_job
  cancelled_job-IsSound r j s = ground arith

  pub replayed_job-IsSound :
      (r : Option (List ℕ)) (j : Job P) → IsSound r j → IsSound r (replayed_job j)
  unfolding replayed_job
  replayed_job-IsSound r j s = ground arith

  pub aborted-IsSound :
      (r : Option (List ℕ)) (j : Job P) → IsSound r j → IsSound r (aborted timeout j)
  aborted-IsSound r j s = ground arith

  pub settled_job-IsSound :
      (r : Option (List ℕ)) (outcome : Settled) (j : Job P)
      → 0 < j.attempts_made
      → IsSound r j
      → IsSound none (settled_job outcome j)
  unfolding settled_job
  settled_job-IsSound r outcome j t s = ground arith

  pub begun-IsSound :
      (j : Job P) → (j.state ≡ waiting) → IsSound none j → IsSound (some j.job_id) (begun j)
  unfolding begun
  begun-IsSound j w s = ground arith

  -- a job that is not held is sound, whatever the loop holds
  pub unheld-IsSound :
      (id : List ℕ) (r : Option (List ℕ)) (j : Job P)
      → text_eq j.job_id id ≡ false
      → IsSound (some id) j
      → IsSound r j
  unheld-IsSound id r j ne s = ground (arith, text_eq_iff j.job_id id)

  pub picked-IsSound : (r : Option (List ℕ)) (j : Job P) → IsSound none j → IsSound r j
  picked-IsSound r j s = ground arith

  -- what the writes keep: the id, and that the job is active
  pub cancelled_job-id :
      {k : List ℕ} (j : Job P) → j.job_id ≡ k → (cancelled_job j.state j).job_id ≡ k
  unfolding cancelled_job
  cancelled_job-id j h = ground (arith, h)

  pub cancelled_job-active :
      (j : Job P) → j.state ≡ active → (cancelled_job j.state j).state ≡ active
  unfolding cancelled_job
  cancelled_job-active j h = ground (arith, h)

  pub replayed_job-id : {k : List ℕ} (j : Job P) → j.job_id ≡ k → (replayed_job j).job_id ≡ k
  unfolding replayed_job
  replayed_job-id j h = ground (arith, h)

  pub replayed_job-active : (j : Job P) → j.state ≡ active → (replayed_job j).state ≡ active
  unfolding replayed_job
  replayed_job-active j h = ground (arith, h)

  pub begun-id : {k : List ℕ} (j : Job P) → j.job_id ≡ k → (begun j).job_id ≡ k
  unfolding begun
  begun-id j h = h

  pub settled_job-id :
      {k : List ℕ} (outcome : Settled) (j : Job P)
      → j.job_id ≡ k
      → (settled_job outcome j).job_id ≡ k
  unfolding settled_job
  settled_job-id outcome j h = ground (arith, h)

-- nobody holds a job of no id
pub unheld : {k : List ℕ} {B : Type 0} → none ≡ some k → B
unheld h = ground arith

pub waits : (s : JobState) → is_waiting s ≡ true → s ≡ waiting
waits s h = ground arith

-- a cancelled job is not active
pub conflict : {B : Type 0} (s t : JobState) → is_cancelled s ≡ true → s ≡ t → t ≡ active → B
conflict s t c e a = ground arith

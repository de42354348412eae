-- ===== src/Queue/Sound.antt =====
-- The invariant of the queue of src/orchestration/in-memory-job-queue.ts.
use mathlib.Core.Path.{subst}
use shld.Prelude.{
  ap, sym, ◌∙◌, ◌≡◌, ℕ, false, Option, none, some, List, [], ◌∷◌, ◌++◌, All, All-append, All-map,
  All-both, Bool-cases, inl, inr,
}
use shld.Prelude.Text.{text_eq, text_eq_iff}
use shld.Queue.Jobs.{active, Job, find_job, change_job}
use shld.Queue.Map.{
  text_eq-same, text_eq-swap, find_job-changed, find_job-other, find_job-append, All-change,
}
use shld.Queue.SoundJob.{IsSound}

module _ {P : Type 0} where
  -- The loop runs an active job, every id names one job, and every job is sound.
  pub record IsSoundMap (running : Option (List ℕ)) (jobs : List (Job P)) : Type 0 where
    pub each : All (IsSound running) jobs
    pub keyed : All (λ j. find_job j.job_id jobs ≡ some j) jobs
    pub present :
        (id : List ℕ)
        → running ≡ some id
        → (j : Job P) × (find_job id jobs ≡ some j) × (j.state ≡ active)

  keyed-change :
      (k : List ℕ) (f : Job P → Job P) (jobs : List (Job P))
      → ((j : Job P) → j.job_id ≡ k → (f j).job_id ≡ k)
      → All (λ j. find_job j.job_id jobs ≡ some j) jobs
      → All (λ j. find_job j.job_id (change_job k f jobs) ≡ some j) (change_job k f jobs)
  keyed-change k f jobs keeps h =
      All-change _ _ k f jobs
        (λ j e found.
          subst (λ i. find_job i (change_job k f jobs) ≡ some (f j)) (sym (keeps j e))
            (find_job-changed k f jobs j keeps (sym (ap (λ i. find_job i jobs) e) ∙ found)))
        (λ j ne found. find_job-other j.job_id k f jobs keeps (text_eq-swap j.job_id k ne) ∙ found)
        h

  present-change :
      (id k : List ℕ) (f : Job P → Job P) (jobs : List (Job P))
      → ((j : Job P) → j.job_id ≡ k → (f j).job_id ≡ k)
      → ((j : Job P) → find_job k jobs ≡ some j → j.state ≡ active → (f j).state ≡ active)
      → (j : Job P) × (find_job id jobs ≡ some j) × (j.state ≡ active)
      → (j : Job P) × (find_job id (change_job k f jobs) ≡ some j) × (j.state ≡ active)
  present-change id k f jobs keeps stays (j, found, a) = elim (Bool-cases (text_eq k id)) [
    | inl e ↦
        let same = (text_eq_iff k id).0 e in
        let here = ap (λ i. find_job i jobs) same ∙ found in
        (
          f j,
          subst (λ i. find_job i (change_job k f jobs) ≡ some (f j)) same
              (find_job-changed k f jobs j keeps here),
          stays j here a,
        )
    | inr ne ↦ (j, find_job-other id k f jobs keeps ne ∙ found, a)
  ]

  -- a write of a job that keeps an active job active
  pub change-IsSoundMap :
      (r : Option (List ℕ)) (k : List ℕ) (f : Job P → Job P) (jobs : List (Job P))
      → ((j : Job P) → j.job_id ≡ k → (f j).job_id ≡ k)
      → ((j : Job P) → find_job k jobs ≡ some j → j.state ≡ active → (f j).state ≡ active)
      → ((j : Job P) → j.job_id ≡ k → find_job k jobs ≡ some j → IsSound r j → IsSound r (f j))
      → IsSoundMap r jobs
      → IsSoundMap r (change_job k f jobs)
  change-IsSoundMap r k f jobs keeps stays sound s = record {
    each =
        All-change _ _ k f jobs
          (λ j e (sj, found). sound j e (sym (ap (λ i. find_job i jobs) e) ∙ found) sj)
          (λ j ne (sj, found). sj) (All-both _ _ jobs s.each s.keyed);
    keyed = keyed-change k f jobs keeps s.keyed;
    present = λ id h. present-change id k f jobs keeps stays (s.present id h);
  }

  -- a write under the id of the job that the loop takes or gives back
  pub held-IsSoundMap :
      (r t : Option (List ℕ)) (k : List ℕ) (f : Job P → Job P) (jobs : List (Job P))
      → ((j : Job P) → j.job_id ≡ k → (f j).job_id ≡ k)
      → ((j : Job P) → j.job_id ≡ k → find_job k jobs ≡ some j → IsSound r j → IsSound t (f j))
      → ((j : Job P) → text_eq j.job_id k ≡ false → IsSound r j → IsSound t j)
      → ((id : List ℕ)
          → t ≡ some id
          → (j : Job P) × (find_job id (change_job k f jobs) ≡ some j) × (j.state ≡ active))
      → IsSoundMap r jobs
      → IsSoundMap t (change_job k f jobs)
  held-IsSoundMap r t k f jobs keeps hit miss present s = record {
    each =
        All-change _ _ k f jobs
          (λ j e (sj, found). hit j e (sym (ap (λ i. find_job i jobs) e) ∙ found) sj)
          (λ j ne (sj, found). miss j ne sj) (All-both _ _ jobs s.each s.keyed);
    keyed = keyed-change k f jobs keeps s.keyed;
    present = present;
  }

  -- a job under a new id
  pub append-IsSoundMap :
      (r : Option (List ℕ)) (job : Job P) (jobs : List (Job P))
      → find_job job.job_id jobs ≡ none
      → IsSound r job
      → IsSoundMap r jobs
      → IsSoundMap r (jobs ++ job ∷ [])
  append-IsSoundMap r job jobs absent sj s = record {
    each = All-append _ jobs (job ∷ []) s.each (sj, tt);
    keyed =
        All-append _ jobs (job ∷ [])
          (All-map _ _ jobs (λ j found. find_job-append j.job_id job jobs ∙ rw found) s.keyed)
          (find_job-append job.job_id job jobs ∙ rw (absent, text_eq-same job.job_id), tt);
    present = λ id h.
        let (j, found, a) = s.present id h in (j, find_job-append id job jobs ∙ rw found, a);
  }

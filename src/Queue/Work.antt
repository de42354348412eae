-- ===== src/Queue/Work.antt =====
-- The attempts that the jobs of the in-memory queue have left, and what an attempt leaves of them.
use shld.Prelude.{
  sym, ◌∙◌, ◌≡◌, refl, ℕ, ◌+◌, ◌-◌, ◌≤◌, ◌<◌, true, some, List, [], ◌∷◌, All, arith, Bool-cases,
  inl, inr, if◌then◌else◌,
}
use shld.Prelude.Text.{text_eq}
use shld.Queue.Jobs.{waiting, Job, find_job, change_job, is_waiting}
use shld.Queue.Loop.{Settled, begun, settled_job}
use shld.Queue.Map.{find_job-skip}
use shld.Queue.SoundJob.{limit}

module _ {P : Type 0} where
  -- the attempts that the waiting jobs have left
  abbrev remaining : Job P → ℕ
  remaining job = if is_waiting job.state then limit job - job.attempts_made else 0

  unfoldable pub work : List (Job P) → ℕ
  work [] = 0
  work (job ∷ jobs) = remaining job + work jobs

  abbrev Lowers : List ℕ → (Job P → Job P) → Job P → Type 0
  Lowers k f j = text_eq j.job_id k ≡ true → remaining (f j) < remaining j

  work-change_le :
      (k : List ℕ) (f : Job P → Job P) (jobs : List (Job P))
      → All (Lowers k f) jobs
      → work (change_job k f jobs) ≤ work jobs
  unfolding work change_job
  work-change_le k f [] h = omega arith
  work-change_le k f (j ∷ jobs) (a, h) = elim (Bool-cases (text_eq j.job_id k)) [
    | inl e ↦ rw e (omega (arith, a e, work-change_le k f jobs h))
    | inr e ↦ rw e (omega (arith, work-change_le k f jobs h))
  ]

  pub work-change_lt :
      (k : List ℕ) (f : Job P → Job P) (jobs : List (Job P)) (job : Job P)
      → find_job k jobs ≡ some job
      → All (Lowers k f) jobs
      → work (change_job k f jobs) < work jobs
  unfolding work change_job find_job
  work-change_lt k f [] job found h = ground arith
  work-change_lt k f (j ∷ jobs) job found (a, h) = elim (Bool-cases (text_eq j.job_id k)) [
    | inl e ↦ rw e (omega (arith, a e, work-change_le k f jobs h))
    | inr e ↦
        rw e (omega (arith, work-change_lt k f jobs job (sym (find_job-skip k j jobs e) ∙ found) h))
  ]

  pub change-change :
      (k : List ℕ) (f g : Job P → Job P) (jobs : List (Job P))
      → ((j : Job P) → (f j).job_id ≡ j.job_id)
      → change_job k g (change_job k f jobs) ≡ change_job k (λ j. g (f j)) jobs
  unfolding change_job
  change-change k f g [] keeps = refl
  change-change k f g (j ∷ jobs) keeps = ground (arith, change-change k f g jobs keeps, keeps j)

  pub attempt_lowers :
      (outcome : Settled) (j : Job P)
      → j.state ≡ waiting
      → j.attempts_made < limit j
      → remaining (settled_job outcome (begun j)) < remaining j
  unfolding settled_job begun
  attempt_lowers outcome j w lt = ground arith

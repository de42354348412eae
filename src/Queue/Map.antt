-- ===== src/Queue/Map.antt =====
-- The map of jobs by their ids: `get` after a write.
use mathlib.Core.Path.{subst}
use shld.Prelude.{
  sym, ◌∙◌, ◌≡◌, refl, ℕ, true, false, Option, none, some, List, [], ◌∷◌, ◌++◌, All, arith,
  Bool-cases, inl, inr, if◌then◌else◌,
}
use shld.Prelude.Text.{text_eq, text_eq_iff}
use shld.Queue.Jobs.{Job, find_job, change_job}

pub text_eq-same : (a : List ℕ) → text_eq a a ≡ true
text_eq-same a = (text_eq_iff a a).1 refl

pub text_eq-swap : (a b : List ℕ) → text_eq a b ≡ false → text_eq b a ≡ false
text_eq-swap a b h = ground (arith, text_eq_iff a b, text_eq_iff b a)

module _ {P : Type 0} where
  abbrev pub map_job : (Job P → Job P) → Option (Job P) → Option (Job P)
  map_job f none = none
  map_job f (some j) = some (f j)

  -- the changed job is found under its id, and every other as before
  pub find_job-change :
      (i k : List ℕ) (f : Job P → Job P) (jobs : List (Job P))
      → ((j : Job P) → j.job_id ≡ k → (f j).job_id ≡ k)
      → find_job i (change_job k f jobs)
        ≡ (if text_eq k i then map_job f (find_job i jobs) else find_job i jobs)
  unfolding find_job change_job
  find_job-change i k f [] keeps = ground arith
  find_job-change i k f (j ∷ jobs) keeps = elim (Bool-cases (text_eq j.job_id k)) [
    | inl e ↦ ground (arith, find_job-change i k f jobs keeps, keeps j, text_eq_iff j.job_id k)
    | inr e ↦ ground (
      arith,
      find_job-change i k f jobs keeps,
      text_eq_iff j.job_id i,
      text_eq_iff k i,
      text_eq-same k,
    )
  ]

  pub find_job-skip :
      (k : List ℕ) (j : Job P) (jobs : List (Job P))
      → text_eq j.job_id k ≡ false
      → find_job k (j ∷ jobs) ≡ find_job k jobs
  unfolding find_job
  find_job-skip k j jobs h = rw h

  pub find_job-changed :
      (k : List ℕ) (f : Job P → Job P) (jobs : List (Job P)) (j : Job P)
      → ((j : Job P) → j.job_id ≡ k → (f j).job_id ≡ k)
      → find_job k jobs ≡ some j
      → find_job k (change_job k f jobs) ≡ some (f j)
  find_job-changed k f jobs j keeps h = find_job-change k k f jobs keeps ∙ rw (text_eq-same k, h)

  pub find_job-other :
      (i k : List ℕ) (f : Job P → Job P) (jobs : List (Job P))
      → ((j : Job P) → j.job_id ≡ k → (f j).job_id ≡ k)
      → text_eq k i ≡ false
      → find_job i (change_job k f jobs) ≡ find_job i jobs
  find_job-other i k f jobs keeps h = find_job-change i k f jobs keeps ∙ rw h

  -- a job under a new id is found at the end
  pub find_job-append :
      (i : List ℕ) (job : Job P) (jobs : List (Job P))
      → find_job i (jobs ++ job ∷ []) ≡ elim (find_job i jobs) [
        | none ↦ (if text_eq job.job_id i then some job else none)
        | some j ↦ some j
      ]
  unfolding find_job
  find_job-append i job [] = ground arith
  find_job-append i job (j ∷ jobs) = ground (arith, find_job-append i job jobs)

  -- a predicate on every job, after a write
  pub All-change :
      (A B : Job P → Type 0) (id : List ℕ) (f : Job P → Job P) (jobs : List (Job P))
      → ((j : Job P) → j.job_id ≡ id → A j → B (f j))
      → ((j : Job P) → text_eq j.job_id id ≡ false → A j → B j)
      → All A jobs
      → All B (change_job id f jobs)
  unfolding change_job
  All-change A B id f [] hit miss h = tt
  All-change A B id f (j ∷ jobs) hit miss (a, h) = (
    elim (Bool-cases (text_eq j.job_id id)) [
      | inl e ↦
          subst (λ b. B (if b then f j else j)) (sym e) (hit j ((text_eq_iff j.job_id id).0 e) a)
      | inr e ↦ subst (λ b. B (if b then f j else j)) (sym e) (miss j e a)
    ],
    All-change A B id f jobs hit miss h,
  )

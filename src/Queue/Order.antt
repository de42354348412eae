-- ===== src/Queue/Order.antt =====
-- The choice of the next job: src/orchestration/in-memory-job-queue.ts, `drain`.
use shld.Prelude.{
  ap, sym, ◌≡◌, refl, ◌≤◌, ◌<◌, Bool, true, false, Option, none, some, List, [], ◌∷◌, ◌++◌, keep,
  All, All-append, leb, arith, Bool-cases, inl, inr, if◌then◌else◌,
}
use mathlib.Core.Path.{subst}
use shld.Queue.Jobs.{Job, is_waiting}
use shld.Queue.Loop.{insert_by_priority, sort_by_priority, next_pending, first}

module _ {P : Type 0} where
  -- `job` waits at some place of the list, behind waiting jobs of greater numbers only and before
  -- waiting jobs of no smaller number.
  pub record IsNext (job : Job P) (jobs : List (Job P)) : Type 0 where
    pub before : List (Job P)
    pub after : List (Job P)
    pub place : jobs ≡ before ++ job ∷ after
    pub waits : is_waiting job.state ≡ true
    pub earlier : All (λ j. is_waiting j.state ≡ true → job.priority < j.priority) before
    pub later : All (λ j. is_waiting j.state ≡ true → job.priority ≤ j.priority) after

  -- the next job, once a waiting job joins the list in front
  abbrev prefer : Job P → Option (Job P) → Job P
  prefer job none = job
  prefer job (some other) = if leb job.priority other.priority then job else other

  first-insert :
      (job : Job P) (jobs : List (Job P))
      → first (insert_by_priority job jobs) ≡ some (prefer job (first jobs))
  unfolding insert_by_priority
  first-insert job [] = refl
  first-insert job (other ∷ jobs) = ground arith

  next-waiting :
      (job : Job P) (jobs : List (Job P))
      → is_waiting job.state ≡ true
      → next_pending (job ∷ jobs) ≡ some (prefer job (next_pending jobs))
  unfolding next_pending sort_by_priority
  next-waiting job jobs h =
      rw h (first-insert job (sort_by_priority (keep (λ j. is_waiting j.state) jobs)))

  next-idle :
      (job : Job P) (jobs : List (Job P))
      → is_waiting job.state ≡ false
      → next_pending (job ∷ jobs) ≡ next_pending jobs
  unfolding next_pending sort_by_priority
  next-idle job jobs h = rw h

  -- no waiting job stands in the list
  idle :
      (job : Job P) (jobs : List (Job P))
      → All (λ j. is_waiting j.state ≡ false) jobs
      → All (λ j. is_waiting j.state ≡ true → job.priority ≤ j.priority) jobs
  idle job [] h = tt
  idle job (j ∷ jobs) (w, h) = (λ v. ground arith, idle job jobs h)

  -- the waiting jobs of the list come after one that comes after them
  above :
      (job other : Job P) (jobs : List (Job P))
      → job.priority ≤ other.priority
      → All (λ j. is_waiting j.state ≡ true → other.priority ≤ j.priority) jobs
      → All (λ j. is_waiting j.state ≡ true → job.priority ≤ j.priority) jobs
  above job other [] le h = tt
  above job other (j ∷ jobs) le (k, h) = (λ v. omega (arith, le, k v), above job other jobs le h)

  weaken :
      (job : Job P) (jobs : List (Job P))
      → All (λ j. is_waiting j.state ≡ true → job.priority < j.priority) jobs
      → All (λ j. is_waiting j.state ≡ true → job.priority ≤ j.priority) jobs
  weaken job [] h = tt
  weaken job (j ∷ jobs) (k, h) = (λ v. omega (arith, k v), weaken job jobs h)

  not_later :
      (job : Job P) (jobs : List (Job P))
      → IsNext job jobs
      → All (λ j. is_waiting j.state ≡ true → job.priority ≤ j.priority) jobs
  not_later job jobs n =
      subst (λ l. All (λ j. is_waiting j.state ≡ true → job.priority ≤ j.priority) l) (sym n.place)
        (All-append (λ j. is_waiting j.state ≡ true → job.priority ≤ j.priority) n.before
          (job ∷ n.after) (weaken job n.before n.earlier) (λ _. omega arith, n.later))

  behind :
      (j job : Job P) (jobs : List (Job P))
      → (is_waiting j.state ≡ true → job.priority < j.priority)
      → IsNext job jobs
      → IsNext job (j ∷ jobs)
  behind j job jobs lt n = record {
    before = j ∷ n.before;
    after = n.after;
    place = ap (λ l. j ∷ l) n.place;
    waits = n.waits;
    earlier = (lt, n.earlier);
    later = n.later;
  }

  -- what the next job, or its absence, says of the list
  abbrev Choice : Option (Job P) → List (Job P) → Type 0
  Choice none jobs = All (λ j. is_waiting j.state ≡ false) jobs
  Choice (some job) jobs = IsNext job jobs

  skip :
      (j : Job P) (jobs : List (Job P)) (o : Option (Job P))
      → is_waiting j.state ≡ false
      → Choice o jobs
      → Choice o (j ∷ jobs)
  skip j jobs none w c = (w, c)
  skip j jobs (some job) w c = behind j job jobs (λ v. ground arith) c

  join_some :
      (j job : Job P) (jobs : List (Job P)) (b : Bool)
      → leb j.priority job.priority ≡ b
      → is_waiting j.state ≡ true
      → IsNext job jobs
      → IsNext (if b then j else job) (j ∷ jobs)
  join_some j job jobs true e w n = record {
    before = [];
    after = jobs;
    place = refl;
    waits = w;
    earlier = tt;
    later = above j job jobs (ground arith) (not_later job jobs n);
  }
  join_some j job jobs false e w n = behind j job jobs (λ _. ground arith) n

  join :
      (j : Job P) (jobs : List (Job P)) (o : Option (Job P))
      → is_waiting j.state ≡ true
      → Choice o jobs
      → IsNext (prefer j o) (j ∷ jobs)
  join j jobs none w c = record {
    before = [];
    after = jobs;
    place = refl;
    waits = w;
    earlier = tt;
    later = idle j jobs c;
  }
  join j jobs (some job) w c = join_some j job jobs (leb j.priority job.priority) refl w c

  choice : (jobs : List (Job P)) → Choice (next_pending jobs) jobs
  unfolding next_pending sort_by_priority
  choice [] = tt
  choice (j ∷ jobs) = elim (Bool-cases (is_waiting j.state)) [
    | inl w ↦
        subst (λ o. Choice o (j ∷ jobs)) (sym (next-waiting j jobs w))
          (join j jobs (next_pending jobs) w (choice jobs))
    | inr w ↦
        subst (λ o. Choice o (j ∷ jobs)) (sym (next-idle j jobs w))
          (skip j jobs (next_pending jobs) w (choice jobs))
  ]

  -- The job that the loop takes next is a waiting job of the smallest number and, among those, the
  -- one that stands first in the map.
  pub next_pending-IsNext :
      (jobs : List (Job P)) (job : Job P) → next_pending jobs ≡ some job → IsNext job jobs
  next_pending-IsNext jobs job h = subst (λ o. Choice o jobs) h (choice jobs)

  -- The loop ends only when no job waits.
  pub next_pending-none :
      (jobs : List (Job P)) → next_pending jobs ≡ none → All (λ j. is_waiting j.state ≡ false) jobs
  next_pending-none jobs h = subst (λ o. Choice o jobs) h (choice jobs)

-- ===== src/Api/Fairness.antt =====
-- src/orchestration/tenant-concurrency.ts: the jobs of one organization that hold a slot. Redis keeps
-- a set of job ids; a call of tryAcquire reads its size in one step and adds to it in a later one, so
-- that other calls may come between.
use shld.Prelude.{
  ℕ, suc, ◌+◌, ◌≤◌, ◌<◌, ◌≡◌, Bool, true, false, not, List, [], ◌∷◌, arith, any, keep, length, leb,
  ◌==◌, if◌then◌else◌,
}

-- `SADD` and `SREM`
unfoldable pub add_member : ℕ → List ℕ → List ℕ
add_member job set = if any (λ j. j == job) set then set else job ∷ set

unfoldable pub remove_member : ℕ → List ℕ → List ℕ
remove_member job set = keep (λ j. not (j == job)) set

abbrev pub remove_once : ℕ → List ℕ → List ℕ
remove_once job [] = []
remove_once job (j ∷ js) = let rest = remove_once job js in if j == job then js else j ∷ rest

-- the set of one organization, each of which has a key of its own; and the calls that have found room and have not yet added their job
pub record Slots : Type 0 where
  pub holders : List ℕ
  pub admitted : List ℕ

-- `count >= this.limit` is false
unfoldable pub has_room : ℕ → Slots → Bool
has_room limit s = not (leb limit (length s.holders))

-- the first half of tryAcquire
unfoldable pub admit_job : ℕ → ℕ → Slots → Slots
unfolding has_room
admit_job limit job s = if has_room limit s then record s { admitted = job ∷ s.admitted } else s

-- the second half
unfoldable pub seat_job : ℕ → Slots → Slots
unfolding add_member
seat_job job s = record {
  holders = add_member job s.holders;
  admitted = remove_once job s.admitted;
}

-- both halves with nothing between them
unfoldable pub try_acquire : ℕ → ℕ → Slots → Bool × Slots
unfolding admit_job seat_job
try_acquire limit job s =
    if has_room limit s then (true, seat_job job (admit_job limit job s)) else (false, s)

unfoldable pub release : ℕ → Slots → Slots
unfolding remove_member
release job s = record s { holders = remove_member job s.holders }

unfoldable pub current_count : Slots → ℕ
current_count s = length s.holders

-- What may happen while at most `k` calls are under way at once: a call finds room, one that found
-- room adds its job, or a job is released.
pub data Step (limit k : ℕ) : Slots → Slots → Type 0 where
  admits :
      (job : ℕ) (s : Slots)
      → has_room limit s ≡ true
      → length s.admitted < k
      → Step limit k s (admit_job limit job s)
  seats :
      (job : ℕ) (s : Slots)
      → any (λ j. j == job) s.admitted ≡ true
      → Step limit k s (seat_job job s)
  releases : (job : ℕ) (s : Slots) → Step limit k s (release job s)

pub data Reach (limit k : ℕ) : Slots → Type 0 where
  empty : Reach limit k (record { holders = []; admitted = [] })
  next : {s t : Slots} → Reach limit k s → Step limit k s t → Reach limit k t

length-keep : (p : ℕ → Bool) (xs : List ℕ) → length (keep p xs) ≤ length xs
length-keep p [] = omega arith
length-keep p (x ∷ xs) = ground (arith, length-keep p xs)

length-remove_once :
    (job : ℕ) (xs : List ℕ)
    → any (λ j. j == job) xs ≡ true
    → suc (length (remove_once job xs)) ≡ length xs
length-remove_once job [] h = cc
length-remove_once job (x ∷ xs) h = ground (arith, length-remove_once job xs)

length-add_member : (job : ℕ) (xs : List ℕ) → length (add_member job xs) ≤ suc (length xs)
unfolding add_member
length-add_member job xs = ground arith

abbrev IsBounded : ℕ → ℕ → Slots → Type 0
IsBounded limit k s = length s.holders + length s.admitted < limit + k

Step-IsBounded :
    {limit k : ℕ} {s t : Slots} → Step limit k s t → IsBounded limit k s → IsBounded limit k t
unfolding admit_job seat_job release remove_member
Step-IsBounded (admits job s room few) b = ground arith
Step-IsBounded (seats job s waiting) b =
    omega (arith, length-add_member job s.holders, length-remove_once job s.admitted waiting)
Step-IsBounded (releases job s) b = omega (arith, length-keep (λ j. not (j == job)) s.holders)

Reach-IsBounded : {limit k : ℕ} {s : Slots} → 0 < k → Reach limit k s → IsBounded limit k s
Reach-IsBounded h empty = omega arith
Reach-IsBounded h (next r step) = Step-IsBounded step (Reach-IsBounded h r)

-- While at most `k` calls of tryAcquire are under way at once, an organization holds fewer than
-- `limit + k` slots, in whatever order the halves of the calls and the releases come; so that it
-- holds `limit` slots at most where the calls do not overlap.
pub current_count-lt :
    (limit k : ℕ) (s : Slots) → 0 < k → Reach limit k s → current_count s < limit + k
unfolding current_count
current_count-lt limit k s h r = omega (arith, Reach-IsBounded h r)

-- ===== src/Queue/Once.antt =====
-- Idempotency of `enqueue`: src/orchestration/in-memory-job-queue.ts.
use shld.Prelude.{
  ap, ◌∙◌, ◌≡◌, refl, true, false, Option, none, some, Bool-cases, inl, inr, arith, ◌↔◌,
}
use shld.Queue.Jobs.{Job, EnqueueParams, find_job, is_cancelled}
use shld.Queue.InMemory.{Queue, enqueue, enqueue_found, ensure_draining, id_of, new_job}
use shld.Queue.Map.{find_job-changed, find_job-append, text_eq-same}

module _ {P : Type 0} where
  -- the job under the id of `params` is there and not cancelled
  pub record IsQueued (params : EnqueueParams P) (q : Queue P) : Type 0 where
    pub job : Job P
    pub found : find_job (id_of params) q.jobs ≡ some job
    pub live : is_cancelled job.state ≡ false

  fresh_is_live : (params : EnqueueParams P) → is_cancelled (new_job params).state ≡ false
  fresh_is_live params = ground arith

  -- a job that is queued answers the next request for it
  queued-enqueue :
      (params : EnqueueParams P) (q : Queue P)
      → IsQueued params q
      → enqueue params q ≡ (record { job_id = id_of params; deduplicated = true }, q)
  unfolding enqueue enqueue_found
  queued-enqueue params q d = rw (d.found, d.live)

  fresh :
      (params : EnqueueParams P) (q : Queue P)
      → find_job (id_of params) q.jobs ≡ some (new_job params)
      → IsQueued params q
  fresh params q h = record { job = new_job params; found = h; live = fresh_is_live params }

  store :
      (params : EnqueueParams P) (q : Queue P) (o : Option (Job P))
      → find_job (id_of params) q.jobs ≡ o
      → IsQueued params (enqueue_found params q o).1
  unfolding enqueue_found ensure_draining
  store params q none e =
      let h =
        find_job-append (id_of params) (new_job params) q.jobs
        ∙ rw (e, text_eq-same (id_of params)) in
      elim (Bool-cases q.started) [
        | inl b ↦ rw b (fresh params _ h)
        | inr b ↦ rw b (fresh params _ h)
      ]
  store params q (some old) e = elim (Bool-cases (is_cancelled old.state)) [
    | inl c ↦
        let h = find_job-changed (id_of params) (λ _. new_job params) q.jobs old (λ j g. refl) e in
        elim (Bool-cases q.started) [
          | inl b ↦ rw (c, b) (fresh params _ h)
          | inr b ↦ rw (c, b) (fresh params _ h)
        ]
    | inr c ↦ rw c (record { job = old; found = e; live = c })
  ]

  reused :
      (params : EnqueueParams P) (q : Queue P) (o : Option (Job P))
      → find_job (id_of params) q.jobs ≡ o
      → (enqueue_found params q o).0.deduplicated ≡ true
      → IsQueued params q
  unfolding enqueue_found
  reused params q none e h = ground arith
  reused params q (some old) e h = record { job = old; found = e; live = ground (arith, h) }

  -- A request is answered by an earlier job exactly if a job of the same organization, type and
  -- key is there and not cancelled; and the same request, made twice, is answered by the first
  -- the second time, which changes nothing.
  pub enqueue-once :
      (params : EnqueueParams P) (q : Queue P)
      → (((enqueue params q).0.deduplicated ≡ true) ↔ IsQueued params q)
        × (enqueue params (enqueue params q).1
            ≡ (record { job_id = id_of params; deduplicated = true }, (enqueue params q).1))
  unfolding enqueue
  enqueue-once params q = (
    (
      reused params q (find_job (id_of params) q.jobs) refl,
      λ d. ap (λ r. r.0.deduplicated) (queued-enqueue params q d),
    ),
    queued-enqueue params (enqueue params q).1
        (store params q (find_job (id_of params) q.jobs) refl),
  )

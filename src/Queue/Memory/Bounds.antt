-- ===== src/Queue/Memory/Bounds.antt =====
-- memory-queue.ts: the size of the list of jobs.
use checkmate.Prelude.{
  ℕ, suc, ◌≤◌, ◌≡◌, inl, inr, refl, ap, Bool, not, ◌||◌, List, [], ◌∷◌, String, arith, length,
  filter, Option-cases, if_cases, ltb, ◌==◌, length-filter-le, ◌↔◌,
}
use checkmate.Queue.Memory.State.{InternalQueueJob, Queue, insert_job}
use checkmate.Queue.Memory.Processing.{
  fully_processed, dispatch_all, process_next, schedule_delayed,
}
use checkmate.Queue.Memory.Operations.{
  EnqueueOptions, queue_is_full, delay_of, duplicate_of, new_job, add_job, enqueue,
}
use checkmate.Queue.Memory.Dispatch.{acquire_all-jobs_groups}

module _ {T : Type 0} where
  length-insert_job :
      (job : InternalQueueJob T) (js : List (InternalQueueJob T))
      → length (insert_job job js) ≡ suc (length js)
  unfolding insert_job
  length-insert_job job [] = refl
  length-insert_job job (k ∷ js) =
      if_cases (λ (l : List (InternalQueueJob T)). length l ≡ suc (length (k ∷ js)))
        (ltb k.priority job.priority) refl (ap suc (length-insert_job job js))

  length-process_next : (now : ℕ) (q : Queue T) → length (process_next now q).jobs ≤ length q.jobs
  unfolding process_next
  length-process_next now q =
      let groups = (dispatch_all now q.jobs q.groups).0 in
      let p : InternalQueueJob T → Bool = λ k. not (fully_processed groups k) in
      let jg =
        acquire_all-jobs_groups (dispatch_all now q.jobs q.groups).1
          (record q { groups = groups; jobs = filter p q.jobs }) in
      if_cases (λ (x : Queue T). length x.jobs ≤ length q.jobs)
        (length q.jobs == 0 || length q.groups == 0) (omega arith)
        (rw jg.0 (length-filter-le p q.jobs))

  length-add_job :
      (now : ℕ) (o : EnqueueOptions) (job : InternalQueueJob T) (q : Queue T)
      → length (add_job now o job q).jobs ≤ suc (length q.jobs)
  unfolding add_job schedule_delayed
  length-add_job now o job q =
      let l = length-insert_job job q.jobs in
      let q' = record q { jobs = insert_job job q.jobs; next_ref = suc q.next_ref } in
      let P : Queue T → Type 0 = λ x. length x.jobs ≤ suc (length q.jobs) in
      let n = length-process_next now q' in
      elim (Option-cases (delay_of o)) [
        | inl e ↦ rw (add_job, e) (if_cases P q.stopped (omega (arith, l)) (omega (arith, l, n)))
        | inr (d, e) ↦ rw (add_job, e) (if_cases P q.stopped (omega (arith, l)) (omega (arith, l)))
      ]

  -- A call of `enqueue` fails exactly when the list has the configured size or more, and then leaves
  -- the queue as it is; a list within that size stays within it.
  pub enqueue_bounded :
      (now : ℕ) (uuid : String) (item : T) (o : EnqueueOptions) (q : Queue T)
      → let (q', r) = enqueue now uuid item o q in
        ((r ≡ queue_is_full) ↔ (q.config.max_queue_size ≤ length q.jobs))
        × (r ≡ queue_is_full → q' ≡ q)
        × (length q.jobs ≤ q.config.max_queue_size → length q'.jobs ≤ q.config.max_queue_size)
  unfolding enqueue
  enqueue_bounded now uuid item o q = elim (Option-cases (duplicate_of o q.jobs)) [
    | inl e ↦ ground (arith, length-add_job now o (new_job now uuid item o q) q)
    | inr (id, e) ↦ ground arith
  ]

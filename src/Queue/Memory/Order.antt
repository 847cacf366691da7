-- ===== src/Queue/Memory/Order.antt =====
-- memory-queue.ts: the order of the list of jobs through every event.
use checkmate.Prelude.{
  ℕ, suc, ◌-◌, ◌≤◌, ◌≡◌, inl, inr, refl, sym, subst, ◌∙◌, Bool, true, false, not, ◌&&◌, ◌||◌, List,
  [], ◌∷◌, String, arith, length, All, filter, Bool-cases, Option-cases, List-cases, if_cases, ltb,
  leb, ◌==◌,
}
use checkmate.Queue.Memory.State.{
  InternalQueueJob, Run, QueueConfig, Queue, new_queue, insert_job, acquire, release, get_elem?,
}
use checkmate.Queue.Memory.Processing.{
  acquire_all, process_next, start, schedule_delayed, succeed, retry, fail, finish, settle,
}
use checkmate.Queue.Memory.Operations.{
  EnqueueOptions, Enqueued, delay_of, duplicate_of, new_job, add_job, enqueue, consume, expire,
  fire, heartbeat, stop, Event, enqueued, consumed, started, settled, fired, beat, ended, step, run,
}

module _ {T : Type 0} where
  -- Every job has at least the priority of all that stand behind it.
  abbrev pub IsOrdered : List (InternalQueueJob T) → Type 0
  IsOrdered [] = Unit
  IsOrdered (j ∷ js) = All (λ k. k.priority ≤ j.priority) js × IsOrdered js

  All-insert_job :
      (P : InternalQueueJob T → Type 0) (j : InternalQueueJob T) (js : List (InternalQueueJob T))
      → P j
      → All P js
      → All P (insert_job j js)
  unfolding insert_job
  All-insert_job P j [] p h = (p, tt)
  All-insert_job P j (k ∷ js) p (pk, h) =
      if_cases (All P) (ltb k.priority j.priority) (p, (pk, h)) (pk, All-insert_job P j js p h)

  All-le_trans :
      (a b : ℕ) (js : List (InternalQueueJob T))
      → b ≤ a
      → All (λ k. k.priority ≤ b) js
      → All (λ k. k.priority ≤ a) js
  All-le_trans a b [] l h = tt
  All-le_trans a b (j ∷ js) l (h, hs) = (omega arith, All-le_trans a b js l hs)

  insert_job-IsOrdered :
      (j : InternalQueueJob T) (js : List (InternalQueueJob T))
      → IsOrdered js
      → IsOrdered (insert_job j js)
  unfolding insert_job
  insert_job-IsOrdered j [] h = (tt, tt)
  insert_job-IsOrdered j (k ∷ js) (h, hs) = elim (Bool-cases (ltb k.priority j.priority)) [
    | inl e ↦
        let l : k.priority ≤ j.priority = ground arith in
        rw e ((l, All-le_trans j.priority k.priority js l h), (h, hs))
    | inr e ↦ rw e (
      All-insert_job (λ x. x.priority ≤ k.priority) j js (ground arith) h,
      insert_job-IsOrdered j js hs,
    )
  ]

  All-filter_le :
      (P : InternalQueueJob T → Type 0) (p : InternalQueueJob T → Bool)
      (js : List (InternalQueueJob T))
      → All P js
      → All P (filter p js)
  All-filter_le P p [] h = tt
  All-filter_le P p (j ∷ js) (h, hs) =
      if_cases (All P) (p j) (h, All-filter_le P p js hs) (All-filter_le P p js hs)

  filter-IsOrdered :
      (p : InternalQueueJob T → Bool) (js : List (InternalQueueJob T))
      → IsOrdered js
      → IsOrdered (filter p js)
  filter-IsOrdered p [] h = tt
  filter-IsOrdered p (j ∷ js) (h, hs) =
      if_cases IsOrdered (p j)
        (All-filter_le (λ k. k.priority ≤ j.priority) p js h, filter-IsOrdered p js hs)
        (filter-IsOrdered p js hs)

  acquire-jobs : (r : Run T) (q : Queue T) → (acquire r q).jobs ≡ q.jobs
  unfolding acquire
  acquire-jobs r q = ground arith

  acquire_all-jobs : (rs : List (Run T)) (q : Queue T) → (acquire_all rs q).jobs ≡ q.jobs
  unfolding acquire_all
  acquire_all-jobs [] q = refl
  acquire_all-jobs (r ∷ rs) q = acquire_all-jobs rs (acquire r q) ∙ acquire-jobs r q

  HasOrder : Queue T → Type 0
  HasOrder q = IsOrdered q.jobs

  process_next-HasOrder : (now : ℕ) (q : Queue T) → HasOrder q → HasOrder (process_next now q)
  unfolding process_next HasOrder
  process_next-HasOrder now q h =
      if_cases HasOrder (length q.jobs == 0 || length q.groups == 0) h
        (subst IsOrdered (sym (acquire_all-jobs _ _)) (filter-IsOrdered _ q.jobs h))

  release-jobs : (q : Queue T) → (release q).jobs ≡ q.jobs
  unfolding release
  release-jobs q = elim (List-cases q.waiting) [
    | inl e ↦ ground arith
    | inr (r, rs, e) ↦ ground arith
  ]

  finish-HasOrder :
      (now : ℕ) (is_retrying : Bool) (q : Queue T)
      → HasOrder q
      → HasOrder (finish now is_retrying q)
  unfolding finish HasOrder
  finish-HasOrder now is_retrying q h =
      let q' = release (record q { processing = q.processing - 1 }) in
      let h' : HasOrder q' = subst IsOrdered (sym (release-jobs _)) h in
      if_cases HasOrder (not is_retrying && (ltb 0 (length q'.jobs) && not q'.stopped))
        (process_next-HasOrder now q' h') h'

  settle-HasOrder :
      (now i : ℕ) (succeeded : Bool) (q : Queue T)
      → HasOrder q
      → HasOrder (settle now i succeeded q)
  unfolding HasOrder succeed fail retry schedule_delayed settle
  settle-HasOrder now i succeeded q h = elim (Option-cases (get_elem? i q.running)) [
    | inl e ↦ rw (settle, e) h
    | inr (r, e) ↦
        rw (settle, e)
          (if_cases HasOrder succeeded (finish-HasOrder now false _ h) (
            if_cases HasOrder (ltb (q.attempts r.job.ref) r.consumer.max_retries)
              (finish-HasOrder now true _ (insert_job-IsOrdered r.job q.jobs h))
              (finish-HasOrder now false _ h)))
  ]

  enqueue-HasOrder :
      (now : ℕ) (uuid : String) (item : T) (o : EnqueueOptions) (q : Queue T)
      → HasOrder q
      → HasOrder (enqueue now uuid item o q).0
  unfolding HasOrder enqueue add_job schedule_delayed
  enqueue-HasOrder now uuid item o q h =
      let job = new_job now uuid item o q in
      let q1 = record q { jobs = insert_job job q.jobs; next_ref = suc q.next_ref } in
      let h1 : HasOrder q1 = insert_job-IsOrdered job q.jobs h in
      let added : HasOrder (add_job now o job q) = elim (Option-cases (delay_of o)) [
        | inl e ↦ rw (add_job, e) (if_cases HasOrder q.stopped h1 (process_next-HasOrder now q1 h1))
        | inr (d, e) ↦ rw (add_job, e) (if_cases HasOrder q.stopped h1 h1)
      ] in
      let P : Queue T × Enqueued → Type 0 = λ x. HasOrder x.0 in
      elim (Option-cases (duplicate_of o q.jobs)) [
        | inl e ↦ rw (enqueue, e) (if_cases P (leb q.config.max_queue_size (length q.jobs)) h added)
        | inr (id, e) ↦
            rw (enqueue, e) (if_cases P (leb q.config.max_queue_size (length q.jobs)) h h)
      ]

  start-HasOrder : (q : Queue T) → HasOrder q → HasOrder (start q)
  unfolding start HasOrder
  start-HasOrder q h = elim (List-cases q.granted) [
    | inl e ↦ ground (arith, h)
    | inr (r, rs, e) ↦ rw (start, e) h
  ]

  step-HasOrder : (e : Event T) (q : Queue T) → HasOrder q → HasOrder (step e q)
  unfolding step HasOrder stop fire heartbeat expire consume
  step-HasOrder (enqueued now uuid item o) q h = enqueue-HasOrder now uuid item o q h
  step-HasOrder (consumed now uuid group m) q h =
      if_cases HasOrder q.stopped h (process_next-HasOrder now _ h)
  step-HasOrder started q h = start-HasOrder q h
  step-HasOrder (settled now i succeeded) q h = settle-HasOrder now i succeeded q h
  step-HasOrder (fired now i) q h = elim (Option-cases (get_elem? i q.timers)) [
    | inl e ↦ rw (fire, e) h
    | inr (due, e) ↦
        rw (fire, e)
          (if_cases HasOrder (leb due now)
            (if_cases HasOrder q.stopped h (process_next-HasOrder now _ h)) h)
  ]
  step-HasOrder (beat now) q h =
      if_cases HasOrder (not q.stopped && (ltb 0 (length q.jobs) && ltb 0 (length q.groups)))
        (process_next-HasOrder now q h) h
  step-HasOrder ended q h = h

  run-HasOrder : (es : List (Event T)) (q : Queue T) → HasOrder q → HasOrder (run es q)
  unfolding run
  run-HasOrder [] q h = h
  run-HasOrder (e ∷ es) q h = run-HasOrder es (step e q) (step-HasOrder e q h)

  -- After any events, retries included, no job in the list stands behind one of a lower priority.
  pub jobs-IsOrdered :
      (c : QueueConfig) (es : List (Event T)) → IsOrdered (run es (new_queue c)).jobs
  unfolding HasOrder new_queue
  jobs-IsOrdered c es = run-HasOrder es (new_queue c) tt

-- ===== src/Queue/Memory/Permits.antt =====
-- memory-queue.ts: the semaphore's permits through every event.
use checkmate.Prelude.{
  ℕ, zero, suc, ◌+◌, ◌-◌, ◌≤◌, ◌≡◌, ◌⊎◌, inl, inr, refl, Bool, true, false, not, ◌&&◌, ◌||◌,
  List-cases, if_cases, ◌≢◌, List, [], ◌∷◌, Option, some, String, arith, length, length-append,
  Bool-cases, Option-cases, ltb, leb, ◌==◌,
}
use checkmate.Queue.Memory.State.{
  InternalQueueJob, Run, QueueConfig, Queue, new_queue, acquire, release, get_elem?, remove_at,
}
use checkmate.Queue.Memory.Processing.{
  acquire_all, process_next, start, schedule_delayed, succeed, retry, fail, finish, settle,
}
use checkmate.Queue.Memory.Operations.{
  EnqueueOptions, Enqueued, delay_of, duplicate_of, add_job, enqueue, consume, expire, fire,
  heartbeat, stop, Event, enqueued, consumed, started, settled, fired, beat, ended, step, run,
}

module _ {T : Type 0} where
  -- Of `n` permits, those that are not free are held by the runs in `granted` and `running`; and a
  -- run waits only while no permit is free.
  IsShared : ℕ → Queue T → Type 0
  IsShared n q =
      (q.permits + (length q.granted + length q.running) ≡ n) × ((q.permits ≡ 0) ⊎ (q.waiting ≡ []))

  abbrev IsBalanced : ℕ → Queue T → Type 0
  unfolding IsShared
  IsBalanced n q = IsShared n q × (q.processing ≡ length q.running)

  acquire-IsBalanced :
      (n : ℕ) (r : Run T) (q : Queue T) → IsBalanced n q → IsBalanced n (acquire r q)
  unfolding acquire IsShared
  acquire-IsBalanced n r q h = ground (arith, h, length-append q.granted (r ∷ []))

  acquire_all-IsBalanced :
      (n : ℕ) (rs : List (Run T)) (q : Queue T) → IsBalanced n q → IsBalanced n (acquire_all rs q)
  unfolding acquire_all
  acquire_all-IsBalanced n [] q h = h
  acquire_all-IsBalanced n (r ∷ rs) q h =
      acquire_all-IsBalanced n rs (acquire r q) (acquire-IsBalanced n r q h)

  process_next-IsBalanced :
      (n now : ℕ) (q : Queue T) → IsBalanced n q → IsBalanced n (process_next now q)
  unfolding process_next IsShared
  process_next-IsBalanced n now q h =
      elim (Bool-cases (length q.jobs == 0 || length q.groups == 0)) [
        | inl e ↦ rw e h
        | inr e ↦ rw e (acquire_all-IsBalanced n _ _ h)
      ]

  start-IsBalanced : (n : ℕ) (q : Queue T) → IsBalanced n q → IsBalanced n (start q)
  unfolding start IsShared
  start-IsBalanced n q h = elim (List-cases q.granted) [
    | inl e ↦ ground (arith, h)
    | inr (r, rs, e) ↦ ground (arith, h, length-append q.running (r ∷ []))
  ]

  release-IsBalanced :
      (n : ℕ) (q : Queue T)
      → (q.permits + (length q.granted + length q.running) + 1 ≡ n)
      → ((q.permits ≡ 0) ⊎ (q.waiting ≡ []))
      → q.processing ≡ length q.running
      → IsBalanced n (release q)
  unfolding release IsShared
  release-IsBalanced n q h w p = elim (List-cases q.waiting) [
    | inl e ↦ ground (arith, h)
    | inr (r, rs, e) ↦ ground (arith, h, w, length-append q.granted (r ∷ []))
  ]

  length-remove_at :
      (i : ℕ) (xs : List (Run T)) (r : Run T)
      → get_elem? i xs ≡ some r
      → length xs ≡ suc (length (remove_at i xs))
  unfolding get_elem? remove_at
  length-remove_at i [] r h = ground arith
  length-remove_at zero (x ∷ xs) r h = refl
  length-remove_at (suc i) (x ∷ xs) r h = ground (arith, length-remove_at i xs r h)

  finish-IsBalanced :
      (n now : ℕ) (is_retrying : Bool) (q : Queue T)
      → q.permits + (length q.granted + length q.running) + 1 ≡ n
      → (q.permits ≡ 0) ⊎ (q.waiting ≡ [])
      → q.processing ≡ suc (length q.running)
      → IsBalanced n (finish now is_retrying q)
  unfolding finish
  finish-IsBalanced n now is_retrying q h w p =
      let q' = release (record q { processing = q.processing - 1 }) in
      let b : IsBalanced n q' =
        release-IsBalanced n (record q { processing = q.processing - 1 }) h w (omega (arith, p)) in
      elim (Bool-cases (not is_retrying && (ltb 0 (length q'.jobs) && not q'.stopped))) [
        | inl e ↦ rw e (process_next-IsBalanced n now q' b)
        | inr e ↦ rw e b
      ]

  settle-IsBalanced :
      (n now i : ℕ) (succeeded : Bool) (q : Queue T)
      → IsBalanced n q
      → IsBalanced n (settle now i succeeded q)
  unfolding IsShared succeed fail retry schedule_delayed settle
  settle-IsBalanced n now i succeeded q h = elim (Option-cases (get_elem? i q.running)) [
    | inl e ↦ rw (settle, e) h
    | inr (r, e) ↦
        let l = length-remove_at i q.running r e in
        let p : q.permits + (length q.granted + length (remove_at i q.running)) + 1 ≡ n =
          omega (arith, h, l) in
        let m : q.processing ≡ suc (length (remove_at i q.running)) = omega (arith, h, l) in
        rw (settle, e)
          (if_cases (IsBalanced n) succeeded (finish-IsBalanced n now false _ p h.0.1 m) (
            if_cases (IsBalanced n) (ltb (q.attempts r.job.ref) r.consumer.max_retries)
              (finish-IsBalanced n now true _ p h.0.1 m)
              (finish-IsBalanced n now false _ p h.0.1 m)))
  ]

  add_job-IsBalanced :
      (n now : ℕ) (o : EnqueueOptions) (job : InternalQueueJob T) (q : Queue T)
      → IsBalanced n q
      → IsBalanced n (add_job now o job q)
  unfolding IsShared schedule_delayed add_job
  add_job-IsBalanced n now o job q h = elim (Option-cases (delay_of o)) [
    | inl e ↦
        rw (add_job, e) (if_cases (IsBalanced n) q.stopped h (process_next-IsBalanced n now _ h))
    | inr (d, e) ↦ rw (add_job, e) (if_cases (IsBalanced n) q.stopped h h)
  ]

  enqueue-IsBalanced :
      (n now : ℕ) (uuid : String) (item : T) (o : EnqueueOptions) (q : Queue T)
      → IsBalanced n q
      → IsBalanced n (enqueue now uuid item o q).0
  unfolding enqueue
  enqueue-IsBalanced n now uuid item o q h = elim (Option-cases (duplicate_of o q.jobs)) [
    | inl e ↦
        rw (enqueue, e)
          (if_cases (λ (x : Queue T × Enqueued). IsBalanced n x.0)
            (leb q.config.max_queue_size (length q.jobs)) h (add_job-IsBalanced n now o _ q h))
    | inr (id, e) ↦
        rw (enqueue, e)
          (if_cases (λ (x : Queue T × Enqueued). IsBalanced n x.0)
            (leb q.config.max_queue_size (length q.jobs)) h h)
  ]

  consume-IsBalanced :
      (n now : ℕ) (uuid group : String) (max_retries : Option ℕ) (q : Queue T)
      → IsBalanced n q
      → IsBalanced n (consume now uuid group max_retries q)
  unfolding consume IsShared
  consume-IsBalanced n now uuid group max_retries q h =
      if_cases (IsBalanced n) q.stopped h (process_next-IsBalanced n now _ h)

  expire-IsBalanced : (n now : ℕ) (q : Queue T) → IsBalanced n q → IsBalanced n (expire now q)
  unfolding expire
  expire-IsBalanced n now q h =
      if_cases (IsBalanced n) q.stopped h (process_next-IsBalanced n now q h)

  fire-IsBalanced : (n now i : ℕ) (q : Queue T) → IsBalanced n q → IsBalanced n (fire now i q)
  unfolding IsShared fire
  fire-IsBalanced n now i q h = elim (Option-cases (get_elem? i q.timers)) [
    | inl e ↦ rw (fire, e) h
    | inr (due, e) ↦
        rw (fire, e) (if_cases (IsBalanced n) (leb due now) (expire-IsBalanced n now _ h) h)
  ]

  heartbeat-IsBalanced : (n now : ℕ) (q : Queue T) → IsBalanced n q → IsBalanced n (heartbeat now q)
  unfolding heartbeat
  heartbeat-IsBalanced n now q h =
      if_cases (IsBalanced n) (not q.stopped && (ltb 0 (length q.jobs) && ltb 0 (length q.groups)))
        (process_next-IsBalanced n now q h) h

  step-IsBalanced : (n : ℕ) (e : Event T) (q : Queue T) → IsBalanced n q → IsBalanced n (step e q)
  unfolding step stop IsShared
  step-IsBalanced n (enqueued now uuid item o) q h = enqueue-IsBalanced n now uuid item o q h
  step-IsBalanced n (consumed now uuid group m) q h = consume-IsBalanced n now uuid group m q h
  step-IsBalanced n started q h = start-IsBalanced n q h
  step-IsBalanced n (settled now i succeeded) q h = settle-IsBalanced n now i succeeded q h
  step-IsBalanced n (fired now i) q h = fire-IsBalanced n now i q h
  step-IsBalanced n (beat now) q h = heartbeat-IsBalanced n now q h
  step-IsBalanced n ended q h = h

  run-IsBalanced :
      (n : ℕ) (es : List (Event T)) (q : Queue T) → IsBalanced n q → IsBalanced n (run es q)
  unfolding run
  run-IsBalanced n [] q h = h
  run-IsBalanced n (e ∷ es) q h = run-IsBalanced n es (step e q) (step-IsBalanced n e q h)

  -- After any events, `processing` counts the handlers that run, and these and the runs about to
  -- start theirs are at most the configured concurrency; while a run waits for a permit, they are
  -- exactly as many.
  pub concurrency_bounded :
      (c : QueueConfig) (es : List (Event T))
      → let q = run es (new_queue c) in
        (q.processing ≡ length q.running)
        × (q.processing + length q.granted ≤ c.concurrency)
        × (q.waiting ≢ [] → q.processing + length q.granted ≡ c.concurrency)
  unfolding IsShared new_queue
  concurrency_bounded c es =
      let b : IsBalanced c.concurrency (new_queue c) = ground arith in
      let h = run-IsBalanced c.concurrency es (new_queue c) b in ground (arith, h)

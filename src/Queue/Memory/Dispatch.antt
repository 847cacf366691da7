-- ===== src/Queue/Memory/Dispatch.antt =====
-- memory-queue.ts: which jobs `processNext` hands out and drops, and what `enqueue` takes in.
use checkmate.Prelude.{
  ℕ, ◌≤◌, ◌≡◌, ◌≢◌, ◌⊎◌, inl, inr, refl, sym, subst, Bool, true, false, not, ◌&&◌, ◌||◌, List, [],
  ◌∷◌, ◌++◌, some, String, arith, length, All, filter, find, Option-cases, if_cases, leb, ◌==◌, In,
  In-filter, In-append, In-append_left, In-append_right, ◌↔◌, All-In,
}
use checkmate.Queue.Memory.State.{
  InternalQueueJob, ConsumerGroupState, Run, Queue, has_processed, acquire,
}
use checkmate.Queue.Memory.Processing.{
  select_consumer, next_job, dispatch, fully_processed, dispatch_all, acquire_all, process_next,
}

pub length-nonempty : {A : Type 0} (xs : List A) → xs ≢ [] → (length xs == 0) ≡ false
length-nonempty [] h = absurd (h refl)
length-nonempty (x ∷ xs) h = ground arith

module _ {T : Type 0} where
  -- The run is of a job of the list that is available and that its group has not been given, or
  -- has been given and failed.
  abbrev pub IsDue :
      ℕ → List (InternalQueueJob T) → List (String × ConsumerGroupState) → Run T → Type 0
  IsDue now jobs groups r =
      In r.job jobs
      × (r.job.available_at ≤ now)
      × ((g : ConsumerGroupState) × In (r.group_id, g) groups
          × (has_processed g r.job.id ≡ false)
          × (select_consumer g ≡ some r.consumer))

  pub find_sound :
      (p : InternalQueueJob T → Bool) (js : List (InternalQueueJob T)) (j : InternalQueueJob T)
      → find p js ≡ some j
      → In j js × (p j ≡ true)
  find_sound p [] j h = absurd (ground arith)
  find_sound p (k ∷ js) j h = ground (arith, find_sound p js j)

  dispatch-IsDue :
      (now : ℕ) (jobs : List (InternalQueueJob T)) (id : String) (g : ConsumerGroupState)
      (r : Run T)
      → (dispatch now jobs id g).1 ≡ some r
      → IsDue now jobs ((id, g) ∷ []) r
  unfolding dispatch next_job
  dispatch-IsDue now jobs id g r h = elim (Option-cases (select_consumer g)) [
    | inl e ↦ absurd (ground arith)
    | inr (c, e) ↦ elim (Option-cases (next_job now jobs g)) [
      | inl z ↦ absurd (ground arith)
      | inr (j, z) ↦
          let f = find_sound (λ x. not (has_processed g x.id) && leb x.available_at now) jobs j z in
          let made : Run T = record { job = j; consumer = c; group_id = id } in
          let eq : made ≡ r = ground (arith) in
          let due : IsDue now jobs ((id, g) ∷ []) made =
            (f.0, ground (arith, f), (g, inl refl, ground (arith, f), e)) in
          subst (IsDue now jobs ((id, g) ∷ [])) eq due
    ]
  ]

  IsDue-weaken :
      (now : ℕ) (jobs : List (InternalQueueJob T)) (x : String × ConsumerGroupState)
      (groups more : List (String × ConsumerGroupState)) (r : Run T)
      → ((y : String × ConsumerGroupState) → In y groups → In y more)
      → IsDue now jobs groups r
      → IsDue now jobs more r
  IsDue-weaken now jobs x groups more r sub (m, le, (g, mg, fresh, chosen)) =
      (m, le, (g, sub (r.group_id, g) mg, fresh, chosen))

  All-weaken :
      (P Q : Run T → Type 0) (rs : List (Run T)) → ((r : Run T) → P r → Q r) → All P rs → All Q rs
  All-weaken P Q [] f h = tt
  All-weaken P Q (r ∷ rs) f (h, hs) = (f r h, All-weaken P Q rs f hs)

  dispatch_all-IsDue :
      (now : ℕ) (jobs : List (InternalQueueJob T)) (groups : List (String × ConsumerGroupState))
      → All (IsDue now jobs groups) (dispatch_all now jobs groups).1
  unfolding dispatch_all
  dispatch_all-IsDue now jobs [] = tt
  dispatch_all-IsDue now jobs ((id, g) ∷ groups) =
      let rest =
        All-weaken (IsDue now jobs groups) (IsDue now jobs ((id, g) ∷ groups))
          (dispatch_all now jobs groups).1
          (λ r. IsDue-weaken now jobs (id, g) groups ((id, g) ∷ groups) r (λ y m. inr m))
          (dispatch_all-IsDue now jobs groups) in
      elim (Option-cases (dispatch now jobs id g).1) [
        | inl e ↦ rw (dispatch_all, e) rest
        | inr (r, e) ↦
            let due =
              IsDue-weaken now jobs (id, g) ((id, g) ∷ []) ((id, g) ∷ groups) r
                (λ y m. elim m [ inl w ↦ inl w | inr w ↦ absurd w ])
                (dispatch-IsDue now jobs id g r e) in
            rw (dispatch_all, e) (due, rest)
      ]

  -- The runs that `processJob` has been called for and that have not reached their handler.
  abbrev pub pending : Queue T → List (Run T)
  pending q = q.granted ++ q.waiting

  acquire-pending :
      (x r : Run T) (q : Queue T) → In x (pending (acquire r q)) ↔ (In x (pending q) ⊎ (r ≡ x))
  unfolding acquire
  acquire-pending x r q = ground (
    arith,
    In-append x (q.granted ++ r ∷ []) q.waiting,
    In-append x q.granted (r ∷ []),
    In-append x q.granted q.waiting,
    In-append x q.granted (q.waiting ++ r ∷ []),
    In-append x q.waiting (r ∷ []),
    In-append_left x q.granted q.waiting,
    In-append_right x q.granted q.waiting,
    In-append_left x (q.granted ++ r ∷ []) q.waiting,
    In-append_right x (q.granted ++ r ∷ []) q.waiting,
    In-append_left x q.granted (r ∷ []),
    In-append_right x q.granted (r ∷ []),
    In-append_left x q.granted (q.waiting ++ r ∷ []),
    In-append_right x q.granted (q.waiting ++ r ∷ []),
    In-append_left x q.waiting (r ∷ []),
    In-append_right x q.waiting (r ∷ []),
  )

  pub acquire_all-pending :
      (x : Run T) (rs : List (Run T)) (q : Queue T)
      → In x (pending (acquire_all rs q)) ↔ (In x (pending q) ⊎ In x rs)
  unfolding acquire_all
  acquire_all-pending x [] q = ground arith
  acquire_all-pending x (r ∷ rs) q =
      ground (arith, acquire_all-pending x rs (acquire r q), acquire-pending x r q)

  acquire-jobs_groups :
      (r : Run T) (q : Queue T) → ((acquire r q).jobs ≡ q.jobs) × ((acquire r q).groups ≡ q.groups)
  unfolding acquire
  acquire-jobs_groups r q = ground arith

  pub acquire_all-jobs_groups :
      (rs : List (Run T)) (q : Queue T)
      → ((acquire_all rs q).jobs ≡ q.jobs) × ((acquire_all rs q).groups ≡ q.groups)
  unfolding acquire_all
  acquire_all-jobs_groups [] q = (refl, refl)
  acquire_all-jobs_groups (r ∷ rs) q =
      ground (arith, acquire_all-jobs_groups rs (acquire r q), acquire-jobs_groups r q)

  -- A run that waits for its handler after `processNext` did so before, or is of a job of the list
  -- that is available by now and that the run's group has not processed, with the consumer whose
  -- turn it is in the group.
  pub process_next-IsDue :
      (now : ℕ) (q : Queue T) (r : Run T)
      → In r (pending (process_next now q))
      → In r (pending q) ⊎ IsDue now q.jobs q.groups r
  unfolding process_next
  process_next-IsDue now q r =
      if_cases (λ (p : Queue T). In r (pending p) → In r (pending q) ⊎ IsDue now q.jobs q.groups r)
        (length q.jobs == 0 || length q.groups == 0) (λ m. inl m)
        (λ m.
          let runs = (dispatch_all now q.jobs q.groups).1 in
          elim ((acquire_all-pending r runs _).0 m) [
            | inl old ↦ inl old
            | inr new ↦ inr (
                All-In (IsDue now q.jobs q.groups) r runs (dispatch_all-IsDue now q.jobs q.groups)
                  new)
          ])

  pub dispatch_all_starts :
      (now : ℕ) (jobs : List (InternalQueueJob T)) (groups : List (String × ConsumerGroupState))
      (id : String) (g : ConsumerGroupState) (r : Run T)
      → In (id, g) groups
      → (dispatch now jobs id g).1 ≡ some r
      → In r (dispatch_all now jobs groups).1
  unfolding dispatch_all
  dispatch_all_starts now jobs [] id g r m e = absurd m
  dispatch_all_starts now jobs ((k, h) ∷ groups) id g r (inl same) e =
      let e' : (dispatch now jobs k h).1 ≡ some r =
        subst (λ (w : String × ConsumerGroupState). (dispatch now jobs w.0 w.1).1 ≡ some r)
          (sym same) e in
      rw (dispatch_all, e') (inl refl)
  dispatch_all_starts now jobs ((k, h) ∷ groups) id g r (inr m) e =
      let rest = dispatch_all_starts now jobs groups id g r m e in
      elim (Option-cases (dispatch now jobs k h).1) [
        | inl z ↦ rw (dispatch_all, z) rest
        | inr (s, z) ↦ rw (dispatch_all, z) (inr rest)
      ]

  -- Where there are jobs and groups, `processNext` leaves in it just the jobs that some group has not
  -- yet processed after this round.
  pub process_next_keeps :
      (now : ℕ) (q : Queue T) (j : InternalQueueJob T)
      → q.jobs ≢ []
      → q.groups ≢ []
      → let q' = process_next now q in
        In j q'.jobs ↔ (In j q.jobs × (fully_processed q'.groups j ≡ false))
  unfolding process_next
  process_next_keeps now q j hj hg =
      let a : (length q.jobs == 0 || length q.groups == 0) ≡ false =
        rw (length-nonempty q.jobs hj, length-nonempty q.groups hg) refl in
      let groups = (dispatch_all now q.jobs q.groups).0 in
      let p : InternalQueueJob T → Bool = λ k. not (fully_processed groups k) in
      let jg =
        acquire_all-jobs_groups (dispatch_all now q.jobs q.groups).1
          (record q { groups = groups; jobs = filter p q.jobs }) in
      let kept = In-filter p j q.jobs in rw (a, jg.0, jg.1) (ground (arith, kept))

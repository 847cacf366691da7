-- ===== src/Queue/Memory/Liveness.antt =====
-- memory-queue.ts: `processNext` gives work to every group that has some.
use native.Mathlib.Nat.{mod-lt, zero-lt-suc}
use checkmate.Prelude.{
  ℕ, zero, suc, ◌+◌, ◌≤◌, ◌<◌, ◌%◌, ◌≡◌, ◌≢◌, inl, inr, refl, ap, Bool, true, false, not, ◌&&◌,
  ◌||◌, List, [], ◌∷◌, ◌++◌, filter, if◌then◌else◌, some, String, arith, length, find, Bool-cases,
  List-cases, leb, ◌==◌, In,
}
use checkmate.Queue.Memory.State.{
  InternalQueueJob, Consumer, ConsumerGroupState, Run, Queue, has_processed, acquire, get_elem?,
}
use checkmate.Queue.Memory.Processing.{
  select_consumer, next_job, dispatch, dispatch_all, acquire_all, fully_processed, process_next,
}
use checkmate.Queue.Memory.Dispatch.{length-nonempty, find_sound, pending, dispatch_all_starts}

In-nonempty : {A : Type 0} (a : A) (xs : List A) → In a xs → xs ≢ []
In-nonempty a [] m e = m
In-nonempty a (x ∷ xs) m e = absurd (cc)

get_elem?-total :
    {A : Type 0} (i : ℕ) (xs : List A) → i < length xs → (x : A) × (get_elem? i xs ≡ some x)
unfolding get_elem?
get_elem?-total i [] h = absurd (omega (arith, h))
get_elem?-total zero (x ∷ xs) h = (x, refl)
get_elem?-total (suc i) (x ∷ xs) h = get_elem?-total i xs (omega (arith, h))

select_consumer-total :
    (g : ConsumerGroupState) → g.consumers ≢ [] → (c : Consumer) × (select_consumer g ≡ some c)
unfolding select_consumer
select_consumer-total g h = elim (List-cases g.consumers) [
  | inl e ↦ absurd (h e)
  | inr (c, cs, e) ↦
      let (d, f) =
        get_elem?-total (g.next_consumer_index % length (c ∷ cs)) (c ∷ cs)
          (mod-lt g.next_consumer_index (zero-lt-suc (length cs))) in
      (d, rw (select_consumer, e) f)
]

module _ {T : Type 0} where
  find-total :
      (p : InternalQueueJob T → Bool) (js : List (InternalQueueJob T)) (j : InternalQueueJob T)
      → In j js
      → p j ≡ true
      → (k : InternalQueueJob T) × (find p js ≡ some k)
  find-total p [] j m h = absurd m
  find-total p (k ∷ js) j m h = elim (Bool-cases (p k)) [
    | inl e ↦ (k, rw e refl)
    | inr e ↦ elim m [
      | inl same ↦ absurd (ground (arith, ap p same))
      | inr later ↦ let (l, f) = find-total p js j later h in (l, rw e f)
    ]
  ]

  -- The runs that pass a test.
  abbrev pub count_runs : (Run T → Bool) → List (Run T) → ℕ
  count_runs p [] = 0
  count_runs p (r ∷ rs) = (if p r then 1 else 0) + count_runs p rs

  count_runs-append :
      (p : Run T → Bool) (xs ys : List (Run T))
      → count_runs p (xs ++ ys) ≡ count_runs p xs + count_runs p ys
  count_runs-append p [] ys = omega arith
  count_runs-append p (x ∷ xs) ys = omega (arith, count_runs-append p xs ys)

  count_runs-In :
      (p : Run T → Bool) (r : Run T) (rs : List (Run T))
      → In r rs
      → (if p r then 1 else 0) ≤ count_runs p rs
  count_runs-In p r [] m = absurd m
  count_runs-In p r (x ∷ rs) (inl e) = ground (arith, ap p e)
  count_runs-In p r (x ∷ rs) (inr m) = omega (arith, count_runs-In p r rs m)

  acquire-count_runs :
      (p : Run T → Bool) (r : Run T) (q : Queue T)
      → count_runs p (pending (acquire r q)) ≡ count_runs p (pending q) + (if p r then 1 else 0)
  unfolding acquire
  acquire-count_runs p r q = ground (
    arith,
    count_runs-append p (q.granted ++ r ∷ []) q.waiting,
    count_runs-append p q.granted (r ∷ []),
    count_runs-append p q.granted q.waiting,
    count_runs-append p q.granted (q.waiting ++ r ∷ []),
    count_runs-append p q.waiting (r ∷ []),
  )

  acquire_all-count_runs :
      (p : Run T → Bool) (rs : List (Run T)) (q : Queue T)
      → count_runs p (pending (acquire_all rs q)) ≡ count_runs p (pending q) + count_runs p rs
  unfolding acquire_all
  acquire_all-count_runs p [] q = omega arith
  acquire_all-count_runs p (r ∷ rs) q =
      omega (arith, acquire_all-count_runs p rs (acquire r q), acquire-count_runs p r q)

  -- Where a group with a consumer has an available job in the list that it has not processed,
  -- `processNext` calls `processJob` for that group with such a job and with the consumer whose turn
  -- it is: by any test of runs, this run counts among those that wait for their handler in addition to
  -- all that waited before.
  pub process_next_starts :
      (now : ℕ) (q : Queue T) (id : String) (g : ConsumerGroupState) (j : InternalQueueJob T)
      → In (id, g) q.groups
      → g.consumers ≢ []
      → In j q.jobs
      → has_processed g j.id ≡ false
      → j.available_at ≤ now
      → (r : Run T) × (r.group_id ≡ id)
        × In r.job q.jobs
        × (has_processed g r.job.id ≡ false)
        × (r.job.available_at ≤ now)
        × (select_consumer g ≡ some r.consumer)
        × ((p : Run T → Bool)
            → count_runs p (pending q) + (if p r then 1 else 0)
              ≤ count_runs p (pending (process_next now q)))
  unfolding process_next dispatch next_job
  process_next_starts now q id g j mg hc mj fresh le =
      let (c, chosen) = select_consumer-total g hc in
      let (k, found) =
        find-total (λ x. not (has_processed g x.id) && leb x.available_at now) q.jobs j mj
          (ground arith) in
      let (mk, passes) =
        find_sound (λ x. not (has_processed g x.id) && leb x.available_at now) q.jobs k found in
      let r : Run T = record { job = k; consumer = c; group_id = id } in
      let given : (dispatch now q.jobs id g).1 ≡ some r = rw (dispatch, chosen, found) refl in
      let among = dispatch_all_starts now q.jobs q.groups id g r mg given in
      let busy : (length q.jobs == 0 || length q.groups == 0) ≡ false =
        rw
          (
            length-nonempty q.jobs (In-nonempty j q.jobs mj),
            length-nonempty q.groups (In-nonempty (id, g) q.groups mg),
          )
          refl in
      rw busy (
        r,
        refl,
        mk,
        ground (arith, passes),
        ground (arith, passes),
        chosen,
        λ p. omega (
          arith,
          count_runs-In p r (dispatch_all now q.jobs q.groups).1 among,
          acquire_all-count_runs p (dispatch_all now q.jobs q.groups).1 (record q {
            groups = (dispatch_all now q.jobs q.groups).0;
            jobs =
                filter (λ l. not (fully_processed (dispatch_all now q.jobs q.groups).0 l)) q.jobs;
          }),
        ),
      )

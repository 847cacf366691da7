-- ===== src/Queue/Memory/Consumers.antt =====
-- memory-queue.ts as an implementation of queue-api's interface: its consumers.
--
-- A consumer's handler is known by the id that `consume` makes for it. The calls are at the time zero.
use checkmate.Prelude.{
  ℕ, ◌≡◌, refl, ap, ◌∙◌, inl, inr, ◌||◌, String, List, [], ◌∷◌, ◌++◌, Option, none, some, ok, err,
  map, length, filter, not, if◌then◌else◌, if_cases, Bool-cases, Option-cases, ◌==◌, get_or_else,
}
use checkmate.Prelude.Text.{◌===◌, ===_iff}
use checkmate.Prelude.Map.{get, set, get-set}
use checkmate.Queue.Interface.{ConsumeOptions, QueueInterface}
use checkmate.Queue.Memory.State.{InternalQueueJob, Consumer, ConsumerGroupState, Queue}
use checkmate.Queue.Memory.Processing.{
  select_consumer, next_job, take_job, dispatch, dispatch_all, fully_processed, process_next,
}
use checkmate.Queue.Memory.Operations.{
  EnqueueOptions, queue_is_full, returned, enqueue, new_group, consume, stop,
}
use checkmate.Queue.Memory.Dispatch.{acquire_all-jobs_groups}

abbrev ids_of : Option ConsumerGroupState → List String
ids_of none = []
ids_of (some g) = map (λ c. c.id) g.consumers

abbrev consumer_ids : String → List (String × ConsumerGroupState) → List String
consumer_ids group groups = ids_of (get group groups)

ids-append :
    (xs ys : List Consumer) → map (λ c. c.id) (xs ++ ys) ≡ map (λ c. c.id) xs ++ map (λ c. c.id) ys
ids-append [] ys = refl
ids-append (x ∷ xs) ys = ap (λ l. x.id ∷ l) (ids-append xs ys)

ids-added :
    (group consumer_group : String) (c : Consumer) (groups : List (String × ConsumerGroupState))
    → ids_of (
        if consumer_group === group
        then some (record (get_or_else (get consumer_group groups) new_group) {
          consumers = (get_or_else (get consumer_group groups) new_group).consumers ++ c ∷ [];
        })
        else get group groups)
      ≡ (if consumer_group === group
          then consumer_ids group groups ++ c.id ∷ []
          else consumer_ids group groups)
unfolding new_group
ids-added group consumer_group c groups = elim (Bool-cases (consumer_group === group)) [
  | inr e ↦ rw e refl
  | inl e ↦
      let same : consumer_group ≡ group = (===_iff consumer_group group).0 e in
      rw (e, same)
        (elim (Option-cases (get group groups)) [
          | inl z ↦ rw (z, new_group) refl
          | inr (g, z) ↦ rw z (ids-append g.consumers (c ∷ []))
        ])
]

-- The options of a call without options.
abbrev plain : EnqueueOptions
plain = record { priority = none; start_delay = none; job_id = none }

module _ {T : Type 0} where
  dispatch-consumers :
      (now : ℕ) (jobs : List (InternalQueueJob T)) (id : String) (g : ConsumerGroupState)
      → (dispatch now jobs id g).0.consumers ≡ g.consumers
  unfolding dispatch take_job
  dispatch-consumers now jobs id g = elim (Option-cases (select_consumer g)) [
    | inl e ↦ rw (dispatch, e) refl
    | inr (c, e) ↦ elim (Option-cases (next_job now jobs g)) [
      | inl z ↦ rw (dispatch, e, z) refl
      | inr (job, z) ↦ rw (dispatch, e, z) refl
    ]
  ]

  dispatch_all-consumers :
      (now : ℕ) (jobs : List (InternalQueueJob T)) (groups : List (String × ConsumerGroupState))
      (group : String)
      → consumer_ids group (dispatch_all now jobs groups).0 ≡ consumer_ids group groups
  unfolding dispatch_all
  dispatch_all-consumers now jobs [] group = refl
  dispatch_all-consumers now jobs ((id, g) ∷ groups) group = elim (Bool-cases (id === group)) [
    | inl e ↦
        rw (dispatch_all, get, e) (ap (λ cs. map (λ c. c.id) cs) (dispatch-consumers now jobs id g))
    | inr e ↦ rw (dispatch_all, get, e) (dispatch_all-consumers now jobs groups group)
  ]

  process_next-consumers :
      (now : ℕ) (q : Queue T) (group : String)
      → consumer_ids group (process_next now q).groups ≡ consumer_ids group q.groups
  unfolding process_next
  process_next-consumers now q group =
      elim (Bool-cases (length q.jobs == 0 || length q.groups == 0)) [
        | inl e ↦ rw (process_next, e) refl
        | inr e ↦
            let (groups, runs) = dispatch_all now q.jobs q.groups in
            let left : Queue T = record q {
              groups = groups;
              jobs = filter (λ j. not (fully_processed groups j)) q.jobs;
            } in
            rw (process_next, e)
              (ap (consumer_ids group) (acquire_all-jobs_groups runs left).1
                ∙ dispatch_all-consumers now q.jobs q.groups group)
      ]

  pub consumer_ids-consume :
      (group uuid : String) (options : ConsumeOptions) (q : Queue T)
      → consumer_ids group (consume 0 uuid options.consumer_group options.max_retries q).groups ≡ (
          if options.consumer_group === group
          then consumer_ids group q.groups ++ uuid ∷ []
          else consumer_ids group q.groups)
  unfolding consume
  consumer_ids-consume group uuid options q =
      let cg = options.consumer_group in
      let g = get_or_else (get cg q.groups) new_group in
      let c : Consumer = record { id = uuid; max_retries = get_or_else options.max_retries 3 } in
      let groups = set cg (record g { consumers = g.consumers ++ c ∷ [] }) q.groups in
      let added =
        ap ids_of (get-set cg group (record g { consumers = g.consumers ++ c ∷ [] }) q.groups)
        ∙ ids-added group cg c q.groups in
      if_cases
        (λ (r : Queue T). consumer_ids group r.groups ≡ (
          if cg === group
          then consumer_ids group q.groups ++ uuid ∷ []
          else consumer_ids group q.groups))
        q.stopped added (process_next-consumers 0 (record q { groups = groups }) group ∙ added)

  -- The in-memory queue, with the ids that `enqueue` makes given by a function of the queue.
  abbrev pub memory_queue : (Queue T → String) → QueueInterface String T
  memory_queue new_uuid = record {
    Queue = Queue T;
    consume = λ uuid options q. consume 0 uuid options.consumer_group options.max_retries q;
    enqueue = λ item q.
        let (q', outcome) = enqueue 0 (new_uuid q) item plain q in
        elim outcome [ queue_is_full ↦ err "full" | returned id ↦ ok (q', id) ];
    stop = stop;
    consumers = λ group q. consumer_ids group q.groups;
    consumers-consume = consumer_ids-consume;
  }

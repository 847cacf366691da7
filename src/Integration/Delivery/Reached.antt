-- ===== src/Integration/Delivery/Reached.antt =====
-- delivery-coordinator.ts: jobs and logs fit together, whatever is routed, delivered and retried.
use checkmate.Prelude.{
  ℕ, ◌+◌, ap, subst, inl, inr, if_cases, ltb, if◌then◌else◌, List, [], ◌∷◌, arith, Bool-cases,
  Option-cases, List-cases,
}
use checkmate.Integration.Tables.{Subscription, DeliveryLog, UndefinedWrite}
use checkmate.Integration.Delivery.{QueuedJob, Integration, execute_delivery, route_event}
use checkmate.Integration.Subscriptions.{find_matching_subscriptions}
use checkmate.Integration.Delivery.Worker.{
  pick, Turn, give_back, default_max_retries, run_job, work, DeliveryEvent, emitted, worked,
  retry_asked, delivery_step, deliveries_after,
}
use checkmate.Integration.Delivery.Counting.{jobs_of, jobs_of-append, lost_of-append}
use checkmate.Integration.Delivery.Changes.{execute_delivery-IsExecuted}
use checkmate.Integration.Delivery.Placed.{IsFresh, queue_deliveries-keeps, retry_delivery-keeps}
use checkmate.Integration.Delivery.Consistent.{
  IsAccounted, IsConsistent, jobs_of-pick, row_of_job, executed-keeps, is_job,
}

module _ {C : Type 0} where
  give_back-keeps :
      (queued : QueuedJob C) (s : Integration C)
      → IsAccounted (λ id. is_job id queued.job) s
      → IsConsistent (give_back queued s)
  unfolding give_back
  give_back-keeps queued s (keyed, owned, sound) =
      if_cases IsConsistent (ltb queued.attempts default_max_retries)
        (
          keyed,
          λ id. omega (
            arith,
            owned id,
            jobs_of-append id s.waiting (record queued { attempts = queued.attempts + 1 } ∷ []),
          ),
          sound,
        )
        (
          keyed,
          λ id. omega (arith, owned id, lost_of-append id s.lost (queued.job.log_id ∷ [])),
          sound,
        )

  run_job-keeps :
      (undefined_write : UndefinedWrite) (turn : Turn) (queued : QueuedJob C) (s : Integration C)
      → IsAccounted (λ id. is_job id queued.job) s
      → IsConsistent (run_job undefined_write turn queued s)
  unfolding run_job execute_delivery
  run_job-keeps undefined_write turn queued s (keyed, owned, sound) =
      elim (Option-cases (turn.get_provider queued.job.provider_id)) [
        | inl e ↦ rw (run_job, execute_delivery, e) (give_back-keeps queued s (keyed, owned, sound))
        | inr (provider, e) ↦
            let (row, found, same, fits, open_now) =
              row_of_job s queued.job keyed sound (ground (arith, owned queued.job.log_id)) in
            let result =
              execute_delivery undefined_write turn.get_provider turn.accepts turn.now turn.outcome
                queued.job s in
            let kept =
              executed-keeps s result.0 queued.job row result.1 (keyed, owned, sound) found same
                fits open_now
                (execute_delivery-IsExecuted undefined_write turn.accepts turn.now queued.job s row
                  found turn.get_provider provider turn.outcome e) in
            elim (Bool-cases result.1) [
              | inl r ↦
                  rw (run_job, r)
                    (subst (λ b. IsAccounted (λ id. if b then 0 else is_job id queued.job) result.0)
                      r kept)
              | inr r ↦
                  rw (run_job, r)
                    (give_back-keeps queued result.0 (
                      subst
                        (λ b. IsAccounted (λ id. if b then 0 else is_job id queued.job) result.0) r
                        kept))
            ]
      ]

  pub work-keeps :
      (undefined_write : UndefinedWrite) (turn : Turn) (s : Integration C)
      → IsConsistent s
      → IsConsistent (work undefined_write turn s)
  unfolding work
  work-keeps undefined_write turn s (keyed, owned, sound) = elim (List-cases s.waiting) [
    | inl e ↦ rw (work, e) (keyed, owned, sound)
    | inr (job, jobs, e) ↦
        rw (work, e)
          (run_job-keeps undefined_write turn (pick turn.place job jobs).0
            (record s { waiting = (pick turn.place job jobs).1 })
            (
              keyed,
              λ id. omega (arith, jobs_of-pick id turn.place job jobs, ap (jobs_of id) e, owned id),
              sound,
            ))
  ]

  abbrev pub no_deliveries : List (Subscription C) → Integration C
  no_deliveries subscriptions = record {
    subscriptions = subscriptions;
    logs = [];
    waiting = [];
    lost = [];
    signals = [];
  }

module _ {C : Type 0} (undefined_write : UndefinedWrite) (new_id : List DeliveryLog → ℕ)
    (fresh : IsFresh new_id) where
  pub deliveries_after-IsConsistent :
      (events : List DeliveryEvent) (s : Integration C)
      → IsConsistent s
      → IsConsistent (deliveries_after undefined_write new_id events s)
  unfolding delivery_step route_event
  deliveries_after-IsConsistent [] s h = h
  deliveries_after-IsConsistent (emitted get_provider accepts event ∷ events) s h =
      deliveries_after-IsConsistent events _ (
        queue_deliveries-keeps accepts new_id fresh event
          (find_matching_subscriptions get_provider event.event_id event.payload s.subscriptions) s
          h)
  deliveries_after-IsConsistent (worked turn ∷ events) s h =
      deliveries_after-IsConsistent events _ (work-keeps undefined_write turn s h)
  deliveries_after-IsConsistent (retry_asked accepts now log_id ∷ events) s h =
      deliveries_after-IsConsistent events _
        (retry_delivery-keeps undefined_write accepts now log_id s h)

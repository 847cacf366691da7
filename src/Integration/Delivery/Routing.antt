-- ===== src/Integration/Delivery/Routing.antt =====
-- delivery-coordinator.ts: the logs and the jobs that an event adds.
use mathlib.Core.List.{append-nil, append_assoc}
use checkmate.Prelude.{
  ℕ, ◌≡◌, ◌⊎◌, refl, sym, ap, ◌∙◌, inl, inr, Bool, true, false, String, List, [], ◌∷◌, ◌++◌, Option,
  map, All, Bool-cases,
}
use checkmate.Integration.Tables.{Subscription, DeliveryLog, Provider, EventPayload}
use checkmate.Integration.Delivery.{
  QueuedJob, Integration, enqueued, new_log, new_delivery_job, queue_deliveries, route_event,
}
use checkmate.Integration.Subscriptions.{find_matching_subscriptions}
use checkmate.Integration.Delivery.Matching.{IsSelection, Matches, find_matching-IsSelection}

module _ {C : Type 0} where
  -- The job and the log of a delivery, given by the id of its log and its subscription.
  abbrev pub job_of : EventPayload → ℕ × Subscription C → QueuedJob C
  job_of event (log_id, sub) = record {
    job = new_delivery_job log_id event sub;
    start_delay = 0;
    attempts = 0;
  }

  abbrev pub log_of : EventPayload → ℕ × Subscription C → DeliveryLog
  log_of event (log_id, sub) = new_log log_id event sub

  abbrev pub subscription_of : ℕ × Subscription C → Subscription C
  subscription_of (log_id, sub) = sub

  -- The deliveries of the subscriptions of a list: those that the queue took, at most one that it did
  -- not take, and subscriptions that were not come to.
  abbrev pub IsRouted :
      (ℕ → Bool)
      → EventPayload
      → List (Subscription C)
      → Integration C
      → Integration C
      → Bool
      → Type 0
  IsRouted accepts event found s s' returned =
      (queued : List (ℕ × Subscription C)) × (left : List (ℕ × Subscription C)) × (rest : List
        (Subscription C))
      × (s'.waiting ≡ s.waiting ++ map (job_of event) queued)
      × (s'.logs ≡ s.logs ++ map (log_of event) (queued ++ left))
      × (s'.lost ≡ s.lost ++ map (λ (delivery : ℕ × Subscription C). delivery.0) left)
      × (found ≡ map subscription_of (queued ++ left) ++ rest)
      × All (λ delivery. accepts delivery.0 ≡ true) queued
      × (((returned ≡ true) × (left ≡ []) × (rest ≡ []))
          ⊎ ((returned ≡ false)
              × (log_id : ℕ) × (sub : Subscription C) × (left ≡ (log_id, sub) ∷ [])
              × (accepts log_id ≡ false)))

  queue_deliveries-IsRouted :
      (accepts : ℕ → Bool) (new_id : List DeliveryLog → ℕ) (event : EventPayload)
      (subs : List (Subscription C)) (s : Integration C)
      → let result = queue_deliveries accepts new_id event subs s in
        IsRouted accepts event subs s result.0 result.1
  unfolding queue_deliveries
  queue_deliveries-IsRouted accepts new_id event [] s = (
    [],
    [],
    [],
    sym (append-nil s.waiting),
    sym (append-nil s.logs),
    sym (append-nil s.lost),
    refl,
    tt,
    inl (refl, refl, refl),
  )
  queue_deliveries-IsRouted accepts new_id event (sub ∷ subs) s =
      let id = new_id s.logs in
      let next : Integration C = record s {
        logs = s.logs ++ new_log id event sub ∷ [];
        waiting = enqueued (new_delivery_job id event sub) 0 s.waiting;
      } in
      elim (Bool-cases (accepts id)) [
        | inl taken ↦
            let (queued, left, rest, waiting, logs, lost, found, all, end) =
              queue_deliveries-IsRouted accepts new_id event subs next in
            rw (queue_deliveries, taken)
              (
                (id, sub) ∷ queued,
                left,
                rest,
                waiting
                    ∙ append_assoc s.waiting (job_of event (id, sub) ∷ [])
                        (map (job_of event) queued),
                logs
                    ∙ append_assoc s.logs (log_of event (id, sub) ∷ [])
                        (map (log_of event) (queued ++ left)),
                lost,
                ap (λ l. sub ∷ l) found,
                (taken, all),
                end,
              )
        | inr full ↦
            rw (queue_deliveries, full)
              (
                [],
                (id, sub) ∷ [],
                subs,
                sym (append-nil s.waiting),
                refl,
                refl,
                refl,
                tt,
                inr (refl, id, sub, refl, full),
              )
      ]

  -- An event is for a list of subscriptions, which has each stored subscription that is enabled and
  -- wants the event (the event is its own, the payload is about one of its systems where it names some,
  -- and its provider is registered and supports the event) as often as it is stored and in its order,
  -- and no other. Routing goes through that list in its order and adds, for each subscription that it
  -- comes to, one log, and one job for that log where the queue takes it. It ends at the first job that
  -- the queue does not take, and throws, with the log of that job and no job; or the queue takes all,
  -- and it comes to the end of the list.
  pub event-IsRouted :
      (get_provider : String → Option Provider) (accepts : ℕ → Bool) (new_id : List DeliveryLog → ℕ)
      (event : EventPayload) (s : Integration C)
      → let result = route_event get_provider accepts new_id event s in
        (found : List (Subscription C)) × IsSelection
          (Matches get_provider event)
          s.subscriptions
          found
        × IsRouted accepts event found s result.0 result.1
  unfolding route_event
  event-IsRouted get_provider accepts new_id event s =
      let found =
        find_matching_subscriptions get_provider event.event_id event.payload s.subscriptions in
      (
        found,
        find_matching-IsSelection get_provider event s.subscriptions,
        queue_deliveries-IsRouted accepts new_id event found s,
      )

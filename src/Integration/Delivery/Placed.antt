-- ===== src/Integration/Delivery/Placed.antt =====
-- delivery-coordinator.ts: an event that is routed and a retry that is asked for keep jobs and logs
-- together.
use checkmate.Prelude.{
  ℕ, ◌+◌, ◌≡◌, refl, subst, inl, inr, Bool, if_cases, if◌then◌else◌, true, false, List, [], ◌∷◌,
  ◌++◌, some, arith, All-append, find, ◌==◌, Bool-cases, ==_iff, Option-cases,
}
use checkmate.Prelude.Text.{◌===◌}
use checkmate.Integration.Tables.{
  Subscription, DeliveryStatus, pending, success, failed, retrying, DeliveryLog, EventPayload,
  UndefinedWrite, update_log, find_log,
}
use checkmate.Integration.Delivery.{
  Integration, enqueued, retry_delivery, retry_job, new_log, new_delivery_job, queue_deliveries,
}
use checkmate.Integration.Attempts.{reset_log, is_failed}
use checkmate.Integration.Delivery.Counting.{
  total_by, is_open, is_row, is_open_row, jobs_of, lost_of, lost_of-append, total_by-append,
  total_by-update_log, All-update_log, find_log-All,
}
use checkmate.Integration.Delivery.Consistent.{IsSound, IsConsistent, jobs_of-enqueued}

-- The database makes ids that no log has.
abbrev pub IsFresh : (List DeliveryLog → ℕ) → Type 0
IsFresh new_id = (logs : List DeliveryLog) → total_by (is_row (new_id logs)) logs ≡ 0

closed_of_failed : (status : DeliveryStatus) → is_failed status ≡ true → is_open status ≡ false
closed_of_failed pending h = absurd (cc)
closed_of_failed success h = refl
closed_of_failed failed h = refl
closed_of_failed retrying h = absurd (cc)

module _ {C : Type 0} where
  -- A new log, whose job waits or is lost.
  fresh_log-keeps :
      (s s' : Integration C) (log : DeliveryLog)
      → total_by (is_row log.id) s.logs ≡ 0
      → log.status ≡ pending
      → log.attempts ≡ 0
      → s'.logs ≡ s.logs ++ log ∷ []
      → ((id : ℕ)
          → jobs_of id s'.waiting + lost_of id s'.lost
            ≡ jobs_of id s.waiting + lost_of id s.lost + is_row id log)
      → IsConsistent s
      → IsConsistent s'
  fresh_log-keeps s s' log fresh st at logs placed (keyed, owned, sound) = rw logs (
    λ id. elim (Bool-cases (log.id == id)) [
      | inl e ↦
          let none_yet : total_by (is_row id) s.logs ≡ 0 =
            subst (λ k. total_by (is_row k) s.logs ≡ 0) ((==_iff log.id id).0 e) fresh in
          ground (arith, total_by-append (is_row id) s.logs (log ∷ []), none_yet)
      | inr e ↦ ground (arith, total_by-append (is_row id) s.logs (log ∷ []), keyed id, e)
    ],
    λ id.
        ground (arith, total_by-append (is_open_row id) s.logs (log ∷ []), placed id, owned id, st),
    All-append IsSound s.logs (log ∷ []) sound (rw (st, at) (refl, tt)),
  )

  pub queue_deliveries-keeps :
      (accepts : ℕ → Bool) (new_id : List DeliveryLog → ℕ)
      → IsFresh new_id
      → (event : EventPayload) (subscriptions : List (Subscription C)) (s : Integration C)
      → IsConsistent s
      → IsConsistent (queue_deliveries accepts new_id event subscriptions s).0
  unfolding queue_deliveries
  queue_deliveries-keeps accepts new_id fresh event [] s h = h
  queue_deliveries-keeps accepts new_id fresh event (sub ∷ subscriptions) s h =
      let id = new_id s.logs in
      let log = new_log id event sub in
      let job = new_delivery_job id event sub in
      let queued : Integration C = record s {
        logs = s.logs ++ log ∷ [];
        waiting = enqueued job 0 s.waiting;
      } in
      let refused : Integration C = record s {
        logs = s.logs ++ log ∷ [];
        lost = s.lost ++ id ∷ [];
      } in
      if_cases (λ (r : Integration C × Bool). IsConsistent r.0) (accepts id)
        (queue_deliveries-keeps accepts new_id fresh event subscriptions queued (
          fresh_log-keeps s queued log (fresh s.logs) refl refl refl
            (λ k. omega (arith, jobs_of-enqueued k job 0 s.waiting)) h))
        (fresh_log-keeps s refused log (fresh s.logs) refl refl refl
          (λ k. omega (arith, lost_of-append k s.lost (id ∷ []))) h)

  -- A closed row that is set to pending, with its job placed or lost.
  reset-keeps :
      (undefined_write : UndefinedWrite) (log_id : ℕ) (row : DeliveryLog) (s s' : Integration C)
      → find_log log_id s.logs ≡ some row
      → is_failed row.status ≡ true
      → s'.logs ≡ update_log log_id (reset_log undefined_write) s.logs
      → ((id : ℕ)
          → jobs_of id s'.waiting + lost_of id s'.lost
            ≡ jobs_of id s.waiting + lost_of id s.lost + (if log_id == id then 1 else 0))
      → IsConsistent s
      → IsConsistent s'
  unfolding reset_log
  reset-keeps undefined_write log_id row s s' found e logs placed (keyed, owned, sound) =
      let updated = λ (weight : DeliveryLog → ℕ).
        total_by-update_log weight log_id (reset_log undefined_write) s.logs row (keyed log_id)
          found in
      let (fits, same) = find_log-All IsSound log_id s.logs row found sound in
      rw logs (
        λ id. ground (arith, updated (is_row id), keyed id),
        λ id. ground (
          arith,
          updated (is_open_row id),
          owned id,
          placed id,
          closed_of_failed row.status,
          same,
        ),
        All-update_log IsSound log_id (reset_log undefined_write) s.logs row (keyed log_id) found
            refl sound,
      )

  pub retry_delivery-keeps :
      (undefined_write : UndefinedWrite) (accepts : ℕ → Bool) (now log_id : ℕ) (s : Integration C)
      → IsConsistent s
      → IsConsistent (retry_delivery undefined_write accepts now log_id s).0
  unfolding retry_delivery
  retry_delivery-keeps undefined_write accepts now log_id s h =
      elim (Option-cases (find_log log_id s.logs)) [
        | inl e ↦ rw (retry_delivery, e) h
        | inr (row, found) ↦ elim (Bool-cases (is_failed row.status)) [
          | inr e ↦ rw (retry_delivery, found, e) h
          | inl e ↦
              elim (Option-cases
                (find (λ (sub : Subscription C). sub.id === row.subscription_id) s.subscriptions)) [
                  | inl n ↦ rw (retry_delivery, found, e, n) h
                  | inr (sub, f) ↦
                      let job = retry_job now log_id row sub in
                      let logs = update_log log_id (reset_log undefined_write) s.logs in
                      let queued : Integration C = record s {
                        logs = logs;
                        waiting = enqueued job 0 s.waiting;
                      } in
                      let refused : Integration C = record s {
                        logs = logs;
                        lost = s.lost ++ log_id ∷ [];
                      } in
                      elim (Bool-cases (accepts log_id)) [
                        | inl taken ↦
                            rw (retry_delivery, found, e, f, taken)
                              (reset-keeps undefined_write log_id row s queued found e refl
                                (λ k. omega (arith, jobs_of-enqueued k job 0 s.waiting)) h)
                        | inr full ↦
                            rw (retry_delivery, found, e, f, full)
                              (reset-keeps undefined_write log_id row s refused found e refl
                                (λ k. omega (arith, lost_of-append k s.lost (log_id ∷ []))) h)
                      ]
                ]
        ]
      ]

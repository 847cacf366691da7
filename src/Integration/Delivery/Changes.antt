-- ===== src/Integration/Delivery/Changes.antt =====
-- delivery-coordinator.ts: what an executed delivery changes, as one change of the log's row.
use checkmate.Prelude.{
  ℕ, ◌+◌, ◌/◌, ◌≤◌, ◌<◌, ◌≡◌, ◌⊎◌, refl, inl, inr, Bool, true, false, String, List, [], ◌∷◌, Option,
  some, arith, ltb, ltb→lt, get_or_else, Bool-cases,
}
use checkmate.Integration.Tables.{
  success, failed, retrying, DeliveryLog, Provider, DeliveryJobData, UndefinedWrite, update_log,
  find_log,
}
use checkmate.Integration.Delivery.{
  DeliveryOutcome, delivered, refused, thrown, Integration, enqueued, complete_delivery,
  fail_delivery, execute_delivery,
}
use checkmate.Integration.Attempts.{
  retry_delay, begin_attempt, mark_successful, mark_retrying, mark_failed,
}
use checkmate.Integration.Delivery.Counting.{find_log-update_log}

update-update :
    (id : ℕ) (change change' : DeliveryLog → DeliveryLog) (logs : List DeliveryLog)
    → ((log : DeliveryLog) → (change log).id ≡ log.id)
    → update_log id change' (update_log id change logs)
      ≡ update_log id (λ log. change' (change log)) logs
unfolding update_log
update-update id change change' [] keeps = refl
update-update id change change' (log ∷ logs) keeps =
    ground (arith, update-update id change change' logs keeps, keeps log)

module _ {C : Type 0} where
  -- How the delivery ends for the row: made, given up, put back into the queue, or thrown out of it by
  -- a queue that does not take the job.
  abbrev pub IsEnd : DeliveryJobData C → DeliveryLog → Integration C → Integration C → Bool → Type 0
  IsEnd job row' s s' returned =
      ((row'.status ≡ success) × (s'.waiting ≡ s.waiting) × (returned ≡ true))
      ⊎ ((row'.status ≡ failed)
          × (3 ≤ row'.attempts)
          × (s'.waiting ≡ s.waiting)
          × (returned ≡ true))
      ⊎ ((row'.status ≡ retrying)
          × (row'.attempts < 3)
          × (s'.waiting ≡ enqueued job (retry_delay row'.attempts / 1000) s.waiting)
          × (returned ≡ true))
      ⊎ ((row'.status ≡ retrying)
          × (row'.attempts < 3)
          × (s'.waiting ≡ s.waiting)
          × (returned ≡ false))

  abbrev pub IsExecuted :
      DeliveryLog → DeliveryJobData C → Integration C → Integration C → Bool → Type 0
  IsExecuted row job s s' returned =
      (change : DeliveryLog → DeliveryLog) × ((log : DeliveryLog) → (change log).id ≡ log.id)
      × (s'.logs ≡ update_log job.log_id change s.logs)
      × (s'.lost ≡ s.lost)
      × ((change row).attempts ≡ row.attempts + 1)
      × IsEnd job (change row) s s' returned

  module _ (undefined_write : UndefinedWrite) (accepts : ℕ → Bool) (now : ℕ)
      (job : DeliveryJobData C) (s : Integration C) (row : DeliveryLog)
      (found : find_log job.log_id s.logs ≡ some row) where
    begun : Integration C
    begun = record s { logs = update_log job.log_id (begin_attempt now) s.logs }

    found_again :
        find_log job.log_id (update_log job.log_id (begin_attempt now) s.logs)
        ≡ some (begin_attempt now row)
    unfolding begin_attempt
    found_again = find_log-update_log job.log_id (begin_attempt now) s.logs row (λ log. refl) found

    completed :
        (external_id : Option String)
        → IsExecuted row job s (complete_delivery undefined_write external_id job begun) true
    unfolding complete_delivery begun begin_attempt mark_successful
    completed external_id = (
      λ log. mark_successful undefined_write external_id (begin_attempt now log),
      λ log. refl,
      update-update job.log_id (begin_attempt now) (mark_successful undefined_write external_id)
          s.logs (λ log. refl),
      refl,
      refl,
      inl (refl, refl, refl),
    )

    failed_attempt :
        (message : String)
        → let result = fail_delivery undefined_write accepts now message job begun in
          IsExecuted row job s result.0 result.1
    unfolding fail_delivery begun begin_attempt mark_retrying mark_failed
    failed_attempt message =
        let retry_mark = mark_retrying message (now + retry_delay (row.attempts + 1)) in
        elim (Bool-cases (ltb (row.attempts + 1) 3)) [
          | inl e ↦
              let few = ltb→lt (row.attempts + 1) 3 e in
              let logs =
                update-update job.log_id (begin_attempt now) retry_mark s.logs (λ log. refl) in
              elim (Bool-cases (accepts job.log_id)) [
                | inl taken ↦
                    rw (fail_delivery, found_again, e, taken)
                      (
                        λ log. retry_mark (begin_attempt now log),
                        λ log. refl,
                        logs,
                        refl,
                        refl,
                        inr (inr (inl (refl, few, refl, refl))),
                      )
                | inr full ↦
                    rw (fail_delivery, found_again, e, full)
                      (
                        λ log. retry_mark (begin_attempt now log),
                        λ log. refl,
                        logs,
                        refl,
                        refl,
                        inr (inr (inr (refl, few, refl, refl))),
                      )
              ]
          | inr e ↦
              rw (fail_delivery, found_again, e)
                (
                  λ log. mark_failed undefined_write message (begin_attempt now log),
                  λ log. refl,
                  update-update job.log_id (begin_attempt now) (mark_failed undefined_write message)
                      s.logs (λ log. refl),
                  refl,
                  refl,
                  inr (inl (refl, ground (arith, e), refl, refl)),
                )
        ]

    -- Where the provider is registered, the delivery is attempted.
    pub execute_delivery-IsExecuted :
        (get_provider : String → Option Provider) (provider : Provider) (outcome : DeliveryOutcome)
        → get_provider job.provider_id ≡ some provider
        → let result = execute_delivery undefined_write get_provider accepts now outcome job s in
          IsExecuted row job s result.0 result.1
    unfolding execute_delivery begun
    execute_delivery-IsExecuted get_provider provider (delivered external_id) e =
        rw (execute_delivery, e) (completed external_id)
    execute_delivery-IsExecuted get_provider provider (refused error) e =
        rw (execute_delivery, e)
          (failed_attempt (get_or_else error "Delivery failed without error message"))
    execute_delivery-IsExecuted get_provider provider (thrown message) e =
        rw (execute_delivery, e) (failed_attempt message)

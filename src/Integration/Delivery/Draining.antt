-- ===== src/Integration/Delivery/Draining.antt =====
-- delivery-coordinator.ts: the worker comes to an end of the deliveries.
use checkmate.Prelude.{
  ℕ, ◌≤◌, ◌≡◌, ◌⊎◌, refl, sym, ap, subst, ◌∙◌, inl, inr, Bool, true, false, String, List, [], ◌∷◌,
  arith, All, In, All-In, All-of_In, length, ltb, ◌==◌, ==_iff, is_some, get_or_else, Option-cases,
  List-cases, Bool-cases,
}
use checkmate.Integration.Tables.{
  DeliveryLog, DeliveryJobData, Subscription, UndefinedWrite, update_log, find_log,
}
use checkmate.Integration.Attempts.{begin_attempt, attempts_of, max_retries}
use checkmate.Integration.Delivery.{
  DeliveryOutcome, delivered, refused, thrown, QueuedJob, Integration, complete_delivery,
  fail_delivery, settle_delivery, execute_delivery,
}
use checkmate.Integration.Delivery.Worker.{
  pick, Turn, run_job, work, DeliveryEvent, deliveries_after,
}
use checkmate.Integration.Delivery.Counting.{is_open, jobs_of, lost_of}
use checkmate.Integration.Delivery.Consistent.{IsConsistent}
use checkmate.Integration.Delivery.Placed.{IsFresh}
use checkmate.Integration.Delivery.Reached.{
  no_deliveries, work-keeps, deliveries_after-IsConsistent,
}
use checkmate.Integration.Delivery.Owned.{In-owned}
use checkmate.Integration.Delivery.Effort.{effort, runs_left, AllJobs, All-pick, work-effort}

abbrev pub IsClosed : DeliveryLog → Type 0
IsClosed log = is_open log.status ≡ false

In-lost : (id : ℕ) (ids : List ℕ) → 1 ≤ lost_of id ids → In id ids
In-lost id [] h = absurd (omega (arith, h))
In-lost id (lost ∷ ids) h = elim (Bool-cases (lost == id)) [
  | inl e ↦ inl ((==_iff lost id).0 e)
  | inr e ↦ inr (In-lost id ids (ground (arith, h, e)))
]

module _ {C : Type 0} where
  -- The queue takes each job, and the providers of the jobs that wait are registered.
  abbrev pub IsWilling : Integration C → Turn → Type 0
  IsWilling s turn =
      ((id : ℕ) → turn.accepts id ≡ true)
      × AllJobs (λ job. is_some (turn.get_provider job.provider_id) ≡ true) s.waiting

  settled :
      (s : Integration C)
      → IsConsistent s
      → s.waiting ≡ []
      → All (λ log. IsClosed log ⊎ In log.id s.lost) s.logs
  settled s (keyed, owned, sound) e =
      All-of_In (λ log. IsClosed log ⊎ In log.id s.lost) s.logs
        (λ log m.
          let (row, open_row) = In-owned log s.logs (keyed log.id) m in
          elim (Bool-cases (is_open log.status)) [
            | inr closed ↦ inl closed
            | inl still ↦ inr (
                In-lost log.id s.lost
                  (ground (arith, owned log.id, ap (jobs_of log.id) e, open_row, still)))
          ])

module _ {C : Type 0} (undefined_write : UndefinedWrite) where
  abbrev pub work_all : List Turn → Integration C → Integration C
  work_all [] s = s
  work_all (turn ∷ turns) s = work_all turns (work undefined_write turn s)

  fail_delivery-returns :
      (accepts : ℕ → Bool) (now : ℕ) (message : String) (job : DeliveryJobData C)
      (s : Integration C)
      → accepts job.log_id ≡ true
      → let result = fail_delivery undefined_write accepts now message job s in
        (result.1 ≡ true) × (result.0.lost ≡ s.lost)
  unfolding fail_delivery
  fail_delivery-returns accepts now message job s taken =
      elim (Bool-cases (ltb (attempts_of (find_log job.log_id s.logs)) max_retries)) [
        | inl e ↦ rw (fail_delivery, e, taken) (refl, refl)
        | inr e ↦ rw (fail_delivery, e) (refl, refl)
      ]

  settle_delivery-returns :
      (accepts : ℕ → Bool) (now : ℕ) (outcome : DeliveryOutcome) (job : DeliveryJobData C)
      (s : Integration C)
      → accepts job.log_id ≡ true
      → let result = settle_delivery undefined_write accepts now outcome job s in
        (result.1 ≡ true) × (result.0.lost ≡ s.lost)
  unfolding complete_delivery
  settle_delivery-returns accepts now (delivered external_id) job s taken = (refl, refl)
  settle_delivery-returns accepts now (refused error) job s taken =
      fail_delivery-returns accepts now (get_or_else error "Delivery failed without error message")
        job s taken
  settle_delivery-returns accepts now (thrown message) job s taken =
      fail_delivery-returns accepts now message job s taken

  run_job-lost :
      (turn : Turn) (queued : QueuedJob C) (s : Integration C)
      → turn.accepts queued.job.log_id ≡ true
      → is_some (turn.get_provider queued.job.provider_id) ≡ true
      → (run_job undefined_write turn queued s).lost ≡ s.lost
  unfolding run_job execute_delivery
  run_job-lost turn queued s taken has =
      elim (Option-cases (turn.get_provider queued.job.provider_id)) [
        | inl e ↦ absurd (ground (arith, e, has))
        | inr (provider, e) ↦
            let (returned, lost) =
              settle_delivery-returns turn.accepts turn.now turn.outcome queued.job
                (record s { logs = update_log queued.job.log_id (begin_attempt turn.now) s.logs })
                taken in
            rw (run_job, execute_delivery, e, returned) lost
      ]

  work-lost :
      (turn : Turn) (s : Integration C)
      → IsWilling s turn
      → (work undefined_write turn s).lost ≡ s.lost
  unfolding work
  work-lost turn s (accepts, has) = elim (List-cases s.waiting) [
    | inl e ↦ rw (work, e) refl
    | inr (job, jobs, e) ↦
        let has_provider =
          λ (q : QueuedJob C). is_some (turn.get_provider q.job.provider_id) ≡ true in
        let here : All has_provider (job ∷ jobs) = subst (All has_provider) e has in
        let picked = (pick turn.place job jobs).0 in
        rw (work, e)
          (run_job-lost turn picked (record s { waiting = (pick turn.place job jobs).1 })
            (accepts picked.job.log_id) (All-pick has_provider turn.place job jobs here.0 here.1).0)
  ]

  work-empty :
      (turn : Turn) (s : Integration C)
      → s.waiting ≡ []
      → (work undefined_write turn s).waiting ≡ []
  unfolding work
  work-empty turn s e = rw (work, e) e

  work-AllJobs :
      (P : DeliveryJobData C → Type 0) (turn : Turn) (s : Integration C)
      → IsConsistent s
      → AllJobs P s.waiting
      → AllJobs P (work undefined_write turn s).waiting
  work-AllJobs P turn s h all = elim (List-cases s.waiting) [
    | inl e ↦ subst (AllJobs P) (sym (work-empty turn s e)) tt
    | inr (job, jobs, e) ↦ (work-effort P undefined_write turn s job jobs e h all).1
  ]

  work-IsWilling :
      (turn : Turn) (turns : List Turn) (s : Integration C)
      → IsConsistent s
      → All (IsWilling s) turns
      → All (IsWilling (work undefined_write turn s)) turns
  work-IsWilling turn turns s h willing =
      All-of_In (IsWilling (work undefined_write turn s)) turns (λ next m.
        let (accepts, has) = All-In (IsWilling s) next turns willing m in
        (
          accepts,
          work-AllJobs (λ job. is_some (next.get_provider job.provider_id) ≡ true) turn s h has,
        ))

  work_all-empty :
      (turns : List Turn) (s : Integration C) → s.waiting ≡ [] → (work_all turns s).waiting ≡ []
  work_all-empty [] s e = e
  work_all-empty (turn ∷ turns) s e =
      work_all-empty turns (work undefined_write turn s) (work-empty turn s e)

  work_all-drains :
      (turns : List Turn) (s : Integration C)
      → IsConsistent s
      → effort s ≤ length turns
      → (work_all turns s).waiting ≡ []
  work_all-drains [] s h few = elim (List-cases s.waiting) [
    | inl e ↦ e
    | inr (job, jobs, e) ↦ absurd (omega (arith, few, ap runs_left e))
  ]
  work_all-drains (turn ∷ turns) s h few = elim (List-cases s.waiting) [
    | inl e ↦ work_all-empty turns (work undefined_write turn s) (work-empty turn s e)
    | inr (job, jobs, e) ↦
        let (fewer, left) =
          work-effort (λ job. Unit {0}) undefined_write turn s job jobs e h
            (All-of_In (λ (q : QueuedJob C). Unit {0}) s.waiting (λ q m. tt)) in
        work_all-drains turns (work undefined_write turn s) (work-keeps undefined_write turn s h)
          (omega (arith, fewer, few))
  ]

  work_all-keeps :
      (turns : List Turn) (s : Integration C)
      → IsConsistent s
      → All (IsWilling s) turns
      → IsConsistent (work_all turns s) × ((work_all turns s).lost ≡ s.lost)
  work_all-keeps [] s h willing = (h, refl)
  work_all-keeps (turn ∷ turns) s h (willing, others) =
      let (kept, lost) =
        work_all-keeps turns (work undefined_write turn s) (work-keeps undefined_write turn s h)
          (work-IsWilling turn turns s h others) in
      (kept, lost ∙ work-lost turn s willing)

  -- Where the database makes new ids: after any emitted events, turns of the worker and retries, with
  -- any providers and any queue at each of them, if there are as many more turns as the effort that is
  -- left (four for each attempt that an open log may still make, and one for each run that the queue
  -- still gives a job that waits), and at each of them the queue takes every job and the providers of
  -- the jobs that waited at first are registered, then no job waits, and every log has succeeded or
  -- failed but those whose job was lost before these turns; whatever the providers answer, and in
  -- whatever order the queue gives the jobs.
  pub deliveries_end :
      (new_id : List DeliveryLog → ℕ)
      → IsFresh new_id
      → (subscriptions : List (Subscription C)) (events : List DeliveryEvent) (turns : List Turn)
      → let s = deliveries_after undefined_write new_id events (no_deliveries subscriptions) in
        All (IsWilling s) turns
        → effort s ≤ length turns
        → ((work_all turns s).waiting ≡ [])
          × All (λ log. IsClosed log ⊎ In log.id s.lost) (work_all turns s).logs
  deliveries_end new_id fresh subscriptions events turns willing enough =
      let s = deliveries_after undefined_write new_id events (no_deliveries subscriptions) in
      let h =
        deliveries_after-IsConsistent undefined_write new_id fresh events
          (no_deliveries subscriptions) (λ id. omega arith, λ id. omega arith, tt) in
      let (kept, lost) = work_all-keeps turns s h willing in
      let drained = work_all-drains turns s h enough in
      (
        drained,
        subst (λ ids. All (λ log. IsClosed log ⊎ In log.id ids) (work_all turns s).logs) lost
            (settled (work_all turns s) kept drained),
      )

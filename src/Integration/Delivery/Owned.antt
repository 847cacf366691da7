-- ===== src/Integration/Delivery/Owned.antt =====
-- delivery-coordinator.ts: which logs have a job.
use checkmate.Prelude.{
  ℕ, ◌+◌, ◌≤◌, ◌≡◌, sym, subst, inl, inr, List, [], ◌∷◌, arith, All, if◌then◌else◌, In, All-In,
  All-of_In,
}
use checkmate.Integration.Tables.{Subscription, DeliveryLog, UndefinedWrite}
use checkmate.Integration.Delivery.{Integration}
use checkmate.Integration.Delivery.Worker.{DeliveryEvent, deliveries_after}
use checkmate.Integration.Delivery.Counting.{
  total_by, is_open, is_row, is_open_row, jobs_of, lost_of, is_open_row-le,
}
use checkmate.Integration.Delivery.Consistent.{FitsStatus, IsSound}
use checkmate.Integration.Delivery.Placed.{IsFresh}
use checkmate.Integration.Delivery.Reached.{no_deliveries, deliveries_after-IsConsistent}

head_owned :
    (log : DeliveryLog) (logs : List DeliveryLog)
    → total_by (is_row log.id) (log ∷ logs) ≤ 1
    → (total_by (is_row log.id) (log ∷ logs) ≡ 1)
      × (total_by (is_open_row log.id) (log ∷ logs) ≡ (if is_open log.status then 1 else 0))
head_owned log logs h = ground (arith, is_open_row-le log.id logs)

pub In-owned :
    (log : DeliveryLog) (logs : List DeliveryLog)
    → total_by (is_row log.id) logs ≤ 1
    → In log logs
    → (total_by (is_row log.id) logs ≡ 1)
      × (total_by (is_open_row log.id) logs ≡ (if is_open log.status then 1 else 0))
In-owned log [] h m = absurd m
In-owned log (x ∷ logs) h (inl e) =
    subst
      (λ r.
        (total_by (is_row r.id) (x ∷ logs) ≡ 1)
        × (total_by (is_open_row r.id) (x ∷ logs) ≡ (if is_open r.status then 1 else 0)))
      e (head_owned x logs (subst (λ r. total_by (is_row r.id) (x ∷ logs) ≤ 1) (sym e) h))
In-owned log (x ∷ logs) h (inr m) = ground (arith, In-owned log logs, is_open_row-le log.id logs, m)

module _ {C : Type 0} where
  -- A log has the only row of its id; where it is open, its job waits once or is lost once, and where it
  -- is closed, neither; its attempts fit its status.
  abbrev pub IsOwned : Integration C → DeliveryLog → Type 0
  IsOwned s log =
      (total_by (is_row log.id) s.logs ≡ 1)
      × (jobs_of log.id s.waiting + lost_of log.id s.lost ≡ (if is_open log.status then 1 else 0))
      × FitsStatus log.status log.attempts

module _ {C : Type 0} (undefined_write : UndefinedWrite) (new_id : List DeliveryLog → ℕ)
    (fresh : IsFresh new_id) where
  -- Where the database makes new ids: after any emitted events, turns of the worker and retries, with
  -- any providers and any queue at each of them, every log has the only row of its id. Where it is
  -- pending or retrying, either exactly one job of it waits, or none waits and its job is once among
  -- those that the queue did not take or gave up after its retries; where it has succeeded or failed,
  -- there is neither. Its attempts are none where it is pending, fewer than three where it is retrying,
  -- at most three where it succeeded, and three where it failed.
  pub deliveries-IsOwned :
      (subscriptions : List (Subscription C)) (events : List DeliveryEvent)
      → let s = deliveries_after undefined_write new_id events (no_deliveries subscriptions) in
        All (IsOwned s) s.logs
  deliveries-IsOwned subscriptions events =
      let s = deliveries_after undefined_write new_id events (no_deliveries subscriptions) in
      let (keyed, owned, sound) =
        deliveries_after-IsConsistent undefined_write new_id fresh events
          (no_deliveries subscriptions) (λ id. omega arith, λ id. omega arith, tt) in
      All-of_In (IsOwned s) s.logs (λ log m.
        let (row, open_row) = In-owned log s.logs (keyed log.id) m in
        (row, omega (arith, owned log.id, open_row), All-In IsSound log s.logs sound m))

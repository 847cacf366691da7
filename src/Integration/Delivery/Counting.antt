-- ===== src/Integration/Delivery/Counting.antt =====
-- Sums over the delivery logs and the jobs of one log, and how the update of a row changes them.
use mathlib.Core.Option.{some-injective}
use checkmate.Prelude.{
  ℕ, ◌+◌, ◌-◌, ◌≤◌, ◌≡◌, refl, sym, subst, inl, inr, Bool, true, false, List, [], ◌∷◌, ◌++◌, some,
  arith, All, ◌==◌, if◌then◌else◌, Bool-cases, ==_iff,
}
use checkmate.Integration.Tables.{
  DeliveryStatus, pending, success, failed, retrying, DeliveryLog, update_log, find_log,
}
use checkmate.Integration.Delivery.{QueuedJob}

abbrev pub total_by : (DeliveryLog → ℕ) → List DeliveryLog → ℕ
total_by weight [] = 0
total_by weight (log ∷ logs) = weight log + total_by weight logs

-- A delivery that is neither made nor given up.
abbrev pub is_open : DeliveryStatus → Bool
is_open pending = true
is_open success = false
is_open failed = false
is_open retrying = true

-- Sums are over the rows with an id, over the open ones of them, and over attempts that are left.
abbrev pub is_row : ℕ → DeliveryLog → ℕ
is_row id log = if log.id == id then 1 else 0

abbrev pub is_open_row : ℕ → DeliveryLog → ℕ
is_open_row id log = if log.id == id then (if is_open log.status then 1 else 0) else 0

abbrev pub attempts_left : DeliveryLog → ℕ
attempts_left log = if is_open log.status then 3 - log.attempts else 0

module _ {C : Type 0} where
  abbrev pub jobs_of : ℕ → List (QueuedJob C) → ℕ
  jobs_of id [] = 0
  jobs_of id (queued ∷ jobs) = (if queued.job.log_id == id then 1 else 0) + jobs_of id jobs

  pub jobs_of-append :
      (id : ℕ) (xs ys : List (QueuedJob C)) → jobs_of id (xs ++ ys) ≡ jobs_of id xs + jobs_of id ys
  jobs_of-append id [] ys = omega arith
  jobs_of-append id (x ∷ xs) ys = omega (arith, jobs_of-append id xs ys)

abbrev pub lost_of : ℕ → List ℕ → ℕ
lost_of id [] = 0
lost_of id (lost ∷ ids) = (if lost == id then 1 else 0) + lost_of id ids

pub lost_of-append :
    (id : ℕ) (xs ys : List ℕ) → lost_of id (xs ++ ys) ≡ lost_of id xs + lost_of id ys
lost_of-append id [] ys = omega arith
lost_of-append id (x ∷ xs) ys = omega (arith, lost_of-append id xs ys)

pub total_by-append :
    (weight : DeliveryLog → ℕ) (xs ys : List DeliveryLog)
    → total_by weight (xs ++ ys) ≡ total_by weight xs + total_by weight ys
total_by-append weight [] ys = omega arith
total_by-append weight (x ∷ xs) ys = omega (arith, total_by-append weight xs ys)

-- An id that no row has.
update_log-absent :
    (id : ℕ) (change : DeliveryLog → DeliveryLog) (logs : List DeliveryLog)
    → total_by (is_row id) logs ≡ 0
    → update_log id change logs ≡ logs
unfolding update_log
update_log-absent id change [] h = refl
update_log-absent id change (log ∷ logs) h = ground (arith, update_log-absent id change logs)

-- The update of a row whose id stands once.
pub total_by-update_log :
    (weight : DeliveryLog → ℕ) (id : ℕ) (change : DeliveryLog → DeliveryLog)
    (logs : List DeliveryLog) (row : DeliveryLog)
    → total_by (is_row id) logs ≤ 1
    → find_log id logs ≡ some row
    → total_by weight (update_log id change logs) + weight row
      ≡ total_by weight logs + weight (change row)
unfolding update_log
total_by-update_log weight id change [] row h f = absurd (cc)
total_by-update_log weight id change (log ∷ logs) row h f = elim (Bool-cases (log.id == id)) [
  | inl e ↦ rw (update_log, e) (ground (arith, update_log-absent id change logs, f, e))
  | inr e ↦ rw (update_log, e) (ground (arith, total_by-update_log weight id change logs row, f, e))
]

head_found :
    (id : ℕ) (log : DeliveryLog) (logs : List DeliveryLog) (row : DeliveryLog)
    → (log.id == id) ≡ true
    → find_log id (log ∷ logs) ≡ some row
    → log ≡ row
head_found id log logs row e f = some-injective log row (ground (arith, e, f))

pub All-update_log {κ} :
    (P : DeliveryLog → Type κ) (id : ℕ) (change : DeliveryLog → DeliveryLog)
    (logs : List DeliveryLog) (row : DeliveryLog)
    → total_by (is_row id) logs ≤ 1
    → find_log id logs ≡ some row
    → P (change row)
    → All P logs
    → All P (update_log id change logs)
unfolding update_log
All-update_log P id change [] row h f p ps = tt
All-update_log P id change (log ∷ logs) row h f p (q, qs) = elim (Bool-cases (log.id == id)) [
  | inl e ↦
      rw (update_log, e, update_log-absent id change logs (ground (arith, h, e)))
        (subst (λ r. P (change r)) (sym (head_found id log logs row e f)) p, qs)
  | inr e ↦
      rw (update_log, e)
        (q, All-update_log P id change logs row (ground (arith, h, e)) (ground (arith, f, e)) p qs)
]

pub find_log-All {κ} :
    (P : DeliveryLog → Type κ) (id : ℕ) (logs : List DeliveryLog) (row : DeliveryLog)
    → find_log id logs ≡ some row
    → All P logs
    → P row × (row.id ≡ id)
find_log-All P id [] row f ps = absurd (cc)
find_log-All P id (log ∷ logs) row f (p, ps) = elim (Bool-cases (log.id == id)) [
  | inl e ↦
      subst (λ r. P r × (r.id ≡ id)) (head_found id log logs row e f) (p, (==_iff log.id id).0 e)
  | inr e ↦ find_log-All P id logs row (ground (arith, f, e)) ps
]

-- An update that keeps ids, and the row that it finds.
pub find_log-update_log :
    (id : ℕ) (change : DeliveryLog → DeliveryLog) (logs : List DeliveryLog) (row : DeliveryLog)
    → ((log : DeliveryLog) → (change log).id ≡ log.id)
    → find_log id logs ≡ some row
    → find_log id (update_log id change logs) ≡ some (change row)
unfolding update_log
find_log-update_log id change [] row keeps f = absurd (cc)
find_log-update_log id change (log ∷ logs) row keeps f =
    ground (arith, find_log-update_log id change logs row keeps, keeps log, f)

pub total_by-find_log :
    (id : ℕ) (logs : List DeliveryLog)
    → 1 ≤ total_by (is_row id) logs
    → (row : DeliveryLog) × (find_log id logs ≡ some row)
total_by-find_log id [] h = absurd (omega (arith, h))
total_by-find_log id (log ∷ logs) h = elim (Bool-cases (log.id == id)) [
  | inl e ↦ (log, ground (arith, e))
  | inr e ↦
      let (row, f) = total_by-find_log id logs (ground (arith, h, e)) in (row, ground (arith, f, e))
]

pub is_open_row-le :
    (id : ℕ) (logs : List DeliveryLog) → total_by (is_open_row id) logs ≤ total_by (is_row id) logs
is_open_row-le id [] = omega arith
is_open_row-le id (log ∷ logs) = ground (arith, is_open_row-le id logs)

-- Of rows whose ids stand once, the one that is found is all there is to count.
pub is_open_row-found :
    (id : ℕ) (logs : List DeliveryLog) (row : DeliveryLog)
    → total_by (is_row id) logs ≤ 1
    → find_log id logs ≡ some row
    → total_by (is_open_row id) logs ≡ is_open_row id row
is_open_row-found id [] row h f = absurd (cc)
is_open_row-found id (log ∷ logs) row h f = elim (Bool-cases (log.id == id)) [
  | inl e ↦
      let same : log ≡ row = head_found id log logs row e f in
      subst (λ r. total_by (is_open_row id) (log ∷ logs) ≡ is_open_row id r) same
        (ground (arith, is_open_row-le id logs, h, e))
  | inr e ↦ ground (arith, is_open_row-found id logs row, h, f, e)
]

-- ===== src/Queue/Memory/Recurring/Timers.antt =====
-- memory-queue.ts: every timer that is set belongs to its recurring job.
use mathlib.Core.Option.{some-injective}
use checkmate.Prelude.{
  ℕ, ◌+◌, ◌-◌, ◌≡◌, refl, sym, ap, subst, ◌∙◌, inl, inr, true, false, not, String, List, [], ◌∷◌,
  Option, none, some, arith, ltb, ◌==◌, In, In-filter, In-append, Bool-cases, Option-cases,
}
use checkmate.Prelude.Text.{◌===◌, ===_iff, ===_refl}
use checkmate.Prelude.Map.{get, set, get-set}
use checkmate.Queue.Memory.Recurring.{
  RecurringJobMetadata, TimerKind, Timer, RecurringQueue, wake, run, max_timeout, clear_timer,
  set_timer, schedule_next_cron_run, clear_existing,
}

module _ {T : Type 0} where
  -- The timer is the one that its job's metadata have, and the job is enabled.
  abbrev pub IsOwned : List (String × RecurringJobMetadata T) → Timer T → Type 0
  IsOwned recurring t =
      (m : RecurringJobMetadata T) × (get t.job_id recurring ≡ some m)
      × (m.timer_id ≡ some t.id)
      × (m.enabled ≡ true)

  abbrev pub IsTimed : List (String × RecurringJobMetadata T) → List (Timer T) → Type 0
  IsTimed recurring timers = (t : Timer T) → In t timers → IsOwned recurring t

  abbrev pub HasNoTimer : String → List (Timer T) → Type 0
  HasNoTimer job_id timers = (t : Timer T) → In t timers → (t.job_id === job_id) ≡ false

  clear_timer-In :
      (id : Option ℕ) (timers : List (Timer T)) (t : Timer T)
      → In t (clear_timer id timers)
      → In t timers
  clear_timer-In none timers t m = m
  clear_timer-In (some id) timers t m = ((In-filter (λ u. not (u.id == id)) t timers).0 m).0

  pub clear_timer-IsTimed :
      (id : Option ℕ) (recurring : List (String × RecurringJobMetadata T)) (timers : List (Timer T))
      → IsTimed recurring timers
      → IsTimed recurring (clear_timer id timers)
  clear_timer-IsTimed id recurring timers h t m = h t (clear_timer-In id timers t m)

  clear_timer-other :
      (id : ℕ) (timers : List (Timer T)) (t : Timer T)
      → In t (clear_timer (some id) timers)
      → (t.id == id) ≡ false
  clear_timer-other id timers t m =
      ground (arith, ((In-filter (λ u. not (u.id == id)) t timers).0 m).1)

  -- The timer of its metadata is a job's only one.
  pub clear_timer-HasNoTimer :
      (job_id : String) (m : RecurringJobMetadata T)
      (recurring : List (String × RecurringJobMetadata T)) (timers : List (Timer T))
      → IsTimed recurring timers
      → get job_id recurring ≡ some m
      → HasNoTimer job_id (clear_timer m.timer_id timers)
  clear_timer-HasNoTimer job_id m recurring timers h found t i =
      elim (Bool-cases (t.job_id === job_id)) [
        | inr e ↦ e
        | inl e ↦
            let (m', found', own, on) = h t (clear_timer-In m.timer_id timers t i) in
            let same : t.job_id ≡ job_id = (===_iff t.job_id job_id).0 e in
            let found'' : get job_id recurring ≡ some m' =
              subst (λ k. get k recurring ≡ some m') same found' in
            let m_same : m ≡ m' = some-injective m m' (sym found ∙ found'') in
            let id_same : m.timer_id ≡ some t.id = ap (λ o. o.timer_id) m_same ∙ own in
            absurd (
              ground (
                arith,
                clear_timer-other t.id timers t
                    (subst (λ o. In t (clear_timer o timers)) id_same i),
              ))
      ]

  -- Metadata may be set anew for a job that has no timer.
  pub set-IsTimed :
      (job_id : String) (m : RecurringJobMetadata T)
      (recurring : List (String × RecurringJobMetadata T)) (timers : List (Timer T))
      → HasNoTimer job_id timers
      → IsTimed recurring timers
      → IsTimed (set job_id m recurring) timers
  set-IsTimed job_id m recurring timers none_set h t i =
      let (m', found, own, on) = h t i in
      let other : (job_id === t.job_id) ≡ false =
        ground (arith, none_set t i, ===_iff job_id t.job_id, ===_iff t.job_id job_id) in
      (m', get-set job_id t.job_id m recurring ∙ rw other found, own, on)

  pub set_timer-IsTimed :
      (job_id : String) (m : RecurringJobMetadata T) (kind : TimerKind) (due : ℕ)
      (r : RecurringQueue T)
      → m.enabled ≡ true
      → HasNoTimer job_id r.timers
      → IsTimed r.recurring_jobs r.timers
      → IsTimed
          (set_timer job_id m kind due r).recurring_jobs
          (set_timer job_id m kind due r).timers
  unfolding set_timer
  set_timer-IsTimed job_id m kind due r on none_set h t i =
      let m' : RecurringJobMetadata T = record m { timer_id = some r.next_timer } in
      let new : Timer T = record {
        id = r.next_timer;
        job_id = job_id;
        payload = m.payload;
        priority = m.priority;
        kind = kind;
        due = due;
      } in
      elim (In-append t r.timers (new ∷ []) i) [
        | inl old ↦ set-IsTimed job_id m' r.recurring_jobs r.timers none_set h t old
        | inr (inl same) ↦
            subst (λ u. IsOwned (set job_id m' r.recurring_jobs) u) same
              (m', get-set job_id job_id m' r.recurring_jobs ∙ rw (===_refl job_id) refl, refl, on)
        | inr (inr none_left) ↦ absurd none_left
      ]

  pub schedule_next_cron_run-IsTimed :
      (next_run : String → ℕ → Option ℕ) (now : ℕ) (job_id pattern : String) (r : RecurringQueue T)
      → HasNoTimer job_id r.timers
      → IsTimed r.recurring_jobs r.timers
      → IsTimed
          (schedule_next_cron_run next_run now job_id pattern r).recurring_jobs
          (schedule_next_cron_run next_run now job_id pattern r).timers
  unfolding schedule_next_cron_run
  schedule_next_cron_run-IsTimed next_run now job_id pattern r none_set h =
      elim (Bool-cases r.queue.stopped) [
        | inl s ↦ rw (schedule_next_cron_run, s) h
        | inr s ↦ elim (Option-cases (get job_id r.recurring_jobs)) [
          | inl g ↦ rw (schedule_next_cron_run, s, g) h
          | inr (m, g) ↦ elim (Bool-cases m.enabled) [
            | inr off ↦ rw (schedule_next_cron_run, s, g, off) h
            | inl on ↦ elim (Option-cases (next_run pattern now)) [
              | inl n ↦ rw (schedule_next_cron_run, s, g, on, n) h
              | inr (next, n) ↦ elim (Bool-cases (ltb max_timeout (next - now))) [
                | inl far ↦
                    rw (schedule_next_cron_run, s, g, on, n, far)
                      (set_timer-IsTimed job_id m (wake pattern) (now + max_timeout) r on none_set
                        h)
                | inr near ↦
                    rw (schedule_next_cron_run, s, g, on, n, near)
                      (set_timer-IsTimed job_id m (run pattern) (now + (next - now)) r on none_set
                        h)
              ]
            ]
          ]
        ]
      ]

  -- After the clearing of an existing job, it has no timer.
  pub clear_existing-timers :
      (job_id : String) (r : RecurringQueue T)
      → IsTimed r.recurring_jobs r.timers
      → HasNoTimer job_id (clear_existing job_id r).timers
        × IsTimed (clear_existing job_id r).recurring_jobs (clear_existing job_id r).timers
  unfolding clear_existing
  clear_existing-timers job_id r h = elim (Option-cases (get job_id r.recurring_jobs)) [
    | inl g ↦
        rw (clear_existing, g)
          (
            (λ t i. elim (Bool-cases (t.job_id === job_id)) [
              | inr e ↦ e
              | inl e ↦
                  let (m, found, own, on) = h t i in
                  let found' : get job_id r.recurring_jobs ≡ some m =
                    subst (λ k. get k r.recurring_jobs ≡ some m) ((===_iff t.job_id job_id).0 e)
                      found in
                  absurd (cc)
            ]),
            h,
          )
    | inr (m, g) ↦
        rw (clear_existing, g)
          (
            clear_timer-HasNoTimer job_id m r.recurring_jobs r.timers h g,
            clear_timer-IsTimed m.timer_id r.recurring_jobs r.timers h,
          )
  ]

-- ===== src/Queue/Memory/Recurring/Steps.antt =====
-- memory-queue.ts: the timers of recurring jobs after any calls and callbacks, and after a cancellation.
use mathlib.Core.Option.{some-injective}
use checkmate.Prelude.{
  ℕ, ◌+◌, ◌≡◌, refl, sym, subst, ◌⊎◌, inl, inr, Bool, true, false, not, ◌&&◌, String, List, [], ◌∷◌,
  Option, none, some, arith, find, map, any, leb, ◌==◌, if◌then◌else◌, if_cases, In, In-filter,
  Bool-cases, Option-cases,
}
use checkmate.Prelude.Text.{◌===◌}
use checkmate.Prelude.Map.{get, set}
use checkmate.Queue.Memory.Recurring.{
  RecurringSchedule, interval_seconds, cron_pattern, RecurringJobMetadata, TimerKind, every, wake,
  run, Timer, RecurringQueue, clear_timer, clear_existing, schedule_recurring, cancel_recurring,
}
use checkmate.Queue.Memory.Recurring.Callbacks.{
  is_enabled, enqueue_run, call_timer, stop_recurring, RecurringEvent, scheduled, cancelled, called,
  stepped, all_stopped, recurring_step,
}
use checkmate.Queue.Memory.Recurring.Timers.{
  IsOwned, IsTimed, HasNoTimer, clear_timer-HasNoTimer, clear_timer-IsTimed, set-IsTimed,
  set_timer-IsTimed, schedule_next_cron_run-IsTimed, clear_existing-timers,
}

TimerKind-cases :
    (kind : TimerKind)
    → ((period : ℕ) × (kind ≡ every period))
      ⊎ ((pattern : String) × (kind ≡ wake pattern))
      ⊎ ((pattern : String) × (kind ≡ run pattern))
TimerKind-cases (every period) = inl (period, refl)
TimerKind-cases (wake pattern) = inr (inl (pattern, refl))
TimerKind-cases (run pattern) = inr (inr (pattern, refl))

module _ {T : Type 0} where
  -- The timers of the queue's state are those of its recurring jobs.
  abbrev pub IsOrderly : RecurringQueue T → Type 0
  IsOrderly r = IsTimed r.recurring_jobs r.timers

  In-map :
      (f : Timer T → Timer T) (timers : List (Timer T)) (t : Timer T)
      → In t (map f timers)
      → (u : Timer T) × In u timers × (f u ≡ t)
  In-map f [] t m = absurd m
  In-map f (u ∷ timers) t (inl e) = (u, inl refl, e)
  In-map f (u ∷ timers) t (inr m) = let (v, n, e) = In-map f timers t m in (v, inr n, e)

  find-In :
      (p : Timer T → Bool) (timers : List (Timer T)) (t : Timer T)
      → find p timers ≡ some t
      → In t timers
  find-In p [] t e = absurd (cc)
  find-In p (u ∷ timers) t e = ground (arith, find-In p timers t)

  get-any :
      (p : String × RecurringJobMetadata T → Bool) (k : String) (m : RecurringJobMetadata T)
      (recurring : List (String × RecurringJobMetadata T))
      → get k recurring ≡ some m
      → ((j : String) → p (j, m) ≡ true)
      → any p recurring ≡ true
  get-any p k m [] e h = absurd (cc)
  get-any p k m ((j, n) ∷ recurring) e h = elim (Bool-cases (j === k)) [
    | inl same ↦
        let found : some n ≡ some m = ground (arith, same, e) in
        let passes : p (j, n) ≡ true =
          subst (λ x. p (j, x) ≡ true) (sym (some-injective n m found)) (h j) in
        ground (arith, passes)
    | inr other ↦
        let found : get k recurring ≡ some m = ground (arith, other, e) in
        let rest = get-any p k m recurring found h in ground (arith, rest)
  ]

  schedule_recurring-IsOrderly :
      (next_run : String → ℕ → Option ℕ) (now : ℕ) (suffix job_id : String) (payload : T)
      (priority : ℕ) (schedule : RecurringSchedule) (r : RecurringQueue T)
      → IsOrderly r
      → IsOrderly (schedule_recurring next_run now suffix job_id payload priority schedule r).0
  unfolding schedule_recurring
  schedule_recurring-IsOrderly next_run now suffix job_id payload priority (cron_pattern pattern) r
        h =
      let cleared = clear_existing job_id r in
      let (none_set, timed) = clear_existing-timers job_id r h in
      let metadata : RecurringJobMetadata T = record {
        payload = payload;
        priority = priority;
        schedule = cron_pattern pattern;
        enabled = true;
        timer_id = none;
      } in
      schedule_next_cron_run-IsTimed next_run now job_id pattern
        (record cleared { recurring_jobs = set job_id metadata cleared.recurring_jobs }) none_set
        (set-IsTimed job_id metadata cleared.recurring_jobs cleared.timers none_set timed)
  schedule_recurring-IsOrderly next_run now suffix job_id payload priority
        (interval_seconds seconds) r h =
      let (none_set, timed) = clear_existing-timers job_id r h in
      set_timer-IsTimed job_id _ _ _ (clear_existing job_id r) refl none_set timed

  cancel_recurring-IsOrderly :
      (job_id : String) (r : RecurringQueue T) → IsOrderly r → IsOrderly (cancel_recurring job_id r)
  unfolding cancel_recurring
  cancel_recurring-IsOrderly job_id r h = elim (Option-cases (get job_id r.recurring_jobs)) [
    | inl g ↦ rw (cancel_recurring, g) h
    | inr (m, g) ↦
        rw (cancel_recurring, g)
          (set-IsTimed job_id _ r.recurring_jobs (clear_timer m.timer_id r.timers)
            (clear_timer-HasNoTimer job_id m r.recurring_jobs r.timers h g)
            (clear_timer-IsTimed m.timer_id r.recurring_jobs r.timers h))
  ]

  -- A timer that has gone off and is cleared was its job's only one.
  gone-HasNoTimer :
      (t : Timer T) (r : RecurringQueue T)
      → IsOrderly r
      → In t r.timers
      → HasNoTimer t.job_id (clear_timer (some t.id) r.timers)
  gone-HasNoTimer t r h i =
      let (m, found, own, on) = h t i in
      subst (λ o. HasNoTimer t.job_id (clear_timer o r.timers)) own
        (clear_timer-HasNoTimer t.job_id m r.recurring_jobs r.timers h found)

  postponed-IsTimed :
      (id period : ℕ) (recurring : List (String × RecurringJobMetadata T)) (timers : List (Timer T))
      → IsTimed recurring timers
      → IsTimed recurring
          (map (λ u. if u.id == id then record u { due = u.due + period } else u) timers)
  postponed-IsTimed id period recurring timers h t i =
      let later : Timer T → Timer T =
        λ u. if u.id == id then record u { due = u.due + period } else u in
      let (u, m, e) = In-map later timers t i in
      subst (IsOwned recurring) e
        (if_cases (λ (v : Timer T). IsOwned recurring v) (u.id == id) (h u m) (h u m))

  call_timer-IsOrderly :
      (next_run : String → ℕ → Option ℕ) (now : ℕ) (suffix : String) (t : Timer T)
      (r : RecurringQueue T)
      → IsOrderly r
      → In t r.timers
      → IsOrderly (call_timer next_run now suffix t r)
  unfolding call_timer
  call_timer-IsOrderly next_run now suffix t r h i =
      let gone = clear_timer-IsTimed (some t.id) r.recurring_jobs r.timers h in
      elim (TimerKind-cases t.kind) [
        | inl (period, k) ↦
            rw (call_timer, k)
              (if_cases IsOrderly r.queue.stopped
                (postponed-IsTimed t.id period r.recurring_jobs r.timers h)
                (postponed-IsTimed t.id period r.recurring_jobs r.timers h))
        | inr (inl (pattern, k)) ↦
            rw (call_timer, k)
              (schedule_next_cron_run-IsTimed next_run now t.job_id pattern
                (record r { timers = clear_timer (some t.id) r.timers }) (gone-HasNoTimer t r h i)
                gone)
        | inr (inr (pattern, k)) ↦
            rw (call_timer, k)
              (if_cases IsOrderly (not r.queue.stopped && is_enabled t.job_id r)
                (schedule_next_cron_run-IsTimed next_run now t.job_id pattern
                  (enqueue_run now suffix t
                    (record r { timers = clear_timer (some t.id) r.timers }))
                  (gone-HasNoTimer t r h i) gone)
                gone)
      ]

  stop_recurring-IsOrderly : (r : RecurringQueue T) → IsOrderly r → IsOrderly (stop_recurring r)
  unfolding stop_recurring
  stop_recurring-IsOrderly r h t i =
      let has_it : String × RecurringJobMetadata T → Bool =
        λ e. elim (e.1).timer_id [ none ↦ false | some id ↦ t.id == id ] in
      let (there, left) = (In-filter _ t r.timers).0 i in
      let (m, found, own, on) = h t there in
      let mine : (j : String) → has_it (j, m) ≡ true = λ j. rw own (ground arith) in
      let cleared = get-any has_it t.job_id m r.recurring_jobs found mine in
      absurd (ground (arith, left, cleared))

  recurring_step-IsOrderly :
      (next_run : String → ℕ → Option ℕ) (e : RecurringEvent T) (r : RecurringQueue T)
      → IsOrderly r
      → IsOrderly (recurring_step next_run e r)
  unfolding recurring_step
  recurring_step-IsOrderly next_run (scheduled now suffix job_id payload priority schedule) r h =
      schedule_recurring-IsOrderly next_run now suffix job_id payload priority schedule r h
  recurring_step-IsOrderly next_run (cancelled job_id) r h = cancel_recurring-IsOrderly job_id r h
  recurring_step-IsOrderly next_run (called now suffix id) r h =
      elim (Option-cases (find (λ t. t.id == id && leb t.due now) r.timers)) [
        | inl n ↦ rw (recurring_step, n) h
        | inr (t, n) ↦
            rw (recurring_step, n)
              (call_timer-IsOrderly next_run now suffix t r h
                (find-In (λ t. t.id == id && leb t.due now) r.timers t n))
      ]
  recurring_step-IsOrderly next_run (stepped e) r h = h
  recurring_step-IsOrderly next_run all_stopped r h = stop_recurring-IsOrderly r h

  abbrev pub recurring_after :
      (String → ℕ → Option ℕ) → List (RecurringEvent T) → RecurringQueue T → RecurringQueue T
  recurring_after next_run [] r = r
  recurring_after next_run (e ∷ events) r =
      recurring_after next_run events (recurring_step next_run e r)

  pub recurring_after-IsOrderly :
      (next_run : String → ℕ → Option ℕ) (events : List (RecurringEvent T)) (r : RecurringQueue T)
      → IsOrderly r
      → IsOrderly (recurring_after next_run events r)
  recurring_after-IsOrderly next_run [] r h = h
  recurring_after-IsOrderly next_run (e ∷ events) r h =
      recurring_after-IsOrderly next_run events (recurring_step next_run e r)
        (recurring_step-IsOrderly next_run e r h)

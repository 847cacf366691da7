-- ===== src/Events/Bus/Refusals.antt =====
-- event-bus.ts: which subscriptions are refused.
use checkmate.Prelude.{
  ◌≡◌, ◌⊎◌, ◌↔◌, refl, ap, ◌∙◌, inl, inr, String, List, [], Option, none, some, Result, ok, err,
  arith, get_or_else, Bool-cases, Result-cases, In,
}
use checkmate.Prelude.Text.{◌===◌, ===_iff, includes, includes_iff}
use checkmate.Prelude.Map.{get}
use checkmate.Queue.Interface.{QueueInterface}
use checkmate.Events.Groups.{
  Mode, broadcast, work_queue, instance_local, HookSubscribeOptions, SubscribeError,
  worker_group_required, duplicate_worker_group, check_worker_group,
}
use checkmate.Events.Bus.{BusConsumer, EventBus, subscribe, register, unsubscribe_hook}

-- A work queue without a worker group, or with one that the plugin uses.
abbrev pub IsRefused : String → HookSubscribeOptions → List (String × List String) → Type 0
IsRefused plugin_id options worker_groups =
    (options.mode ≡ some work_queue)
    × ((options.worker_group ≡ none)
        ⊎ (options.worker_group ≡ some "")
        ⊎ ((group : String) × (options.worker_group ≡ some group)
            × In group (get_or_else (get plugin_id worker_groups) [])))

check_refused :
    (mode : Mode) (plugin_id : String) (worker_group : Option String)
    (worker_groups : List (String × List String)) (e : SubscribeError)
    → check_worker_group mode plugin_id worker_group worker_groups ≡ err e
    → (mode ≡ work_queue)
      × ((worker_group ≡ none)
          ⊎ (worker_group ≡ some "")
          ⊎ ((group : String) × (worker_group ≡ some group)
              × In group (get_or_else (get plugin_id worker_groups) [])))
unfolding check_worker_group
check_refused broadcast plugin_id worker_group worker_groups e h = absurd (cc)
check_refused instance_local plugin_id worker_group worker_groups e h = absurd (cc)
check_refused work_queue plugin_id none worker_groups e h = (refl, inl refl)
check_refused work_queue plugin_id (some group) worker_groups e h =
    let taken = get_or_else (get plugin_id worker_groups) [] in
    elim (Bool-cases (group === "")) [
      | inl z ↦ (refl, inr (inl (ap some ((===_iff group "").0 z))))
      | inr z ↦ elim (Bool-cases (includes taken group)) [
        | inl t ↦ (refl, inr (inr (group, refl, (includes_iff taken group).0 t)))
        | inr t ↦ absurd (ground arith)
      ]
    ]

refused_check :
    (plugin_id : String) (worker_group : Option String)
    (worker_groups : List (String × List String))
    → (worker_group ≡ none)
      ⊎ (worker_group ≡ some "")
      ⊎ ((group : String) × (worker_group ≡ some group)
          × In group (get_or_else (get plugin_id worker_groups) []))
    → (e : SubscribeError) × (check_worker_group work_queue plugin_id worker_group worker_groups
        ≡ err e)
unfolding check_worker_group
refused_check plugin_id worker_group worker_groups (inl none_given) =
    (worker_group_required, rw none_given refl)
refused_check plugin_id worker_group worker_groups (inr (inl empty)) =
    (worker_group_required, rw empty refl)
refused_check plugin_id worker_group worker_groups (inr (inr (group, given, m))) =
    let taken = (includes_iff (get_or_else (get plugin_id worker_groups) []) group).1 m in
    elim (Bool-cases (group === "")) [
      | inl z ↦ (worker_group_required, rw (given, check_worker_group, z) refl)
      | inr z ↦ (duplicate_worker_group, rw (given, check_worker_group, z, taken) refl)
    ]

module _ {T L : Type 0} (api : QueueInterface BusConsumer T) where
  module _ (create : String → Option api.Queue) (uuid plugin_id hook_id : String) (listener : L)
      (options : HookSubscribeOptions) (bus : EventBus api L) where
    abbrev check : Mode → Result SubscribeError (List (String × List String))
    check mode = check_worker_group mode plugin_id options.worker_group bus.worker_groups

    subscribe_refused :
        (e : SubscribeError)
        → options.mode ≡ some work_queue
        → check work_queue ≡ err e
        → subscribe api create uuid plugin_id hook_id listener options bus ≡ (bus, err e)
    unfolding subscribe
    subscribe_refused e m c = rw (subscribe, m, c) refl

    refused_subscribe :
        (mode : Mode) (e : SubscribeError)
        → get_or_else options.mode broadcast ≡ mode
        → (subscribe api create uuid plugin_id hook_id listener options bus).1 ≡ err e
        → check mode ≡ err e
    unfolding subscribe check_worker_group register
    refused_subscribe broadcast e m h = absurd (ground arith)
    refused_subscribe instance_local e m h = absurd (ground arith)
    refused_subscribe work_queue e m h = elim (Result-cases (check work_queue)) [
      | inl (e', c) ↦
          let thrown : (subscribe api create uuid plugin_id hook_id listener options bus).1
              ≡ err e' =
            rw (subscribe, m, c) refl in
          let same : e' ≡ e = cc in c ∙ ap err same
      | inr (worker_groups, c) ↦
          let handle = unsubscribe_hook plugin_id hook_id uuid options.worker_group in
          let fine : (subscribe api create uuid plugin_id hook_id listener options bus).1
              ≡ ok handle =
            rw (subscribe, m, c) refl in
          absurd (cc)
    ]

  -- A subscription is refused exactly when it is for a work queue and has no worker group, or has
  -- one that its plugin uses already; the bus is then as it was.
  pub subscribe-IsRefused_iff :
      (create : String → Option api.Queue) (uuid plugin_id hook_id : String) (listener : L)
      (options : HookSubscribeOptions) (bus : EventBus api L)
      → ((e : SubscribeError) × (subscribe api create uuid plugin_id hook_id listener options bus
            ≡ (bus, err e)))
        ↔ IsRefused plugin_id options bus.worker_groups
  unfolding subscribe check_worker_group
  subscribe-IsRefused_iff create uuid plugin_id hook_id listener options bus =
      let mode = get_or_else options.mode broadcast in
      (
        λ r.
            let (e, h) = r in
            let (work, why) =
              check_refused mode plugin_id options.worker_group bus.worker_groups e (
                refused_subscribe create uuid plugin_id hook_id listener options bus mode e refl
                  (ap (λ x. x.1) h)) in
            (ground (arith, work), why),
        λ r.
            let (work, why) = r in
            let (e, c) = refused_check plugin_id options.worker_group bus.worker_groups why in
            (e, subscribe_refused create uuid plugin_id hook_id listener options bus e work c),
      )

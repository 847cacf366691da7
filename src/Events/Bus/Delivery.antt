-- ===== src/Events/Bus/Delivery.antt =====
-- event-bus.ts: which listener a job of a hook's queue reaches.
use checkmate.Prelude.{
  ◌≡◌, refl, ap, ◌∙◌, inl, inr, true, false, not, ◌&&◌, String, List, [], ◌∷◌, ◌++◌, Option, none,
  some, arith, filter, find, get_or_else, if◌then◌else◌, Bool-cases, List-cases,
}
use checkmate.Prelude.Text.{◌===◌, ===_iff}
use checkmate.Prelude.Map.{get, get-set, get-delete}
use checkmate.Queue.Interface.{QueueInterface}
use checkmate.Events.Groups.{Mode, HookSubscribeOptions, consumer_group_of}
use checkmate.Events.Bus.{
  ListenerRegistration, BusConsumer, EventBus, register, unsubscribe, target_listener,
}

module _ {L : Type 0} where
  abbrev with_id : String → List (ListenerRegistration L) → Option (ListenerRegistration L)
  with_id i ls = find (λ l. l.id === i) ls

  with_id-filter :
      (i id : String) (ls : List (ListenerRegistration L))
      → with_id i (filter (λ l. not (l.id === id)) ls) ≡ (if i === id then none else with_id i ls)
  with_id-filter i id [] = ground arith
  with_id-filter i id (l ∷ ls) =
      ground (arith, ===_iff l.id id, ===_iff l.id i, ===_iff i id, with_id-filter i id ls)

  with_id-append_one :
      (i : String) (ls : List (ListenerRegistration L)) (l : ListenerRegistration L)
      → with_id l.id ls ≡ none
      → with_id i (ls ++ l ∷ []) ≡ (if i === l.id then some l else with_id i ls)
  with_id-append_one i [] l h = ground (arith, ===_iff l.id i, ===_iff i l.id)
  with_id-append_one i (k ∷ ls) l h =
      ground (arith, ===_iff k.id i, ===_iff k.id l.id, ===_iff i l.id, with_id-append_one i ls l)

module _ {T L : Type 0} (api : QueueInterface BusConsumer T) where
  abbrev listeners_at :
      String → List (String × List (ListenerRegistration L)) → List (ListenerRegistration L)
  listeners_at h listeners = get_or_else (get h listeners) []

  listeners-unsubscribe :
      (plugin_id hook_id id : String) (worker_group : Option String) (bus : EventBus api L)
      (h : String)
      → listeners_at h (unsubscribe api plugin_id hook_id id worker_group bus).listeners ≡ (
          if hook_id === h
          then filter (λ l. not (l.id === id)) (listeners_at hook_id bus.listeners)
          else listeners_at h bus.listeners)
  unfolding unsubscribe
  listeners-unsubscribe plugin_id hook_id id worker_group bus h =
      let kept = filter (λ l. not (l.id === id)) (listeners_at hook_id bus.listeners) in
      elim (List-cases kept) [
        | inl e ↦
            rw (unsubscribe, e)
              (ap (λ o. get_or_else o []) (get-delete hook_id h bus.listeners)
                ∙ elim (Bool-cases (hook_id === h)) [
                  | inl same ↦ rw same refl
                  | inr other ↦ rw other refl
                ])
        | inr (l, rest, e) ↦
            rw (unsubscribe, e)
              (ap (λ o. get_or_else o []) (get-set hook_id h (l ∷ rest) bus.listeners)
                ∙ elim (Bool-cases (hook_id === h)) [
                  | inl same ↦ rw same refl
                  | inr other ↦ rw other refl
                ])
      ]

  -- After a listener is unsubscribed from a hook, no job of that hook reaches it; all jobs reach the
  -- other listeners, of this hook and of others, as before.
  pub target_listener-unsubscribe :
      (plugin_id hook_id id : String) (worker_group : Option String) (bus : EventBus api L)
      (h i : String)
      → target_listener api (h, i) (unsubscribe api plugin_id hook_id id worker_group bus)
        ≡ (if h === hook_id && i === id then none else target_listener api (h, i) bus)
  unfolding target_listener unsubscribe
  target_listener-unsubscribe plugin_id hook_id id worker_group bus h i =
      ap (with_id i) (listeners-unsubscribe plugin_id hook_id id worker_group bus h)
      ∙ elim (Bool-cases (hook_id === h)) [
        | inl e ↦
            let same : hook_id ≡ h = (===_iff hook_id h).0 e in
            let e' : (h === hook_id) ≡ true = ground (arith, same, ===_iff h hook_id) in
            rw (e, e')
              (with_id-filter i id (listeners_at hook_id bus.listeners)
                ∙ ap (λ k. if i === id then none else with_id i (listeners_at k bus.listeners))
                    same)
        | inr e ↦
            let e' : (h === hook_id) ≡ false =
              ground (arith, e, ===_iff h hook_id, ===_iff hook_id h) in
            rw (e, e') refl
      ]

  -- A new listener is reached by the jobs of its hook that are for it; all others as before.
  pub target_listener-register :
      (create : String → Option api.Queue) (uuid plugin_id hook_id : String) (listener : L)
      (mode : Mode) (options : HookSubscribeOptions) (worker_groups : List (String × List String))
      (bus : EventBus api L) (h i : String)
      → target_listener api (hook_id, uuid) bus ≡ none
      → target_listener api
          (h, i)
          (register api create uuid plugin_id hook_id listener mode options worker_groups bus).0
        ≡ (if h === hook_id && i === uuid
            then some (record {
              id = uuid;
              plugin_id = plugin_id;
              hook_id = hook_id;
              consumer_group =
                  consumer_group_of mode plugin_id hook_id options.worker_group bus.instance_id;
              listener = listener;
              mode = mode;
            })
            else target_listener api (h, i) bus)
  unfolding target_listener register
  target_listener-register create uuid plugin_id hook_id listener mode options worker_groups bus h i
        fresh =
      let new : ListenerRegistration L = record {
        id = uuid;
        plugin_id = plugin_id;
        hook_id = hook_id;
        consumer_group =
            consumer_group_of mode plugin_id hook_id options.worker_group bus.instance_id;
        listener = listener;
        mode = mode;
      } in
      let ls = listeners_at hook_id bus.listeners in
      ap (λ o. with_id i (get_or_else o [])) (get-set hook_id h (ls ++ new ∷ []) bus.listeners)
      ∙ elim (Bool-cases (hook_id === h)) [
        | inl e ↦
            let same : hook_id ≡ h = (===_iff hook_id h).0 e in
            let e' : (h === hook_id) ≡ true = ground (arith, same, ===_iff h hook_id) in
            rw (e, e')
              (with_id-append_one i ls new fresh
                ∙ ap
                    (λ k. if i === uuid then some new else with_id i (listeners_at k bus.listeners))
                    same)
        | inr e ↦
            let e' : (h === hook_id) ≡ false =
              ground (arith, e, ===_iff h hook_id, ===_iff hook_id h) in
            rw (e, e') refl
      ]

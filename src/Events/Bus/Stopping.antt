-- ===== src/Events/Bus/Stopping.antt =====
-- event-bus.ts with queue-proxy.ts: the channel of a hook that has lost its last listener.
use checkmate.Prelude.{
  ◌≡◌, refl, ◌∙◌, inl, inr, true, String, List, [], ◌∷◌, Option, some, err, Bool-cases,
}
use checkmate.Prelude.Text.{===_refl, includes}
use checkmate.Prelude.Map.{get, get-set}
use checkmate.Queue.Interface.{ConsumeOptions, QueueInterface}
use checkmate.Queue.Proxy.{
  QueueProxy, has_been_stopped, enqueue, consume, stop, ensure_delegate, get_queue,
}
use checkmate.Events.Groups.{Mode, HookSubscribeOptions}
use checkmate.Events.Bus.{
  ListenerRegistration, BusConsumer, EventBus, on_proxy, proxies_with, register, unsubscribe, emit,
}

module _ {T : Type 0} (api : QueueInterface BusConsumer T) where
  -- The manager keeps a proxy for the hook that has a queue and is stopped.
  abbrev IsStopped : String → List (String × QueueProxy api) → Type 0
  IsStopped hook_id proxies =
      (p : QueueProxy api) × (get hook_id proxies ≡ some p)
      × (p.stopped ≡ true)
      × ((queue : api.Queue) × (p.delegate ≡ some queue))

  get_queue-IsStopped :
      (create : String → Option api.Queue) (hook_id : String)
      (proxies : List (String × QueueProxy api))
      → IsStopped hook_id proxies
      → IsStopped hook_id (get_queue api create hook_id proxies)
  unfolding get_queue
  get_queue-IsStopped create hook_id proxies h =
      let (p, found, stopped, running) = h in (p, rw (get_queue, found) found, stopped, running)

  enqueue-stopped :
      (payload : T) (p : QueueProxy api) (queue : api.Queue)
      → p.stopped ≡ true
      → p.delegate ≡ some queue
      → (enqueue api payload p).1 ≡ err has_been_stopped
  unfolding enqueue ensure_delegate
  enqueue-stopped payload p queue stopped running =
      rw (enqueue, ensure_delegate, running, stopped) refl

  consume-stopped :
      (handler : BusConsumer) (options : ConsumeOptions) (p : QueueProxy api) (queue : api.Queue)
      → p.stopped ≡ true
      → p.delegate ≡ some queue
      → (consume api handler options p).delegate ≡ some queue
  unfolding consume
  consume-stopped handler options p queue stopped running = rw (consume, running, stopped) refl

  get-on_proxy :
      (hook_id : String) (method : QueueProxy api → QueueProxy api) (p : QueueProxy api)
      (proxies : List (String × QueueProxy api))
      → get hook_id proxies ≡ some p
      → get hook_id (on_proxy api hook_id method proxies) ≡ some (method p)
  get-on_proxy hook_id method p proxies found =
      rw (on_proxy, found) (get-set hook_id hook_id (method p) proxies ∙ rw (===_refl hook_id) refl)

module _ {T L : Type 0} (api : QueueInterface BusConsumer T) where
  proxies_with-IsStopped :
      (create : String → Option api.Queue) (hook_id : String) (bus : EventBus api L)
      → IsStopped api hook_id bus.proxies
      → IsStopped api hook_id (proxies_with api create hook_id bus)
  proxies_with-IsStopped create hook_id bus h =
      elim (Bool-cases (includes bus.queue_channels hook_id)) [
        | inl e ↦ rw e h
        | inr e ↦ rw e (get_queue-IsStopped api create hook_id bus.proxies h)
      ]

  emit_stopped :
      (create : String → Option api.Queue) (hook_id : String) (payload : T) (bus : EventBus api L)
      → IsStopped api hook_id bus.proxies
      → (emit api create hook_id payload bus).1 ≡ err has_been_stopped
  unfolding emit enqueue ensure_delegate
  emit_stopped create hook_id payload bus h =
      let (p, found, stopped, (queue, running)) = proxies_with-IsStopped create hook_id bus h in
      rw (emit, found) (enqueue-stopped api payload p queue stopped running)

  register-IsStopped :
      (create : String → Option api.Queue) (uuid plugin_id hook_id : String) (listener : L)
      (mode : Mode) (options : HookSubscribeOptions) (worker_groups : List (String × List String))
      (bus : EventBus api L)
      → IsStopped api hook_id bus.proxies
      → IsStopped api hook_id
          (register api create uuid plugin_id hook_id listener mode options worker_groups
            bus).0.proxies
  unfolding register consume
  register-IsStopped create uuid plugin_id hook_id listener mode options worker_groups bus h =
      let (p, found, stopped, (queue, running)) = proxies_with-IsStopped create hook_id bus h in
      (
        _,
        get-on_proxy api hook_id _ p (proxies_with api create hook_id bus) found,
        stopped,
        (queue, consume-stopped api _ _ p queue stopped running),
      )

  -- Where a hook has one listener and a channel whose proxy has a queue: after that listener is
  -- unsubscribed, the hook can no longer be emitted, and a new subscription does not change that.
  pub last_unsubscribe_stops_hook :
      (create : String → Option api.Queue) (plugin_id hook_id : String)
      (worker_group : Option String) (l : ListenerRegistration L) (p : QueueProxy api)
      (queue : api.Queue) (bus : EventBus api L) (payload : T) (uuid new_plugin_id : String)
      (listener : L) (mode : Mode) (options : HookSubscribeOptions)
      (worker_groups : List (String × List String))
      → get hook_id bus.listeners ≡ some (l ∷ [])
      → includes bus.queue_channels hook_id ≡ true
      → get hook_id bus.proxies ≡ some p
      → p.delegate ≡ some queue
      → ((emit api create hook_id payload
            (unsubscribe api plugin_id hook_id l.id worker_group bus)).1
          ≡ err has_been_stopped)
        × ((emit api create hook_id payload
              (register api create uuid new_plugin_id hook_id listener mode options worker_groups
                (unsubscribe api plugin_id hook_id l.id worker_group bus)).0).1
            ≡ err has_been_stopped)
  unfolding unsubscribe stop
  last_unsubscribe_stops_hook create plugin_id hook_id worker_group l p queue bus payload uuid
        new_plugin_id listener mode options worker_groups alone open_channel found running =
      let left = unsubscribe api plugin_id hook_id l.id worker_group bus in
      let dead : IsStopped api hook_id left.proxies =
        rw (unsubscribe, alone, ===_refl l.id, open_channel)
          (
            stop api p,
            get-on_proxy api hook_id (stop api) p bus.proxies found,
            refl,
            (api.stop queue, rw (running) refl),
          ) in
      (
        emit_stopped create hook_id payload left dead,
        emit_stopped create hook_id payload _ (
            register-IsStopped create uuid new_plugin_id hook_id listener mode options worker_groups
              left dead),
      )

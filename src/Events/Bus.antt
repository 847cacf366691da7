-- ===== src/Events/Bus.antt =====
-- backend/src/services/event-bus.ts: subscriptions of hooks, over the queues of the queue manager.
--
-- A channel is known by its hook's id, under which the manager keeps its proxy; a consumer of a
-- channel is the pair of its hook and its listener. What a random UUID is, is an argument.
mod Tests
pub mod Delivery
pub mod Refusals
pub mod Stopping
use checkmate.Prelude.{
  ℕ, Bool, true, false, not, ◌&&◌, String, List, [], ◌∷◌, ◌++◌, Option, none, some, Result, ok, err,
  filter, find, map, get_or_else, if◌then◌else◌,
}
use checkmate.Prelude.Text.{◌===◌, includes, ◌++ₛ◌}
use checkmate.Prelude.Map.{get, set, delete}
use checkmate.Events.Groups.{
  Mode, broadcast, work_queue, instance_local, HookSubscribeOptions, SubscribeError,
  check_worker_group, consumer_group_of, retries_of, release_worker_group,
}
use checkmate.Queue.Interface.{ConsumeOptions, QueueInterface}
use checkmate.Queue.Proxy.{QueueProxy, ProxyError, enqueue, consume, stop, get_queue, new_proxy}

-- `L` is the type of listeners.
pub record ListenerRegistration (L : Type 0) : Type 0 where
  pub id : String
  pub plugin_id : String
  pub hook_id : String
  pub consumer_group : String
  pub listener : L
  pub mode : Mode

pub record LocalListenerRegistration (L : Type 0) : Type 0 where
  pub id : String
  pub plugin_id : String
  pub hook_id : String
  pub listener : L

-- The function that `subscribe` returns: what it will remove.
pub data HookUnsubscribe : Type 0 where
  unsubscribe_hook : (plugin_id hook_id listener_id : String) → Option String → HookUnsubscribe
  unsubscribe_local : (hook_id listener_id : String) → HookUnsubscribe

-- The handler that the bus gives to a queue.
abbrev pub BusConsumer : Type 0
BusConsumer = String × String

module _ {T : Type 0} (api : QueueInterface BusConsumer T) where
  -- A method of the proxy of a channel is called.
  abbrev pub on_proxy :
      String
      → (QueueProxy api → QueueProxy api)
      → List (String × QueueProxy api)
      → List (String × QueueProxy api)
  on_proxy name method proxies = elim (get name proxies) [
    | none ↦ proxies
    | some p ↦ set name (method p) proxies
  ]

  -- `shutdown`: all channels are stopped.
  abbrev pub stop_all :
      List String → List (String × QueueProxy api) → List (String × QueueProxy api)
  stop_all [] proxies = proxies
  stop_all (hook_id ∷ channels) proxies = stop_all channels (on_proxy hook_id (stop api) proxies)

  -- `EventBus`, with the proxies of its queue manager.
  pub record EventBus (L : Type 0) : Type 0 where
    pub queue_channels : List String
    pub listeners : List (String × List (ListenerRegistration L))
    pub local_listeners : List (String × List (LocalListenerRegistration L))
    pub worker_groups : List (String × List String)
    pub instance_id : String
    pub proxies : List (String × QueueProxy api)

module _ {T L : Type 0} (api : QueueInterface BusConsumer T) where
  abbrev pub channels_with : String → EventBus api L → List String
  channels_with hook_id bus =
      if includes bus.queue_channels hook_id
      then bus.queue_channels
      else bus.queue_channels ++ hook_id ∷ []

  abbrev pub proxies_with :
      (String → Option api.Queue) → String → EventBus api L → List (String × QueueProxy api)
  proxies_with create hook_id bus =
      if includes bus.queue_channels hook_id
      then bus.proxies
      else get_queue api create hook_id bus.proxies

  -- `subscribeLocal`.
  unfoldable pub subscribe_local :
      String → String → String → L → EventBus api L → EventBus api L × HookUnsubscribe
  subscribe_local uuid plugin_id hook_id listener bus = (
    record bus {
      local_listeners =
          set hook_id
            (get_or_else (get hook_id bus.local_listeners) []
              ++ record { id = uuid; plugin_id = plugin_id; hook_id = hook_id; listener = listener }
                ∷ [])
            bus.local_listeners;
    },
    unsubscribe_local hook_id uuid,
  )

  -- `subscribe` behind its checks, for the modes that use a queue.
  unfoldable pub register :
      (String → Option api.Queue)
      → String
      → String
      → String
      → L
      → Mode
      → HookSubscribeOptions
      → List (String × List String)
      → EventBus api L
      → EventBus api L × HookUnsubscribe
  register create uuid plugin_id hook_id listener mode options worker_groups bus =
      let group = consumer_group_of mode plugin_id hook_id options.worker_group bus.instance_id in
      let registration : ListenerRegistration L = record {
        id = uuid;
        plugin_id = plugin_id;
        hook_id = hook_id;
        consumer_group = group;
        listener = listener;
        mode = mode;
      } in
      (
        record bus {
          worker_groups = worker_groups;
          listeners =
              set hook_id (get_or_else (get hook_id bus.listeners) [] ++ registration ∷ [])
                bus.listeners;
          queue_channels = channels_with hook_id bus;
          proxies =
              on_proxy api hook_id
                (consume api (hook_id, uuid)
                  (record {
                    consumer_group = group;
                    max_retries = some (retries_of mode options.max_retries);
                  }))
                (proxies_with create hook_id bus);
        },
        unsubscribe_hook plugin_id hook_id uuid options.worker_group,
      )

  -- `subscribe`.
  unfoldable pub subscribe :
      (String → Option api.Queue)
      → String
      → String
      → String
      → L
      → HookSubscribeOptions
      → EventBus api L
      → EventBus api L × Result SubscribeError HookUnsubscribe
  subscribe create uuid plugin_id hook_id listener options bus =
      elim (get_or_else options.mode broadcast) [
        | instance_local ↦
            let (bus', handle) = subscribe_local uuid plugin_id hook_id listener bus in
            (bus', ok handle)
        | mode ↦ elim (check_worker_group mode plugin_id options.worker_group bus.worker_groups) [
          | err e ↦ (bus, err e)
          | ok worker_groups ↦
              let (bus', handle) =
                register create uuid plugin_id hook_id listener mode options worker_groups bus in
              (bus', ok handle)
        ]
      ]

  -- `unsubscribe`.
  unfoldable pub unsubscribe :
      String → String → String → Option String → EventBus api L → EventBus api L
  unsubscribe plugin_id hook_id listener_id worker_group bus =
      let released = release_worker_group plugin_id worker_group bus.worker_groups in
      elim (filter (λ l. not (l.id === listener_id)) (get_or_else (get hook_id bus.listeners) [])) [
        | [] ↦ record bus {
          listeners = delete hook_id bus.listeners;
          proxies =
              if includes bus.queue_channels hook_id
              then on_proxy api hook_id (stop api) bus.proxies
              else bus.proxies;
          queue_channels = filter (λ h. not (h === hook_id)) bus.queue_channels;
          worker_groups = released;
        }
        | l ∷ ls ↦ record bus {
          listeners = set hook_id (l ∷ ls) bus.listeners;
          worker_groups = released;
        }
      ]

  -- `emit`.
  unfoldable pub emit :
      (String → Option api.Queue)
      → String
      → T
      → EventBus api L
      → EventBus api L × Result ProxyError String
  emit create hook_id payload bus =
      let proxies = proxies_with create hook_id bus in
      let open_bus = record bus { queue_channels = channels_with hook_id bus; proxies = proxies } in
      let (p, outcome) = enqueue api payload (get_or_else (get hook_id proxies) (new_proxy api)) in
      (record open_bus { proxies = set hook_id p proxies }, outcome)

  -- What a consumer of a queue invokes for a job: its listener, if that is still registered.
  unfoldable pub target_listener : BusConsumer → EventBus api L → Option (ListenerRegistration L)
  target_listener (hook_id, listener_id) bus =
      find (λ l. l.id === listener_id) (get_or_else (get hook_id bus.listeners) [])

  unfoldable pub shutdown : EventBus api L → EventBus api L
  shutdown bus = record bus { proxies = stop_all api bus.queue_channels bus.proxies }

  -- The function that `subscribeLocal` returns.
  unfoldable pub unsubscribe_locally : String → String → EventBus api L → EventBus api L
  unsubscribe_locally hook_id listener_id bus = record bus {
    local_listeners =
        elim (filter (λ l. not (l.id === listener_id))
          (get_or_else (get hook_id bus.local_listeners) [])) [
            | [] ↦ delete hook_id bus.local_listeners
            | l ∷ ls ↦ set hook_id (l ∷ ls) bus.local_listeners
          ];
  }

  -- `emitLocal`: every local listener is invoked, whatever the others do; with their outcomes.
  unfoldable pub emit_local :
      {E : Type 0}
      → (L → T → Result E (Unit {0}))
      → String
      → T
      → EventBus api L
      → List (String × Result E (Unit {0}))
  emit_local invoke hook_id payload bus =
      map (λ l. (l.id, invoke l.listener payload))
        (get_or_else (get hook_id bus.local_listeners) [])

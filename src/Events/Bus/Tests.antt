-- ===== src/Events/Bus/Tests.antt =====
-- Subscriptions of a hook over proxies of a queue that keeps its consumers.
use checkmate.Prelude.{
  ℕ, ◌≡◌, ◌↔◌, refl, inl, inr, String, false, List, [], ◌∷◌, ◌++◌, Option, none, some, ok, err,
  arith, if◌then◌else◌,
}
use checkmate.Prelude.Text.{◌===◌}
use checkmate.Queue.Interface.{ConsumeOptions, QueueInterface}
use checkmate.Queue.Proxy.{
  has_been_stopped, QueueProxy, new_proxy, reapply, switch_delegate, ensure_delegate, enqueue,
  consume, stop, get_queue,
}
use checkmate.Events.Groups.{
  broadcast, work_queue, HookSubscribeOptions, SubscribeError, check_worker_group,
  consumer_group_of, release_worker_group,
}
use checkmate.Events.Bus.{
  ListenerRegistration, BusConsumer, EventBus, subscribe_local, register, subscribe, unsubscribe,
  emit, target_listener,
}
use checkmate.Events.Bus.Delivery.{target_listener-unsubscribe}
use checkmate.Events.Bus.Refusals.{IsRefused, subscribe-IsRefused_iff}
use checkmate.Events.Bus.Stopping.{last_unsubscribe_stops_hook}

buses : Unit {0}
unfolding new_proxy reapply switch_delegate ensure_delegate enqueue consume stop get_queue
    check_worker_group consumer_group_of release_worker_group subscribe_local register subscribe
    unsubscribe emit target_listener
buses = tt

abbrev Consumers : Type 0
Consumers = List (String × BusConsumer)

abbrev in_group : String → Consumers → List BusConsumer
in_group group [] = []
in_group group ((g, c) ∷ cs) = if g === group then c ∷ in_group group cs else in_group group cs

added_last :
    (group : String) (c : BusConsumer) (options : ConsumeOptions) (cs : Consumers)
    → in_group group (cs ++ (options.consumer_group, c) ∷ []) ≡ (
        if options.consumer_group === group then in_group group cs ++ c ∷ [] else in_group group cs)
added_last group c options [] = ground arith
added_last group c options ((g, d) ∷ cs) = ground (arith, added_last group c options cs)

-- A queue that keeps its consumers and takes every job.
abbrev api : QueueInterface BusConsumer ℕ
api = record {
  Queue = Consumers;
  consume = λ c options cs. cs ++ (options.consumer_group, c) ∷ [];
  enqueue = λ job cs. ok (cs, "job");
  stop = λ cs. cs;
  consumers = in_group;
  consumers-consume = added_last;
}

abbrev create : String → Option Consumers
create name = some []

abbrev idle : EventBus api ℕ
idle = record {
  queue_channels = [];
  listeners = [];
  local_listeners = [];
  worker_groups = [];
  instance_id = "i1";
  proxies = [];
}

abbrev to_all : HookSubscribeOptions
to_all = record { mode = none; worker_group = none; max_retries = none }

abbrev to_one : HookSubscribeOptions
to_one = record { mode = some work_queue; worker_group = some "sync"; max_retries = none }

abbrev worked : EventBus api ℕ
unfolding buses
worked = (subscribe api create "l1" "auth" "deleted" 7 to_one idle).0

-- Two listeners of one plugin for one hook are consumers of the same group.
same_group :
    (subscribe api create "l2" "auth" "saved" 9 to_all
      (subscribe api create "l1" "auth" "saved" 7 to_all idle).0).0.proxies
    ≡ (
      "saved",
      record {
        delegate = some (
            ("auth.saved.broadcast.i1", ("saved", "l1"))
            ∷ ("auth.saved.broadcast.i1", ("saved", "l2"))
            ∷ []);
        subscriptions =
            (
              "auth.saved.broadcast.i1",
              (
                ("saved", "l2"),
                record { consumer_group = "auth.saved.broadcast.i1"; max_retries = some 0 },
              ),
            )
            ∷ [];
        stopped = false;
      },
    )
      ∷ []
unfolding buses
same_group = refl

subscribe-IsRefused_iff_example :
    ((e : SubscribeError) × (subscribe api create "l2" "auth" "saved" 9 to_one worked
        ≡ (worked, err e)))
    ↔ IsRefused "auth" to_one worked.worker_groups
subscribe-IsRefused_iff_example =
    subscribe-IsRefused_iff api create "l2" "auth" "saved" 9 to_one worked

worked-IsRefused : IsRefused "auth" to_one worked.worker_groups
unfolding buses worked
worked-IsRefused = (refl, inr (inr ("sync", refl, inl refl)))

target_listener-unsubscribe_example :
    target_listener api
      ("deleted", "l1")
      (unsubscribe api "auth" "deleted" "l1" (some "sync") worked)
    ≡ none
target_listener-unsubscribe_example =
    target_listener-unsubscribe api "auth" "deleted" "l1" (some "sync") worked "deleted" "l1"

abbrev worker : ListenerRegistration ℕ
worker = record {
  id = "l1";
  plugin_id = "auth";
  hook_id = "deleted";
  consumer_group = "auth.sync";
  listener = 7;
  mode = work_queue;
}

abbrev workers_proxy : QueueProxy api
workers_proxy = record {
  delegate = some (("auth.sync", ("deleted", "l1")) ∷ []);
  subscriptions =
      (
        "auth.sync",
        (("deleted", "l1"), record { consumer_group = "auth.sync"; max_retries = some 3 }),
      )
      ∷ [];
  stopped = false;
}

last_unsubscribe_stops_hook_example :
    ((emit api create "deleted" 5 (unsubscribe api "auth" "deleted" "l1" (some "sync") worked)).1
      ≡ err has_been_stopped)
    × ((emit api create "deleted" 5
          (register api create "l3" "catalog" "deleted" 8 broadcast to_all []
            (unsubscribe api "auth" "deleted" "l1" (some "sync") worked)).0).1
        ≡ err has_been_stopped)
unfolding buses worked
last_unsubscribe_stops_hook_example =
    last_unsubscribe_stops_hook api create "auth" "deleted" (some "sync") worker workers_proxy
      (("auth.sync", ("deleted", "l1")) ∷ []) worked 5 "l3" "catalog" 8 broadcast to_all [] refl
      refl refl refl

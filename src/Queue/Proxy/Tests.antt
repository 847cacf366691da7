-- ===== src/Queue/Proxy/Tests.antt =====
-- Proxies of the in-memory queue.
use checkmate.Prelude.{ℕ, ◌≡◌, refl, String, List, [], ◌∷◌, none, err}
use checkmate.Queue.Memory.State.{Queue, new_queue}
use checkmate.Queue.Memory.Consumers.{memory_queue}
use checkmate.Queue.Interface.{ConsumeOptions, QueueInterface}
use checkmate.Queue.Proxy.{
  not_initialized, has_been_stopped, new_proxy, reapply, switch_delegate, ensure_delegate, enqueue,
  consume, stop,
}
use checkmate.Queue.Proxy.Laws.{consumers_of, consume_all, switch_keeps_last}

proxies : Unit {0}
unfolding new_proxy reapply switch_delegate ensure_delegate enqueue consume stop
proxies = tt

abbrev api : QueueInterface String ℕ
api = memory_queue (λ q. "job")

abbrev empty : Queue ℕ
unfolding new_queue
empty = new_queue (record { concurrency = 2; max_queue_size = 9; scale = λ n. n })

abbrev in_group : String → ConsumeOptions
in_group group = record { consumer_group = group; max_retries = none }

-- Two handlers of one group and one of another.
abbrev calls : List (String × ConsumeOptions)
calls = ("first", in_group "a") ∷ ("other", in_group "b") ∷ ("second", in_group "a") ∷ []

unset : (enqueue api 1 (new_proxy api)).1 ≡ err not_initialized
unfolding proxies
unset = refl

stopped :
    (enqueue api 1 (stop api (switch_delegate api empty (new_proxy api)).0)).1
    ≡ err has_been_stopped
unfolding proxies
stopped = refl

switch_keeps_last_example :
    (consumers_of api "a" (consume_all api calls (switch_delegate api empty (new_proxy api)).0)
      ≡ "first" ∷ "second" ∷ [])
    × (consumers_of api "a"
          (switch_delegate api empty
            (consume_all api calls (switch_delegate api empty (new_proxy api)).0)).0
        ≡ "second" ∷ [])
unfolding empty
switch_keeps_last_example = switch_keeps_last api empty empty calls "a" refl refl

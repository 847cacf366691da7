-- ===== src/Queue/Proxy.antt =====
-- backend/src/services/queue-proxy.ts and `getQueue` of queue-manager.ts: the stable reference to a
-- queue whose implementation can be switched.
--
-- Operations are taken as settled when the next one begins, so `pendingOperations` is empty.
pub mod Laws
mod Tests
use checkmate.Prelude.{
  Bool, true, false, not, ◌&&◌, String, List, [], ◌∷◌, Option, none, some, Result, ok, err, is_some,
  if◌then◌else◌,
}
use checkmate.Prelude.Map.{get, set}
use checkmate.Queue.Interface.{ConsumeOptions, QueueInterface}

pub data ProxyError : Type 0 where
  not_initialized : ProxyError
  has_been_stopped : ProxyError
  refused : String → ProxyError

module _ {H T : Type 0} (api : QueueInterface H T) where
  -- `QueueProxy`, with its subscriptions by consumer group.
  pub record QueueProxy : Type 0 where
    pub delegate : Option api.Queue
    pub subscriptions : List (String × (H × ConsumeOptions))
    pub stopped : Bool

  unfoldable pub new_proxy : QueueProxy
  new_proxy = record { delegate = none; subscriptions = []; stopped = false }

  -- The loop over the stored subscriptions.
  unfoldable pub reapply : List (String × (H × ConsumeOptions)) → api.Queue → api.Queue
  reapply [] queue = queue
  reapply ((group, (handler, options)) ∷ subscriptions) queue =
      reapply subscriptions (api.consume handler options queue)

  -- `switchDelegate`, with the old delegate as it is left.
  unfoldable pub switch_delegate : api.Queue → QueueProxy → QueueProxy × Option api.Queue
  switch_delegate new_queue p = (
    record {
      delegate = some (reapply p.subscriptions new_queue);
      subscriptions = p.subscriptions;
      stopped = false;
    },
    elim p.delegate [ none ↦ none | some old ↦ some (api.stop old) ],
  )

  unfoldable pub ensure_delegate : QueueProxy → Result ProxyError api.Queue
  ensure_delegate p = elim p.delegate [
    | none ↦ err not_initialized
    | some queue ↦ if p.stopped then err has_been_stopped else ok queue
  ]

  -- `enqueue`; a call that throws changes nothing.
  unfoldable pub enqueue : T → QueueProxy → QueueProxy × Result ProxyError String
  enqueue item p = elim (ensure_delegate p) [
    | err e ↦ (p, err e)
    | ok queue ↦ elim (api.enqueue item queue) [
      | err message ↦ (p, err (refused message))
      | ok added ↦ (record p { delegate = some added.0 }, ok added.1)
    ]
  ]

  -- `consume`: the subscription is stored, and applied where there is a delegate that runs.
  unfoldable pub consume : H → ConsumeOptions → QueueProxy → QueueProxy
  consume handler options p = record {
    delegate = elim p.delegate [
      | none ↦ none
      | some queue ↦ if p.stopped then some queue else some (api.consume handler options queue)
    ];
    subscriptions = set options.consumer_group (handler, options) p.subscriptions;
    stopped = p.stopped;
  }

  unfoldable pub stop : QueueProxy → QueueProxy
  stop p = record p {
    stopped = true;
    delegate = elim p.delegate [ none ↦ none | some queue ↦ some (api.stop queue) ];
  }

  -- `getQueue` of the queue manager, over its `queueProxies`. `create` makes a queue of the active
  -- plugin, if that is known and configured.
  unfoldable pub get_queue :
      (String → Option api.Queue) → String → List (String × QueueProxy) → List (String × QueueProxy)
  get_queue create name proxies = elim (get name proxies) [
    | some p ↦ proxies
    | none ↦
        set name
          (elim (create name) [
            | none ↦ new_proxy
            | some queue ↦ (switch_delegate queue new_proxy).0
          ])
          proxies
  ]

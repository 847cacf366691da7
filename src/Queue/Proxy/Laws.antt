-- ===== src/Queue/Proxy/Laws.antt =====
-- queue-proxy.ts: what a switch of the implementation does with the consumers.
use mathlib.Core.List.{append-nil, append_assoc}
use checkmate.Prelude.{
  subst, ◌≡◌, refl, sym, ◌∙◌, inl, inr, true, false, String, List, [], ◌∷◌, ◌++◌, Option, none,
  some, arith, if◌then◌else◌, Bool-cases,
}
use checkmate.Prelude.Text.{◌===◌, ===_iff}
use checkmate.Prelude.Map.{get, set, get-set}
use checkmate.Queue.Interface.{ConsumeOptions, QueueInterface}
use checkmate.Queue.Proxy.{QueueProxy, new_proxy, reapply, switch_delegate, consume}

module _ {H T : Type 0} (api : QueueInterface H T) where
  abbrev handler_of : Option (H × ConsumeOptions) → List H
  handler_of none = []
  handler_of (some s) = s.0 ∷ []

  -- The consumer of a group among stored subscriptions.
  abbrev pub stored : String → List (String × (H × ConsumeOptions)) → List H
  stored group subscriptions = handler_of (get group subscriptions)

  -- A subscription is stored under its own group, and every group once.
  abbrev pub IsWellStored : List (String × (H × ConsumeOptions)) → Type 0
  IsWellStored [] = Unit
  IsWellStored ((group, s) ∷ subscriptions) =
      (s.1.consumer_group ≡ group) × (get group subscriptions ≡ none) × IsWellStored subscriptions

  set-IsWellStored :
      (handler : H) (options : ConsumeOptions)
      (subscriptions : List (String × (H × ConsumeOptions)))
      → IsWellStored subscriptions
      → IsWellStored (set options.consumer_group (handler, options) subscriptions)
  set-IsWellStored handler options [] h = (refl, refl, tt)
  set-IsWellStored handler options ((group, s) ∷ subscriptions) (own, once, h) =
      elim (Bool-cases (group === options.consumer_group)) [
        | inl e ↦ rw (set, e) (sym ((===_iff group options.consumer_group).0 e), once, h)
        | inr e ↦
            let other : (options.consumer_group === group) ≡ false = ground (
              arith,
              e,
              ===_iff group options.consumer_group,
              ===_iff options.consumer_group group,
            ) in
            rw (set, e)
              (
                own,
                get-set options.consumer_group group (handler, options) subscriptions
                    ∙ rw other once,
                set-IsWellStored handler options subscriptions h,
              )
      ]

  consumers-reapply :
      (subscriptions : List (String × (H × ConsumeOptions))) (queue : api.Queue) (group : String)
      → IsWellStored subscriptions
      → api.consumers group (reapply api subscriptions queue)
        ≡ api.consumers group queue ++ stored group subscriptions
  unfolding reapply
  consumers-reapply [] queue group h = sym (append-nil (api.consumers group queue))
  consumers-reapply ((g, (handler, options)) ∷ subscriptions) queue group (own, once, h) =
      consumers-reapply subscriptions (api.consume handler options queue) group h
      ∙ rw (api.consumers-consume group handler options queue) (elim (Bool-cases (g === group)) [
        | inl e ↦
            let same : g ≡ group = ground (arith, ===_iff g group, e) in
            let none_left : get group subscriptions ≡ none =
              subst (λ k. get k subscriptions ≡ none) same once in
            let e' : (options.consumer_group === group) ≡ true =
              ground (arith, ===_iff g group, own, e) in
            rw (stored, get, e, e', none_left)
              (append-nil (api.consumers group queue ++ handler ∷ []))
        | inr e ↦
            let e' : (options.consumer_group === group) ≡ false = ground (arith, own, e) in
            rw (stored, get, e, e') refl
      ])

  -- The consumers of a group that the proxy's delegate has.
  abbrev pub consumers_of : String → QueueProxy api → List H
  consumers_of group p = elim p.delegate [ none ↦ [] | some queue ↦ api.consumers group queue ]

  abbrev pub consume_all : List (H × ConsumeOptions) → QueueProxy api → QueueProxy api
  consume_all [] p = p
  consume_all ((handler, options) ∷ calls) p = consume_all calls (consume api handler options p)

  -- The handlers that subscribe for a group.
  abbrev pub handlers : String → List (H × ConsumeOptions) → List H
  handlers group [] = []
  handlers group ((handler, options) ∷ calls) =
      if options.consumer_group === group
      then handler ∷ handlers group calls
      else handlers group calls

  -- The last item alone, or another list where there is none.
  abbrev pub latest_or : List H → List H → List H
  latest_or otherwise [] = otherwise
  latest_or otherwise (h ∷ hs) = latest_or (h ∷ []) hs

  running : api.Queue → List (String × (H × ConsumeOptions)) → QueueProxy api
  running queue subscriptions = record {
    delegate = some queue;
    subscriptions = subscriptions;
    stopped = false;
  }

  consumers-consume_all :
      (group : String) (calls : List (H × ConsumeOptions)) (queue : api.Queue)
      (subscriptions : List (String × (H × ConsumeOptions)))
      → consumers_of group (consume_all calls (running queue subscriptions))
        ≡ api.consumers group queue ++ handlers group calls
  unfolding running consume
  consumers-consume_all group [] queue subscriptions = sym (append-nil (api.consumers group queue))
  consumers-consume_all group ((handler, options) ∷ calls) queue subscriptions =
      consumers-consume_all group calls (api.consume handler options queue)
        (set options.consumer_group (handler, options) subscriptions)
      ∙ rw (api.consumers-consume group handler options queue)
          (elim (Bool-cases (options.consumer_group === group)) [
            | inl e ↦
                rw e
                  (append_assoc (api.consumers group queue) (handler ∷ []) (handlers group calls))
            | inr e ↦ rw e refl
          ])

  stored-consume_all :
      (group : String) (calls : List (H × ConsumeOptions)) (p : QueueProxy api)
      → stored group (consume_all calls p).subscriptions
        ≡ latest_or (stored group p.subscriptions) (handlers group calls)
  unfolding consume
  stored-consume_all group [] p = refl
  stored-consume_all group ((handler, options) ∷ calls) p =
      stored-consume_all group calls (consume api handler options p)
      ∙ rw (stored, get-set options.consumer_group group (handler, options) p.subscriptions)
          (elim (Bool-cases (options.consumer_group === group)) [
            | inl e ↦ rw e refl
            | inr e ↦ rw e refl
          ])

  consume_all-IsWellStored :
      (calls : List (H × ConsumeOptions)) (p : QueueProxy api)
      → IsWellStored p.subscriptions
      → IsWellStored (consume_all calls p).subscriptions
  unfolding consume
  consume_all-IsWellStored [] p h = h
  consume_all-IsWellStored ((handler, options) ∷ calls) p h =
      consume_all-IsWellStored calls (consume api handler options p)
        (set-IsWellStored handler options p.subscriptions h)

  -- Subscriptions on the proxy of a queue without consumers, and then a switch to a new such queue:
  -- before the switch, all handlers of a group compete in it, in the order of their calls; after the
  -- switch, only the last one is there.
  pub switch_keeps_last :
      (queue new_queue : api.Queue) (calls : List (H × ConsumeOptions)) (group : String)
      → api.consumers group queue ≡ []
      → api.consumers group new_queue ≡ []
      → (consumers_of group (consume_all calls (switch_delegate api queue (new_proxy api)).0)
          ≡ handlers group calls)
        × (consumers_of group
              (switch_delegate api new_queue
                (consume_all calls (switch_delegate api queue (new_proxy api)).0)).0
            ≡ latest_or [] (handlers group calls))
  unfolding switch_delegate new_proxy reapply running
  switch_keeps_last queue new_queue calls group empty new_empty =
      let p = consume_all calls (running queue []) in
      (
        consumers-consume_all group calls queue [] ∙ rw empty refl,
        consumers-reapply p.subscriptions new_queue group
              (consume_all-IsWellStored calls (running queue []) tt)
            ∙ rw new_empty (stored-consume_all group calls (running queue [])),
      )

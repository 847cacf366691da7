-- ===== src/Plugins/Sorter/Waiting.antt =====
-- dependency-sorter.ts: which plugins wait for which, said without the graph.
use checkmate.Prelude.{
  ◌≡◌, ◌≢◌, ◌⊎◌, ◌↔◌, inl, inr, sym, ◌∙◌, Bool, true, ◌&&◌, String, List, [], ◌∷◌, some, arith,
  Bool-cases, Option-cases, any, any_iff, In,
}
use checkmate.Prelude.Text.{◌===◌, includes, ===_iff}
use checkmate.Prelude.Map.{get}
use checkmate.Plugins.Sorter.{
  PendingInit, uses_queue_manager, queue_plugin_providers, queue_plugin_registry_id,
  queue_manager_id,
}
use checkmate.Plugins.Sorter.Dependencies.{is_provider, waits}
use checkmate.Plugins.Sorter.Start.{includes-queue_plugin_providers}

-- A plugin that uses the registry of queue plugins.
abbrev pub IsQueuePluginProvider : List PendingInit → String → Type 0
IsQueuePluginProvider inits u =
    (q : PendingInit) × In q inits × (q.plugin_id ≡ u) × In queue_plugin_registry_id q.deps

-- The plugin `v` uses a service that another one, `u`, provides; or it uses the queue manager, and
-- `u` is another plugin that uses the registry of queue plugins.
abbrev pub WaitsFor : List PendingInit → List (String × String) → String → String → Type 0
WaitsFor inits provided_by v u =
    (u ≢ v)
    × ((p : PendingInit) × In p inits
        × (p.plugin_id ≡ v)
        × (((ref : String) × In ref p.deps × (get ref provided_by ≡ some u) × (u ≢ ""))
            ⊎ In queue_manager_id p.deps × IsQueuePluginProvider inits u))

any_text : (s : String) (refs : List String) → (any (λ ref. ref === s) refs ≡ true) ↔ In s refs
any_text s [] = (λ h. absurd (cc), λ m. absurd m)
any_text s (ref ∷ refs) = ground (arith, any_text s refs, ===_iff ref s)

is_provider_iff :
    (provided_by : List (String × String)) (consumer u ref : String)
    → (is_provider provided_by consumer u ref ≡ true)
      ↔ ((get ref provided_by ≡ some u) × (u ≢ "") × (u ≢ consumer))
is_provider_iff provided_by consumer u ref = elim (Option-cases (get ref provided_by)) [
  | inl e ↦ ground arith
  | inr (x, e) ↦ ground (arith, ===_iff x "", ===_iff x consumer, ===_iff x u)
]

any_provider_iff :
    (provided_by : List (String × String)) (consumer u : String) (refs : List String)
    → (any (is_provider provided_by consumer u) refs ≡ true) ↔ (
        ((ref : String) × In ref refs × (get ref provided_by ≡ some u) × (u ≢ "")) × (u ≢ consumer))
any_provider_iff provided_by consumer u refs =
    let found = any_iff (is_provider provided_by consumer u) refs in
    (
      λ h.
          let (ref, m, q) = found.0 h in
          let (e, named, other) = (is_provider_iff provided_by consumer u ref).0 q in
          ((ref, m, e, named), other),
      λ h.
          let (ref, m, e, named) = h.0 in
          found.1 (ref, m, (is_provider_iff provided_by consumer u ref).1 (e, named, h.1)),
    )

queue_provider_iff :
    (inits : List PendingInit) (u : String)
    → (includes (queue_plugin_providers inits []) u ≡ true) ↔ IsQueuePluginProvider inits u
queue_provider_iff inits u =
    let uses : PendingInit → Bool = λ p. any (λ ref. ref === queue_plugin_registry_id) p.deps in
    let found = any_iff (λ p. p.plugin_id === u && uses p) inits in
    let same = includes-queue_plugin_providers inits [] u in
    (
      λ h.
          let (q, m, t) = found.0 (sym same ∙ h) in
          (
            q,
            m,
            ground (arith, ===_iff q.plugin_id u),
            (any_text queue_plugin_registry_id q.deps).0 (ground arith),
          ),
      λ w.
          let (q, m, e, r) = w in
          let yes_uses = (any_text queue_plugin_registry_id q.deps).1 r in
          same ∙ found.1 (q, m, ground (arith, ===_iff q.plugin_id u, yes_uses)),
    )

-- What one entry makes its plugin wait for.
abbrev EntryWaits : List PendingInit → List (String × String) → String → PendingInit → Type 0
EntryWaits inits provided_by u p =
    ((ref : String) × In ref p.deps × (get ref provided_by ≡ some u) × (u ≢ ""))
    ⊎ In queue_manager_id p.deps × IsQueuePluginProvider inits u

waits_entry :
    (inits : List PendingInit) (provided_by : List (String × String)) (u v : String)
    (p : PendingInit)
    → waits provided_by (queue_plugin_providers inits []) u v p ≡ true
    → (p.plugin_id ≡ v) × (u ≢ v) × EntryWaits inits provided_by u p
unfolding uses_queue_manager
waits_entry inits provided_by u v p h =
    let same : p.plugin_id ≡ v = ground (arith, ===_iff p.plugin_id v) in
    elim (Bool-cases (any (is_provider provided_by p.plugin_id u) p.deps)) [
      | inl e ↦
          let (service, other) = (any_provider_iff provided_by p.plugin_id u p.deps).0 e in
          (same, λ w. other (w ∙ sym same), inl service)
      | inr e ↦
          let uses : any (λ ref. ref === queue_manager_id) p.deps ≡ true = ground arith in
          let qpp : includes (queue_plugin_providers inits []) u ≡ true = ground arith in
          (
            same,
            ground (arith, ===_iff u v),
            inr ((any_text queue_manager_id p.deps).0 uses, (queue_provider_iff inits u).0 qpp),
          )
    ]

entry_waits :
    (inits : List PendingInit) (provided_by : List (String × String)) (u v : String)
    (p : PendingInit)
    → p.plugin_id ≡ v
    → u ≢ v
    → EntryWaits inits provided_by u p
    → waits provided_by (queue_plugin_providers inits []) u v p ≡ true
unfolding uses_queue_manager
entry_waits inits provided_by u v p same other (inl service) =
    let e =
      (any_provider_iff provided_by p.plugin_id u p.deps).1 (service, λ w. other (w ∙ same)) in
    ground (arith, ===_iff p.plugin_id v, e)
entry_waits inits provided_by u v p same other (inr (m, q)) =
    let uses = (any_text queue_manager_id p.deps).1 m in
    let qpp = (queue_provider_iff inits u).1 q in
    ground (arith, ===_iff p.plugin_id v, ===_iff u v, uses, qpp)

pub waits_iff :
    (inits : List PendingInit) (provided_by : List (String × String)) (u v : String)
    → (any (waits provided_by (queue_plugin_providers inits []) u v) inits ≡ true)
      ↔ WaitsFor inits provided_by v u
waits_iff inits provided_by u v =
    let found = any_iff (waits provided_by (queue_plugin_providers inits []) u v) inits in
    (
      λ h.
          let (p, m, t) = found.0 h in
          let (same, other, why) = waits_entry inits provided_by u v p t in
          (other, (p, m, same, why)),
      λ w.
          let (other, entry) = w in
          let (p, m, same, why) = entry in
          found.1 (p, m, entry_waits inits provided_by u v p same other why),
    )

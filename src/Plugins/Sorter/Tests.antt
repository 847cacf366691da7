-- ===== src/Plugins/Sorter/Tests.antt =====
-- Orders of plugins, and none.
use checkmate.Prelude.{◌≡◌, refl, ◌≢◌, ◌↔◌, inl, List, [], ◌∷◌, String, ok, err, arith}
use checkmate.Prelude.Text.{===_iff}
use checkmate.Plugins.Sorter.{
  PendingInit, circular_dependency, out_of_fuel, sort_plugins, maps_of, build, initial,
  queue_plugin_providers, add_edge, add_service_edge, add_service_edges, add_queue_edge,
  add_queue_edges, uses_queue_manager, ready, relax, drain,
}
use checkmate.Plugins.Sorter.Laws.{
  IsOrder, sort_plugins_terminates, sort_plugins-IsOrder, sort_plugins_iff,
  missing_provider_circular,
}

sorter : Unit {0}
unfolding sort_plugins maps_of build initial queue_plugin_providers add_edge add_service_edge
    add_service_edges add_queue_edge add_queue_edges uses_queue_manager ready relax drain
sorter = tt

abbrev plugin : String → List String → PendingInit
plugin id refs = record { plugin_id = id; deps = refs }

-- The health checks use the queue and the catalog; the memory queue is a queue plugin.
abbrev inits : List PendingInit
inits =
    plugin "healthcheck" ("core.queueManager" ∷ "catalog.service" ∷ [])
    ∷ plugin "catalog" ("core.logger" ∷ [])
    ∷ plugin "queue-memory" ("core.queuePluginRegistry" ∷ [])
    ∷ []

abbrev provided_by : List (String × String)
provided_by = ("catalog.service", "catalog") ∷ ("history.service", "history") ∷ []

abbrev order : List String
order = "catalog" ∷ "queue-memory" ∷ "healthcheck" ∷ []

sorted : sort_plugins inits provided_by ≡ ok order
unfolding sorter
sorted = refl

-- Two plugins that use each other's service.
cycle :
    sort_plugins (plugin "a" ("y" ∷ []) ∷ plugin "b" ("x" ∷ []) ∷ []) (("x", "a") ∷ ("y", "b") ∷ [])
    ≡ err circular_dependency
unfolding sorter
cycle = refl

sort_plugins_terminates_example : sort_plugins inits provided_by ≢ err out_of_fuel
sort_plugins_terminates_example = sort_plugins_terminates inits provided_by

sort_plugins-IsOrder_example : IsOrder inits provided_by order
sort_plugins-IsOrder_example = sort_plugins-IsOrder inits provided_by order sorted

sort_plugins_iff_example :
    ((ids : List String) × (sort_plugins inits provided_by ≡ ok ids))
    ↔ ((ids : List String) × IsOrder inits provided_by ids)
sort_plugins_iff_example = sort_plugins_iff inits provided_by (refl, (refl, (refl, tt)))

-- The plugin "history" registers a service and nothing that is to be initialised.
abbrev uses_history : List PendingInit
uses_history = plugin "report" ("history.service" ∷ []) ∷ []

missing_provider_circular_example : sort_plugins uses_history provided_by ≡ err circular_dependency
missing_provider_circular_example =
    missing_provider_circular uses_history provided_by "report" "history"
      (
        λ e. ground (arith, ===_iff "history" "report", e),
        (
          plugin "report" ("history.service" ∷ []),
          inl refl,
          refl,
          inl ("history.service", inl refl, refl, λ e. ground (arith, ===_iff "history" "", e)),
        ),
      )
      (λ m. ground (arith, ===_iff "report" "history", m))

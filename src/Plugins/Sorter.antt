-- ===== src/Plugins/Sorter.antt =====
-- backend/src/plugin-manager/dependency-sorter.ts: the order in which plugins are initialised.
--
-- The loop over the queue is recursion on fuel; `Plugins.Sorter.Termination` shows that the fuel of
-- `sort_plugins` is enough. An in-degree is a natural number. The source tests it after taking one
-- off, the model before: a count that were to fall below zero would never be zero again there, and
-- stays at zero here, where it is never one again.
pub mod Degrees
pub mod Relax
pub mod Loop
pub mod Termination
pub mod Edges
pub mod Dependencies
pub mod Start
pub mod Waiting
pub mod Runs
pub mod Laws
mod Tests
use checkmate.Prelude.{
  ℕ, zero, suc, ◌+◌, ◌-◌, Bool, true, false, not, ◌&&◌, String, List, [], ◌∷◌, ◌++◌, Option, none,
  some, Result, ok, err, length, any, ◌==◌, if◌then◌else◌, get_or_else,
}
use checkmate.Prelude.Text.{◌===◌, includes}
use checkmate.Prelude.Map.{get, set}

-- An entry of `pendingInits`; `deps` are the ids of its service references.
pub record PendingInit : Type 0 where
  pub plugin_id : String
  pub deps : List String

abbrev pub queue_plugin_registry_id : String
queue_plugin_registry_id = "core.queuePluginRegistry"

abbrev pub queue_manager_id : String
queue_manager_id = "core.queueManager"

abbrev pub Degrees : Type 0
Degrees = List (String × ℕ)

abbrev pub Graph : Type 0
Graph = List (String × List String)

-- `inDegree.get(v)` and `graph.get(u)`, with the defaults of the source.
abbrev pub degree : Degrees → String → ℕ
degree d v = get_or_else (get v d) 0

abbrev pub dependents : Graph → String → List String
dependents g u = get_or_else (get u g) []

-- The first loop, over both maps.
unfoldable pub initial : List PendingInit → Degrees × Graph → Degrees × Graph
initial [] maps = maps
initial (p ∷ inits) (d, g) = initial inits (set p.plugin_id 0 d, set p.plugin_id [] g)

-- The set `queuePluginProviders`.
unfoldable pub queue_plugin_providers : List PendingInit → List String → List String
queue_plugin_providers [] found = found
queue_plugin_providers (p ∷ inits) found = queue_plugin_providers inits (
    if any (λ ref. ref === queue_plugin_registry_id) p.deps && not (includes found p.plugin_id)
    then found ++ p.plugin_id ∷ []
    else found)

-- The edge from a provider to a consumer, with the consumer's count.
unfoldable pub add_edge : String → String → Degrees × Graph → Degrees × Graph
add_edge provider consumer (d, g) = (
  set consumer (degree d consumer + 1) d,
  set provider (dependents g provider ++ consumer ∷ []) g,
)

-- The provider of a service, where the code adds an edge for it.
abbrev pub provider_of : List (String × String) → String → String → Option String
provider_of provided_by consumer ref = elim (get ref provided_by) [
  | none ↦ none
  | some provider ↦
      if not (provider === "") && not (provider === consumer) then some provider else none
]

unfoldable pub add_service_edge :
    List (String × String) → String → String → Degrees × Graph → Degrees × Graph
add_service_edge provided_by consumer ref maps = elim (provider_of provided_by consumer ref) [
  | none ↦ maps
  | some provider ↦ add_edge provider consumer maps
]

unfoldable pub add_service_edges :
    List (String × String) → String → List String → Degrees × Graph → Degrees × Graph
add_service_edges provided_by consumer [] maps = maps
add_service_edges provided_by consumer (ref ∷ refs) maps =
    add_service_edges provided_by consumer refs (add_service_edge provided_by consumer ref maps)

-- The edge from one queue plugin provider to a plugin that uses the queue manager.
unfoldable pub add_queue_edge : String → String → Degrees × Graph → Degrees × Graph
add_queue_edge consumer qpp maps =
    if not (qpp === consumer) && not (includes (dependents maps.1 qpp) consumer)
    then add_edge qpp consumer maps
    else maps

unfoldable pub add_queue_edges : String → List String → Degrees × Graph → Degrees × Graph
add_queue_edges consumer [] maps = maps
add_queue_edges consumer (qpp ∷ qpps) maps =
    add_queue_edges consumer qpps (add_queue_edge consumer qpp maps)

unfoldable pub uses_queue_manager : PendingInit → Bool
uses_queue_manager p = any (λ ref. ref === queue_manager_id) p.deps

-- The loop that builds the graph.
unfoldable pub build :
    List (String × String) → List String → List PendingInit → Degrees × Graph → Degrees × Graph
build provided_by qpps [] maps = maps
build provided_by qpps (p ∷ inits) maps =
    let with_services = add_service_edges provided_by p.plugin_id p.deps maps in
    build provided_by qpps inits (
      if uses_queue_manager p
      then add_queue_edges p.plugin_id qpps with_services
      else with_services)

unfoldable pub ready : Degrees → List String
ready [] = []
ready ((id, count) ∷ d) = let rest = ready d in if count == 0 then id ∷ rest else rest

-- The loop over the dependents of a plugin that is done, over (inDegree, queue).
unfoldable pub relax : List String → Degrees × List String → Degrees × List String
relax [] (d, queue) = (d, queue)
relax (v ∷ vs) (d, queue) =
    relax vs (set v (degree d v - 1) d, if degree d v == 1 then queue ++ v ∷ [] else queue)

-- The loop over the queue; `none` means that the fuel ran out.
unfoldable pub drain : ℕ → Graph → Degrees → List String → List String → Option (List String)
drain fuel g d [] sorted = some sorted
drain zero g d (u ∷ queue) sorted = none
drain (suc fuel) g d (u ∷ queue) sorted =
    let (d', queue') = relax (dependents g u) (d, queue) in
    drain fuel g d' queue' (sorted ++ u ∷ [])

pub data SortError : Type 0 where
  circular_dependency out_of_fuel : SortError

unfoldable pub maps_of : List PendingInit → List (String × String) → Degrees × Graph
maps_of inits provided_by =
    build provided_by (queue_plugin_providers inits []) inits (initial inits ([], []))

unfoldable pub sort_plugins :
    List PendingInit → List (String × String) → Result SortError (List String)
unfolding maps_of
sort_plugins inits provided_by =
    let (d, g) = maps_of inits provided_by in
    elim (drain (length d) g d (ready d) []) [
      | none ↦ err out_of_fuel
      | some sorted ↦ if length sorted == length inits then ok sorted else err circular_dependency
    ]

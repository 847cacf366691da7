-- ===== src/Plugins/Sorter/Runs.antt =====
-- dependency-sorter.ts: what a run of `sort_plugins` comes to.
use mathlib.Core.List.{append_assoc, append-nil}
use checkmate.Prelude.{
  ◌≤◌, ◌≡◌, ◌↔◌, refl, sym, subst, ◌∙◌, true, false, String, List, [], ◌∷◌, ◌++◌, ok, err, arith,
  if◌then◌else◌, ◌==◌, length,
}
use checkmate.Prelude.Text.{includes}
use checkmate.Prelude.Unique.{IsUnique}
use checkmate.Prelude.Map.{keys}
use checkmate.Plugins.Sorter.{
  PendingInit, Degrees, Graph, dependents, ready, circular_dependency, maps_of, sort_plugins,
}
use checkmate.Plugins.Sorter.Degrees.{remaining, remaining_pos}
use checkmate.Plugins.Sorter.Loop.{Respects, IsConsistent, drain_lem}
use checkmate.Plugins.Sorter.Termination.{drain_total}
use checkmate.Plugins.Sorter.Start.{
  plugin_ids, maps_of-IsBuilt, has_edge-maps_of, start-IsConsistent, length-keys,
}
use checkmate.Plugins.Sorter.Waiting.{WaitsFor, waits_iff}

module _ (inits : List PendingInit) (provided_by : List (String × String)) where
  abbrev graph : Graph
  graph = (maps_of inits provided_by).1

  abbrev known : List String
  known = keys (maps_of inits provided_by).0

  -- The loop's result, and what `sort_plugins` makes of it.
  pub record IsRun (ids : List String) : Type 0 where
    pub result :
        sort_plugins inits provided_by
        ≡ (if length ids == length inits then ok ids else err circular_dependency)
    pub respects : Respects graph [] ids
    pub final : (d : Degrees) × IsConsistent known graph d [] ids

  -- The run ends, with the fuel that `sort_plugins` gives.
  pub run : (ids : List String) × IsRun ids
  unfolding sort_plugins
  run =
      let built = maps_of-IsBuilt inits provided_by in
      let maps = maps_of inits provided_by in
      let start = start-IsConsistent (plugin_ids inits) maps built in
      let (ids, e) =
        drain_total known graph built.graph_keys (length maps.0) maps.0 (ready maps.0) [] start
          (omega (arith, length-keys maps.0)) in
      let (rest, same, ordered, final) =
        drain_lem known graph built.graph_keys (length maps.0) maps.0 (ready maps.0) [] ids start
          e in
      (
        ids,
        record {
          result = rw (sort_plugins, e) refl;
          respects = subst (Respects graph []) (sym same) ordered;
          final = final;
        },
      )

  pub edge_iff :
      (u v : String) → (includes (dependents graph u) v ≡ true) ↔ WaitsFor inits provided_by v u
  edge_iff u v =
      let edge = has_edge-maps_of inits provided_by u v in
      let waiting = waits_iff inits provided_by u v in
      (λ h. waiting.0 (sym edge ∙ h), λ w. edge ∙ waiting.1 w)

  includes_known : (v : String) → includes known v ≡ includes (plugin_ids inits) v
  includes_known = (maps_of-IsBuilt inits provided_by).known

  module _ (ids : List String) (h : IsRun ids) where
    pub ids-IsUnique : IsUnique ids
    ids-IsUnique = let (d, c) = h.final in subst IsUnique (append-nil ids) c.once

    pub ids-pending : (v : String) → includes ids v ≡ true → includes (plugin_ids inits) v ≡ true
    ids-pending v m =
        let (d, c) = h.final in
        sym (includes_known v) ∙ c.queued v (ground (arith, append-nil ids, m))

    -- A pending plugin that is not in the result waits for one that is not there either.
    pub stuck :
        (v : String)
        → includes (plugin_ids inits) v ≡ true
        → includes ids v ≡ false
        → (u : String) × WaitsFor inits provided_by v u × (includes ids u ≡ false)
    stuck v pending out =
        let (d, c) = h.final in
        let built = maps_of-IsBuilt inits provided_by in
        let left : 1 ≤ remaining v ids graph =
          ground
            (arith, c.counts v, c.complete v (includes_known v ∙ pending), append-nil ids, out) in
        let (u, edge, open_u, k) = remaining_pos v ids graph built.graph_keys left in
        (u, (edge_iff u v).0 edge, open_u)

-- What stands before an item of an order that respects the graph.
pub Respects-split :
    (g : Graph) (done xs : List String) (v : String) (ys : List String) (u : String)
    → Respects g done (xs ++ v ∷ ys)
    → includes (dependents g u) v ≡ true
    → includes (done ++ xs) u ≡ true
Respects-split g done [] v ys u (h, hs) edge = ground (arith, append-nil done, h u edge)
Respects-split g done (x ∷ xs) v ys u (h, hs) edge =
    ground
      (arith, append_assoc done (x ∷ []) xs, Respects-split g (done ++ x ∷ []) xs v ys u hs edge)

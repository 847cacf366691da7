-- ===== src/Plugins/Sorter/Edges.antt =====
-- dependency-sorter.ts: the graph that is built, and the counts that go with it.
use checkmate.Prelude.{
  ◌+◌, ◌≡◌, inl, inr, true, not, ◌&&◌, String, List, [], ◌∷◌, ◌++◌, arith, if_cases, All,
  Option-cases,
}
use checkmate.Prelude.Text.{◌===◌, includes, ===_iff}
use checkmate.Prelude.Unique.{IsUnique}
use checkmate.Prelude.Map.{set, keys, includes-keys-set, keys-set-IsUnique}
use checkmate.Plugins.Sorter.{
  PendingInit, Degrees, Graph, degree, dependents, initial, add_edge, provider_of, add_service_edge,
  add_service_edges, add_queue_edge, add_queue_edges, uses_queue_manager, build,
}
use checkmate.Plugins.Sorter.Degrees.{count, remaining, count-append, degree-set}

-- The counts are those of the graph's edges, the two maps have their keys once, and the plugins
-- with a count are those of the list.
pub record IsBuilt (pending : List String) (maps : Degrees × Graph) : Type 0 where
  pub counts : (v : String) → degree maps.0 v ≡ remaining v [] maps.1
  pub degree_keys : IsUnique (keys maps.0)
  pub graph_keys : IsUnique (keys maps.1)
  pub known : (v : String) → includes (keys maps.0) v ≡ includes pending v

remaining-set :
    (v k : String) (outs : List String) (g : Graph)
    → remaining v [] (set k outs g) + count v (dependents g k) ≡ remaining v [] g + count v outs
remaining-set v k outs [] = omega arith
remaining-set v k outs ((j, others) ∷ g) = ground (arith, remaining-set v k outs g)

pub add_edge-IsBuilt :
    (pending : List String) (u v : String) (maps : Degrees × Graph)
    → includes pending v ≡ true
    → IsBuilt pending maps
    → IsBuilt pending (add_edge u v maps)
unfolding add_edge
add_edge-IsBuilt pending u v (d, g) m h =
    let outs = dependents g u ++ v ∷ [] in
    record {
      counts = λ w. ground (
        arith,
        h.counts w,
        h.counts v,
        degree-set v w (degree d v + 1) d,
        ===_iff v w,
        remaining-set w u outs g,
        count-append w (dependents g u) (v ∷ []),
      );
      degree_keys = keys-set-IsUnique v (degree d v + 1) d h.degree_keys;
      graph_keys = keys-set-IsUnique u outs g h.graph_keys;
      known =
          λ w. ground (arith, includes-keys-set v w (degree d v + 1) d, h.known w, ===_iff v w, m);
    }

module _ (provided_by : List (String × String)) (pending : List String) where
  add_service_edge-IsBuilt :
      (consumer ref : String) (maps : Degrees × Graph)
      → includes pending consumer ≡ true
      → IsBuilt pending maps
      → IsBuilt pending (add_service_edge provided_by consumer ref maps)
  unfolding add_service_edge
  add_service_edge-IsBuilt consumer ref maps m h =
      elim (Option-cases (provider_of provided_by consumer ref)) [
        | inl e ↦ rw (add_service_edge, e) h
        | inr (u, e) ↦ rw (add_service_edge, e) (add_edge-IsBuilt pending u consumer maps m h)
      ]

  add_service_edges-IsBuilt :
      (consumer : String) (refs : List String) (maps : Degrees × Graph)
      → includes pending consumer ≡ true
      → IsBuilt pending maps
      → IsBuilt pending (add_service_edges provided_by consumer refs maps)
  unfolding add_service_edges
  add_service_edges-IsBuilt consumer [] maps m h = h
  add_service_edges-IsBuilt consumer (ref ∷ refs) maps m h =
      add_service_edges-IsBuilt consumer refs (add_service_edge provided_by consumer ref maps) m
        (add_service_edge-IsBuilt consumer ref maps m h)

  add_queue_edges-IsBuilt :
      (consumer : String) (qpps : List String) (maps : Degrees × Graph)
      → includes pending consumer ≡ true
      → IsBuilt pending maps
      → IsBuilt pending (add_queue_edges consumer qpps maps)
  unfolding add_queue_edges add_queue_edge
  add_queue_edges-IsBuilt consumer [] maps m h = h
  add_queue_edges-IsBuilt consumer (qpp ∷ qpps) maps m h =
      add_queue_edges-IsBuilt consumer qpps (add_queue_edge consumer qpp maps) m (
        if_cases (IsBuilt pending)
          (not (qpp === consumer) && not (includes (dependents maps.1 qpp) consumer))
          (add_edge-IsBuilt pending qpp consumer maps m h) h)

  pub build-IsBuilt :
      (qpps : List String) (inits : List PendingInit) (maps : Degrees × Graph)
      → All (λ p. includes pending p.plugin_id ≡ true) inits
      → IsBuilt pending maps
      → IsBuilt pending (build provided_by qpps inits maps)
  unfolding build
  build-IsBuilt qpps [] maps m h = h
  build-IsBuilt qpps (p ∷ inits) maps (m, ms) h =
      let with_services = add_service_edges provided_by p.plugin_id p.deps maps in
      let b = add_service_edges-IsBuilt p.plugin_id p.deps maps m h in
      build-IsBuilt qpps inits _ ms (
        if_cases (IsBuilt pending) (uses_queue_manager p)
          (add_queue_edges-IsBuilt p.plugin_id qpps with_services m b) b)

-- The first loop starts from no edges and counts of zero.
pub initial_zero :
    (inits : List PendingInit) (maps : Degrees × Graph)
    → IsUnique (keys maps.0)
    → IsUnique (keys maps.1)
    → ((v : String) → (degree maps.0 v ≡ 0) × (remaining v [] maps.1 ≡ 0))
    → let end = initial inits maps in
      IsUnique (keys end.0)
      × IsUnique (keys end.1)
      × ((v : String) → (degree end.0 v ≡ 0) × (remaining v [] end.1 ≡ 0))
unfolding initial
initial_zero [] maps ud ug z = (ud, ug, z)
initial_zero (p ∷ inits) (d, g) ud ug z =
    let id = p.plugin_id in
    let none_yet : List String = [] in
    initial_zero inits (set id 0 d, set id none_yet g) (keys-set-IsUnique id 0 d ud)
      (keys-set-IsUnique id none_yet g ug)
      (λ v. ground (arith, z v, degree-set id v 0 d, ===_iff id v, remaining-set v id none_yet g))

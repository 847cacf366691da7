-- ===== src/Plugins/Sorter/Dependencies.antt =====
-- dependency-sorter.ts: which edges the graph has, edge by edge.
use checkmate.Prelude.{
  ◌≡◌, inl, inr, ◌∙◌, Bool, false, not, ◌||◌, ◌&&◌, String, List, [], ◌∷◌, ◌++◌, Option, none, some,
  arith, Bool-cases, Option-cases, any,
}
use checkmate.Prelude.Text.{◌===◌, includes, ===_iff}
use checkmate.Prelude.Unique.{includes-append}
use checkmate.Plugins.Sorter.{
  PendingInit, Degrees, Graph, dependents, add_edge, provider_of, add_service_edge,
  add_service_edges, add_queue_edge, add_queue_edges, uses_queue_manager, build,
}
use checkmate.Plugins.Sorter.Degrees.{dependents-set}

abbrev pub is_text : Option String → String → Bool
is_text none u = false
is_text (some x) u = x === u

-- There is an edge from `u` to `v`.
abbrev pub has_edge : Degrees × Graph → String → String → Bool
has_edge maps u v = includes (dependents maps.1 u) v

has_edge-add_edge :
    (a b : String) (maps : Degrees × Graph) (u v : String)
    → has_edge (add_edge a b maps) u v ≡ (has_edge maps u v || (a === u && b === v))
unfolding add_edge
has_edge-add_edge a b (d, g) u v = ground (
  arith,
  dependents-set a u (dependents g a ++ b ∷ []) g,
  includes-append (dependents g a) (b ∷ []) v,
  ===_iff a u,
)

module _ (provided_by : List (String × String)) where
  -- The service has the provider `u`.
  abbrev pub is_provider : String → String → String → Bool
  is_provider consumer u ref = is_text (provider_of provided_by consumer ref) u

  has_edge-add_service_edge :
      (consumer ref : String) (maps : Degrees × Graph) (u v : String)
      → has_edge (add_service_edge provided_by consumer ref maps) u v
        ≡ (has_edge maps u v || (is_provider consumer u ref && consumer === v))
  unfolding add_service_edge
  has_edge-add_service_edge consumer ref maps u v =
      elim (Option-cases (provider_of provided_by consumer ref)) [
        | inl e ↦ rw (add_service_edge, e) (ground arith)
        | inr (x, e) ↦ rw (add_service_edge, e) (has_edge-add_edge x consumer maps u v)
      ]

  has_edge-add_service_edges :
      (consumer : String) (refs : List String) (maps : Degrees × Graph) (u v : String)
      → has_edge (add_service_edges provided_by consumer refs maps) u v
        ≡ (has_edge maps u v || (any (is_provider consumer u) refs && consumer === v))
  unfolding add_service_edges
  has_edge-add_service_edges consumer [] maps u v = ground arith
  has_edge-add_service_edges consumer (ref ∷ refs) maps u v =
      has_edge-add_service_edges consumer refs (add_service_edge provided_by consumer ref maps) u v
      ∙ rw (has_edge-add_service_edge consumer ref maps u v) (ground arith)

  has_edge-add_queue_edge :
      (consumer qpp : String) (maps : Degrees × Graph) (u v : String)
      → has_edge (add_queue_edge consumer qpp maps) u v
        ≡ (has_edge maps u v || (qpp === u && (consumer === v && not (u === v))))
  unfolding add_queue_edge
  has_edge-add_queue_edge consumer qpp maps u v =
      elim (Bool-cases
        (not (qpp === consumer) && not (includes (dependents maps.1 qpp) consumer))) [
          | inl e ↦ rw e (
              has_edge-add_edge qpp consumer maps u v
              ∙ ground
                  (arith, ===_iff qpp consumer, ===_iff qpp u, ===_iff consumer v, ===_iff u v))
          | inr e ↦
              rw e (
                ground
                  (arith, ===_iff qpp consumer, ===_iff qpp u, ===_iff consumer v, ===_iff u v))
        ]

  has_edge-add_queue_edges :
      (consumer : String) (qpps : List String) (maps : Degrees × Graph) (u v : String)
      → has_edge (add_queue_edges consumer qpps maps) u v
        ≡ (has_edge maps u v || (includes qpps u && (consumer === v && not (u === v))))
  unfolding add_queue_edges
  has_edge-add_queue_edges consumer [] maps u v = ground arith
  has_edge-add_queue_edges consumer (qpp ∷ qpps) maps u v =
      has_edge-add_queue_edges consumer qpps (add_queue_edge consumer qpp maps) u v
      ∙ rw (has_edge-add_queue_edge consumer qpp maps u v) (ground arith)

  -- The entry makes `v` wait for `u`.
  abbrev pub waits : List String → String → String → PendingInit → Bool
  waits qpps u v p =
      p.plugin_id === v
      && (any (is_provider p.plugin_id u) p.deps
          || (uses_queue_manager p && (includes qpps u && not (u === v))))

  pub has_edge-build :
      (qpps : List String) (inits : List PendingInit) (maps : Degrees × Graph) (u v : String)
      → has_edge (build provided_by qpps inits maps) u v
        ≡ (has_edge maps u v || any (waits qpps u v) inits)
  unfolding build
  has_edge-build qpps [] maps u v = ground arith
  has_edge-build qpps (p ∷ inits) maps u v =
      let with_services = add_service_edges provided_by p.plugin_id p.deps maps in
      let s = has_edge-add_service_edges p.plugin_id p.deps maps u v in
      elim (Bool-cases (uses_queue_manager p)) [
        | inl e ↦
            rw (build, e)
              (has_edge-build qpps inits (add_queue_edges p.plugin_id qpps with_services) u v
                ∙ rw (has_edge-add_queue_edges p.plugin_id qpps with_services u v, s)
                    (ground arith))
        | inr e ↦ rw (build, e) (has_edge-build qpps inits with_services u v ∙ rw s (ground arith))
      ]

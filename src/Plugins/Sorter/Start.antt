-- ===== src/Plugins/Sorter/Start.antt =====
-- dependency-sorter.ts: the state in which the loop over the queue begins.
use checkmate.Prelude.{
  ◌≡◌, inl, inr, refl, ap, ◌∙◌, true, false, not, ◌||◌, ◌&&◌, String, List, [], ◌∷◌, ◌++◌, map, suc,
  arith, Bool-cases, any, All, ◌==◌, length,
}
use checkmate.Prelude.Text.{◌===◌, includes, ===_iff}
use checkmate.Prelude.Unique.{IsUnique, includes-append}
use checkmate.Prelude.Map.{set, keys, includes-keys, includes-keys-set}
use checkmate.Plugins.Sorter.{
  PendingInit, Degrees, Graph, degree, initial, queue_plugin_providers, queue_plugin_registry_id,
  ready, maps_of,
}
use checkmate.Plugins.Sorter.Degrees.{dependents-set}
use checkmate.Plugins.Sorter.Edges.{IsBuilt, build-IsBuilt, initial_zero}
use checkmate.Plugins.Sorter.Loop.{IsConsistent}
use checkmate.Plugins.Sorter.Dependencies.{has_edge, waits, has_edge-build}

abbrev pub plugin_ids : List PendingInit → List String
plugin_ids inits = map (λ p. p.plugin_id) inits

includes-keys-initial :
    (inits : List PendingInit) (maps : Degrees × Graph) (v : String)
    → includes (keys (initial inits maps).0) v
      ≡ (includes (keys maps.0) v || includes (plugin_ids inits) v)
unfolding initial
includes-keys-initial [] maps v = ground arith
includes-keys-initial (p ∷ inits) (d, g) v =
    includes-keys-initial inits (set p.plugin_id 0 d, set p.plugin_id [] g) v
    ∙ rw (includes-keys-set p.plugin_id v 0 d) (ground arith)

has_edge-initial :
    (inits : List PendingInit) (maps : Degrees × Graph) (u v : String)
    → has_edge maps u v ≡ false
    → has_edge (initial inits maps) u v ≡ false
unfolding initial
has_edge-initial [] maps u v h = h
has_edge-initial (p ∷ inits) (d, g) u v h =
    has_edge-initial inits (set p.plugin_id 0 d, set p.plugin_id [] g) u v
      (ground (arith, dependents-set p.plugin_id u [] g, h))

pub includes-queue_plugin_providers :
    (inits : List PendingInit) (found : List String) (u : String)
    → includes (queue_plugin_providers inits found) u ≡ (
        includes found u
        || any
            (λ p. p.plugin_id === u && any (λ ref. ref === queue_plugin_registry_id) p.deps)
            inits)
unfolding queue_plugin_providers
includes-queue_plugin_providers [] found u = ground arith
includes-queue_plugin_providers (p ∷ inits) found u =
    elim (Bool-cases
      (any (λ ref. ref === queue_plugin_registry_id) p.deps && not (includes found p.plugin_id))) [
        | inl e ↦
            rw (queue_plugin_providers, e)
              (includes-queue_plugin_providers inits (found ++ p.plugin_id ∷ []) u
                ∙ rw (includes-append found (p.plugin_id ∷ []) u) (ground arith))
        | inr e ↦
            rw (queue_plugin_providers, e)
              (includes-queue_plugin_providers inits found u
                ∙ ground (arith, ===_iff p.plugin_id u))
      ]

All-plugin_ids :
    (inits : List PendingInit) (ids : List String)
    → ((v : String) → includes (plugin_ids inits) v ≡ true → includes ids v ≡ true)
    → All (λ p. includes ids p.plugin_id ≡ true) inits
All-plugin_ids [] ids h = tt
All-plugin_ids (p ∷ inits) ids h = (
  h p.plugin_id (ground (arith, ===_iff p.plugin_id p.plugin_id)),
  All-plugin_ids inits ids (λ v m. h v (ground (arith, m))),
)

module _ (inits : List PendingInit) (provided_by : List (String × String)) where
  pub maps_of-IsBuilt : IsBuilt (plugin_ids inits) (maps_of inits provided_by)
  unfolding maps_of
  maps_of-IsBuilt =
      let zero = initial_zero inits ([], []) tt tt (λ v. (refl, refl)) in
      build-IsBuilt provided_by (plugin_ids inits) (queue_plugin_providers inits []) inits
        (initial inits ([], [])) (All-plugin_ids inits (plugin_ids inits) (λ v m. m))
        (record {
          counts = λ v. ground (arith, zero.2 v);
          degree_keys = zero.0;
          graph_keys = zero.1;
          known = λ v. includes-keys-initial inits ([], []) v;
        })

  pub has_edge-maps_of :
      (u v : String)
      → has_edge (maps_of inits provided_by) u v
        ≡ any (waits provided_by (queue_plugin_providers inits []) u v) inits
  unfolding maps_of
  has_edge-maps_of u v =
      has_edge-build provided_by (queue_plugin_providers inits []) inits (initial inits ([], [])) u
        v
      ∙ rw (has_edge-initial inits ([], []) u v refl) refl

includes-ready :
    (d : Degrees) (v : String)
    → IsUnique (keys d)
    → includes (ready d) v ≡ (includes (keys d) v && degree d v == 0)
unfolding ready
includes-ready [] v h = refl
includes-ready ((k, n) ∷ d) v (hk, h) = ground (arith, ===_iff k v, includes-ready d v h)

ready-IsUnique : (d : Degrees) → IsUnique (keys d) → IsUnique (ready d)
unfolding ready
ready-IsUnique [] h = tt
ready-IsUnique ((k, n) ∷ d) (hk, h) = ground (arith, includes-ready d k h, ready-IsUnique d h)

pub length-keys : (d : Degrees) → length (keys d) ≡ length d
length-keys [] = refl
length-keys (x ∷ d) = ap suc (length-keys d)

pub start-IsConsistent :
    (pending : List String) (maps : Degrees × Graph)
    → IsBuilt pending maps
    → IsConsistent (keys maps.0) maps.1 maps.0 (ready maps.0) []
start-IsConsistent pending (d, g) h = record {
  counts = h.counts;
  once = ready-IsUnique d h.degree_keys;
  settled = λ v m. ground (arith, includes-ready d v h.degree_keys, m);
  counted = λ v p. ground (arith, includes-keys v d, p);
  queued = λ v m. ground (arith, includes-ready d v h.degree_keys, m);
  complete = λ v k z. ground (arith, includes-ready d v h.degree_keys, k, z);
}

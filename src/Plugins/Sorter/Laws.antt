-- ===== src/Plugins/Sorter/Laws.antt =====
-- dependency-sorter.ts: the order, and when there is none.
use mathlib.Core.List.{append_assoc}
use checkmate.Prelude.{
  suc, ◌≡◌, ◌≢◌, ◌⊎◌, ◌↔◌, inl, inr, refl, sym, ap, subst, ◌∙◌, true, String, List, [], ◌∷◌, ◌++◌,
  ok, err, arith, Bool-cases, All, ◌==◌, length, In, In-append, In-append_left, In-append_right,
  In-split, All-In, All-of_In,
}
use checkmate.Prelude.Text.{includes, includes_iff}
use checkmate.Prelude.Unique.{IsUnique, length-le_of_includes, All-includes}
use checkmate.Plugins.Sorter.{PendingInit, circular_dependency, out_of_fuel, maps_of, sort_plugins}
use checkmate.Plugins.Sorter.Loop.{Respects}
use checkmate.Plugins.Sorter.Start.{plugin_ids}
use checkmate.Plugins.Sorter.Waiting.{WaitsFor}
use checkmate.Plugins.Sorter.Runs.{
  IsRun, run, edge_iff, ids-IsUnique, ids-pending, stuck, Respects-split,
}

-- A list of all pending plugins, each once and behind all plugins it waits for.
pub record IsOrder (inits : List PendingInit) (provided_by : List (String × String))
    (ids : List String) : Type 0 where
  pub once : IsUnique ids
  pub pending : (v : String) → In v ids ↔ In v (plugin_ids inits)
  pub ordered :
      (xs : List String) (v : String) (ys : List String)
      → ids ≡ xs ++ v ∷ ys
      → (u : String) → WaitsFor inits provided_by v u
      → In u xs

length-plugin_ids : (inits : List PendingInit) → length (plugin_ids inits) ≡ length inits
length-plugin_ids [] = refl
length-plugin_ids (p ∷ inits) = ap suc (length-plugin_ids inits)

In-plugin_ids :
    (p : PendingInit) (inits : List PendingInit) → In p inits → In p.plugin_id (plugin_ids inits)
In-plugin_ids p [] m = absurd m
In-plugin_ids p (q ∷ inits) (inl e) = inl (ap (λ x. x.plugin_id) e)
In-plugin_ids p (q ∷ inits) (inr m) = inr (In-plugin_ids p inits m)

module _ (inits : List PendingInit) (provided_by : List (String × String)) where
  -- A result as long as the list of pending plugins has them all.
  all_pending :
      (ids : List String)
      → IsRun inits provided_by ids
      → length ids ≡ length inits
      → (v : String) → includes (plugin_ids inits) v ≡ true
      → includes ids v ≡ true
  all_pending ids h full v m = elim (Bool-cases (includes ids v)) [
    | inl e ↦ e
    | inr e ↦
        let within : All (λ x. includes (plugin_ids inits) x ≡ true) (v ∷ ids) =
          (m, All-includes ids (plugin_ids inits) (ids-pending inits provided_by ids h)) in
        absurd (
          omega (
            arith,
            full,
            length-plugin_ids inits,
            length-le_of_includes (v ∷ ids) (plugin_ids inits)
                (e, ids-IsUnique inits provided_by ids h) within,
          ))
  ]

  run-IsOrder :
      (ids : List String)
      → IsRun inits provided_by ids
      → length ids ≡ length inits
      → IsOrder inits provided_by ids
  run-IsOrder ids h full = record {
    once = ids-IsUnique inits provided_by ids h;
    pending = λ v. (
      λ m.
          (includes_iff (plugin_ids inits) v).0
            (ids-pending inits provided_by ids h v ((includes_iff ids v).1 m)),
      λ m.
          (includes_iff ids v).0
            (all_pending ids h full v ((includes_iff (plugin_ids inits) v).1 m)),
    );
    ordered = λ xs v ys e u w. (includes_iff xs u).0 (
        Respects-split (maps_of inits provided_by).1 [] xs v ys u
          (subst (Respects (maps_of inits provided_by).1 []) e h.respects)
          ((edge_iff inits provided_by u v).1 w));
  }

  -- Either the loop takes as many plugins as are pending, or the order is refused.
  outcome :
      (found : List String)
      → IsRun inits provided_by found
      → ((length found ≡ length inits) × (sort_plugins inits provided_by ≡ ok found))
        ⊎ ((length found ≢ length inits)
            × (sort_plugins inits provided_by ≡ err circular_dependency))
  outcome found h = elim (Bool-cases (length found == length inits)) [
    | inl e ↦ inl (ground arith, h.result ∙ rw e refl)
    | inr e ↦ inr (ground arith, h.result ∙ rw e refl)
  ]

  -- The loop over the queue ends within the fuel it is given.
  pub sort_plugins_terminates : sort_plugins inits provided_by ≢ err out_of_fuel
  sort_plugins_terminates e =
      let (found, h) = run inits provided_by in
      elim (outcome found h) [ inl (full, same) ↦ cc | inr (short, same) ↦ cc ]

  -- A list that is returned has all pending plugins and no others, each once and behind the
  -- plugins it waits for: the other providers of its services and, where it uses the queue manager,
  -- the other users of the registry of queue plugins.
  pub sort_plugins-IsOrder :
      (ids : List String) → sort_plugins inits provided_by ≡ ok ids → IsOrder inits provided_by ids
  sort_plugins-IsOrder ids e =
      let (found, h) = run inits provided_by in
      elim (outcome found h) [
        | inl (full, same) ↦
            let found_ids : found ≡ ids = cc in
            subst (IsOrder inits provided_by) found_ids (run-IsOrder found h full)
        | inr (short, same) ↦ absurd (cc)
      ]

  -- Everything of an order is taken, part by part.
  order_taken :
      (order found : List String)
      → IsOrder inits provided_by order
      → IsRun inits provided_by found
      → (xs ys : List String) → order ≡ xs ++ ys
      → ((u : String) → In u xs → includes found u ≡ true)
      → All (λ v. includes found v ≡ true) ys
  order_taken order found o h xs [] e taken = tt
  order_taken order found o h xs (v ∷ ys) e taken =
      let here : In v order = subst (In v) (sym e) (In-append_right v xs (v ∷ ys) (inl refl)) in
      let now : includes found v ≡ true = elim (Bool-cases (includes found v)) [
        | inl m ↦ m
        | inr out ↦
            let (u, w, open_u) =
              stuck inits provided_by found h v
                ((includes_iff (plugin_ids inits) v).1 ((o.pending v).0 here)) out in
            absurd (ground (arith, taken u (o.ordered xs v ys e u w), open_u))
      ] in
      (
        now,
        order_taken order found o h (xs ++ v ∷ []) ys (e ∙ sym (append_assoc xs (v ∷ []) ys))
            (λ u m. elim (In-append u xs (v ∷ []) m) [
              | inl l ↦ taken u l
              | inr (inl same) ↦ subst (λ x. includes found x ≡ true) same now
              | inr (inr none_left) ↦ absurd none_left
            ]),
      )

  -- Where the pending plugins have different ids, a list is returned if and only if there is an
  -- order: only plugins that wait for each other, or for one that is not pending, are refused.
  pub sort_plugins_iff :
      IsUnique (plugin_ids inits)
      → ((ids : List String) × (sort_plugins inits provided_by ≡ ok ids))
        ↔ ((ids : List String) × IsOrder inits provided_by ids)
  sort_plugins_iff unique = (
    λ s. let (ids, e) = s in (ids, sort_plugins-IsOrder ids e),
    λ s.
        let (order, o) = s in
        let (found, h) = run inits provided_by in
        elim (outcome found h) [
          | inl (full, same) ↦ (found, same)
          | inr (short, same) ↦
              let all = order_taken order found o h [] order refl (λ u m. absurd m) in
              let within : All (λ v. includes found v ≡ true) (plugin_ids inits) =
                All-of_In (λ v. includes found v ≡ true) (plugin_ids inits)
                  (λ v m. All-In (λ x. includes found x ≡ true) v order all ((o.pending v).1 m)) in
              absurd (
                short (
                  omega (
                    arith,
                    length-plugin_ids inits,
                    length-le_of_includes (plugin_ids inits) found unique within,
                    length-le_of_includes found (plugin_ids inits)
                        (ids-IsUnique inits provided_by found h)
                        (All-includes found (plugin_ids inits)
                          (ids-pending inits provided_by found h)),
                  )))
        ],
  )

  -- A plugin that waits for one that is not pending is reported as a circular dependency.
  pub missing_provider_circular :
      (v u : String)
      → WaitsFor inits provided_by v u
      → ¬ (In u (plugin_ids inits))
      → sort_plugins inits provided_by ≡ err circular_dependency
  missing_provider_circular v u w absent =
      let (found, h) = run inits provided_by in
      elim (outcome found h) [
        | inr (short, same) ↦ same
        | inl (full, same) ↦
            let o = run-IsOrder found h full in
            let (other, entry) = w in
            let (p, m, same_id, why) = entry in
            let (xs, ys, e) = In-split v found (
              (o.pending v).1
                (subst (λ x. In x (plugin_ids inits)) same_id (In-plugin_ids p inits m))) in
            absurd (
              absent (
                (o.pending u).0
                  (subst (In u) (sym e) (In-append_left u xs (v ∷ ys) (o.ordered xs v ys e u w)))))
      ]

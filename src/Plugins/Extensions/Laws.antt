-- ===== src/Plugins/Extensions/Laws.antt =====
-- extension-points.ts: no call on an extension point is lost, doubled or moved.
use mathlib.Core.List.{append_assoc, append-nil}
use checkmate.Prelude.{
  ◌≡◌, ◌⊎◌, refl, sym, ap, subst, ◌∙◌, inl, inr, Bool, true, false, String, List, [], ◌∷◌, ◌++◌,
  none, map, get_or_else, if◌then◌else◌, if_cases, Bool-cases, Option-cases,
}
use checkmate.Prelude.Text.{◌===◌, ===_iff}
use checkmate.Prelude.Map.{set, get-set}
use checkmate.Plugins.Extensions.{
  ExtensionPointProxy, new_extension_point, proxy_of, call_method, flush, set_implementation,
  ExtensionEvent, method_called, registered, extension_step,
}

module _ {I C : Type 0} where
  -- The calls that implementations have got, and then those that wait.
  abbrev pub calls_seen : ExtensionPointProxy I C → List C
  calls_seen p = map (λ d. d.1) p.delivered ++ p.buffer

  -- A point with an implementation has no calls that wait.
  abbrev IsFlushed : ExtensionPointProxy I C → Type 0
  IsFlushed p = (p.implementation ≡ none) ⊎ (p.buffer ≡ [])

  abbrev pub calls_made : String → List (ExtensionEvent I C) → List C
  calls_made id [] = []
  calls_made id (method_called j call ∷ events) =
      if j === id then call ∷ calls_made id events else calls_made id events
  calls_made id (registered j impl ∷ events) = calls_made id events

  calls-append :
      (xs ys : List (I × C)) → map (λ d. d.1) (xs ++ ys) ≡ map (λ d. d.1) xs ++ map (λ d. d.1) ys
  calls-append [] ys = refl
  calls-append (x ∷ xs) ys = ap (λ l. x.1 ∷ l) (calls-append xs ys)

  call_method-seen :
      (call : C) (p : ExtensionPointProxy I C)
      → IsFlushed p
      → (calls_seen (call_method call p) ≡ calls_seen p ++ call ∷ [])
        × IsFlushed (call_method call p)
  unfolding call_method
  call_method-seen call p h = elim (Option-cases p.implementation) [
    | inl e ↦
        rw (call_method, e)
          (sym (append_assoc (map (λ d. d.1) p.delivered) p.buffer (call ∷ [])), inl e)
    | inr (impl, e) ↦
        let empty : p.buffer ≡ [] = elim h [ inl n ↦ absurd (cc) | inr b ↦ b ] in
        rw (call_method, e, empty)
          (
            append-nil (map (λ d. d.1) (p.delivered ++ (impl, call) ∷ []))
                ∙ calls-append p.delivered ((impl, call) ∷ [])
                ∙ ap (λ l. l ++ call ∷ []) (sym (append-nil (map (λ d. d.1) p.delivered))),
            inr refl,
          )
  ]

  proxy_of-set :
      (j id : String) (p : ExtensionPointProxy I C)
      (proxies : List (String × ExtensionPointProxy I C))
      → proxy_of id (set j p proxies) ≡ (if j === id then p else proxy_of id proxies)
  proxy_of-set j id p proxies =
      ap (λ o. get_or_else o new_extension_point) (get-set j id p proxies)
      ∙ elim (Bool-cases (j === id)) [ inl e ↦ rw e refl | inr e ↦ rw e refl ]

  -- A point that is changed, and the others.
  set-seen :
      (j id : String) (p : ExtensionPointProxy I C) (new : List C)
      (proxies : List (String × ExtensionPointProxy I C))
      → calls_seen p ≡ calls_seen (proxy_of j proxies) ++ new
      → calls_seen (proxy_of id (set j p proxies))
        ≡ calls_seen (proxy_of id proxies) ++ (if j === id then new else [])
  set-seen j id p new proxies h =
      ap calls_seen (proxy_of-set j id p proxies) ∙ elim (Bool-cases (j === id)) [
        | inl e ↦ rw e (
            subst (λ k. calls_seen p ≡ calls_seen (proxy_of k proxies) ++ new) ((===_iff j id).0 e)
              h)
        | inr e ↦ rw e (sym (append-nil (calls_seen (proxy_of id proxies))))
      ]

  set-IsFlushed :
      (j : String) (p : ExtensionPointProxy I C) (proxies : List (String × ExtensionPointProxy I C))
      → IsFlushed p
      → ((id : String) → IsFlushed (proxy_of id proxies))
      → (id : String) → IsFlushed (proxy_of id (set j p proxies))
  set-IsFlushed j p proxies h hs id =
      subst IsFlushed (sym (proxy_of-set j id p proxies)) (if_cases IsFlushed (j === id) h (hs id))

  abbrev pub extensions_after :
      (I → C → Bool)
      → List (ExtensionEvent I C)
      → List (String × ExtensionPointProxy I C)
      → List (String × ExtensionPointProxy I C)
  extensions_after throws [] proxies = proxies
  extensions_after throws (e ∷ events) proxies =
      extensions_after throws events (extension_step throws e proxies)

  module _ (throws : I → C → Bool)
      (harmless : (impl : I) (call : C) → throws impl call ≡ false) where
    flush-seen :
        (impl : I) (calls : List C) (delivered : List (I × C))
        → (map (λ d. d.1) (flush throws impl calls delivered).0 ≡ map (λ d. d.1) delivered ++ calls)
          × ((flush throws impl calls delivered).1 ≡ true)
    unfolding flush
    flush-seen impl [] delivered = (sym (append-nil (map (λ d. d.1) delivered)), refl)
    flush-seen impl (call ∷ calls) delivered =
        let (seen, ended) = flush-seen impl calls (delivered ++ (impl, call) ∷ []) in
        rw (flush, harmless impl call)
          (
            seen
                ∙ ap (λ l. l ++ calls) (calls-append delivered ((impl, call) ∷ []))
                ∙ append_assoc (map (λ d. d.1) delivered) (call ∷ []) calls,
            ended,
          )

    set_implementation-seen :
        (impl : I) (p : ExtensionPointProxy I C)
        → (calls_seen (set_implementation throws impl p) ≡ calls_seen p)
          × ((set_implementation throws impl p).buffer ≡ [])
    unfolding set_implementation
    set_implementation-seen impl p =
        let (seen, ended) = flush-seen impl p.buffer p.delivered in
        rw (set_implementation, ended)
          (append-nil (map (λ d. d.1) (flush throws impl p.buffer p.delivered).0) ∙ seen, refl)

    extensions-seen :
        (events : List (ExtensionEvent I C)) (proxies : List (String × ExtensionPointProxy I C))
        (id : String)
        → ((j : String) → IsFlushed (proxy_of j proxies))
        → calls_seen (proxy_of id (extensions_after throws events proxies))
          ≡ calls_seen (proxy_of id proxies) ++ calls_made id events
    unfolding extension_step
    extensions-seen [] proxies id h = sym (append-nil (calls_seen (proxy_of id proxies)))
    extensions-seen (method_called j call ∷ events) proxies id h =
        let (seen, flushed) = call_method-seen call (proxy_of j proxies) (h j) in
        let p = call_method call (proxy_of j proxies) in
        extensions-seen events (set j p proxies) id (set-IsFlushed j p proxies flushed h)
        ∙ ap (λ l. l ++ calls_made id events) (set-seen j id p (call ∷ []) proxies seen)
        ∙ elim (Bool-cases (j === id)) [
          | inl e ↦
              rw e
                (append_assoc (calls_seen (proxy_of id proxies)) (call ∷ []) (calls_made id events))
          | inr e ↦ rw e (append_assoc (calls_seen (proxy_of id proxies)) [] (calls_made id events))
        ]
    extensions-seen (registered j impl ∷ events) proxies id h =
        let (seen, flushed) = set_implementation-seen impl (proxy_of j proxies) in
        let p = set_implementation throws impl (proxy_of j proxies) in
        extensions-seen events (set j p proxies) id (set-IsFlushed j p proxies (inr flushed) h)
        ∙ ap (λ l. l ++ calls_made id events)
            (set-seen j id p [] proxies (seen ∙ sym (append-nil (calls_seen (proxy_of j proxies)))))
        ∙ elim (Bool-cases (j === id)) [
          | inl e ↦ rw e (append_assoc (calls_seen (proxy_of id proxies)) [] (calls_made id events))
          | inr e ↦ rw e (append_assoc (calls_seen (proxy_of id proxies)) [] (calls_made id events))
        ]

    -- Where no call throws: after any calls and registrations, the calls that the implementations of
    -- an extension point have got, and then those that wait, are all that were made on it, in order.
    pub calls_kept_in_order :
        (events : List (ExtensionEvent I C)) (id : String)
        → calls_seen (proxy_of id (extensions_after throws events [])) ≡ calls_made id events
    unfolding new_extension_point
    calls_kept_in_order events id = extensions-seen events [] id (λ j. inl refl)

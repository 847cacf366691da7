-- ===== src/Integration/Delivery/Matching.antt =====
-- delivery-coordinator.ts: which subscriptions get an event.
use mathlib.Core.Option.{some-injective}
use checkmate.Prelude.{
  ◌≡◌, ◌≢◌, ◌⊎◌, ◌↔◌, refl, sym, ap, subst, ◌∙◌, inl, inr, Bool, true, false, ◌&&◌, String, List,
  [], ◌∷◌, Option, none, some, arith, filter, In, Bool-cases,
}
use checkmate.Prelude.Text.{◌===◌, ===_iff, ===-false, includes_iff}
use checkmate.Access.Value.{Value, Fields, get_field}
use checkmate.Integration.Tables.{Subscription, Provider, EventPayload}
use checkmate.Integration.Subscriptions.{
  wants_system, passes_system_filter, lists_event, supports, find_matching_subscriptions,
}

-- The payload is about one of the systems, where there are systems to be about.
abbrev pub IsForSystem : Option (List String) → Fields → Type 0
IsForSystem systems payload =
    (systems ≡ none)
    ⊎ (systems ≡ some [])
    ⊎ ((wanted : List String) × (system_id : String) × (systems ≡ some wanted)
        × (get_field "systemId" payload ≡ Value.str system_id)
        × (system_id ≢ "")
        × In system_id wanted)

-- The provider is registered, and names the event where it names events.
abbrev pub IsSupported : Option Provider → String → Type 0
IsSupported registered event_id =
    (provider : Provider) × (registered ≡ some provider)
    × ((provider.supported_events ≡ none)
        ⊎ ((events : List String) × (provider.supported_events ≡ some events) × In event_id events))

wants_system_iff :
    (wanted : List String) (v : Value)
    → (wants_system wanted v ≡ true)
      ↔ ((system_id : String) × (v ≡ Value.str system_id) × (system_id ≢ "") × In system_id wanted)
wants_system_iff wanted (Value.str x) = (
  λ h. (x, refl, λ e. ground (arith, ===_iff x "", h, e), ground (arith, includes_iff wanted x, h)),
  λ w.
      let e : x ≡ w.0 = ap text_in w.1 in
      let here : In x wanted = subst (λ y. In y wanted) (sym e) w.3 in
      let some_text : (x === "") ≡ false = ===-false x "" (λ q. w.2 (sym e ∙ q)) in
      rw some_text ((includes_iff wanted x).1 here),
)
  where
    text_in : Value → String
    text_in (Value.str y) = y
    text_in _ = ""
wants_system_iff wanted Value.undefined = (λ h. absurd (cc), λ w. absurd (cc (w.1)))
wants_system_iff wanted Value.null = (λ h. absurd (cc), λ w. absurd (cc (w.1)))
wants_system_iff wanted (Value.bool b) = (λ h. absurd (cc), λ w. absurd (cc (w.1)))
wants_system_iff wanted (Value.num b) = (λ h. absurd (cc), λ w. absurd (cc (w.1)))
wants_system_iff wanted (Value.arr b) = (λ h. absurd (cc), λ w. absurd (cc (w.1)))
wants_system_iff wanted (Value.obj b) = (λ h. absurd (cc), λ w. absurd (cc (w.1)))

passes_filter_iff :
    (systems : Option (List String)) (payload : Fields)
    → (passes_system_filter systems payload ≡ true) ↔ IsForSystem systems payload
passes_filter_iff none payload = (λ h. inl refl, λ h. refl)
passes_filter_iff (some []) payload = (λ h. inr (inl refl), λ h. refl)
passes_filter_iff (some (s ∷ systems)) payload = (
  λ h.
      let w = (wants_system_iff (s ∷ systems) (get_field "systemId" payload)).0 h in
      inr (inr (s ∷ systems, w.0, refl, w.1, w.2, w.3)),
  λ h. elim h [
    | inl e ↦ absurd (cc)
    | inr (inl e) ↦ absurd (cc)
    | inr (inr (wanted, x, e, v, n, m)) ↦
        (wants_system_iff (s ∷ systems) (get_field "systemId" payload)).1
          (x, v, n, subst (λ l. In x l) (sym (some-injective (s ∷ systems) wanted e)) m)
  ],
)

lists_event_iff :
    (supported : Option (List String)) (event_id : String)
    → (lists_event supported event_id ≡ true) ↔ (
        (supported ≡ none)
        ⊎ ((events : List String) × (supported ≡ some events) × In event_id events))
lists_event_iff none event_id = (λ h. inl refl, λ h. refl)
lists_event_iff (some events) event_id = (
  λ h. inr (events, refl, (includes_iff events event_id).0 h),
  λ h. elim h [
    | inl e ↦ absurd (cc)
    | inr (named, e, m) ↦
        (includes_iff events event_id).1
          (subst (λ l. In event_id l) (sym (some-injective events named e)) m)
  ],
)

supports_iff :
    (registered : Option Provider) (event_id : String)
    → (supports registered event_id ≡ true) ↔ IsSupported registered event_id
supports_iff none event_id = (λ h. absurd (cc), λ w. absurd (cc (w.1)))
supports_iff (some provider) event_id = (
  λ h. (provider, refl, (lists_event_iff provider.supported_events event_id).0 h),
  λ w. (lists_event_iff provider.supported_events event_id).1 (
      subst
        (λ (p : Provider).
          (p.supported_events ≡ none)
          ⊎ ((events : List String) × (p.supported_events ≡ some events) × In event_id events))
        (sym (some-injective provider w.0 w.1)) w.2),
)

all_true : {a b c : Bool} → (a && (b && c)) ≡ true → (a ≡ true) × (b ≡ true) × (c ≡ true)
all_true {a} {b} {c} h = ground (arith, h)

both_true : {a b c : Bool} → a ≡ true → b ≡ true → c ≡ true → (a && (b && c)) ≡ true
both_true h k l = rw (h, k, l) refl

-- `found` has the items of the list for which `P` holds, each as often as the list has it, in its order.
abbrev pub IsSelection : {A : Type 0} → (A → Type 0) → List A → List A → Type 0
IsSelection P [] found = found ≡ []
IsSelection {A} P (x ∷ xs) found =
    (P x × (rest : List A) × (found ≡ x ∷ rest) × IsSelection P xs rest)
    ⊎ ((¬ P x) × IsSelection P xs found)

filters-IsSelection :
    {A : Type 0} (P : A → Type 0) (p q : A → Bool)
    → ((x : A) → ((p x ≡ true) × (q x ≡ true)) ↔ P x)
    → (xs : List A) → IsSelection P xs (filter q (filter p xs))
filters-IsSelection P p q iff [] = refl
filters-IsSelection P p q iff (x ∷ xs) =
    let rest = filters-IsSelection P p q iff xs in
    elim (Bool-cases (p x)) [
      | inr off ↦ rw off (inr (λ m. absurd (cc (((iff x).1 m).0, off)), rest))
      | inl on ↦ elim (Bool-cases (q x)) [
        | inl e ↦ rw (on, e) (inl ((iff x).0 (on, e), filter q (filter p xs), refl, rest))
        | inr e ↦ rw (on, e) (inr (λ m. absurd (cc (((iff x).1 m).1, e)), rest))
      ]
    ]

module _ {C : Type 0} (get_provider : String → Option Provider) where
  abbrev pub Matches : EventPayload → Subscription C → Type 0
  Matches event sub =
      (sub.enabled ≡ true)
      × (sub.event_id ≡ event.event_id)
      × IsForSystem sub.system_filter event.payload
      × IsSupported (get_provider sub.provider_id) event.event_id

  passes_iff :
      (event : EventPayload) (sub : Subscription C)
      → ((sub.event_id === event.event_id
            && (passes_system_filter sub.system_filter event.payload
                && supports (get_provider sub.provider_id) event.event_id))
          ≡ true)
        ↔ ((sub.event_id ≡ event.event_id)
            × IsForSystem sub.system_filter event.payload
            × IsSupported (get_provider sub.provider_id) event.event_id)
  passes_iff event sub =
      let (named, name) = ===_iff sub.event_id event.event_id in
      let (for_system, is_for_system) = passes_filter_iff sub.system_filter event.payload in
      let (supported, is_supported) = supports_iff (get_provider sub.provider_id) event.event_id in
      (
        λ h. let (e, p, q) = all_true h in (named e, for_system p, supported q),
        λ w. both_true (name w.0) (is_for_system w.1) (is_supported w.2),
      )

  -- The search keeps each stored subscription that matches, once and in its place, and no other.
  pub find_matching-IsSelection :
      (event : EventPayload) (subs : List (Subscription C))
      → IsSelection
          (Matches event)
          subs
          (find_matching_subscriptions get_provider event.event_id event.payload subs)
  unfolding find_matching_subscriptions
  find_matching-IsSelection event subs =
      filters-IsSelection (Matches event) (λ sub. sub.enabled)
        (λ sub.
          sub.event_id === event.event_id
          && (passes_system_filter sub.system_filter event.payload
              && supports (get_provider sub.provider_id) event.event_id))
        (λ sub. (
          λ w. let (e, p, q) = (passes_iff event sub).0 w.1 in (w.0, e, p, q),
          λ m. (m.0, (passes_iff event sub).1 (m.1, m.2, m.3)),
        ))
        subs

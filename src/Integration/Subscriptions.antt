-- ===== src/Integration/Subscriptions.antt =====
-- integration-backend/src/delivery-coordinator.ts: `findMatchingSubscriptions`.
use checkmate.Prelude.{
  String, Bool, true, false, not, ◌&&◌, List, [], ◌∷◌, Option, none, some, filter,
}
use checkmate.Prelude.Text.{◌===◌, includes}
use checkmate.Access.Value.{Value, Fields, get_field}
use checkmate.Integration.Tables.{Subscription, Provider}

-- `systemId && sub.systemFilter.includes(systemId)`.
abbrev pub wants_system : List String → Value → Bool
wants_system systems Value.undefined = false
wants_system systems Value.null = false
wants_system systems (Value.bool _) = false
wants_system systems (Value.num _) = false
wants_system systems (Value.str system_id) = not (system_id === "") && includes systems system_id
wants_system systems (Value.arr _) = false
wants_system systems (Value.obj _) = false

abbrev pub passes_system_filter : Option (List String) → Fields → Bool
passes_system_filter none payload = true
passes_system_filter (some []) payload = true
passes_system_filter (some (s ∷ systems)) payload =
    wants_system (s ∷ systems) (get_field "systemId" payload)

-- `!provider.supportedEvents || provider.supportedEvents.includes(eventId)`.
abbrev pub lists_event : Option (List String) → String → Bool
lists_event none event_id = true
lists_event (some events) event_id = includes events event_id

abbrev pub supports : Option Provider → String → Bool
supports none event_id = false
supports (some provider) event_id = lists_event provider.supported_events event_id

module _ {C : Type 0} where
  unfoldable pub find_matching_subscriptions :
      (String → Option Provider) → String → Fields → List (Subscription C) → List (Subscription C)
  find_matching_subscriptions get_provider event_id payload subscriptions =
      filter
        (λ sub.
          sub.event_id === event_id
          && (passes_system_filter sub.system_filter payload
              && supports (get_provider sub.provider_id) event_id))
        (filter (λ sub. sub.enabled) subscriptions)

-- ===== src/Plugins/Extensions/Tests.antt =====
-- Calls before and after an implementation is registered, and one that throws.
use checkmate.Prelude.{ℕ, ◌≡◌, refl, String, Bool, false, List, [], ◌∷◌, ◌==◌}
use checkmate.Plugins.Extensions.{
  new_extension_point, proxy_of, call_method, flush, set_implementation, ExtensionEvent,
  method_called, registered, extension_step,
}
use checkmate.Plugins.Extensions.Laws.{calls_seen, extensions_after, calls_kept_in_order}

extensions : Unit {0}
unfolding new_extension_point call_method flush set_implementation extension_step
extensions = tt

abbrev events : List (ExtensionEvent String ℕ)
events =
    method_called "tabs" 1
    ∷ method_called "menu" 7
    ∷ method_called "tabs" 2
    ∷ registered "tabs" "first"
    ∷ method_called "tabs" 3
    ∷ []

abbrev none_throws : String → ℕ → Bool
none_throws impl call = false

calls_kept_in_order_example :
    calls_seen (proxy_of "tabs" (extensions_after none_throws events [])) ≡ 1 ∷ 2 ∷ 3 ∷ []
calls_kept_in_order_example = calls_kept_in_order none_throws (λ i c. refl) events "tabs"

-- The second call throws: the buffer stays, and a new implementation gets its calls again.
abbrev two_registrations : List (ExtensionEvent String ℕ)
two_registrations =
    method_called "tabs" 1
    ∷ method_called "tabs" 2
    ∷ registered "tabs" "first"
    ∷ registered "tabs" "second"
    ∷ []

replayed :
    (proxy_of "tabs" (extensions_after (λ i c. c == 2) two_registrations [])).delivered
    ≡ ("first", 1) ∷ ("first", 2) ∷ ("second", 1) ∷ ("second", 2) ∷ []
unfolding extensions
replayed = refl

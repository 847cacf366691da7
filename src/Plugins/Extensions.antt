-- ===== src/Plugins/Extensions.antt =====
-- backend/src/plugin-manager/extension-points.ts: extension points, whose calls wait for an
-- implementation.
--
-- `C` is the type of calls (a method with its arguments), `I` that of implementations, and `throws`
-- says which calls throw. The calls that an implementation has got are logged in `delivered`.
pub mod Laws
mod Tests
use checkmate.Prelude.{
  Bool, true, false, String, List, [], ◌∷◌, ◌++◌, Option, none, some, get_or_else, if◌then◌else◌,
}
use checkmate.Prelude.Map.{get, set}

-- The variables of a proxy.
pub record ExtensionPointProxy (I C : Type 0) : Type 0 where
  pub buffer : List C
  pub implementation : Option I
  pub delivered : List (I × C)

module _ {I C : Type 0} where
  unfoldable pub new_extension_point : ExtensionPointProxy I C
  new_extension_point = record { buffer = []; implementation = none; delivered = [] }

  -- `getExtensionPointProxy`.
  abbrev pub proxy_of : String → List (String × ExtensionPointProxy I C) → ExtensionPointProxy I C
  proxy_of id proxies = get_or_else (get id proxies) new_extension_point

  -- A method of the proxy is called.
  unfoldable pub call_method : C → ExtensionPointProxy I C → ExtensionPointProxy I C
  call_method call p = elim p.implementation [
    | none ↦ record p { buffer = p.buffer ++ call ∷ [] }
    | some impl ↦ record p { delivered = p.delivered ++ (impl, call) ∷ [] }
  ]

  -- The loop over the buffer, up to the first call that throws; whether it ended.
  unfoldable pub flush : (I → C → Bool) → I → List C → List (I × C) → List (I × C) × Bool
  flush throws impl [] delivered = (delivered, true)
  flush throws impl (call ∷ calls) delivered =
      if throws impl call
      then (delivered ++ (impl, call) ∷ [], false)
      else flush throws impl calls (delivered ++ (impl, call) ∷ [])

  -- `$$setImplementation`: the buffer is emptied where the loop ends.
  unfoldable pub set_implementation :
      (I → C → Bool) → I → ExtensionPointProxy I C → ExtensionPointProxy I C
  set_implementation throws impl p =
      let (delivered, ended) = flush throws impl p.buffer p.delivered in
      record {
        buffer = if ended then [] else p.buffer;
        implementation = some impl;
        delivered = delivered;
      }

-- A call on an extension point that was got from the manager, or a registration.
pub data ExtensionEvent (I C : Type 0) : Type 0 where
  method_called : String → C → ExtensionEvent I C
  registered : String → I → ExtensionEvent I C

module _ {I C : Type 0} where
  unfoldable pub extension_step :
      (I → C → Bool)
      → ExtensionEvent I C
      → List (String × ExtensionPointProxy I C)
      → List (String × ExtensionPointProxy I C)
  extension_step throws (method_called id call) proxies =
      set id (call_method call (proxy_of id proxies)) proxies
  extension_step throws (registered id impl) proxies =
      set id (set_implementation throws impl (proxy_of id proxies)) proxies

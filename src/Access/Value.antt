-- ===== src/Access/Value.antt =====
-- The values of a request or a response, as `unknown` is used in backend-api/src/rpc.ts: what
-- `JSON.parse` can give, and `undefined`. Numbers are carried along and never computed with.
use Prim.Native.Char.{Char, code}
use checkmate.Prelude.{ℕ, String, Bool, List, [], ◌∷◌, Option, none, some, ◌==◌, if◌then◌else◌}
use checkmate.Prelude.Text.{◌===◌}

mutual
  pub data Fields : Type 0 where
    end : Fields
    field : String → Value → Fields → Fields

  pub data Value : Type 0 where
    undefined null : Value
    bool : Bool → Value
    num : ℕ → Value
    str : String → Value
    arr : Items → Value
    obj : Fields → Value

  pub data Items : Type 0 where
    nil : Items
    cons : Value → Items → Items

abbrev pub items : Items → List Value
items nil = []
items (cons v vs) = v ∷ items vs

-- An object's own property; a missing one reads as `undefined`.
unfoldable pub get_field : String → Fields → Value
get_field key end = undefined
get_field key (field k v fs) = if k === key then v else get_field key fs

-- `obj[key] = v`: overwrites in place, or adds at the end.
unfoldable pub set_field : String → Value → Fields → Fields
set_field key v end = field key v end
set_field key v (field k w fs) = if k === key then field k v fs else field k w (set_field key v fs)

-- `Object.keys`.
abbrev pub keys : Fields → List String
keys end = []
keys (field k v fs) = k ∷ keys fs

unfoldable pub filter_fields : (String → Bool) → Fields → Fields
filter_fields p end = end
filter_fields p (field k v fs) = if p k then field k v (filter_fields p fs) else filter_fields p fs

unfoldable pub filter_items : (Value → Bool) → Items → Items
filter_items p nil = nil
filter_items p (cons v vs) = if p v then cons v (filter_items p vs) else filter_items p vs

abbrev prepend : Char → List String → List String
prepend c [] = String.◌∷◌ c "" ∷ []
prepend c (part ∷ parts) = String.◌∷◌ c part ∷ parts

-- `path.split(".")`.
unfoldable pub split_dot : String → List String
split_dot String.[] = "" ∷ []
split_dot (String.◌∷◌ c s) =
    let rest = split_dot s in if code c == b'.' then "" ∷ rest else prepend c rest

-- The loop of `getNestedValue`; `none` is its early return. Only an object's own properties are
-- read: the built-in ones of texts and arrays are taken for missing.
pub walk : List String → Value → Option Value
walk [] current = some current
walk (part ∷ parts) undefined = none
walk (part ∷ parts) null = none
walk (part ∷ parts) (obj fs) = walk parts (get_field part fs)
walk (part ∷ parts) _ = walk parts undefined

abbrev as_text : Option Value → Option String
as_text (some (str s)) = some s
as_text _ = none

unfoldable pub get_nested_value : Value → String → Option String
unfolding walk get_field split_dot
get_nested_value value path = as_text (walk (split_dot path) value)

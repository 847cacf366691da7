-- ===== src/Access/Filter.antt =====
-- backend-api/src/rpc.ts, `autoAuthMiddleware` after the call of the handler: what the list and
-- record rules take out of its output.
use checkmate.Prelude.{
  String, Bool, true, false, ◌&&◌, List, [], ◌∷◌, Option, none, some, ◌==◌, if◌then◌else◌, length,
  get_or_else, any, ok, err, ◌>>=◌,
}
use checkmate.Prelude.Text.{includes}
use checkmate.Access.Rule.{is_truthy}
use checkmate.Access.Value
use checkmate.Access.Value.{
  Value, Items, Fields, undefined, null, bool, num, str, arr, obj, nil, cons, end, field, items,
  get_field, set_field, filter_fields, filter_items,
}
use checkmate.Access.Teams.{Caller, CallerType}
use checkmate.Access.Procedure.{
  AuthService, internal_server_error, type_error, Answer, QualifiedRule, list_key, record_key,
  list_resource_rules, record_resource_rules, has_rule, caller_of,
}

-- `getAccessibleResourceIdsViaS2S`.
unfoldable pub get_accessible_resource_ids_via_s2s :
    AuthService → Caller → List String → List String
get_accessible_resource_ids_via_s2s auth caller resource_ids =
    if length resource_ids == 0
    then []
    else get_or_else (auth.get_accessible_resource_ids caller resource_ids)
        (if caller.has_global_access then resource_ids else [])

-- `item.id`, on a value that has properties.
unfoldable pub id_of : Value → Value
id_of (obj fs) = get_field "id" fs
id_of _ = undefined

abbrev pub is_missing : Value → Bool
is_missing undefined = true
is_missing null = true
is_missing _ = false

abbrev pub text_of : Value → Option String
text_of (str s) = some s
text_of _ = none

abbrev pub cons_some : Option String → List String → List String
cons_some none ids = ids
cons_some (some id) ids = id ∷ ids

-- The ids that are texts.
unfoldable pub text_ids : List Value → List String
text_ids [] = []
text_ids (v ∷ vs) = cons_some (text_of (id_of v)) (text_ids vs)

-- `id && accessibleSet.has(id)`.
abbrev pub is_kept : List String → Option String → Bool
is_kept accessible none = false
is_kept accessible (some id) = is_truthy (some id) && includes accessible id

abbrev pub keeps : List String → Value → Bool
keeps accessible item = is_kept accessible (text_of (id_of item))

module _ (auth : AuthService) (who : Option (String × CallerType)) (user_rules : List String) where
  -- The ids that the rule lets the caller see; `none` where nothing is filtered for a guest.
  abbrev visible : QualifiedRule → String × CallerType → List String → List String
  visible rule caller ids =
      get_accessible_resource_ids_via_s2s auth
        (caller_of caller rule (has_rule user_rules rule.qualified_id)) ids

  abbrev guest_sees_all : QualifiedRule → Bool
  guest_sees_all rule = has_rule auth.anonymous_access_rules rule.qualified_id

  abbrev filter_list_for :
      Option (String × CallerType) → QualifiedRule → String → Items → Fields → Answer Fields
  filter_list_for none rule key vs output =
      if guest_sees_all rule then ok output else ok (set_field key (arr nil) output)
  filter_list_for (some caller) rule key vs output =
      if any is_missing (items vs)
      then err type_error
      else ok (
          set_field key (arr (filter_items (keeps (visible rule caller (text_ids (items vs)))) vs))
            output)

  abbrev filter_list_value : QualifiedRule → String → Value → Fields → Answer Fields
  filter_list_value rule key (arr vs) output = filter_list_for who rule key vs output
  filter_list_value rule key _ output = err internal_server_error

  -- One round of the loop over the list rules.
  unfoldable pub filter_list_rule : QualifiedRule → Fields → Answer Fields
  filter_list_rule rule output =
      let key = get_or_else (list_key rule) "" in
      filter_list_value rule key (get_field key output) output

  abbrev filter_record_for :
      Option (String × CallerType) → QualifiedRule → String → Fields → Fields → Answer Fields
  filter_record_for none rule key fs output =
      if guest_sees_all rule then ok output else ok (set_field key (obj end) output)
  filter_record_for (some caller) rule key fs output = ok (
      set_field key (obj (filter_fields (includes (visible rule caller (Value.keys fs))) fs))
        output)

  abbrev filter_record_value : QualifiedRule → String → Value → Fields → Answer Fields
  filter_record_value rule key (obj fs) output = filter_record_for who rule key fs output
  filter_record_value rule key _ output = err internal_server_error

  -- One round of the loop over the record rules.
  unfoldable pub filter_record_rule : QualifiedRule → Fields → Answer Fields
  filter_record_rule rule output =
      let key = get_or_else (record_key rule) "" in
      filter_record_value rule key (get_field key output) output

  unfoldable pub filter_all :
      (QualifiedRule → Fields → Answer Fields) → List QualifiedRule → Fields → Answer Fields
  filter_all step [] output = ok output
  filter_all step (rule ∷ rules) output = step rule output >>= filter_all step rules

  abbrev to_value : Fields → Answer Value
  to_value fs = ok (obj fs)

  -- An array is an object without the key, and any other value is returned as it is.
  unfoldable pub post_filter : List QualifiedRule → Value → Answer Value
  unfolding filter_all filter_list_rule filter_record_rule
  post_filter rules (obj output) =
      filter_all filter_list_rule (list_resource_rules rules) output
      >>= filter_all filter_record_rule (record_resource_rules rules)
      >>= to_value
  post_filter rules (arr vs) =
      if length (list_resource_rules rules) == 0 && length (record_resource_rules rules) == 0
      then ok (arr vs)
      else err internal_server_error
  post_filter rules output = ok output

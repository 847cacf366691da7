-- ===== src/Access/Middleware/Lists.antt =====
-- backend-api/src/rpc.ts over the auth service of auth-backend/src/router.ts: what is left of a
-- list or of a record is what the single-resource check would let through.
use checkmate.Prelude.{
  String, Bool, false, ◌≡◌, refl, inl, inr, List, [], ◌∷◌, Option, none, some, arith, In, filter,
  any, get_or_else, ◌&&◌, In-filter, ok,
}
use checkmate.Prelude.Text.{includes, includes_iff}
use checkmate.Access.Rule.{is_truthy}
use checkmate.Access.Value
use checkmate.Access.Value.{
  Value, Items, Fields, undefined, null, bool, num, str, arr, obj, nil, cons, end, field, items,
  get_field, set_field, filter_items, filter_fields,
}
use checkmate.Access.Teams.{
  Db, Caller, CallerType, check_resource_team_access, get_accessible_resource_ids,
}
use checkmate.Access.Teams.Keys.{Keyed, is_same_setting}
use checkmate.Access.Teams.Bulk.{get_accessible-eq-check}
use checkmate.Access.Procedure.{
  AuthService, QualifiedRule, list_key, record_key, has_rule, caller_of,
}
use checkmate.Access.Filter.{
  get_accessible_resource_ids_via_s2s, id_of, text_of, text_ids, is_kept, cons_some, keeps,
  is_missing, filter_list_rule, filter_record_rule,
}

-- The auth service as the auth plugin implements it, over its tables.
abbrev pub db_service : Db → List String → AuthService
db_service db anonymous_rules = record {
  anonymous_access_rules = anonymous_rules;
  check_resource_team_access = λ caller id. some (check_resource_team_access db caller id);
  get_accessible_resource_ids = λ caller ids. some (get_accessible_resource_ids db caller ids);
}

-- Whether the single-resource check lets the caller access the resource of a value.
abbrev pub may_access : Db → Caller → Option String → Bool
may_access db caller none = false
may_access db caller (some id) = is_truthy (some id) && check_resource_team_access db caller id

abbrev pub may_access_item : Db → Caller → Value → Bool
may_access_item db caller item = may_access db caller (text_of (id_of item))

In-cons_some_head :
    (o : Option String) (ids : List String) (id : String)
    → In id (cons_some o [])
    → In id (cons_some o ids)
In-cons_some_head none ids id m = absurd m
In-cons_some_head (some j) ids id (inl e) = inl e
In-cons_some_head (some j) ids id (inr m) = absurd m

In-cons_some_tail :
    (o : Option String) (ids : List String) (id : String) → In id ids → In id (cons_some o ids)
In-cons_some_tail none ids id m = m
In-cons_some_tail (some j) ids id m = inr m

module _ (db : Db) (anonymous_rules : List String) (caller : Caller)
    (keyed : Keyed is_same_setting db.resource_access_settings) where
  visible-eq-check :
      (ids : List String)
      → get_accessible_resource_ids_via_s2s (db_service db anonymous_rules) caller ids
        ≡ filter (check_resource_team_access db caller) ids
  unfolding get_accessible_resource_ids_via_s2s
  visible-eq-check [] = refl
  visible-eq-check (id ∷ ids) = ground (arith, get_accessible-eq-check db caller (id ∷ ids) keyed)

  includes_visible :
      (ids : List String) (id : String)
      → In id ids
      → includes (get_accessible_resource_ids_via_s2s (db_service db anonymous_rules) caller ids) id
        ≡ check_resource_team_access db caller id
  includes_visible ids id m = rw (visible-eq-check ids) (
      ground (
        arith,
        includes_iff (filter (check_resource_team_access db caller) ids) id,
        In-filter (check_resource_team_access db caller) id ids,
      ))

  kept-check :
      (ids : List String) (o : Option String)
      → ((id : String) → In id (cons_some o []) → In id ids)
      → is_kept (get_accessible_resource_ids_via_s2s (db_service db anonymous_rules) caller ids) o
        ≡ may_access db caller o
  kept-check ids none h = refl
  kept-check ids (some id) h = ground (arith, includes_visible ids id (h id (inl refl)))

  filter_items-check :
      (ids : List String) (vs : Items)
      → ((id : String) → In id (text_ids (items vs)) → In id ids)
      → filter_items
          (keeps (get_accessible_resource_ids_via_s2s (db_service db anonymous_rules) caller ids))
          vs
        ≡ filter_items (may_access_item db caller) vs
  unfolding filter_items text_ids
  filter_items-check ids nil h = refl
  filter_items-check ids (cons v vs) h =
      let o = text_of (id_of v) in
      ground (
        arith,
        kept-check ids o (λ id m. h id (In-cons_some_head o (text_ids (items vs)) id m)),
        filter_items-check ids vs (λ id m. h id (In-cons_some_tail o (text_ids (items vs)) id m)),
      )

  filter_fields-check :
      (ids : List String) (fs : Fields)
      → ((id : String) → In id (Value.keys fs) → In id ids)
      → filter_fields
          (includes
            (get_accessible_resource_ids_via_s2s (db_service db anonymous_rules) caller ids))
          fs
        ≡ filter_fields (check_resource_team_access db caller) fs
  unfolding filter_fields
  filter_fields-check ids end h = refl
  filter_fields-check ids (field k v fs) h = ground (
    arith,
    includes_visible ids k (h k (inl refl)),
    filter_fields-check ids fs (λ id m. h id (inr m)),
  )

-- Where the settings have their primary key, the rule's key holds an array and no item of it is
-- `null` or `undefined`: for a caller with an id, a list rule succeeds, keeps of the items exactly
-- those whose `id` is a text that is not empty and that the single-resource check of the auth
-- plugin accepts, and leaves the other keys alone.
pub filter_list_rule-eq :
    (db : Db) (anonymous_rules user_rules : List String) (who : String × CallerType)
    (rule : QualifiedRule) (output : Fields) (vs : Items)
    → Keyed is_same_setting db.resource_access_settings
    → get_field (get_or_else (list_key rule) "") output ≡ arr vs
    → any is_missing (items vs) ≡ false
    → filter_list_rule (db_service db anonymous_rules) (some who) user_rules rule output
      ≡ ok (
          set_field
            (get_or_else (list_key rule) "")
            (arr (
              filter_items
                (may_access_item db (caller_of who rule (has_rule user_rules rule.qualified_id)))
                vs))
            output)
unfolding filter_list_rule
filter_list_rule-eq db anonymous_rules user_rules who rule output vs keyed found present = ground (
  arith,
  filter_items-check db anonymous_rules (caller_of who rule (has_rule user_rules rule.qualified_id))
      keyed (text_ids (items vs)) vs (λ id m. m),
)

-- Where the settings have their primary key and the rule's key holds an object: for a caller with
-- an id, a record rule succeeds, keeps of the object's keys exactly those that the single-resource
-- check of the auth plugin accepts, and leaves the other keys of the output alone.
pub filter_record_rule-eq :
    (db : Db) (anonymous_rules user_rules : List String) (who : String × CallerType)
    (rule : QualifiedRule) (output fs : Fields)
    → Keyed is_same_setting db.resource_access_settings
    → get_field (get_or_else (record_key rule) "") output ≡ obj fs
    → filter_record_rule (db_service db anonymous_rules) (some who) user_rules rule output
      ≡ ok (
          set_field
            (get_or_else (record_key rule) "")
            (obj (
              filter_fields
                (check_resource_team_access db
                  (caller_of who rule (has_rule user_rules rule.qualified_id)))
                fs))
            output)
unfolding filter_record_rule
filter_record_rule-eq db anonymous_rules user_rules who rule output fs keyed found = ground (
  arith,
  filter_fields-check db anonymous_rules
      (caller_of who rule (has_rule user_rules rule.qualified_id)) keyed (Value.keys fs) fs
      (λ id m. m),
)

-- ===== src/Access/Middleware/Tests.antt =====
-- Runs of the middleware.
use checkmate.Prelude.{String, true, false, ◌≡◌, refl, ◌↔◌, List, [], ◌∷◌, none, some, ok}
use checkmate.Access.Rule.{
  AccessRule, AccessLevel, ProcedureMetadata, authenticated, access_pair, qualify_access_rule_id,
  qualify_resource_type, AccessLevelConfig,
}
use checkmate.Access.Value.{
  Value, Fields, Items, str, obj, arr, null, nil, cons, end, field, get_field, set_field,
  filter_items, get_nested_value,
}
use checkmate.Access.Teams.{Db, user as person, check_resource_team_access, team_ids}
use checkmate.Access.Procedure.{
  real_user, AuthService, identity, forbidden, unauthorized, QualifiedRule, qualified_rules,
  qualify_rule, caller_of, has_rule,
}
use checkmate.Access.Authorize.{
  authorize, enforce_user_type, require_rules, check_single_rules, check_single_rule,
  check_resource_access_via_s2s,
}
use checkmate.Access.Filter.{filter_list_rule, post_filter}
use checkmate.Access.Middleware.{rejected, answered, run_rules, auto_auth_middleware}
use checkmate.Access.Middleware.Permitted.{Runs, Permitted, run_rules-Permitted}
use checkmate.Access.Middleware.Skipped.{unresolved_rules_skipped}
use checkmate.Access.Middleware.Lists.{db_service, may_access_item, filter_list_rule-eq}

middleware : Unit {0}
unfolding auto_auth_middleware authorize access_pair qualified_rules qualify_rule
    qualify_access_rule_id qualify_resource_type enforce_user_type require_rules check_single_rules
    check_single_rule check_resource_access_via_s2s check_resource_team_access team_ids identity
    get_nested_value get_field set_field post_filter
middleware = tt

abbrev plain : AccessLevelConfig
plain = record { description = ""; is_default = none; is_public = none }

-- `incidentAccess.incident` of incident-common/src/access.ts.
abbrev incident : AccessRule × AccessRule
incident =
    access_pair "incident" plain plain
      (some (record { id_param = some "systemId"; list_key = none; record_key = none }))

-- `deleteIncident` of incident-common/src/rpc-contract.ts.
abbrev delete_incident : ProcedureMetadata
delete_incident = record {
  user_type = some authenticated;
  access = some (incident.1 ∷ []);
  instance_access = none;
}

abbrev tables : Db
tables = record {
  resource_team_access =
      record {
        resource_type = "incident.incident";
        resource_id = "s1";
        team_id = "ops";
        can_read = true;
        can_manage = false;
      }
      ∷ [];
  resource_access_settings = [];
  user_team = record { member_id = "ann"; team_id = "ops" } ∷ [];
  application_team = [];
}

abbrev auth : AuthService
auth = db_service tables []

-- A user with no rule at all deletes an incident: the input has an `id`, and no `systemId`.
deletes :
    auto_auth_middleware "incident"
      (some delete_incident)
      auth
      (some (real_user "eve" none))
      (obj (field "id" (str "i1") end))
      (ok null)
    ≡ answered (ok null)
unfolding middleware
deletes = refl

guest_is_rejected :
    auto_auth_middleware "incident"
      (some delete_incident)
      auth
      none
      (obj (field "id" (str "i1") end))
      (ok null)
    ≡ rejected unauthorized
unfolding middleware
guest_is_rejected = refl

reader_is_rejected :
    auto_auth_middleware "incident"
      (some delete_incident)
      auth
      (some (real_user "ann" none))
      (obj (field "systemId" (str "s1") end))
      (ok null)
    ≡ rejected (forbidden "Access denied to resource incident:s1")
unfolding middleware
reader_is_rejected = refl

abbrev delete_rules : List QualifiedRule
delete_rules = qualified_rules "incident" (some delete_incident)

run_rules-Permitted_example :
    Runs (
      run_rules authenticated auth
        (some (real_user "ann" none))
        (obj (field "systemId" (str "s1") end))
        delete_rules
        (ok null))
    ↔ Permitted authenticated auth
        (some (real_user "ann" none))
        (obj (field "systemId" (str "s1") end))
        delete_rules
run_rules-Permitted_example =
    run_rules-Permitted authenticated auth (some (real_user "ann" none))
      (obj (field "systemId" (str "s1") end)) delete_rules (ok null)

unresolved_rules_skipped_example :
    run_rules authenticated auth
      (some (real_user "eve" none))
      (obj (field "id" (str "i1") end))
      delete_rules
      (ok null)
    ≡ answered (ok null)
unfolding middleware
unresolved_rules_skipped_example =
    unresolved_rules_skipped auth "eve" none (obj (field "id" (str "i1") end)) delete_rules
      (ok null) ((refl, refl, refl, refl), tt)

abbrev list_rule : QualifiedRule
list_rule = record {
  resource = "incident";
  level = AccessLevel.read;
  instance_access = some (record { id_param = none; list_key = some "systems"; record_key = none });
  qualified_id = "incident.incident.read";
  qualified_resource_type = "incident.incident";
}

abbrev item : String → Value
item id = obj (field "id" (str id) end)

abbrev systems : Items
systems = cons (item "s1") (cons (item "s2") nil)

filter_list_rule-eq_example :
    filter_list_rule auth (some ("ann", person)) [] list_rule (field "systems" (arr systems) end)
    ≡ ok (
        set_field "systems"
          (arr (
            filter_items
              (may_access_item tables
                (caller_of ("ann", person) list_rule (has_rule [] "incident.incident.read")))
              systems))
          (field "systems" (arr systems) end))
unfolding middleware
filter_list_rule-eq_example =
    filter_list_rule-eq tables [] [] ("ann", person) list_rule (field "systems" (arr systems) end)
      systems tt refl refl

abbrev record_rule : QualifiedRule
record_rule = record list_rule {
  instance_access =
      some (record { id_param = none; list_key = none; record_key = some "incidents" });
}

abbrev by_system : Fields
by_system = field "s1" null (field "s2" null end)

-- ===== src/Access/Procedure.antt =====
-- backend-api/src/rpc.ts and types.ts: the callers, the errors, the auth service and the qualified
-- rules of a procedure.
use checkmate.Prelude.{
  String, Bool, not, ◌&&◌, List, [], Option, none, some, map, filter, is_some, get_or_else, ◌||◌,
  if◌then◌else◌, Result,
}
use checkmate.Prelude.Text.{includes}
use checkmate.Access.Rule.{
  AccessLevel, AccessRule, InstanceAccessConfig, ProcedureMetadata, UserType, authenticated,
  qualify_access_rule_id, qualify_resource_type, config_of, is_truthy,
}
use checkmate.Access.Teams.{Caller, CallerType, user, application}

-- `AuthUser`: the fields that the middleware reads.
pub data AuthUser : Type 0 where
  real_user : (id : String) → (access_rules : Option (List String)) → AuthUser
  application_user : (id : String) → (access_rules : Option (List String)) → AuthUser
  service_user : (plugin_id : String) → AuthUser

-- What the auth service answers to this request; `none` is a failing call.
pub record AuthService : Type 0 where
  pub anonymous_access_rules : List String
  pub check_resource_team_access : Caller → String → Option Bool
  pub get_accessible_resource_ids : Caller → List String → Option (List String)

-- `ORPCError` by its code, and the exception of a property access on a missing value.
pub data RpcError : Type 0 where
  unauthorized internal_server_error type_error : RpcError
  forbidden : (message : String) → RpcError

abbrev pub Answer {ℓ} : Type ℓ → Type ℓ
Answer A = Result RpcError A

pub record QualifiedRule : Type 0 where
  pub resource : String
  pub level : AccessLevel
  pub instance_access : Option InstanceAccessConfig
  pub qualified_id : String
  pub qualified_resource_type : String

abbrev or_else {ℓ} : {A : Type ℓ} → Option A → Option A → Option A
or_else none d = d
or_else (some a) d = some a

unfoldable pub qualify_rule : String → Option InstanceAccessConfig → AccessRule → QualifiedRule
qualify_rule plugin_id override rule = record {
  resource = rule.resource;
  level = rule.level;
  instance_access = or_else override rule.instance_access;
  qualified_id = qualify_access_rule_id plugin_id rule;
  qualified_resource_type = qualify_resource_type plugin_id rule.resource;
}

abbrev pub required_user_type : Option ProcedureMetadata → UserType
required_user_type none = authenticated
required_user_type (some meta) = get_or_else meta.user_type authenticated

unfoldable pub qualified_rules : String → Option ProcedureMetadata → List QualifiedRule
qualified_rules plugin_id none = []
qualified_rules plugin_id (some meta) =
    map (qualify_rule plugin_id meta.instance_access) (get_or_else meta.access [])

abbrev pub id_param : QualifiedRule → Option String
id_param rule = (config_of rule.instance_access).id_param

abbrev pub list_key : QualifiedRule → Option String
list_key rule = (config_of rule.instance_access).list_key

abbrev pub record_key : QualifiedRule → Option String
record_key rule = (config_of rule.instance_access).record_key

abbrev pub is_instance : QualifiedRule → Bool
is_instance rule = is_some rule.instance_access

-- The partition of the rules.
abbrev pub global_only_rules : List QualifiedRule → List QualifiedRule
global_only_rules rules = filter (λ r. not (is_instance r)) rules

abbrev pub instance_rules : List QualifiedRule → List QualifiedRule
instance_rules rules = filter is_instance rules

abbrev pub single_resource_rules : List QualifiedRule → List QualifiedRule
single_resource_rules rules =
    filter
      (λ r.
        is_truthy (id_param r) && not (is_truthy (list_key r)) && not (is_truthy (record_key r)))
      (instance_rules rules)

abbrev pub list_resource_rules : List QualifiedRule → List QualifiedRule
list_resource_rules rules = filter (λ r. is_truthy (list_key r)) (instance_rules rules)

abbrev pub record_resource_rules : List QualifiedRule → List QualifiedRule
record_resource_rules rules = filter (λ r. is_truthy (record_key r)) (instance_rules rules)

-- `userAccessRules.includes("*") || userAccessRules.includes(rule.qualifiedId)`.
abbrev pub has_rule : List String → String → Bool
has_rule rules id = includes rules "*" || includes rules id

-- `userId` and `userType`, where both are there; an empty id counts as missing.
unfoldable pub identity : Option AuthUser → Option (String × CallerType)
identity (some (real_user id rules)) = if is_truthy (some id) then some (id, user) else none
identity (some (application_user id rules)) =
    if is_truthy (some id) then some (id, application) else none
identity _ = none

abbrev pub user_access_rules : Option AuthUser → List String
user_access_rules (some (real_user id rules)) = get_or_else rules []
user_access_rules (some (application_user id rules)) = get_or_else rules []
user_access_rules _ = []

abbrev pub caller_of : String × CallerType → QualifiedRule → Bool → Caller
caller_of (id, type) rule has_global_access = record {
  user_id = id;
  user_type = type;
  resource_type = rule.qualified_resource_type;
  action = rule.level;
  has_global_access = has_global_access;
}

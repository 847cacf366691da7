-- ===== src/Access/Authorize.antt =====
-- backend-api/src/rpc.ts, `autoAuthMiddleware` up to the call of the handler.
use checkmate.Prelude.{
  String, Bool, List, [], ◌∷◌, Option, none, some, ◌==◌, if◌then◌else◌, length, get_or_else, ok,
  err, ◌>>◌,
}
use checkmate.Prelude.Text.{◌++ₛ◌, includes}
use checkmate.Access.Rule.{UserType, anonymous, public, user, service, is_truthy}
use checkmate.Access.Value.{Value, get_nested_value}
use checkmate.Access.Teams.{Caller, CallerType}
use checkmate.Access.Procedure.{
  AuthUser, real_user, application_user, service_user, AuthService, unauthorized, forbidden, Answer,
  QualifiedRule, id_param, global_only_rules, instance_rules, single_resource_rules, has_rule,
  identity, user_access_rules, caller_of,
}

-- The loop over the rules that need global access.
unfoldable pub require_rules : List String → List QualifiedRule → Answer (Unit {0})
require_rules user_rules [] = ok tt
require_rules user_rules (rule ∷ rules) =
    if has_rule user_rules rule.qualified_id
    then require_rules user_rules rules
    else err (forbidden ("Missing access: " ++ₛ rule.qualified_id))

-- The same loop for the anonymous role, which knows no "*" here.
unfoldable pub require_anonymous_rules : List String → List QualifiedRule → Answer (Unit {0})
require_anonymous_rules anonymous_rules [] = ok tt
require_anonymous_rules anonymous_rules (rule ∷ rules) =
    if includes anonymous_rules rule.qualified_id
    then require_anonymous_rules anonymous_rules rules
    else err (forbidden "Anonymous access not permitted for this resource")

-- Step 2. With no rule the loops pass, so the source's test for that is not repeated.
unfoldable pub check_public_rules :
    AuthService → Option AuthUser → List QualifiedRule → Answer (Unit {0})
check_public_rules auth (some (real_user id rules)) global_rules =
    require_rules (get_or_else rules []) global_rules
check_public_rules auth (some (application_user id rules)) global_rules =
    require_rules (get_or_else rules []) global_rules
check_public_rules auth (some (service_user plugin_id)) global_rules = ok tt
check_public_rules auth none global_rules =
    require_anonymous_rules auth.anonymous_access_rules global_rules

-- Steps 3 and 4.
unfoldable pub enforce_user_type : UserType → Option AuthUser → Answer (Unit {0})
enforce_user_type public none = ok tt
enforce_user_type _ none = err unauthorized
enforce_user_type user (some (application_user id rules)) =
    err (forbidden "This endpoint is for users only")
enforce_user_type user (some (service_user plugin_id)) =
    err (forbidden "This endpoint is for users only")
enforce_user_type service (some (real_user id rules)) =
    err (forbidden "This endpoint is for services only")
enforce_user_type service (some (application_user id rules)) =
    err (forbidden "This endpoint is for services only")
enforce_user_type _ (some _) = ok tt

-- `checkResourceAccessViaS2S`: a failing call falls back to global access.
unfoldable pub check_resource_access_via_s2s : AuthService → Caller → String → Bool
check_resource_access_via_s2s auth caller resource_id =
    get_or_else (auth.check_resource_team_access caller resource_id) caller.has_global_access

-- One round of the loop over the single-resource rules, at the resource id that was found.
abbrev pub check_resource :
    AuthService
    → Option (String × CallerType)
    → List String
    → QualifiedRule
    → String
    → Answer (Unit {0})
check_resource auth none user_rules rule resource_id =
    if has_rule auth.anonymous_access_rules rule.qualified_id
    then ok tt
    else err
        (forbidden ("Authentication required to access " ++ₛ rule.resource ++ₛ ":" ++ₛ resource_id))
check_resource auth (some who) user_rules rule resource_id =
    if check_resource_access_via_s2s auth
      (caller_of who rule (has_rule user_rules rule.qualified_id)) resource_id
    then ok tt
    else err (forbidden ("Access denied to resource " ++ₛ rule.resource ++ₛ ":" ++ₛ resource_id))

-- A rule whose id parameter is not in the input is passed over.
abbrev pub resource_id_of : Value → QualifiedRule → Option String
resource_id_of input rule = get_nested_value input (get_or_else (id_param rule) "")

unfoldable pub check_single_rule :
    AuthService
    → Option (String × CallerType)
    → List String
    → Value
    → QualifiedRule
    → Answer (Unit {0})
check_single_rule auth who user_rules input rule =
    if is_truthy (resource_id_of input rule)
    then check_resource auth who user_rules rule (get_or_else (resource_id_of input rule) "")
    else ok tt

unfoldable pub check_single_rules :
    AuthService
    → Option (String × CallerType)
    → List String
    → Value
    → List QualifiedRule
    → Answer (Unit {0})
check_single_rules auth who user_rules input [] = ok tt
check_single_rules auth who user_rules input (rule ∷ rules) = do
  check_single_rule auth who user_rules input rule
  check_single_rules auth who user_rules input rules

-- How the handler is called: its result returned as it is, or filtered.
pub data Decision : Type 0 where
  direct filtered : Decision

-- The rest of step 6 for a caller that is not a service.
abbrev check_rules :
    UserType → AuthService → Option AuthUser → Value → List QualifiedRule → Answer Decision
check_rules public auth caller input rules = do
  check_single_rules auth (identity caller) (user_access_rules caller) input
      (single_resource_rules rules)
  ok filtered
check_rules _ auth caller input rules = do
  require_rules (user_access_rules caller) (global_only_rules rules)
  check_single_rules auth (identity caller) (user_access_rules caller) input
      (single_resource_rules rules)
  ok filtered

-- Steps 3 to 6.
abbrev authorize_caller :
    UserType → AuthService → Option AuthUser → Value → List QualifiedRule → Answer Decision
authorize_caller type auth (some (service_user plugin_id)) input rules = do
  enforce_user_type type (some (service_user plugin_id))
  ok direct
authorize_caller type auth caller input rules = do
  enforce_user_type type caller
  check_rules type auth caller input rules

unfoldable pub authorize :
    UserType → AuthService → Option AuthUser → Value → List QualifiedRule → Answer Decision
authorize anonymous auth caller input rules = ok direct
authorize public auth caller input rules =
    check_public_rules auth caller (global_only_rules rules)
    >> (if length (instance_rules rules) == 0
        then ok direct
        else authorize_caller public auth caller input rules)
authorize type auth caller input rules = authorize_caller type auth caller input rules

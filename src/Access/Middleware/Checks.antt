-- ===== src/Access/Middleware/Checks.antt =====
-- The middleware's loops over the rules, said as predicates.
use checkmate.Prelude.{
  String, true, ◌≡◌, ◌≢◌, refl, sym, ◌∙◌, subst, ◌↔◌, ◌⊎◌, inl, inr, List, [], ◌∷◌, Option, none,
  some, arith, All, In, if◌then◌else◌, get_or_else, Bool-cases, ok, err, ◌>>◌,
}
use checkmate.Prelude.Text.{includes_iff, ◌===◌, ===_iff}
use checkmate.Access.Rule.{is_truthy}
use checkmate.Access.Value.{Value}
use checkmate.Access.Teams.{CallerType}
use checkmate.Access.Procedure.{
  AuthUser, real_user, application_user, service_user, AuthService, Answer, QualifiedRule, identity,
  user_access_rules, has_rule, caller_of,
}
use checkmate.Access.Authorize.{
  require_rules, require_anonymous_rules, check_public_rules, check_single_rule, check_single_rules,
  check_resource, check_resource_access_via_s2s, resource_id_of,
}

abbrev pub IsOk : {A : Type 0} → Answer A → Type 0
IsOk (ok a) = Unit
IsOk (err e) = ⊥

-- A caller's rules hold the rule, by its name or by "*".
abbrev pub HasRule : List String → QualifiedRule → Type 0
HasRule rules rule = In "*" rules ⊎ In rule.qualified_id rules

-- A rule without instance access, on a public endpoint and on any other.
abbrev pub GlobalPublic : AuthService → Option AuthUser → QualifiedRule → Type 0
GlobalPublic auth (some (service_user id)) rule = Unit
GlobalPublic auth (some caller) rule = HasRule (user_access_rules (some caller)) rule
GlobalPublic auth none rule = In rule.qualified_id auth.anonymous_access_rules

-- The caller may access a resource: a guest by the anonymous role, any other by what the auth
-- service says, or by the rule itself where the service fails.
abbrev pub MayAccess :
    AuthService → Option (String × CallerType) → List String → QualifiedRule → String → Type 0
MayAccess auth none rules rule id = HasRule auth.anonymous_access_rules rule
MayAccess auth (some who) rules rule id =
    check_resource_access_via_s2s auth (caller_of who rule (has_rule rules rule.qualified_id)) id
    ≡ true

-- A single-resource rule: the caller may access the resource that the input names, if it names one.
abbrev pub SinglePermits : AuthService → Option AuthUser → Value → QualifiedRule → Type 0
SinglePermits auth caller input rule =
    (id : String)
    → resource_id_of input rule ≡ some id
    → id ≢ ""
    → MayAccess auth (identity caller) (user_access_rules caller) rule id

has_rule_iff :
    (rules : List String) (rule : QualifiedRule)
    → (has_rule rules rule.qualified_id ≡ true) ↔ HasRule rules rule
has_rule_iff rules rule =
    ground (arith, includes_iff rules "*", includes_iff rules rule.qualified_id)

pub require_rules_iff :
    (user_rules : List String) (rules : List QualifiedRule)
    → IsOk (require_rules user_rules rules) ↔ All (HasRule user_rules) rules
unfolding require_rules
require_rules_iff user_rules [] = (λ h. tt, λ h. tt)
require_rules_iff user_rules (rule ∷ rules) =
    ground (arith, has_rule_iff user_rules rule, require_rules_iff user_rules rules)

require_anonymous_rules_iff :
    (known : List String) (rules : List QualifiedRule)
    → IsOk (require_anonymous_rules known rules) ↔ All (λ rule. In rule.qualified_id known) rules
unfolding require_anonymous_rules
require_anonymous_rules_iff known [] = (λ h. tt, λ h. tt)
require_anonymous_rules_iff known (rule ∷ rules) =
    ground (arith, includes_iff known rule.qualified_id, require_anonymous_rules_iff known rules)

All-Unit : {A : Type 0} (xs : List A) → All (λ _. Unit {0}) xs
All-Unit [] = tt
All-Unit (x ∷ xs) = (tt, All-Unit xs)

pub check_public_rules_iff :
    (auth : AuthService) (caller : Option AuthUser) (rules : List QualifiedRule)
    → IsOk (check_public_rules auth caller rules) ↔ All (GlobalPublic auth caller) rules
unfolding check_public_rules
check_public_rules_iff auth none rules =
    require_anonymous_rules_iff auth.anonymous_access_rules rules
check_public_rules_iff auth (some (real_user id known)) rules = require_rules_iff _ rules
check_public_rules_iff auth (some (application_user id known)) rules = require_rules_iff _ rules
check_public_rules_iff auth (some (service_user id)) rules = (λ h. All-Unit rules, λ h. tt)

pub IsOk-bind :
    {B : Type 0} (m : Answer (Unit {0})) (k : Answer B) → IsOk (m >> k) ↔ (IsOk m × IsOk k)
IsOk-bind (ok a) k = (λ h. (tt, h), λ h. h.1)
IsOk-bind (err e) k = (λ h. absurd h, λ h. h.0)

check_resource_iff :
    (auth : AuthService) (who : Option (String × CallerType)) (known : List String)
    (rule : QualifiedRule) (id : String)
    → IsOk (check_resource auth who known rule id) ↔ MayAccess auth who known rule id
check_resource_iff auth none known rule id =
    ground (arith, has_rule_iff auth.anonymous_access_rules rule)
check_resource_iff auth (some who) known rule id = ground arith

some_eq : (s t : String) → ◌≡◌ {A = Option String} (some s) (some t) → s ≡ t
some_eq s t h = cc

at_resource_iff :
    (auth : AuthService) (who : Option (String × CallerType)) (known : List String)
    (rule : QualifiedRule) (o : Option String)
    → IsOk (if is_truthy o then check_resource auth who known rule (get_or_else o "") else ok tt)
      ↔ ((id : String) → o ≡ some id → id ≢ "" → MayAccess auth who known rule id)
at_resource_iff auth who known rule none = (λ h id e. absurd (cc), λ h. tt)
at_resource_iff auth who known rule (some found) = elim (Bool-cases (found === "")) [
  | inl e ↦ (
    λ h id same ne. absurd (ne (sym (some_eq found id same) ∙ (===_iff found "").0 e)),
    λ h. rw e tt,
  )
  | inr e ↦
      let here = check_resource_iff auth who known rule found in
      (
        λ h id same ne.
            subst (MayAccess auth who known rule) (some_eq found id same) (here.0 (rw e at h)),
        λ h. rw e (here.1 (h found refl (λ q. cc ((===_iff found "").1 q, e)))),
      )
]

check_single_rule_iff :
    (auth : AuthService) (caller : Option AuthUser) (input : Value) (rule : QualifiedRule)
    → IsOk (check_single_rule auth (identity caller) (user_access_rules caller) input rule)
      ↔ SinglePermits auth caller input rule
unfolding check_single_rule
check_single_rule_iff auth caller input rule =
    at_resource_iff auth (identity caller) (user_access_rules caller) rule
      (resource_id_of input rule)

pub check_single_rules_iff :
    (auth : AuthService) (caller : Option AuthUser) (input : Value) (rules : List QualifiedRule)
    → IsOk (check_single_rules auth (identity caller) (user_access_rules caller) input rules)
      ↔ All (SinglePermits auth caller input) rules
unfolding check_single_rules
check_single_rules_iff auth caller input [] = (λ h. tt, λ h. tt)
check_single_rules_iff auth caller input (rule ∷ rules) =
    let both =
      IsOk-bind (check_single_rule auth (identity caller) (user_access_rules caller) input rule)
        (check_single_rules auth (identity caller) (user_access_rules caller) input rules) in
    let here = check_single_rule_iff auth caller input rule in
    let rest = check_single_rules_iff auth caller input rules in
    (λ h. (here.0 (both.0 h).0, rest.0 (both.0 h).1), λ h. both.1 (here.1 h.0, rest.1 h.1))

-- ===== src/Access/Middleware/Permitted.antt =====
-- Who reaches a handler, said without the middleware's control flow.
use checkmate.Prelude.{
  String, Bool, true, ◌≡◌, ◌↔◌, inl, inr, List, [], ◌∷◌, Option, none, some, arith, All, ◌==◌,
  length, if◌then◌else◌, Bool-cases, ◌&&◌, not, filter, ok, err, ◌>>◌,
}
use checkmate.Access.Rule.{UserType, anonymous, public, user, service, authenticated, is_truthy}
use checkmate.Access.Value.{Value}
use checkmate.Access.Procedure.{
  AuthUser, real_user, application_user, service_user, AuthService, Answer, QualifiedRule, identity,
  user_access_rules, global_only_rules, instance_rules, single_resource_rules, id_param, list_key,
  record_key,
}
use checkmate.Access.Authorize.{
  Decision, direct, filtered, require_rules, check_public_rules, enforce_user_type,
  check_single_rules, authorize,
}
use checkmate.Access.Middleware.{Outcome, rejected, answered, respond, run_rules}
use checkmate.Access.Middleware.Checks.{
  IsOk, HasRule, GlobalPublic, SinglePermits, require_rules_iff, check_public_rules_iff, IsOk-bind,
  check_single_rules_iff,
}

-- The handler was called.
abbrev pub Runs : Outcome → Type 0
Runs (rejected e) = ⊥
Runs (answered r) = Unit

-- The caller has the type that the procedure requires.
abbrev pub TypePermits : UserType → Option AuthUser → Type 0
TypePermits anonymous caller = Unit
TypePermits public caller = Unit
TypePermits _ none = ⊥
TypePermits user (some (real_user id known)) = Unit
TypePermits user (some _) = ⊥
TypePermits service (some (service_user id)) = Unit
TypePermits service (some _) = ⊥
TypePermits authenticated (some _) = Unit

abbrev pub GlobalPermits : UserType → AuthService → Option AuthUser → QualifiedRule → Type 0
GlobalPermits public auth caller rule = GlobalPublic auth caller rule
GlobalPermits _ auth caller rule = HasRule (user_access_rules caller) rule

-- Who reaches the handler: everybody on an anonymous endpoint; else a caller of the required type
-- that is a service, or has all rules without instance access and may access each resource named.
abbrev pub Permitted :
    UserType → AuthService → Option AuthUser → Value → List QualifiedRule → Type 0
Permitted anonymous auth caller input rules = Unit
Permitted type auth (some (service_user id)) input rules = TypePermits type (some (service_user id))
Permitted type auth caller input rules =
    TypePermits type caller
    × All (GlobalPermits type auth caller) (global_only_rules rules)
    × All (SinglePermits auth caller input) (single_resource_rules rules)

Runs-respond :
    (auth : AuthService) (caller : Option AuthUser) (rules : List QualifiedRule)
    (next : Answer Value) (d : Answer Decision)
    → Runs (respond auth caller rules next d) ↔ IsOk d
Runs-respond auth caller rules next (err e) = (λ h. h, λ h. h)
Runs-respond auth caller rules next (ok direct) = (λ h. h, λ h. h)
Runs-respond auth caller rules next (ok filtered) = (λ h. h, λ h. h)

-- The last checks, on a procedure that is not public.
rules_iff :
    (auth : AuthService) (caller : Option AuthUser) (input : Value) (rules : List QualifiedRule)
    → IsOk (
        require_rules (user_access_rules caller) (global_only_rules rules)
        >> (check_single_rules auth
              (identity caller)
              (user_access_rules caller)
              input
              (single_resource_rules rules)
            >> ok filtered))
      ↔ (All (HasRule (user_access_rules caller)) (global_only_rules rules)
          × All (SinglePermits auth caller input) (single_resource_rules rules))
rules_iff auth caller input rules =
    let first = IsOk-bind (require_rules (user_access_rules caller) (global_only_rules rules)) (
      check_single_rules auth (identity caller) (user_access_rules caller) input
        (single_resource_rules rules)
      >> ok filtered) in
    let second =
      IsOk-bind
        (check_single_rules auth (identity caller) (user_access_rules caller) input
          (single_resource_rules rules))
        (ok filtered) in
    let globals = require_rules_iff (user_access_rules caller) (global_only_rules rules) in
    let singles = check_single_rules_iff auth caller input (single_resource_rules rules) in
    (
      λ h. (globals.0 (first.0 h).0, singles.0 (second.0 (first.0 h).1).0),
      λ h. first.1 (globals.1 h.0, second.1 (singles.1 h.1, tt)),
    )

typed_iff : {A B : Type 0} {m : Type 0} → m ↔ (A × B) → m ↔ (Unit {0} × A × B)
typed_iff h = (λ k. (tt, (h.0 k).0, (h.0 k).1), λ k. h.1 (k.1, k.2))

filter-empty :
    (p : QualifiedRule → Bool) (P : QualifiedRule → Type 0) (rules : List QualifiedRule)
    → (length rules == 0) ≡ true
    → All P (filter p rules)
filter-empty p P [] h = tt
filter-empty p P (rule ∷ rules) h = absurd (ground arith)

-- The last checks, on a public procedure.
public_iff :
    (auth : AuthService) (caller : Option AuthUser) (input : Value) (rules : List QualifiedRule)
    → IsOk (
        check_public_rules auth caller (global_only_rules rules)
        >> (if length (instance_rules rules) == 0
            then ok direct
            else check_single_rules auth
                (identity caller)
                (user_access_rules caller)
                input
                (single_resource_rules rules)
              >> ok filtered))
      ↔ (All (GlobalPublic auth caller) (global_only_rules rules)
          × All (SinglePermits auth caller input) (single_resource_rules rules))
public_iff auth caller input rules =
    let first = IsOk-bind (check_public_rules auth caller (global_only_rules rules)) in
    let second =
      IsOk-bind
        (check_single_rules auth (identity caller) (user_access_rules caller) input
          (single_resource_rules rules))
        (ok filtered) in
    let globals = check_public_rules_iff auth caller (global_only_rules rules) in
    let singles = check_single_rules_iff auth caller input (single_resource_rules rules) in
    elim (Bool-cases (length (instance_rules rules) == 0)) [
      | inl e ↦ rw e (
        λ h. (
          globals.0 ((first (ok direct)).0 h).0,
          filter-empty
              (λ r.
                is_truthy (id_param r)
                && not (is_truthy (list_key r))
                && not (is_truthy (record_key r)))
              (SinglePermits auth caller input) (instance_rules rules) e,
        ),
        λ h. (first (ok direct)).1 (globals.1 h.0, tt),
      )
      | inr e ↦ rw e (
        λ h. let (g, r) = (first _).0 h in (globals.0 g, singles.0 (second.0 r).0),
        λ h. (first _).1 (globals.1 h.0, second.1 (singles.1 h.1, tt)),
      )
    ]

public_service_iff :
    (auth : AuthService) (id : String) (input : Value) (rules : List QualifiedRule)
    → IsOk (authorize public auth (some (service_user id)) input rules) ↔ Unit {0}
unfolding authorize check_public_rules enforce_user_type
public_service_iff auth id input rules = elim (Bool-cases (length (instance_rules rules) == 0)) [
  | inl e ↦ rw e (λ h. tt, λ h. tt)
  | inr e ↦ rw e (λ h. tt, λ h. tt)
]

authorize-Permitted :
    (type : UserType) (auth : AuthService) (caller : Option AuthUser) (input : Value)
    (rules : List QualifiedRule)
    → IsOk (authorize type auth caller input rules) ↔ Permitted type auth caller input rules
unfolding authorize enforce_user_type
authorize-Permitted anonymous auth caller input rules = (λ h. tt, λ h. tt)
authorize-Permitted public auth none input rules = typed_iff (public_iff auth none input rules)
authorize-Permitted public auth (some (real_user id known)) input rules =
    typed_iff (public_iff auth (some (real_user id known)) input rules)
authorize-Permitted public auth (some (application_user id known)) input rules =
    typed_iff (public_iff auth (some (application_user id known)) input rules)
authorize-Permitted public auth (some (service_user id)) input rules =
    public_service_iff auth id input rules
authorize-Permitted user auth (some (real_user id known)) input rules =
    typed_iff (rules_iff auth (some (real_user id known)) input rules)
authorize-Permitted user auth none input rules = (λ h. absurd h, λ h. absurd h.0)
authorize-Permitted user auth (some (application_user id known)) input rules =
    (λ h. absurd h, λ h. absurd h.0)
authorize-Permitted user auth (some (service_user id)) input rules = (λ h. h, λ h. h)
authorize-Permitted service auth none input rules = (λ h. absurd h, λ h. absurd h.0)
authorize-Permitted service auth (some (real_user id known)) input rules =
    (λ h. absurd h, λ h. absurd h.0)
authorize-Permitted service auth (some (application_user id known)) input rules =
    (λ h. absurd h, λ h. absurd h.0)
authorize-Permitted service auth (some (service_user id)) input rules = (λ h. tt, λ h. tt)
authorize-Permitted authenticated auth none input rules = (λ h. absurd h, λ h. absurd h.0)
authorize-Permitted authenticated auth (some (real_user id known)) input rules =
    typed_iff (rules_iff auth (some (real_user id known)) input rules)
authorize-Permitted authenticated auth (some (application_user id known)) input rules =
    typed_iff (rules_iff auth (some (application_user id known)) input rules)
authorize-Permitted authenticated auth (some (service_user id)) input rules = (λ h. tt, λ h. tt)

-- Whatever the handler returns, it is called exactly for a permitted caller: for everybody on an
-- anonymous endpoint, and else for a caller of the required type that is a service, or that has all
-- rules without instance access and may access each resource that the input names for a
-- single-resource rule.
pub run_rules-Permitted :
    (type : UserType) (auth : AuthService) (caller : Option AuthUser) (input : Value)
    (rules : List QualifiedRule) (next : Answer Value)
    → Runs (run_rules type auth caller input rules next) ↔ Permitted type auth caller input rules
unfolding run_rules
run_rules-Permitted type auth caller input rules next =
    let called = Runs-respond auth caller rules next (authorize type auth caller input rules) in
    let permitted = authorize-Permitted type auth caller input rules in
    (λ h. permitted.0 (called.0 h), λ h. called.1 (permitted.1 h))

-- ===== src/Access/Middleware/Skipped.antt =====
-- backend-api/src/rpc.ts:235: a single-resource rule whose id parameter is not in the input is
-- passed over, and nothing else checks it.
use checkmate.Prelude.{
  String, Bool, true, false, ◌≡◌, refl, List, [], ◌∷◌, Option, none, some, arith, All, filter, ok,
  err, ◌>>=◌,
}
use checkmate.Access.Rule.{authenticated, is_truthy}
use checkmate.Access.Value.{Value, arr, obj}
use checkmate.Access.Procedure.{
  AuthUser, real_user, AuthService, Answer, QualifiedRule, is_instance, list_key, record_key,
  global_only_rules, single_resource_rules, list_resource_rules, record_resource_rules, identity,
  user_access_rules, instance_rules,
}
use checkmate.Access.Authorize.{
  resource_id_of, check_single_rule, check_single_rules, require_rules, enforce_user_type,
  authorize,
}
use checkmate.Access.Filter.{post_filter}
use checkmate.Access.Middleware.{answered, run_rules}

-- A rule with an id parameter and no other key, on an input that lacks the parameter.
abbrev pub IsUnresolved : Value → QualifiedRule → Type 0
IsUnresolved input rule =
    (is_instance rule ≡ true)
    × (is_truthy (list_key rule) ≡ false)
    × (is_truthy (record_key rule) ≡ false)
    × (resource_id_of input rule ≡ none)

module _ (input : Value) where
  no_global :
      (rules : List QualifiedRule) → All (IsUnresolved input) rules → global_only_rules rules ≡ []
  no_global [] h = refl
  no_global (rule ∷ rules) (h, hs) = ground (arith, no_global rules hs)

  no_list :
      (rules : List QualifiedRule) → All (IsUnresolved input) rules → list_resource_rules rules ≡ []
  no_list [] h = refl
  no_list (rule ∷ rules) (h, hs) = ground (arith, no_list rules hs)

  no_record :
      (rules : List QualifiedRule)
      → All (IsUnresolved input) rules
      → record_resource_rules rules ≡ []
  no_record [] h = refl
  no_record (rule ∷ rules) (h, hs) = ground (arith, no_record rules hs)

  All-IsUnresolved :
      (p : QualifiedRule → Bool) (rules : List QualifiedRule)
      → All (IsUnresolved input) rules
      → All (IsUnresolved input) (filter p rules)
  All-IsUnresolved p [] h = tt
  All-IsUnresolved p (rule ∷ rules) (h, hs) = ground (arith, All-IsUnresolved p rules hs)

  single_rules_pass :
      (auth : AuthService) (caller : AuthUser) (rules : List QualifiedRule)
      → All (IsUnresolved input) rules
      → check_single_rules auth
          (identity (some caller))
          (user_access_rules (some caller))
          input
          rules
        ≡ ok tt
  unfolding check_single_rules check_single_rule
  single_rules_pass auth caller [] h = refl
  single_rules_pass auth caller (rule ∷ rules) (h, hs) =
      ground (arith, single_rules_pass auth caller rules hs)

  post_filter_nothing :
      (auth : AuthService) (caller : AuthUser) (rules : List QualifiedRule)
      → All (IsUnresolved input) rules
      → (next : Answer Value)
      → (next >>= post_filter auth (identity (some caller)) (user_access_rules (some caller)) rules)
        ≡ next
  unfolding post_filter
  post_filter_nothing auth caller rules h (err e) = refl
  post_filter_nothing auth caller rules h (ok (obj fs)) =
      rw (no_list rules h) (rw (no_record rules h) refl)
  post_filter_nothing auth caller rules h (ok (arr vs)) =
      ground (arith, no_list rules h, no_record rules h)
  post_filter_nothing auth caller rules h (ok v) = refl

-- On an endpoint for authenticated callers, where every rule takes its resource from a parameter
-- that the input does not have, every user reaches the handler and gets its answer unfiltered,
-- whatever rules the user has and whatever the auth service says.
pub unresolved_rules_skipped :
    (auth : AuthService) (id : String) (known : Option (List String)) (input : Value)
    (rules : List QualifiedRule) (next : Answer Value)
    → All (IsUnresolved input) rules
    → run_rules authenticated auth (some (real_user id known)) input rules next ≡ answered next
unfolding run_rules authorize require_rules enforce_user_type
unresolved_rules_skipped auth id known input rules next h =
    let caller = real_user id known in
    ground (
      arith,
      no_global input rules h,
      single_rules_pass input auth caller (single_resource_rules rules)
          (All-IsUnresolved input _ (instance_rules rules) (All-IsUnresolved input _ rules h)),
      post_filter_nothing input auth caller rules h next,
    )

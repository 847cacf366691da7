-- ===== src/Access/Middleware.antt =====
-- backend-api/src/rpc.ts, `autoAuthMiddleware` as a whole.
pub mod Checks
pub mod Permitted
pub mod Skipped
pub mod Lists
mod Tests
use checkmate.Prelude.{String, List, Option, some, none, ok, err, ◌>>=◌}
use checkmate.Access.Rule.{ProcedureMetadata, UserType}
use checkmate.Access.Value.{Value}
use checkmate.Access.Procedure.{
  AuthUser, AuthService, RpcError, Answer, QualifiedRule, identity, user_access_rules,
  required_user_type, qualified_rules,
}
use checkmate.Access.Authorize.{Decision, direct, filtered, authorize}
use checkmate.Access.Filter.{post_filter}

-- The request was rejected before the handler was called, or the handler was called and its
-- result, filtered or not, is the answer.
pub data Outcome : Type 0 where
  rejected : RpcError → Outcome
  answered : Answer Value → Outcome

abbrev pub respond :
    AuthService → Option AuthUser → List QualifiedRule → Answer Value → Answer Decision → Outcome
respond auth caller rules next (err e) = rejected e
respond auth caller rules next (ok direct) = answered next
respond auth caller rules next (ok filtered) =
    answered (next >>= post_filter auth (identity caller) (user_access_rules caller) rules)

-- `next` is what the handler returns or throws.
unfoldable pub run_rules :
    UserType → AuthService → Option AuthUser → Value → List QualifiedRule → Answer Value → Outcome
run_rules type auth caller input rules next =
    respond auth caller rules next (authorize type auth caller input rules)

unfoldable pub auto_auth_middleware :
    String
    → Option ProcedureMetadata
    → AuthService
    → Option AuthUser
    → Value
    → Answer Value
    → Outcome
unfolding run_rules
auto_auth_middleware plugin_id meta auth caller input next =
    run_rules (required_user_type meta) auth caller input (qualified_rules plugin_id meta) next

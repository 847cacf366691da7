-- ===== src/Events/Groups.antt =====
-- backend/src/services/event-bus.ts: the modes of a subscription, and the worker groups of a plugin.
use checkmate.Prelude.{
  ℕ, not, String, List, [], ◌∷◌, ◌++◌, Option, none, some, Result, ok, err, filter, get_or_else,
  if◌then◌else◌,
}
use checkmate.Prelude.Text.{◌===◌, includes, ◌++ₛ◌}
use checkmate.Prelude.Map.{get, set, delete}

pub data Mode : Type 0 where
  broadcast work_queue instance_local : Mode

pub record HookSubscribeOptions : Type 0 where
  pub mode : Option Mode
  pub worker_group : Option String
  pub max_retries : Option ℕ

pub data SubscribeError : Type 0 where
  worker_group_required : SubscribeError
  duplicate_worker_group : SubscribeError

-- The checks of `subscribe`, with the worker groups that they leave.
unfoldable pub check_worker_group :
    Mode
    → String
    → Option String
    → List (String × List String)
    → Result SubscribeError (List (String × List String))
check_worker_group work_queue plugin_id none worker_groups = err worker_group_required
check_worker_group work_queue plugin_id (some group) worker_groups =
    let taken = get_or_else (get plugin_id worker_groups) [] in
    if group === ""
    then err worker_group_required
    else if includes taken group
    then err duplicate_worker_group
    else ok (set plugin_id (taken ++ group ∷ []) worker_groups)
check_worker_group mode plugin_id worker_group worker_groups = ok worker_groups

-- An undefined group of a mode that has none is never read.
unfoldable pub consumer_group_of : Mode → String → String → Option String → String → String
consumer_group_of broadcast plugin_id hook_id worker_group instance_id =
    plugin_id ++ₛ "." ++ₛ hook_id ++ₛ ".broadcast." ++ₛ instance_id
consumer_group_of mode plugin_id hook_id worker_group instance_id =
    plugin_id ++ₛ "." ++ₛ get_or_else worker_group "undefined"

abbrev pub retries_of : Mode → Option ℕ → ℕ
retries_of work_queue max_retries = get_or_else max_retries 3
retries_of mode max_retries = 0

-- The worker groups without a plugin's group; a plugin without groups goes.
unfoldable pub release_worker_group :
    String → Option String → List (String × List String) → List (String × List String)
release_worker_group plugin_id none worker_groups = worker_groups
release_worker_group plugin_id (some group) worker_groups =
    if group === "" then worker_groups else elim (get plugin_id worker_groups) [
      | none ↦ worker_groups
      | some groups ↦ elim (filter (λ g. not (g === group)) groups) [
        | [] ↦ delete plugin_id worker_groups
        | g ∷ gs ↦ set plugin_id (g ∷ gs) worker_groups
      ]
    ]

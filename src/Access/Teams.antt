-- ===== src/Access/Teams.antt =====
-- auth-backend/src/router.ts, the team grants on resources, with the tables of
-- auth-backend/src/schema.ts. A table is the list of its rows; a query's `where` is a filter.
pub mod Keys
pub mod Bulk
pub mod Laws
pub mod Frame
mod Tests
use checkmate.Prelude.{
  ℕ, String, Bool, true, false, not, ◌&&◌, List, [], ◌∷◌, ◌++◌, Option, none, some, map, ◌==◌,
  if◌then◌else◌, length, filter, any, find, get_or_else,
}
use checkmate.Prelude.Map
use checkmate.Prelude.Text.{◌===◌, includes}
use checkmate.Access.Rule.{AccessLevel, read, manage}

pub record ResourceTeamAccess : Type 0 where
  pub resource_type : String
  pub resource_id : String
  pub team_id : String
  pub can_read : Bool
  pub can_manage : Bool

pub record ResourceAccessSettings : Type 0 where
  pub resource_type : String
  pub resource_id : String
  pub team_only : Bool

-- A row of `user_team` or of `application_team`.
pub record Membership : Type 0 where
  pub member_id : String
  pub team_id : String

pub record Db : Type 0 where
  pub resource_team_access : List ResourceTeamAccess
  pub resource_access_settings : List ResourceAccessSettings
  pub user_team : List Membership
  pub application_team : List Membership

pub data CallerType : Type 0 where
  user application : CallerType

-- The input of the two endpoints, less the resource ids.
pub record Caller : Type 0 where
  pub user_id : String
  pub user_type : CallerType
  pub resource_type : String
  pub action : AccessLevel
  pub has_global_access : Bool

abbrev pub is_for : String → String → ResourceTeamAccess → Bool
is_for resource_type resource_id g =
    g.resource_type === resource_type && g.resource_id === resource_id

abbrev pub is_setting_of : String → String → ResourceAccessSettings → Bool
is_setting_of resource_type resource_id s =
    s.resource_type === resource_type && s.resource_id === resource_id

abbrev pub head_team_only : List ResourceAccessSettings → Bool
head_team_only [] = false
head_team_only (s ∷ rows) = s.team_only

abbrev membership_table : CallerType → Db → List Membership
membership_table user db = db.user_team
membership_table application db = db.application_team

unfoldable pub team_ids : Db → Caller → List String
team_ids db caller =
    map (λ m. m.team_id)
      (filter (λ m. m.member_id === caller.user_id) (membership_table caller.user_type db))

-- `g[field]`.
abbrev pub grants_action : AccessLevel → ResourceTeamAccess → Bool
grants_action manage g = g.can_manage
grants_action read g = g.can_read

abbrev pub has_team_grant : List String → AccessLevel → List ResourceTeamAccess → Bool
has_team_grant teams action grants =
    any (λ g. includes teams g.team_id && grants_action action g) grants

unfoldable pub check_resource_team_access : Db → Caller → String → Bool
check_resource_team_access db caller resource_id =
    let grants = filter (is_for caller.resource_type resource_id) db.resource_team_access in
    let settings =
      filter (is_setting_of caller.resource_type resource_id) db.resource_access_settings in
    let is_team_only = head_team_only settings in
    if length grants == 0
    then caller.has_global_access
    else if not is_team_only && caller.has_global_access
    then true
    else has_team_grant (team_ids db caller) caller.action grants

-- `new Map(settingsRows.map((s) => [s.resourceId, s.teamOnly]))`, from the rows so far.
pub team_only_map : List (String × Bool) → List ResourceAccessSettings → List (String × Bool)
team_only_map m [] = m
team_only_map m (s ∷ rows) = team_only_map (Map.set s.resource_id s.team_only m) rows

-- The loop that fills `grantsByResource`.
pub group_grants :
    List (String × List ResourceTeamAccess)
    → List ResourceTeamAccess
    → List (String × List ResourceTeamAccess)
group_grants m [] = m
group_grants m (g ∷ rows) =
    group_grants (Map.set g.resource_id (get_or_else (Map.get g.resource_id m) [] ++ g ∷ []) m) rows

-- The predicate of the final `resourceIds.filter`.
abbrev pub is_accessible :
    Caller
    → List String
    → List (String × List ResourceTeamAccess)
    → List (String × Bool)
    → String
    → Bool
is_accessible caller teams grants_by_resource team_only_by_resource id =
    let grants = get_or_else (Map.get id grants_by_resource) [] in
    let is_team_only = get_or_else (Map.get id team_only_by_resource) false in
    if length grants == 0
    then caller.has_global_access
    else if not is_team_only && caller.has_global_access
    then true
    else has_team_grant teams caller.action grants

unfoldable pub get_accessible_resource_ids : Db → Caller → List String → List String
get_accessible_resource_ids db caller resource_ids =
    if length resource_ids == 0
    then []
    else let grants =
        filter
          (λ g. g.resource_type === caller.resource_type && includes resource_ids g.resource_id)
          db.resource_team_access in
      let settings =
        filter
          (λ s. s.resource_type === caller.resource_type && includes resource_ids s.resource_id)
          db.resource_access_settings in
      filter
        (is_accessible caller (team_ids db caller) (group_grants [] grants)
          (team_only_map [] settings))
        resource_ids

-- Insert, on conflict with the primary key update.
unfoldable pub upsert_grant : ResourceTeamAccess → List ResourceTeamAccess → List ResourceTeamAccess
upsert_grant new [] = new ∷ []
upsert_grant new (g ∷ rows) =
    if is_for new.resource_type new.resource_id g && g.team_id === new.team_id
    then record g { can_read = new.can_read; can_manage = new.can_manage } ∷ rows
    else g ∷ upsert_grant new rows

-- The row that `setResourceTeamAccess` inserts.
abbrev pub grant_row : String → String → String → Option Bool → Option Bool → ResourceTeamAccess
grant_row resource_type resource_id team_id can_read can_manage = record {
  resource_type = resource_type;
  resource_id = resource_id;
  team_id = team_id;
  can_read = get_or_else can_read true;
  can_manage = get_or_else can_manage false;
}

unfoldable pub set_resource_team_access :
    Db → String → String → String → Option Bool → Option Bool → Db
set_resource_team_access db resource_type resource_id team_id can_read can_manage = record db {
  resource_team_access =
      upsert_grant (grant_row resource_type resource_id team_id can_read can_manage)
        db.resource_team_access;
}

unfoldable pub remove_resource_team_access : Db → String → String → String → Db
remove_resource_team_access db resource_type resource_id team_id = record db {
  resource_team_access =
      filter (λ g. not (is_for resource_type resource_id g && g.team_id === team_id))
        db.resource_team_access;
}

unfoldable pub delete_resource_grants : Db → String → String → Db
delete_resource_grants db resource_type resource_id = record db {
  resource_team_access =
      filter (λ g. not (is_for resource_type resource_id g)) db.resource_team_access;
}

unfoldable pub get_resource_access_settings : Db → String → String → Bool
get_resource_access_settings db resource_type resource_id =
    head_team_only (filter (is_setting_of resource_type resource_id) db.resource_access_settings)

unfoldable pub upsert_setting :
    ResourceAccessSettings → List ResourceAccessSettings → List ResourceAccessSettings
upsert_setting new [] = new ∷ []
upsert_setting new (s ∷ rows) =
    if is_setting_of new.resource_type new.resource_id s
    then record s { team_only = new.team_only } ∷ rows
    else s ∷ upsert_setting new rows

unfoldable pub set_resource_access_settings : Db → String → String → Bool → Db
unfolding upsert_setting
set_resource_access_settings db resource_type resource_id team_only = record db {
  resource_access_settings =
      upsert_setting
        (record { resource_type = resource_type; resource_id = resource_id; team_only = team_only })
        db.resource_access_settings;
}

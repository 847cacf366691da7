-- ===== src/Access/Teams/Tests.antt =====
-- Runs of the team grants.
use checkmate.Prelude.{true, false, ◌≡◌, refl, ◌↔◌, [], ◌∷◌, filter}
use checkmate.Access.Rule.{read, manage}
use checkmate.Access.Teams.{
  ResourceTeamAccess, Db, Caller, user, team_ids, check_resource_team_access,
  get_accessible_resource_ids, set_resource_team_access, remove_resource_team_access,
  delete_resource_grants, set_resource_access_settings, get_resource_access_settings, upsert_grant,
  group_grants, team_only_map,
}
use checkmate.Access.Teams.Keys.{Keyed, is_same_setting}
use checkmate.Access.Teams.Bulk.{get_accessible-eq-check}
use checkmate.Access.Teams.Laws.{HasGrant, check_iff_grant}

teams : Unit {0}
unfolding team_ids check_resource_team_access get_accessible_resource_ids set_resource_team_access
    remove_resource_team_access delete_resource_grants set_resource_access_settings
    get_resource_access_settings upsert_grant group_grants team_only_map
teams = tt

abbrev system_grant : ResourceTeamAccess
system_grant = record {
  resource_type = "catalog.system";
  resource_id = "s1";
  team_id = "ops";
  can_read = true;
  can_manage = false;
}

abbrev tables : Db
tables = record {
  resource_team_access = system_grant ∷ [];
  resource_access_settings =
      record { resource_type = "catalog.system"; resource_id = "s1"; team_only = true } ∷ [];
  user_team = record { member_id = "ann"; team_id = "ops" } ∷ [];
  application_team = [];
}

abbrev ann : Caller
ann = record {
  user_id = "ann";
  user_type = user;
  resource_type = "catalog.system";
  action = read;
  has_global_access = false;
}

answers :
    (check_resource_team_access tables ann "s1" ≡ true)
    × (check_resource_team_access tables (record ann { action = manage }) "s1" ≡ false)
    × (check_resource_team_access tables
          (record ann { user_id = "bob"; has_global_access = true })
          "s1"
        ≡ false)
    × (check_resource_team_access tables (record ann { has_global_access = true }) "s2" ≡ true)
    × (get_accessible_resource_ids tables ann ("s2" ∷ "s1" ∷ []) ≡ "s1" ∷ [])
    × (check_resource_team_access (delete_resource_grants tables "catalog.system" "s1") ann "s1"
        ≡ false)
unfolding teams
answers = (refl, refl, refl, refl, refl, refl)

tables-Keyed : Keyed is_same_setting tables.resource_access_settings
tables-Keyed = (tt, tt)

get_accessible-eq-check_example :
    get_accessible_resource_ids tables ann ("s2" ∷ "s1" ∷ [])
    ≡ filter (check_resource_team_access tables ann) ("s2" ∷ "s1" ∷ [])
get_accessible-eq-check_example = get_accessible-eq-check tables ann ("s2" ∷ "s1" ∷ []) tables-Keyed

check_iff_grant_example :
    (check_resource_team_access tables ann "s1" ≡ true) ↔ HasGrant tables ann "s1"
check_iff_grant_example = check_iff_grant tables ann "s1" refl

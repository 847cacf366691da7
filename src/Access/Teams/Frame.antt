-- ===== src/Access/Teams/Frame.antt =====
-- router.ts: what a change of the grants of one resource means for the others.
use checkmate.Prelude.{
  String, Bool, true, false, ◌≡◌, refl, List, [], ◌∷◌, ◌&&◌, not, arith, filter, Option,
}
use checkmate.Prelude.Text.{◌===◌, ===_iff}
use checkmate.Access.Teams.{
  ResourceTeamAccess, Db, Caller, is_for, team_ids, check_resource_team_access, upsert_grant,
  set_resource_team_access, remove_resource_team_access, delete_resource_grants, grant_row,
  membership_table, CallerType, user, application,
}

filter-upsert_grant_other :
    (type id : String) (new : ResourceTeamAccess) (rows : List ResourceTeamAccess)
    → is_for type id new ≡ false
    → filter (is_for type id) (upsert_grant new rows) ≡ filter (is_for type id) rows
unfolding upsert_grant
filter-upsert_grant_other type id new [] h = ground arith
filter-upsert_grant_other type id new (g ∷ rows) h = ground (
  arith,
  filter-upsert_grant_other type id new rows h,
  ===_iff g.resource_type new.resource_type,
  ===_iff g.resource_id new.resource_id,
)

filter-remove_other :
    (type id : String) (p : ResourceTeamAccess → Bool) (rows : List ResourceTeamAccess)
    → ((g : ResourceTeamAccess) → is_for type id g ≡ true → p g ≡ true)
    → filter (is_for type id) (filter p rows) ≡ filter (is_for type id) rows
filter-remove_other type id p [] h = refl
filter-remove_other type id p (g ∷ rows) h =
    ground (arith, filter-remove_other type id p rows h, h g)

is_for-other :
    (type id type' id' : String) (g : ResourceTeamAccess)
    → (type' === type && id' === id) ≡ false
    → is_for type id g ≡ true
    → is_for type' id' g ≡ false
is_for-other type id type' id' g h k = ground (
  arith,
  ===_iff g.resource_type type,
  ===_iff g.resource_id id,
  ===_iff g.resource_type type',
  ===_iff g.resource_id id',
  ===_iff type' type,
  ===_iff id' id,
)

membership_of_grants :
    (t : CallerType) (db : Db) (rows : List ResourceTeamAccess)
    → membership_table t (record db { resource_team_access = rows }) ≡ membership_table t db
membership_of_grants user db rows = refl
membership_of_grants application db rows = refl

pub team_ids_of_grants :
    (db : Db) (caller : Caller) (rows : List ResourceTeamAccess)
    → team_ids (record db { resource_team_access = rows }) caller ≡ team_ids db caller
unfolding team_ids
team_ids_of_grants db caller rows = rw (membership_of_grants caller.user_type db rows)

-- Setting, removing or deleting the grants of one resource leaves the answers for every other
-- resource as they were.
pub grants_frame :
    (db : Db) (caller : Caller) (id type' id' team : String) (r w : Option Bool)
    → (type' === caller.resource_type && id' === id) ≡ false
    → (check_resource_team_access (set_resource_team_access db type' id' team r w) caller id
        ≡ check_resource_team_access db caller id)
      × (check_resource_team_access (remove_resource_team_access db type' id' team) caller id
          ≡ check_resource_team_access db caller id)
      × (check_resource_team_access (delete_resource_grants db type' id') caller id
          ≡ check_resource_team_access db caller id)
unfolding check_resource_team_access set_resource_team_access remove_resource_team_access
    delete_resource_grants
grants_frame db caller id type' id' team r w h =
    let type = caller.resource_type in
    let rows = db.resource_team_access in
    let same = team_ids_of_grants db caller in
    (
      ground (
        arith,
        same (upsert_grant (grant_row type' id' team r w) rows),
        filter-upsert_grant_other type id (grant_row type' id' team r w) rows h,
      ),
      ground (
        arith,
        same (filter (λ g. not (is_for type' id' g && g.team_id === team)) rows),
        filter-remove_other type id (λ g. not (is_for type' id' g && g.team_id === team)) rows
            (λ g k. ground (arith, is_for-other type id type' id' g h k)),
      ),
      ground (
        arith,
        same (filter (λ g. not (is_for type' id' g)) rows),
        filter-remove_other type id (λ g. not (is_for type' id' g)) rows
            (λ g k. ground (arith, is_for-other type id type' id' g h k)),
      ),
    )

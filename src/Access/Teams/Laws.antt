-- ===== src/Access/Teams/Laws.antt =====
-- auth-backend/src/router.ts: what a team grant gives, and what setting and removing one changes.
use checkmate.Prelude.{
  String, Bool, true, false, ◌≡◌, refl, ◌↔◌, List, [], ◌∷◌, ◌&&◌, arith, In, filter, any, length,
  ◌==◌, inl, none, In-filter, any_iff,
}
use checkmate.Prelude.Text.{===_iff, ===_refl, includes, includes_iff}
use checkmate.Access.Rule.{read}
use checkmate.Access.Teams.Frame.{team_ids_of_grants}
use checkmate.Access.Teams.{
  ResourceTeamAccess, Db, Caller, is_for, grants_action, has_team_grant, team_ids,
  check_resource_team_access, upsert_grant, set_resource_team_access, get_resource_access_settings,
  grant_row,
}

-- A row of the grants that lets one of the caller's teams do the action on the resource.
abbrev pub HasGrant : Db → Caller → String → Type 0
HasGrant db caller id =
    (g : ResourceTeamAccess) × In g db.resource_team_access
    × (is_for caller.resource_type id g ≡ true)
    × In g.team_id (team_ids db caller)
    × (grants_action caller.action g ≡ true)

has_team_grant_iff :
    (db : Db) (caller : Caller) (id : String)
    → (has_team_grant
          (team_ids db caller)
          caller.action
          (filter (is_for caller.resource_type id) db.resource_team_access)
        ≡ true)
      ↔ HasGrant db caller id
has_team_grant_iff db caller id = (to, from)
  where
    teams : List String
    teams = team_ids db caller

    rows : List ResourceTeamAccess
    rows = db.resource_team_access

    p : ResourceTeamAccess → Bool
    p g = includes teams g.team_id && grants_action caller.action g

    to : any p (filter (is_for caller.resource_type id) rows) ≡ true → HasGrant db caller id
    to h =
        let (g, m, q) = (any_iff p _).0 h in
        let (m', f) = (In-filter (is_for caller.resource_type id) g rows).0 m in
        let both : (includes teams g.team_id ≡ true) × (grants_action caller.action g ≡ true) =
          ground arith in
        (g, m', f, (includes_iff teams g.team_id).0 both.0, both.1)

    from : HasGrant db caller id → any p (filter (is_for caller.resource_type id) rows) ≡ true
    from (g, m, f, t, a) = (any_iff p _).1 (
      g,
      (In-filter (is_for caller.resource_type id) g rows).1 (m, f),
      ground (arith, (includes_iff teams g.team_id).1 t),
    )

any_empty :
    (p : ResourceTeamAccess → Bool) (rows : List ResourceTeamAccess)
    → (length rows == 0) ≡ true
    → any p rows ≡ false
any_empty p [] h = refl
any_empty p (g ∷ rows) h = absurd (ground arith)

check-no_global :
    (db : Db) (caller : Caller) (id : String)
    → caller.has_global_access ≡ false
    → check_resource_team_access db caller id
      ≡ has_team_grant
          (team_ids db caller)
          caller.action
          (filter (is_for caller.resource_type id) db.resource_team_access)
unfolding check_resource_team_access
check-no_global db caller id h = ground (
  arith,
  any_empty (λ g. includes (team_ids db caller) g.team_id && grants_action caller.action g)
      (filter (is_for caller.resource_type id) db.resource_team_access),
)

-- A caller with no global access may do the action on a resource exactly when one of its teams has
-- a grant for it.
pub check_iff_grant :
    (db : Db) (caller : Caller) (id : String)
    → caller.has_global_access ≡ false
    → (check_resource_team_access db caller id ≡ true) ↔ HasGrant db caller id
check_iff_grant db caller id h =
    rw (check-no_global db caller id h) (has_team_grant_iff db caller id)

not_empty :
    (g : ResourceTeamAccess) (rows : List ResourceTeamAccess)
    → In g rows
    → (length rows == 0) ≡ false
not_empty g [] m = absurd m
not_empty g (h ∷ rows) m = ground arith

-- A resource that has a grant and is marked `teamOnly` ignores global access: the caller's answer
-- is that of the same caller without it.
pub check_team_only :
    (db : Db) (caller : Caller) (id : String) (g : ResourceTeamAccess)
    → get_resource_access_settings db caller.resource_type id ≡ true
    → In g db.resource_team_access
    → is_for caller.resource_type id g ≡ true
    → check_resource_team_access db caller id
      ≡ check_resource_team_access db (record caller { has_global_access = false }) id
unfolding check_resource_team_access get_resource_access_settings team_ids
check_team_only db caller id g h m f = ground (
  arith,
  not_empty g (filter (is_for caller.resource_type id) db.resource_team_access)
      ((In-filter (is_for caller.resource_type id) g db.resource_team_access).1 (m, f)),
)

In-upsert_grant :
    (new : ResourceTeamAccess) (rows : List ResourceTeamAccess) → In new (upsert_grant new rows)
unfolding upsert_grant
In-upsert_grant new [] = inl refl
In-upsert_grant new (g ∷ rows) = ground (
  arith,
  In-upsert_grant new rows,
  ===_iff g.resource_type new.resource_type,
  ===_iff g.resource_id new.resource_id,
  ===_iff g.team_id new.team_id,
)

check_of_grant :
    (db : Db) (caller : Caller) (id : String)
    → HasGrant db caller id
    → check_resource_team_access db caller id ≡ true
unfolding check_resource_team_access
check_of_grant db caller id h = ground (
  arith,
  (has_team_grant_iff db caller id).1 h,
  any_empty (λ g. includes (team_ids db caller) g.team_id && grants_action caller.action g)
      (filter (is_for caller.resource_type id) db.resource_team_access),
)

-- The default of `setResourceTeamAccess`: a grant set with no flags lets every member of the team
-- read the resource, whatever grants there were.
pub set_grant_lets_read :
    (db : Db) (caller : Caller) (id team : String)
    → caller.action ≡ read
    → In team (team_ids db caller)
    → check_resource_team_access
        (set_resource_team_access db caller.resource_type id team none none)
        caller
        id
      ≡ true
unfolding set_resource_team_access
set_grant_lets_read db caller id team a m =
    check_of_grant (set_resource_team_access db caller.resource_type id team none none) caller id (
      grant_row caller.resource_type id team none none,
      In-upsert_grant _ db.resource_team_access,
      ground (arith, ===_refl caller.resource_type, ===_refl id),
      rw (team_ids_of_grants db caller _) m,
      ground arith,
    )

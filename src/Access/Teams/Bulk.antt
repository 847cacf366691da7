-- ===== src/Access/Teams/Bulk.antt =====
-- The bulk endpoint answers for each resource what the single endpoint answers.
use checkmate.Prelude.{
  String, Bool, true, false, ◌≡◌, refl, List, [], ◌∷◌, ◌++◌, ◌&&◌, arith, All, filter, filter-congr,
  filter-none, any, if◌then◌else◌, get_or_else, inl, inr, ap, ◌∙◌, sym, Bool-cases,
}
use mathlib.Core.List.{append_assoc, append-nil}
use checkmate.Prelude.Map
use checkmate.Prelude.Map.{get-set}
use checkmate.Prelude.Text.{◌===◌, ===_iff, includes, includes_iff}
use checkmate.Access.Teams.{
  ResourceTeamAccess, ResourceAccessSettings, Db, Caller, is_for, is_setting_of, head_team_only,
  team_only_map, group_grants, is_accessible, team_ids, check_resource_team_access,
  get_accessible_resource_ids,
}
use checkmate.Access.Teams.Keys.{Keyed, is_same_setting}

abbrev grants_of : String → List (String × List ResourceTeamAccess) → List ResourceTeamAccess
grants_of id m = get_or_else (Map.get id m) []

grants_of-set :
    (id k : String) (v : List ResourceTeamAccess) (m : List (String × List ResourceTeamAccess))
    → grants_of id (Map.set k v m) ≡ (if k === id then v else grants_of id m)
grants_of-set id k v m = ground (arith, get-set k id v m)

grants_of-group_grants :
    (id : String) (m : List (String × List ResourceTeamAccess)) (rows : List ResourceTeamAccess)
    → grants_of id (group_grants m rows) ≡ grants_of id m ++ filter (λ g. g.resource_id === id) rows
unfolding group_grants
grants_of-group_grants id m [] = sym (append-nil _)
grants_of-group_grants id m (g ∷ rows) =
    let k = g.resource_id in
    let m' = Map.set k (grants_of k m ++ g ∷ []) m in
    let ih = grants_of-group_grants id m' rows in
    let put = grants_of-set id k (grants_of k m ++ g ∷ []) m in
    elim (Bool-cases (k === id)) [
      | inl e ↦
          let same : k ≡ id = (===_iff k id).0 e in
          let put' : grants_of id m' ≡ grants_of id m ++ g ∷ [] =
            (rw e at put) ∙ ap (λ j. grants_of j m ++ g ∷ []) same in
          rw e (
            ih
            ∙ ap (λ l. l ++ filter (λ h. h.resource_id === id) rows) put'
            ∙ append_assoc (grants_of id m) (g ∷ []) _)
      | inr e ↦
          let put' : grants_of id m' ≡ grants_of id m = rw e at put in
          rw e (ih ∙ ap (λ l. l ++ filter (λ h. h.resource_id === id) rows) put')
    ]

-- Of the rows for the listed resources, those for one of them.
filter_listed :
    (type id : String) (ids : List String) (rows : List ResourceTeamAccess)
    → includes ids id ≡ true
    → filter
        (λ g. g.resource_id === id)
        (filter (λ g. g.resource_type === type && includes ids g.resource_id) rows)
      ≡ filter (is_for type id) rows
filter_listed type id ids [] h = refl
filter_listed type id ids (g ∷ rows) h = ground (
  arith,
  filter_listed type id ids rows h,
  ===_iff g.resource_id id,
  includes_iff ids g.resource_id,
  includes_iff ids id,
)

abbrev listed : String → List String → ResourceAccessSettings → Bool
listed type ids s = s.resource_type === type && includes ids s.resource_id

team_only_map_other :
    (type id : String) (ids : List String) (m : List (String × Bool))
    (rows : List ResourceAccessSettings)
    → All (λ s. is_setting_of type id s ≡ false) rows
    → Map.get id (team_only_map m (filter (listed type ids) rows)) ≡ Map.get id m
unfolding team_only_map
team_only_map_other type id ids m [] h = refl
team_only_map_other type id ids m (s ∷ rows) (h, hs) = ground (
  arith,
  team_only_map_other type id ids m rows hs,
  team_only_map_other type id ids (Map.set s.resource_id s.team_only m) rows hs,
  get-set s.resource_id id s.team_only m,
)

is_setting_of-same :
    (type id : String) (s t : ResourceAccessSettings)
    → is_setting_of type id s ≡ true
    → is_same_setting s t ≡ false
    → is_setting_of type id t ≡ false
is_setting_of-same type id s t h k = ground (
  arith,
  ===_iff s.resource_type type,
  ===_iff s.resource_id id,
  ===_iff t.resource_type type,
  ===_iff t.resource_id id,
  ===_iff t.resource_type s.resource_type,
  ===_iff t.resource_id s.resource_id,
)

none_other :
    (type id : String) (s : ResourceAccessSettings) (rows : List ResourceAccessSettings)
    → is_setting_of type id s ≡ true
    → All (λ t. is_same_setting s t ≡ false) rows
    → All (λ t. is_setting_of type id t ≡ false) rows
none_other type id s [] h k = tt
none_other type id s (t ∷ rows) h (k, ks) =
    (is_setting_of-same type id s t h k, none_other type id s rows h ks)

team_only_map-head :
    (type id : String) (ids : List String) (m : List (String × Bool))
    (rows : List ResourceAccessSettings)
    → includes ids id ≡ true
    → Keyed is_same_setting rows
    → get_or_else (Map.get id (team_only_map m (filter (listed type ids) rows))) false ≡ (
        if any (is_setting_of type id) rows
        then head_team_only (filter (is_setting_of type id) rows)
        else get_or_else (Map.get id m) false)
unfolding team_only_map
team_only_map-head type id ids m [] h k = refl
team_only_map-head type id ids m (s ∷ rows) h (k, ks) =
    elim (Bool-cases (is_setting_of type id s)) [
      | inl e ↦ ground (
        arith,
        team_only_map_other type id ids (Map.set s.resource_id s.team_only m) rows
            (none_other type id s rows e k),
        get-set s.resource_id id s.team_only m,
        ===_iff s.resource_id id,
        includes_iff ids s.resource_id,
        includes_iff ids id,
      )
      | inr e ↦ ground (
        arith,
        team_only_map-head type id ids m rows h ks,
        team_only_map-head type id ids (Map.set s.resource_id s.team_only m) rows h ks,
        get-set s.resource_id id s.team_only m,
      )
    ]

is_accessible-eq-check :
    (db : Db) (caller : Caller) (ids : List String) (id : String)
    → includes ids id ≡ true
    → Keyed is_same_setting db.resource_access_settings
    → is_accessible caller
        (team_ids db caller)
        (group_grants [] (
          filter
            (λ g. g.resource_type === caller.resource_type && includes ids g.resource_id)
            db.resource_team_access))
        (team_only_map [] (filter (listed caller.resource_type ids) db.resource_access_settings))
        id
      ≡ check_resource_team_access db caller id
unfolding check_resource_team_access
is_accessible-eq-check db caller ids id m h = ground (
  arith,
  grants_of-group_grants id [] (
      filter (λ g. g.resource_type === caller.resource_type && includes ids g.resource_id)
        db.resource_team_access),
  filter_listed caller.resource_type id ids db.resource_team_access m,
  team_only_map-head caller.resource_type id ids [] db.resource_access_settings m h,
  filter-none (is_setting_of caller.resource_type id) db.resource_access_settings,
)

-- Where the settings have their primary key, the bulk endpoint keeps exactly the resources that
-- the single endpoint lets the caller access, in the order asked.
pub get_accessible-eq-check :
    (db : Db) (caller : Caller) (ids : List String)
    → Keyed is_same_setting db.resource_access_settings
    → get_accessible_resource_ids db caller ids ≡ filter (check_resource_team_access db caller) ids
unfolding get_accessible_resource_ids check_resource_team_access
get_accessible-eq-check db caller [] h = refl
get_accessible-eq-check db caller (first ∷ others) h =
    let ids = first ∷ others in
    ground (
      arith,
      filter-congr _ _ ids
          (λ id m. is_accessible-eq-check db caller ids id ((includes_iff ids id).1 m) h),
    )

-- ===== src/Access/Teams/Keys.antt =====
-- The primary keys of the two tables, and that the upserts keep them.
use checkmate.Prelude.{
  String, Bool, false, ◌≡◌, ◌∙◌, List, [], ◌∷◌, ◌&&◌, arith, All, Bool-cases, inl, inr,
}
use checkmate.Prelude.Text.{◌===◌, ===_iff}
use checkmate.Access.Teams.{
  ResourceTeamAccess, ResourceAccessSettings, Db, is_for, is_setting_of, upsert_setting,
  set_resource_access_settings,
}

abbrev pub is_same_grant : ResourceTeamAccess → ResourceTeamAccess → Bool
is_same_grant g h = is_for g.resource_type g.resource_id h && h.team_id === g.team_id

abbrev pub is_same_setting : ResourceAccessSettings → ResourceAccessSettings → Bool
is_same_setting s t = is_setting_of s.resource_type s.resource_id t

abbrev pub Keyed : {A : Type 0} → (A → A → Bool) → List A → Type 0
Keyed same [] = Unit
Keyed same (x ∷ xs) = All (λ y. same x y ≡ false) xs × Keyed same xs

All-upsert_setting :
    (P : ResourceAccessSettings → Type 0) (new : ResourceAccessSettings)
    (rows : List ResourceAccessSettings)
    → P new
    → ((s : ResourceAccessSettings) → P s → P (record s { team_only = new.team_only }))
    → All P rows
    → All P (upsert_setting new rows)
unfolding upsert_setting
All-upsert_setting P new [] p keep h = (p, tt)
All-upsert_setting P new (s ∷ rows) p keep (q, h) = elim (Bool-cases (is_same_setting new s)) [
  | inl e ↦ rw e (keep s q, h)
  | inr e ↦ rw e (q, All-upsert_setting P new rows p keep h)
]

same_setting_comm : (s t : ResourceAccessSettings) → is_same_setting s t ≡ is_same_setting t s
same_setting_comm s t = ground (
  arith,
  ===_iff s.resource_type t.resource_type,
  ===_iff t.resource_type s.resource_type,
  ===_iff s.resource_id t.resource_id,
  ===_iff t.resource_id s.resource_id,
)

upsert_setting-Keyed :
    (new : ResourceAccessSettings) (rows : List ResourceAccessSettings)
    → Keyed is_same_setting rows
    → Keyed is_same_setting (upsert_setting new rows)
unfolding upsert_setting
upsert_setting-Keyed new [] h = (tt, tt)
upsert_setting-Keyed new (s ∷ rows) (h, hs) = elim (Bool-cases (is_same_setting new s)) [
  | inl e ↦ rw e (h, hs)
  | inr e ↦ rw e (
    All-upsert_setting (λ t. is_same_setting s t ≡ false) new rows (same_setting_comm s new ∙ e)
        (λ t q. q) h,
    upsert_setting-Keyed new rows hs,
  )
]

-- Setting a resource's `teamOnly` flag keeps at most one row for each resource.
pub set_resource_access_settings-Keyed :
    (db : Db) (type id : String) (team_only : Bool)
    → Keyed is_same_setting db.resource_access_settings
    → Keyed is_same_setting
        (set_resource_access_settings db type id team_only).resource_access_settings
unfolding set_resource_access_settings
set_resource_access_settings-Keyed db type id team_only h =
    upsert_setting-Keyed _ db.resource_access_settings h

-- ===== src/Outages/Tables.antt =====
-- maintenance-backend/src/schema.ts and incident-backend/src/schema.ts, whose tables have the same
-- shape, and the queries that both services make.
--
-- `S` is the type of statuses, and `D` has the columns that only one of the services has. Ids and times
-- are numbers. Rows stand in the order in which they were inserted. Ids of updates are new.
use checkmate.Prelude.{
  ℕ, String, Bool, true, false, not, ◌&&◌, List, [], ◌∷◌, ◌++◌, Option, none, some, map, filter,
  any, find, Result, ok, err, ◌==◌, if◌then◌else◌,
}
use checkmate.Prelude.Text.{◌===◌}

-- A row of `maintenances` or `incidents`.
pub record Outage (S D : Type 0) : Type 0 where
  pub id : ℕ
  pub title : String
  pub description : Option String
  pub suppress_notifications : Bool
  pub status : S
  pub details : D
  pub created_at : ℕ
  pub updated_at : ℕ

-- A row of `maintenance_systems` or `incident_systems`.
pub record SystemLink : Type 0 where
  pub outage_id : ℕ
  pub system_id : String

-- A row of `maintenance_updates` or `incident_updates`.
pub record StatusUpdate (S : Type 0) : Type 0 where
  pub id : ℕ
  pub outage_id : ℕ
  pub message : String
  pub status_change : Option S
  pub created_at : ℕ
  pub created_by : Option String

pub record Outages (S D : Type 0) : Type 0 where
  pub rows : List (Outage S D)
  pub systems : List SystemLink
  pub updates : List (StatusUpdate S)

-- A row that is there already, and a reference to a row that is not.
pub data ConstraintError : Type 0 where
  duplicate_key missing_row : ConstraintError

-- `MaintenanceDetail` or `IncidentDetail`; without the updates, `MaintenanceWithSystems` or
-- `IncidentWithSystems`.
pub record WithSystems (S D : Type 0) : Type 0 where
  pub outage : Outage S D
  pub system_ids : List String

pub record Detail (S D : Type 0) : Type 0 where
  pub outage : Outage S D
  pub system_ids : List String
  pub updates : List (StatusUpdate S)

-- `select({ id }).from(systems).where(eq(systemId, systemId))`.
abbrev pub ids_for_system : String → List SystemLink → List ℕ
ids_for_system system_id links =
    map (λ link. link.outage_id) (filter (λ link. link.system_id === system_id) links)

abbrev pub system_ids_of : ℕ → List SystemLink → List String
system_ids_of id links = map (λ link. link.system_id) (filter (λ link. link.outage_id == id) links)

-- `inArray`.
abbrev pub in_array : ℕ → List ℕ → Bool
in_array id ids = any (λ other. other == id) ids

-- The loop that inserts the systems, up to the first one that is there already; whether it ended.
unfoldable pub insert_systems : ℕ → List String → List SystemLink → List SystemLink × Bool
insert_systems id [] links = (links, true)
insert_systems id (system_id ∷ system_ids) links =
    let rest =
      insert_systems id system_ids
        (links ++ record { outage_id = id; system_id = system_id } ∷ []) in
    if any (λ link. link.outage_id == id && link.system_id === system_id) links
    then (links, false)
    else rest

-- The systems of a row are replaced.
unfoldable pub replace_systems : ℕ → Option (List String) → List SystemLink → List SystemLink × Bool
replace_systems id none links = (links, true)
replace_systems id (some system_ids) links =
    insert_systems id system_ids (filter (λ link. not (link.outage_id == id)) links)

module _ {S D : Type 0} where
  abbrev pub find_row : ℕ → List (Outage S D) → Option (Outage S D)
  find_row id rows = find (λ row. row.id == id) rows

  abbrev pub has_row : ℕ → List (Outage S D) → Bool
  has_row id rows = any (λ row. row.id == id) rows

  -- `update(rows).set(...).where(eq(rows.id, id))`.
  unfoldable pub update_row : ℕ → (Outage S D → Outage S D) → List (Outage S D) → List (Outage S D)
  update_row id change [] = []
  update_row id change (row ∷ rows) =
      (if row.id == id then change row else row) ∷ update_row id change rows

  -- The loop that fetches the systems of each row.
  abbrev pub with_systems : List SystemLink → List (Outage S D) → List (WithSystems S D)
  with_systems links rows =
      map (λ row. record { outage = row; system_ids = system_ids_of row.id links }) rows

  -- `getMaintenance`, `getIncident`.
  unfoldable pub get_outage : ℕ → Outages S D → Option (Detail S D)
  get_outage id s = elim (find_row id s.rows) [
    | none ↦ none
    | some row ↦ some (record {
      outage = row;
      system_ids = system_ids_of id s.systems;
      updates = filter (λ u. u.outage_id == id) s.updates;
    })
  ]

  abbrev pub set_status : S → ℕ → Outage S D → Outage S D
  set_status status now row = record row { status = status; updated_at = now }

  -- `if (input.statusChange)`.
  abbrev pub apply_change : ℕ → Option S → ℕ → List (Outage S D) → List (Outage S D)
  apply_change now none id rows = rows
  apply_change now (some status) id rows = update_row id (set_status status now) rows

  -- `deleteMaintenance`, `deleteIncident`: the schema deletes the row's systems and updates with it.
  unfoldable pub delete_outage : ℕ → Outages S D → Outages S D × Bool
  delete_outage id s = elim (find_row id s.rows) [
    | none ↦ (s, false)
    | some row ↦ (
      record {
        rows = filter (λ row. not (row.id == id)) s.rows;
        systems = filter (λ link. not (link.outage_id == id)) s.systems;
        updates = filter (λ u. not (u.outage_id == id)) s.updates;
      },
      true,
    )
  ]

  -- `addUpdate` of both services: with an error where the row is missing.
  unfoldable pub add_update :
      ℕ → StatusUpdate S → Outages S D → Outages S D × Result ConstraintError (StatusUpdate S)
  add_update now update s =
      let rows = apply_change now update.status_change update.outage_id s.rows in
      if has_row update.outage_id s.rows
      then (record s { rows = rows; updates = s.updates ++ update ∷ [] }, ok update)
      else (record s { rows = rows }, err missing_row)

  -- `closeMaintenance`, `transitionStatus`, `resolveIncident`: a new status with its update, where the row
  -- is there.
  unfoldable pub change_status :
      ℕ → S → StatusUpdate S → Outages S D → Outages S D × Option (Detail S D)
  change_status now status update s = elim (find_row update.outage_id s.rows) [
    | none ↦ (s, none)
    | some row ↦
        let after = record s {
          rows = update_row update.outage_id (set_status status now) s.rows;
          updates = s.updates ++ record update { status_change = some status } ∷ [];
        } in
        (after, get_outage update.outage_id after)
  ]

  -- The common part of `createMaintenance` and `createIncident`: the row and its systems; the error where
  -- a row is there already.
  unfoldable pub insert_outage :
      Outage S D → List String → Outages S D → Outages S D × Option ConstraintError
  insert_outage row system_ids s =
      if has_row row.id s.rows
      then (s, some duplicate_key)
      else let (links, ended) = insert_systems row.id system_ids s.systems in
        (
          record s { rows = s.rows ++ row ∷ []; systems = links },
          if ended then none else some duplicate_key,
        )

  -- The common part of `updateMaintenance` and `updateIncident`; `ok none` where the row is missing.
  unfoldable pub update_outage :
      ℕ
      → (Outage S D → Outage S D)
      → Option (List String)
      → Outages S D
      → Outages S D × Result ConstraintError (Option (Detail S D))
  update_outage id change system_ids s = elim (find_row id s.rows) [
    | none ↦ (s, ok none)
    | some row ↦
        let (links, ended) = replace_systems id system_ids s.systems in
        let after = record s { rows = update_row id change s.rows; systems = links } in
        (after, if ended then ok (get_outage id after) else err duplicate_key)
  ]

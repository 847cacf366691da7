-- ===== src/Outages/Maintenances.antt =====
-- maintenance-backend/src/service.ts, and the job of index.ts that starts and completes maintenances.
--
-- The ids that `generateId` makes, the time and the user are arguments. What the router does after a
-- call (signals, hooks, notifications) is left out.
use checkmate.Prelude.{
  ℕ, String, Bool, true, false, ◌&&◌, ◌||◌, List, [], ◌∷◌, Option, none, some, filter, any, leb,
  get_or_else, Result, ok, err,
}
use checkmate.Prelude.Text.{◌===◌}
use checkmate.Outages.Tables.{
  Outage, StatusUpdate, Outages, ConstraintError, WithSystems, Detail, ids_for_system, in_array,
  with_systems, get_outage, add_update, change_status, insert_outage, update_outage,
}

pub data MaintenanceStatus : Type 0 where
  scheduled in_progress completed cancelled : MaintenanceStatus

abbrev pub same_status : MaintenanceStatus → MaintenanceStatus → Bool
same_status scheduled scheduled = true
same_status in_progress in_progress = true
same_status completed completed = true
same_status cancelled cancelled = true
same_status scheduled in_progress = false
same_status scheduled completed = false
same_status scheduled cancelled = false
same_status in_progress scheduled = false
same_status in_progress completed = false
same_status in_progress cancelled = false
same_status completed scheduled = false
same_status completed in_progress = false
same_status completed cancelled = false
same_status cancelled scheduled = false
same_status cancelled in_progress = false
same_status cancelled completed = false

pub record Window : Type 0 where
  pub start_at : ℕ
  pub end_at : ℕ

abbrev pub Maintenance : Type 0
Maintenance = Outage MaintenanceStatus Window

abbrev pub Maintenances : Type 0
Maintenances = Outages MaintenanceStatus Window

pub record CreateMaintenanceInput : Type 0 where
  pub title : String
  pub description : Option String
  pub suppress_notifications : Option Bool
  pub start_at : ℕ
  pub end_at : ℕ
  pub system_ids : List String

-- A missing field is `none`; a description may be set to `null`.
pub record UpdateMaintenanceInput : Type 0 where
  pub id : ℕ
  pub title : Option String
  pub description : Option (Option String)
  pub suppress_notifications : Option Bool
  pub start_at : Option ℕ
  pub end_at : Option ℕ
  pub system_ids : Option (List String)

abbrev pub has_status : Option MaintenanceStatus → Maintenance → Bool
has_status none row = true
has_status (some status) row = same_status row.status status

-- The empty text is no filter.
unfoldable pub list_maintenances :
    Option MaintenanceStatus
    → Option String
    → Maintenances
    → List (WithSystems MaintenanceStatus Window)
list_maintenances status none s = with_systems s.systems (filter (has_status status) s.rows)
list_maintenances status (some system_id) s =
    let ids = ids_for_system system_id s.systems in
    with_systems s.systems
      (filter (λ row. (system_id === "" || in_array row.id ids) && has_status status row) s.rows)

unfoldable pub get_maintenances_for_system :
    String → Maintenances → List (WithSystems MaintenanceStatus Window)
get_maintenances_for_system system_id s =
    let ids = ids_for_system system_id s.systems in
    with_systems s.systems (
      filter
        (λ row.
          in_array row.id ids
          && (same_status row.status scheduled || same_status row.status in_progress))
        s.rows)

abbrev pub new_maintenance : ℕ → ℕ → CreateMaintenanceInput → Maintenance
new_maintenance id now input = record {
  id = id;
  title = input.title;
  description = input.description;
  suppress_notifications = get_or_else input.suppress_notifications false;
  status = scheduled;
  details = record { start_at = input.start_at; end_at = input.end_at };
  created_at = now;
  updated_at = now;
}

unfoldable pub create_maintenance :
    ℕ
    → ℕ
    → CreateMaintenanceInput
    → Maintenances
    → Maintenances × Result ConstraintError (Option (Detail MaintenanceStatus Window))
create_maintenance id now input s =
    let (after, error) = insert_outage (new_maintenance id now input) input.system_ids s in
    (after, elim error [ none ↦ ok (get_outage id after) | some e ↦ err e ])

abbrev pub updated_maintenance : ℕ → UpdateMaintenanceInput → Maintenance → Maintenance
updated_maintenance now input row = record row {
  title = get_or_else input.title row.title;
  description = get_or_else input.description row.description;
  suppress_notifications = get_or_else input.suppress_notifications row.suppress_notifications;
  details = record {
    start_at = get_or_else input.start_at row.details.start_at;
    end_at = get_or_else input.end_at row.details.end_at;
  };
  updated_at = now;
}

unfoldable pub update_maintenance :
    ℕ
    → UpdateMaintenanceInput
    → Maintenances
    → Maintenances × Result ConstraintError (Option (Detail MaintenanceStatus Window))
update_maintenance now input s =
    update_outage input.id (updated_maintenance now input) input.system_ids s

abbrev pub update_entry :
    ℕ → ℕ → ℕ → String → Option MaintenanceStatus → Option String → StatusUpdate MaintenanceStatus
update_entry id now outage_id message status user_id = record {
  id = id;
  outage_id = outage_id;
  message = message;
  status_change = status;
  created_at = now;
  created_by = user_id;
}

unfoldable pub close_maintenance :
    ℕ
    → ℕ
    → ℕ
    → Option String
    → Option String
    → Maintenances
    → Maintenances × Option (Detail MaintenanceStatus Window)
close_maintenance update_id now id message user_id s =
    change_status now completed
      (update_entry update_id now id (get_or_else message "Maintenance completed early")
        (some completed) user_id)
      s

unfoldable pub transition_status :
    ℕ
    → ℕ
    → ℕ
    → MaintenanceStatus
    → String
    → Maintenances
    → Maintenances × Option (Detail MaintenanceStatus Window)
transition_status update_id now id status message s =
    change_status now status (update_entry update_id now id message (some status) none) s

unfoldable pub has_active_maintenance_with_suppression : String → Maintenances → Bool
has_active_maintenance_with_suppression system_id s =
    let ids = ids_for_system system_id s.systems in
    any
      (λ row.
        in_array row.id ids && (same_status row.status in_progress && row.suppress_notifications))
      s.rows

abbrev pub is_to_start : ℕ → Maintenance → Bool
is_to_start now row = same_status row.status scheduled && leb row.details.start_at now

abbrev pub is_to_complete : ℕ → Maintenance → Bool
is_to_complete now row = same_status row.status in_progress && leb row.details.end_at now

unfoldable pub get_maintenances_to_start :
    ℕ → Maintenances → List (WithSystems MaintenanceStatus Window)
get_maintenances_to_start now s = with_systems s.systems (filter (is_to_start now) s.rows)

unfoldable pub get_maintenances_to_complete :
    ℕ → Maintenances → List (WithSystems MaintenanceStatus Window)
get_maintenances_to_complete now s = with_systems s.systems (filter (is_to_complete now) s.rows)

-- A loop of the job over maintenances, each with an added update, which the service's own user makes.
unfoldable pub add_updates :
    (ℕ → ℕ)
    → ℕ
    → MaintenanceStatus
    → String
    → List (WithSystems MaintenanceStatus Window)
    → Maintenances
    → Maintenances
add_updates new_id now status message [] s = s
add_updates new_id now status message (m ∷ ms) s =
    add_updates new_id now status message ms
      (add_update now (update_entry (new_id m.outage.id) now m.outage.id message (some status) none)
        s).0

-- The job: the maintenances to complete are read after the others have started.
unfoldable pub check_transitions : (ℕ → ℕ) → ℕ → Maintenances → Maintenances
check_transitions new_id now s =
    let started =
      add_updates new_id now in_progress "Maintenance started automatically"
        (get_maintenances_to_start now s) s in
    add_updates new_id now completed "Maintenance completed automatically"
      (get_maintenances_to_complete now started) started

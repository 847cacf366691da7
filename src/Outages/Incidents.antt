-- ===== src/Outages/Incidents.antt =====
-- incident-backend/src/service.ts.
--
-- The ids that `generateId` makes, the time and the user are arguments.
use checkmate.Prelude.{
  ℕ, String, Bool, true, false, not, ◌&&◌, ◌||◌, List, [], ◌∷◌, ◌++◌, Option, none, some, filter,
  any, get_or_else, Result, ok, err, if◌then◌else◌,
}
use checkmate.Prelude.Text.{◌===◌}
use checkmate.Outages.Tables.{
  Outage, StatusUpdate, Outages, ConstraintError, WithSystems, Detail, ids_for_system, in_array,
  with_systems, get_outage, change_status, insert_outage, update_outage,
}

pub data IncidentStatus : Type 0 where
  investigating identified fixing monitoring resolved : IncidentStatus

pub data IncidentSeverity : Type 0 where
  minor major critical : IncidentSeverity

abbrev pub is_resolved : IncidentStatus → Bool
is_resolved investigating = false
is_resolved identified = false
is_resolved fixing = false
is_resolved monitoring = false
is_resolved resolved = true

abbrev is_investigating : IncidentStatus → Bool
is_investigating investigating = true
is_investigating identified = false
is_investigating fixing = false
is_investigating monitoring = false
is_investigating resolved = false

abbrev is_identified : IncidentStatus → Bool
is_identified investigating = false
is_identified identified = true
is_identified fixing = false
is_identified monitoring = false
is_identified resolved = false

abbrev is_fixing : IncidentStatus → Bool
is_fixing investigating = false
is_fixing identified = false
is_fixing fixing = true
is_fixing monitoring = false
is_fixing resolved = false

abbrev is_monitoring : IncidentStatus → Bool
is_monitoring investigating = false
is_monitoring identified = false
is_monitoring fixing = false
is_monitoring monitoring = true
is_monitoring resolved = false

abbrev pub Incident : Type 0
Incident = Outage IncidentStatus IncidentSeverity

abbrev pub Incidents : Type 0
Incidents = Outages IncidentStatus IncidentSeverity

pub record CreateIncidentInput : Type 0 where
  pub title : String
  pub description : Option String
  pub severity : IncidentSeverity
  pub suppress_notifications : Option Bool
  pub system_ids : List String
  pub initial_message : Option String

pub record UpdateIncidentInput : Type 0 where
  pub id : ℕ
  pub title : Option String
  pub description : Option (Option String)
  pub severity : Option IncidentSeverity
  pub suppress_notifications : Option Bool
  pub system_ids : Option (List String)

abbrev pub same_incident_status : IncidentStatus → IncidentStatus → Bool
same_incident_status investigating status = is_investigating status
same_incident_status identified status = is_identified status
same_incident_status fixing status = is_fixing status
same_incident_status monitoring status = is_monitoring status
same_incident_status resolved status = is_resolved status

-- `eq(status, filters.status)`, or else that the incident is not resolved where resolved ones are not
-- wanted.
abbrev pub passes_status : Option IncidentStatus → Bool → Incident → Bool
passes_status (some status) include_resolved row = same_incident_status status row.status
passes_status none true row = true
passes_status none false row = not (is_resolved row.status)

-- The empty text is no filter.
unfoldable pub list_incidents :
    Option IncidentStatus
    → Option String
    → Bool
    → Incidents
    → List (WithSystems IncidentStatus IncidentSeverity)
list_incidents status none include_resolved s =
    with_systems s.systems (filter (passes_status status include_resolved) s.rows)
list_incidents status (some system_id) include_resolved s =
    let ids = ids_for_system system_id s.systems in
    with_systems s.systems (
      filter
        (λ row.
          (system_id === "" || in_array row.id ids) && passes_status status include_resolved row)
        s.rows)

unfoldable pub get_incidents_for_system :
    String → Incidents → List (WithSystems IncidentStatus IncidentSeverity)
get_incidents_for_system system_id s =
    let ids = ids_for_system system_id s.systems in
    with_systems s.systems
      (filter (λ row. in_array row.id ids && not (is_resolved row.status)) s.rows)

abbrev pub new_incident : ℕ → ℕ → CreateIncidentInput → Incident
new_incident id now input = record {
  id = id;
  title = input.title;
  description = input.description;
  suppress_notifications = get_or_else input.suppress_notifications false;
  status = investigating;
  details = input.severity;
  created_at = now;
  updated_at = now;
}

abbrev pub incident_entry :
    ℕ → ℕ → ℕ → String → Option IncidentStatus → Option String → StatusUpdate IncidentStatus
incident_entry id now outage_id message status user_id = record {
  id = id;
  outage_id = outage_id;
  message = message;
  status_change = status;
  created_at = now;
  created_by = user_id;
}

-- `if (input.initialMessage)`: also the empty text is no message.
unfoldable pub add_initial_update :
    ℕ → ℕ → ℕ → Option String → Option String → Incidents → Incidents
add_initial_update update_id now id none user_id s = s
add_initial_update update_id now id (some message) user_id s =
    if message === "" then s else record s {
      updates =
          s.updates ++ incident_entry update_id now id message (some investigating) user_id ∷ [];
    }

unfoldable pub create_incident :
    ℕ
    → ℕ
    → ℕ
    → CreateIncidentInput
    → Option String
    → Incidents
    → Incidents × Result ConstraintError (Option (Detail IncidentStatus IncidentSeverity))
create_incident id update_id now input user_id s =
    let (inserted, error) = insert_outage (new_incident id now input) input.system_ids s in
    elim error [
      | some e ↦ (inserted, err e)
      | none ↦
          let after = add_initial_update update_id now id input.initial_message user_id inserted in
          (after, ok (get_outage id after))
    ]

abbrev pub updated_incident : ℕ → UpdateIncidentInput → Incident → Incident
updated_incident now input row = record row {
  title = get_or_else input.title row.title;
  description = get_or_else input.description row.description;
  details = get_or_else input.severity row.details;
  suppress_notifications = get_or_else input.suppress_notifications row.suppress_notifications;
  updated_at = now;
}

unfoldable pub update_incident :
    ℕ
    → UpdateIncidentInput
    → Incidents
    → Incidents × Result ConstraintError (Option (Detail IncidentStatus IncidentSeverity))
update_incident now input s = update_outage input.id (updated_incident now input) input.system_ids s

unfoldable pub resolve_incident :
    ℕ
    → ℕ
    → ℕ
    → Option String
    → Option String
    → Incidents
    → Incidents × Option (Detail IncidentStatus IncidentSeverity)
resolve_incident update_id now id message user_id s =
    change_status now resolved
      (incident_entry update_id now id (get_or_else message "Incident resolved") (some resolved)
        user_id)
      s

unfoldable pub remove_system_associations : String → Incidents → Incidents
remove_system_associations system_id s = record s {
  systems = filter (λ link. not (link.system_id === system_id)) s.systems;
}

unfoldable pub has_active_incident_with_suppression : String → Incidents → Bool
has_active_incident_with_suppression system_id s =
    let ids = ids_for_system system_id s.systems in
    any (λ row. in_array row.id ids && (not (is_resolved row.status) && row.suppress_notifications))
      s.rows

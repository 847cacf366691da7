-- ===== src/Outages/Tests.antt =====
-- Two maintenances, of which one is over when the job runs, and an incident.
use checkmate.Prelude.{
  ℕ, ◌≡◌, ◌≢◌, ◌↔◌, refl, String, true, List, [], ◌∷◌, none, some, map, In, ok, err,
}
use checkmate.Outages.Tables.{
  SystemLink, StatusUpdate, duplicate_key, insert_systems, update_row, get_outage, delete_outage,
  add_update, change_status, replace_systems, insert_outage, update_outage,
}
use checkmate.Outages.Maintenances.{
  MaintenanceStatus, scheduled, in_progress, completed, Maintenance, Maintenances,
  CreateMaintenanceInput, UpdateMaintenanceInput, get_maintenances_for_system, create_maintenance,
  update_maintenance, close_maintenance, transition_status, has_active_maintenance_with_suppression,
  get_maintenances_to_start, get_maintenances_to_complete, add_updates, check_transitions,
}
use checkmate.Outages.Incidents.{
  investigating, identified, resolved, major, Incident, Incidents, CreateIncidentInput,
  incident_entry, add_initial_update, create_incident, update_incident, resolve_incident,
  remove_system_associations, has_active_incident_with_suppression,
}
use checkmate.Outages.Consistent.{IsConsistent}
use checkmate.Outages.Maintained.{
  MaintenanceEvent, created, checked, maintenance_step, maintenances_after, no_maintenances,
  maintenances-IsConsistent,
}
use checkmate.Outages.Resolved.{
  IncidentEvent, incident_step, incidents_after, no_incidents, incidents-IsConsistent,
}
use checkmate.Outages.Found.{as_asked, create_maintenance-get}
use checkmate.Outages.Suppression.{Concerns, has_active_maintenance_iff, has_active_incident_iff}
use checkmate.Outages.Schedule.{IsAfterJob, Pointwise, check_transitions-due}

unit : Unit {0}
unfolding insert_systems update_row get_outage delete_outage add_update change_status
    replace_systems insert_outage update_outage get_maintenances_for_system create_maintenance
    update_maintenance close_maintenance transition_status has_active_maintenance_with_suppression
    get_maintenances_to_start get_maintenances_to_complete add_updates check_transitions
    add_initial_update create_incident update_incident resolve_incident remove_system_associations
    has_active_incident_with_suppression maintenance_step incident_step
unit = tt

abbrev input : ℕ → ℕ → List String → CreateMaintenanceInput
input start_at end_at system_ids = record {
  title = "Upgrade";
  description = none;
  suppress_notifications = some true;
  start_at = start_at;
  end_at = end_at;
  system_ids = system_ids;
}

abbrev ids : ℕ → ℕ
ids id = id

abbrev events : List MaintenanceEvent
events =
    created 1 10 (input 20 30 ("web" ∷ "mail" ∷ []))
    ∷ created 2 11 (input 40 90 ("mail" ∷ []))
    ∷ checked ids 50
    ∷ []

abbrev after : Maintenances
after = maintenances_after events no_maintenances

statuses_after : map (λ (row : Maintenance). row.status) after.rows ≡ completed ∷ in_progress ∷ []
unfolding unit
statuses_after = refl

messages_after :
    map (λ (u : StatusUpdate MaintenanceStatus). u.message) after.updates
    ≡ "Maintenance started automatically" ∷ "Maintenance started automatically"
      ∷ "Maintenance completed automatically" ∷ []
unfolding unit
messages_after = refl

maintenances-IsConsistent_example : IsConsistent scheduled after
maintenances-IsConsistent_example = maintenances-IsConsistent events

create_maintenance-get_example :
    ((create_maintenance 3 60 (input 70 80 ("db" ∷ [])) after).1
      ≡ ok (some (as_asked 3 60 (input 70 80 ("db" ∷ [])))))
    × (get_outage 3 (create_maintenance 3 60 (input 70 80 ("db" ∷ [])) after).0
        ≡ some (as_asked 3 60 (input 70 80 ("db" ∷ []))))
    × (get_outage 1 (create_maintenance 3 60 (input 70 80 ("db" ∷ [])) after).0
        ≡ get_outage 1 after)
unfolding unit
create_maintenance-get_example =
    create_maintenance-get 3 60 (input 70 80 ("db" ∷ [])) after (maintenances-IsConsistent events)
      refl (refl, tt) 1 refl

check_transitions-due_example :
    Pointwise (IsAfterJob 95) after.rows (check_transitions ids 95 after).rows
unfolding unit
check_transitions-due_example =
    check_transitions-due ids 95 after (maintenances-IsConsistent events).0

has_active_maintenance_iff_example :
    (has_active_maintenance_with_suppression "mail" after ≡ true) ↔ (
      (row : Maintenance) × In row after.rows
      × Concerns after.systems "mail" row.id
      × (row.status ≡ in_progress)
      × (row.suppress_notifications ≡ true))
has_active_maintenance_iff_example = has_active_maintenance_iff "mail" after

mail_is_suppressed : has_active_maintenance_with_suppression "mail" after ≡ true
unfolding unit
mail_is_suppressed = refl

-- A system that is named twice: the call throws, and the maintenance stays with the first of them.
system_named_twice :
    ((create_maintenance 5 1 (input 2 3 ("a" ∷ "a" ∷ "b" ∷ [])) no_maintenances).1
      ≡ err duplicate_key)
    × (map
          (λ (link : SystemLink). link.system_id)
          (create_maintenance 5 1 (input 2 3 ("a" ∷ "a" ∷ "b" ∷ [])) no_maintenances).0.systems
        ≡ "a" ∷ [])
unfolding unit
system_named_twice = (refl, refl)

abbrev end_first : UpdateMaintenanceInput
end_first = record {
  id = 2;
  title = none;
  description = none;
  suppress_notifications = none;
  start_at = none;
  end_at = some 5;
  system_ids = none;
}

-- An end before the start is accepted.
end_before_start :
    map (λ (row : Maintenance). row.details) (update_maintenance 60 end_first after).0.rows
    ≡ record { start_at = 20; end_at = 30 } ∷ record { start_at = 40; end_at = 5 } ∷ []
unfolding unit
end_before_start = refl

abbrev outage : CreateIncidentInput
outage = record {
  title = "Outage";
  description = none;
  severity = major;
  suppress_notifications = some true;
  system_ids = "web" ∷ [];
  initial_message = some "We look into it";
}

abbrev incident_events : List IncidentEvent
incident_events =
    IncidentEvent.created 1 1 10 outage (some "admin")
    ∷ IncidentEvent.update_posted 12 (incident_entry 2 12 1 "Found" (some identified) none)
    ∷ []

abbrev incidents : Incidents
incidents = incidents_after incident_events no_incidents

incidents-IsConsistent_example : IsConsistent investigating incidents
incidents-IsConsistent_example = incidents-IsConsistent incident_events

has_active_incident_iff_example : (has_active_incident_with_suppression "web" incidents ≡ true) ↔ (
    (row : Incident) × In row incidents.rows
    × Concerns incidents.systems "web" row.id
    × (row.status ≢ resolved)
    × (row.suppress_notifications ≡ true))
has_active_incident_iff_example = has_active_incident_iff "web" incidents

web_is_suppressed : has_active_incident_with_suppression "web" incidents ≡ true
unfolding unit
web_is_suppressed = refl

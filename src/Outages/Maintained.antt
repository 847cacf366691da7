-- ===== src/Outages/Maintained.antt =====
-- maintenance-backend/src/service.ts: its tables fit together after any calls, and a created maintenance
-- is found.
use checkmate.Prelude.{ℕ, refl, String, List, [], ◌∷◌, Option, none, some}
use checkmate.Outages.Tables.{WithSystems, StatusUpdate, add_update, delete_outage}
use checkmate.Outages.Maintenances.{
  Window, MaintenanceStatus, scheduled, in_progress, completed, Maintenances,
  CreateMaintenanceInput, UpdateMaintenanceInput, new_maintenance, create_maintenance,
  updated_maintenance, update_maintenance, update_entry, close_maintenance, transition_status,
  add_updates, check_transitions,
}
use checkmate.Outages.Consistent.{IsConsistent}
use checkmate.Outages.Kept.{insert_outage-keeps, update_outage-keeps}
use checkmate.Outages.Statuses.{add_update-keeps, change_status-keeps, delete_outage-keeps}

-- A call of the service that writes, with the ids that it makes and the time, or a run of the job.
pub data MaintenanceEvent : Type 0 where
  created : ℕ → ℕ → CreateMaintenanceInput → MaintenanceEvent
  edited : ℕ → UpdateMaintenanceInput → MaintenanceEvent
  update_posted : ℕ → StatusUpdate MaintenanceStatus → MaintenanceEvent
  closed : ℕ → ℕ → ℕ → Option String → Option String → MaintenanceEvent
  transitioned : ℕ → ℕ → ℕ → MaintenanceStatus → String → MaintenanceEvent
  deleted : ℕ → MaintenanceEvent
  checked : (ℕ → ℕ) → ℕ → MaintenanceEvent

unfoldable pub maintenance_step : MaintenanceEvent → Maintenances → Maintenances
maintenance_step (created id now input) s = (create_maintenance id now input s).0
maintenance_step (edited now input) s = (update_maintenance now input s).0
maintenance_step (update_posted now update) s = (add_update now update s).0
maintenance_step (closed update_id now id message user_id) s =
    (close_maintenance update_id now id message user_id s).0
maintenance_step (transitioned update_id now id status message) s =
    (transition_status update_id now id status message s).0
maintenance_step (deleted id) s = (delete_outage id s).0
maintenance_step (checked new_id now) s = check_transitions new_id now s

abbrev pub maintenances_after : List MaintenanceEvent → Maintenances → Maintenances
maintenances_after [] s = s
maintenances_after (e ∷ events) s = maintenances_after events (maintenance_step e s)

abbrev pub no_maintenances : Maintenances
no_maintenances = record { rows = []; systems = []; updates = [] }

add_updates-keeps :
    (new_id : ℕ → ℕ) (now : ℕ) (status : MaintenanceStatus) (message : String)
    (ms : List (WithSystems MaintenanceStatus Window)) (s : Maintenances)
    → IsConsistent scheduled s
    → IsConsistent scheduled (add_updates new_id now status message ms s)
unfolding add_updates
add_updates-keeps new_id now status message [] s h = h
add_updates-keeps new_id now status message (m ∷ ms) s h =
    add_updates-keeps new_id now status message ms _ (
      add_update-keeps scheduled now
        (update_entry (new_id m.outage.id) now m.outage.id message (some status) none) s h)

maintenance_step-keeps :
    (e : MaintenanceEvent) (s : Maintenances)
    → IsConsistent scheduled s
    → IsConsistent scheduled (maintenance_step e s)
unfolding maintenance_step create_maintenance update_maintenance close_maintenance transition_status
    check_transitions
maintenance_step-keeps (created id now input) s h =
    insert_outage-keeps scheduled (new_maintenance id now input) input.system_ids s refl h
maintenance_step-keeps (edited now input) s h =
    update_outage-keeps scheduled input.id (updated_maintenance now input) input.system_ids s
      (λ row. refl) (λ row. refl) h
maintenance_step-keeps (update_posted now update) s h = add_update-keeps scheduled now update s h
maintenance_step-keeps (closed update_id now id message user_id) s h =
    change_status-keeps scheduled now completed _ s h
maintenance_step-keeps (transitioned update_id now id status message) s h =
    change_status-keeps scheduled now status _ s h
maintenance_step-keeps (deleted id) s h = delete_outage-keeps scheduled id s h
maintenance_step-keeps (checked new_id now) s h =
    add_updates-keeps new_id now completed _ _ _ (add_updates-keeps new_id now in_progress _ _ s h)

-- After any calls of the service and runs of the job: no id stands twice, every system and every update
-- belongs to a maintenance that is there, and the status of a maintenance is the last one that its
-- updates give, or scheduled where they give none.
pub maintenances-IsConsistent :
    (events : List MaintenanceEvent)
    → IsConsistent scheduled (maintenances_after events no_maintenances)
maintenances-IsConsistent events = after events no_maintenances (tt, tt, tt, tt)
  where
    after :
        (es : List MaintenanceEvent) (s : Maintenances)
        → IsConsistent scheduled s
        → IsConsistent scheduled (maintenances_after es s)
    after [] s h = h
    after (e ∷ es) s h = after es (maintenance_step e s) (maintenance_step-keeps e s h)

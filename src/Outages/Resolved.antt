-- ===== src/Outages/Resolved.antt =====
-- incident-backend/src/service.ts: its tables fit together after any calls.
use checkmate.Prelude.{
  ℕ, ◌≡◌, refl, sym, subst, inl, inr, String, true, false, List, [], ◌∷◌, ◌++◌, Option, none, some,
  arith, Option-cases, if_cases,
}
use checkmate.Prelude.Text.{◌===◌}
use checkmate.Outages.Tables.{
  StatusUpdate, has_row, update_row, set_status, add_update, delete_outage, insert_outage,
}
use checkmate.Outages.Incidents.{
  IncidentStatus, investigating, resolved, Incidents, CreateIncidentInput, UpdateIncidentInput,
  new_incident, incident_entry, add_initial_update, create_incident, updated_incident,
  update_incident, resolve_incident, remove_system_associations,
}
use checkmate.Outages.Consistent.{IsConsistent, IsLinked, All-filter_mono, has_row-append_one}
use checkmate.Outages.Kept.{
  insert_outage-keeps, insert_outage-ends, update_row-last, update_outage-keeps,
}
use checkmate.Outages.Statuses.{
  status_changed, add_update-keeps, change_status-keeps, delete_outage-keeps,
}

-- A call of the service that writes, with the ids that it makes and the time.
pub data IncidentEvent : Type 0 where
  created : ℕ → ℕ → ℕ → CreateIncidentInput → Option String → IncidentEvent
  edited : ℕ → UpdateIncidentInput → IncidentEvent
  update_posted : ℕ → StatusUpdate IncidentStatus → IncidentEvent
  ended : ℕ → ℕ → ℕ → Option String → Option String → IncidentEvent
  deleted : ℕ → IncidentEvent
  system_deleted : String → IncidentEvent

unfoldable pub incident_step : IncidentEvent → Incidents → Incidents
incident_step (created id update_id now input user_id) s =
    (create_incident id update_id now input user_id s).0
incident_step (edited now input) s = (update_incident now input s).0
incident_step (update_posted now update) s = (add_update now update s).0
incident_step (ended update_id now id message user_id) s =
    (resolve_incident update_id now id message user_id s).0
incident_step (deleted id) s = (delete_outage id s).0
incident_step (system_deleted system_id) s = remove_system_associations system_id s

abbrev pub incidents_after : List IncidentEvent → Incidents → Incidents
incidents_after [] s = s
incidents_after (e ∷ events) s = incidents_after events (incident_step e s)

abbrev pub no_incidents : Incidents
no_incidents = record { rows = []; systems = []; updates = [] }

add_initial_update-keeps :
    (id update_id now : ℕ) (input : CreateIncidentInput) (message user_id : Option String)
    (s t : Incidents)
    → has_row id s.rows ≡ false
    → t.rows ≡ s.rows ++ new_incident id now input ∷ []
    → IsConsistent investigating t
    → IsConsistent investigating (add_initial_update update_id now id message user_id t)
unfolding add_initial_update
add_initial_update-keeps id update_id now input none user_id s t n e h = h
add_initial_update-keeps id update_id now input (some message) user_id s t n e h =
    let u = incident_entry update_id now id message (some investigating) user_id in
    let same : update_row id (set_status investigating now) t.rows ≡ t.rows =
      subst (λ rows. update_row id (set_status investigating now) rows ≡ rows) (sym e)
        (update_row-last (set_status investigating now) s.rows (new_incident id now input) n
          refl) in
    let here : has_row id t.rows ≡ true =
      subst (λ rows. has_row id rows ≡ true) (sym e)
        (ground (arith, has_row-append_one id s.rows (new_incident id now input))) in
    if_cases (IsConsistent investigating) (message === "") h (
      subst
        (λ rows.
          IsConsistent investigating (record t { rows = rows; updates = t.updates ++ u ∷ [] }))
        same (status_changed investigating now investigating u t here refl h))

create_incident-keeps :
    (id update_id now : ℕ) (input : CreateIncidentInput) (user_id : Option String) (s : Incidents)
    → IsConsistent investigating s
    → IsConsistent investigating (create_incident id update_id now input user_id s).0
unfolding create_incident
create_incident-keeps id update_id now input user_id s h =
    let row = new_incident id now input in
    let inserted = insert_outage-keeps investigating row input.system_ids s refl h in
    elim (Option-cases (insert_outage row input.system_ids s).1) [
      | inl e ↦
          let (n, rows) = insert_outage-ends row input.system_ids s e in
          rw (create_incident, e)
            (add_initial_update-keeps id update_id now input input.initial_message user_id s
              (insert_outage row input.system_ids s).0 n rows inserted)
      | inr (error, e) ↦ rw (create_incident, e) inserted
    ]

incident_step-keeps :
    (e : IncidentEvent) (s : Incidents)
    → IsConsistent investigating s
    → IsConsistent investigating (incident_step e s)
unfolding incident_step update_incident resolve_incident remove_system_associations
incident_step-keeps (created id update_id now input user_id) s h =
    create_incident-keeps id update_id now input user_id s h
incident_step-keeps (edited now input) s h =
    update_outage-keeps investigating input.id (updated_incident now input) input.system_ids s
      (λ row. refl) (λ row. refl) h
incident_step-keeps (update_posted now update) s h = add_update-keeps investigating now update s h
incident_step-keeps (ended update_id now id message user_id) s h =
    change_status-keeps investigating now resolved _ s h
incident_step-keeps (deleted id) s h = delete_outage-keeps investigating id s h
incident_step-keeps (system_deleted system_id) s (keyed, linked, owned, followed) = (
  keyed,
  All-filter_mono (IsLinked s.rows) (IsLinked s.rows) _ s.systems (λ link kept l. l) linked,
  owned,
  followed,
)

-- After any calls of the service: no id stands twice, every system and every update belongs to an
-- incident that is there, and the status of an incident is the last one that its updates give, or
-- investigating where they give none.
pub incidents-IsConsistent :
    (events : List IncidentEvent) → IsConsistent investigating (incidents_after events no_incidents)
incidents-IsConsistent events = after events no_incidents (tt, tt, tt, tt)
  where
    after :
        (es : List IncidentEvent) (s : Incidents)
        → IsConsistent investigating s
        → IsConsistent investigating (incidents_after es s)
    after [] s h = h
    after (e ∷ es) s h = after es (incident_step e s) (incident_step-keeps e s h)

-- ===== src/Outages/Suppression.antt =====
-- Whether notifications about a system are suppressed: `hasActiveMaintenanceWithSuppression` and
-- `hasActiveIncidentWithSuppression`.
use checkmate.Prelude.{
  ℕ, ◌≡◌, ◌≢◌, ◌↔◌, refl, ap, inl, inr, String, Bool, true, not, ◌&&◌, List, [], ◌∷◌, arith,
  any_iff, In, ◌==◌, ==_iff, Bool-cases,
}
use checkmate.Prelude.Text.{◌===◌, ===_iff}
use checkmate.Outages.Tables.{SystemLink, ids_for_system, in_array}
use checkmate.Outages.Maintenances.{
  MaintenanceStatus, scheduled, in_progress, completed, cancelled, Maintenance, Maintenances,
  same_status, has_active_maintenance_with_suppression,
}
use checkmate.Outages.Incidents.{
  IncidentStatus, investigating, identified, fixing, monitoring, resolved, Incident, Incidents,
  is_resolved, has_active_incident_with_suppression,
}

-- The table of systems names the system for the row.
abbrev pub Concerns : List SystemLink → String → ℕ → Type 0
Concerns links system_id id =
    (link : SystemLink) × In link links × (link.system_id ≡ system_id) × (link.outage_id ≡ id)

in_array_sound :
    (id : ℕ) (system_id : String) (links : List SystemLink)
    → in_array id (ids_for_system system_id links) ≡ true
    → Concerns links system_id id
in_array_sound id system_id [] h = absurd (cc)
in_array_sound id system_id (link ∷ links) h = elim (Bool-cases (link.system_id === system_id)) [
  | inl e ↦ elim (Bool-cases (link.outage_id == id)) [
    | inl k ↦
        (link, inl refl, (===_iff link.system_id system_id).0 e, (==_iff link.outage_id id).0 k)
    | inr k ↦
        let (found, m, p, q) = in_array_sound id system_id links (ground (arith, h, e, k)) in
        (found, inr m, p, q)
  ]
  | inr e ↦
      let (found, m, p, q) = in_array_sound id system_id links (ground (arith, h, e)) in
      (found, inr m, p, q)
]

in_array_complete :
    (id : ℕ) (system_id : String) (links : List SystemLink) (link : SystemLink)
    → In link links
    → link.system_id ≡ system_id
    → link.outage_id ≡ id
    → in_array id (ids_for_system system_id links) ≡ true
in_array_complete id system_id [] link m p q = absurd m
in_array_complete id system_id (x ∷ links) link (inl e) p q =
    ground (arith, ===_iff x.system_id system_id, ap (λ l. l.system_id) e, ap (λ l. l.outage_id) e)
in_array_complete id system_id (x ∷ links) link (inr m) p q =
    ground (arith, in_array_complete id system_id links link m p q)

in_progress_iff :
    (status : MaintenanceStatus) → (same_status status in_progress ≡ true) ↔ (status ≡ in_progress)
in_progress_iff scheduled = (λ h. absurd (cc), λ h. absurd (cc))
in_progress_iff in_progress = (λ h. refl, λ h. refl)
in_progress_iff completed = (λ h. absurd (cc), λ h. absurd (cc))
in_progress_iff cancelled = (λ h. absurd (cc), λ h. absurd (cc))

unresolved_iff : (status : IncidentStatus) → (not (is_resolved status) ≡ true) ↔ (status ≢ resolved)
unresolved_iff investigating = (λ h e. cc, λ h. refl)
unresolved_iff identified = (λ h e. cc, λ h. refl)
unresolved_iff fixing = (λ h e. cc, λ h. refl)
unresolved_iff monitoring = (λ h e. cc, λ h. refl)
unresolved_iff resolved = (λ h. absurd (cc), λ h. absurd (h refl))

both_parts : {a b c : Bool} → (a && (b && c)) ≡ true → (a ≡ true) × (b ≡ true) × (c ≡ true)
both_parts {a} {b} {c} h = ground (arith, h)

all_parts : {a b c : Bool} → a ≡ true → b ≡ true → c ≡ true → (a && (b && c)) ≡ true
all_parts h k l = rw (h, k, l) refl

-- Notifications about a system are suppressed by maintenances exactly where a maintenance of that system
-- is in progress and suppresses notifications.
pub has_active_maintenance_iff :
    (system_id : String) (s : Maintenances)
    → (has_active_maintenance_with_suppression system_id s ≡ true) ↔ (
        (row : Maintenance) × In row s.rows
        × Concerns s.systems system_id row.id
        × (row.status ≡ in_progress)
        × (row.suppress_notifications ≡ true))
unfolding has_active_maintenance_with_suppression
has_active_maintenance_iff system_id s =
    let (sound, complete) =
      any_iff
        (λ (row : Maintenance).
          in_array row.id (ids_for_system system_id s.systems)
          && (same_status row.status in_progress && row.suppress_notifications))
        s.rows in
    (
      λ h.
          let (row, m, passes) = sound h in
          let (a, b, c) = both_parts passes in
          (
            row,
            m,
            in_array_sound row.id system_id s.systems a,
            (in_progress_iff row.status).0 b,
            c,
          ),
      λ w. complete (
        w.0,
        w.1,
        all_parts (in_array_complete w.0.id system_id s.systems w.2.0 w.2.1 w.2.2 w.2.3)
            ((in_progress_iff w.0.status).1 w.3) w.4,
      ),
    )

-- Notifications about a system are suppressed by incidents exactly where an incident of that system is
-- not resolved and suppresses notifications.
pub has_active_incident_iff :
    (system_id : String) (s : Incidents)
    → (has_active_incident_with_suppression system_id s ≡ true) ↔ (
        (row : Incident) × In row s.rows
        × Concerns s.systems system_id row.id
        × (row.status ≢ resolved)
        × (row.suppress_notifications ≡ true))
unfolding has_active_incident_with_suppression
has_active_incident_iff system_id s =
    let (sound, complete) =
      any_iff
        (λ (row : Incident).
          in_array row.id (ids_for_system system_id s.systems)
          && (not (is_resolved row.status) && row.suppress_notifications))
        s.rows in
    (
      λ h.
          let (row, m, passes) = sound h in
          let (a, b, c) = both_parts passes in
          (row, m, in_array_sound row.id system_id s.systems a, (unresolved_iff row.status).0 b, c),
      λ w. complete (
        w.0,
        w.1,
        all_parts (in_array_complete w.0.id system_id s.systems w.2.0 w.2.1 w.2.2 w.2.3)
            ((unresolved_iff w.0.status).1 w.3) w.4,
      ),
    )

-- ===== src/Outages/Schedule.antt =====
-- maintenance-backend/src/index.ts: what a run of the job does to every maintenance.
use checkmate.Prelude.{
  Result, ℕ, ◌≡◌, refl, sym, ap, subst, ◌∙◌, inl, inr, String, Bool, true, false, List, [], ◌∷◌,
  none, some, arith, map, filter, leb, ◌==◌, if◌then◌else◌, Bool-cases, if_cases,
}
use checkmate.Outages.Tables.{
  with_systems, SystemLink, StatusUpdate, has_row, update_row, set_status, add_update,
  ConstraintError,
}
use checkmate.Outages.Maintenances.{
  MaintenanceStatus, scheduled, in_progress, completed, cancelled, Maintenance, Maintenances,
  is_to_start, is_to_complete, update_entry, get_maintenances_to_start,
  get_maintenances_to_complete, add_updates, check_transitions,
}
use checkmate.Outages.Consistent.{IsKeyed}

-- The status that a maintenance has after a run at a time: by its window, unless it is over already.
abbrev pub due_status : ℕ → MaintenanceStatus → ℕ → ℕ → MaintenanceStatus
due_status now scheduled start_at end_at =
    if leb start_at now then (if leb end_at now then completed else in_progress) else scheduled
due_status now in_progress start_at end_at = if leb end_at now then completed else in_progress
due_status now completed start_at end_at = completed
due_status now cancelled start_at end_at = cancelled

module _ (now : ℕ) (status : MaintenanceStatus) where
  mark_all : List Maintenance → List Maintenance → List Maintenance
  mark_all [] rows = rows
  mark_all (target ∷ targets) rows =
      mark_all targets (update_row target.id (set_status status now) rows)

  marked : (Maintenance → Bool) → Maintenance → Maintenance
  marked chosen row = if chosen row then set_status status now row else row

  add_updates-mark_all :
      (new_id : ℕ → ℕ) (message : String) (links : List SystemLink) (targets : List Maintenance)
      (s : Maintenances)
      → (add_updates new_id now status message (with_systems links targets) s).rows
        ≡ mark_all targets s.rows
  unfolding add_updates mark_all add_update
  add_updates-mark_all new_id message links [] s = refl
  add_updates-mark_all new_id message links (target ∷ targets) s =
      add_updates-mark_all new_id message links targets
        (add_update now (update_entry (new_id target.id) now target.id message (some status) none)
          s).0
      ∙ ap (mark_all targets) (
          if_cases
            (λ (r : Maintenances × Result ConstraintError (StatusUpdate MaintenanceStatus)).
              r.0.rows ≡ update_row target.id (set_status status now) s.rows)
            (has_row target.id s.rows) refl refl)

  mark_all-other :
      (targets : List Maintenance) (row : Maintenance) (rows : List Maintenance)
      → has_row row.id targets ≡ false
      → mark_all targets (row ∷ rows) ≡ row ∷ mark_all targets rows
  unfolding mark_all update_row
  mark_all-other [] row rows h = refl
  mark_all-other (target ∷ targets) row rows h =
      let other : (row.id == target.id) ≡ false = ground (arith, h) in
      rw (mark_all, other)
        (mark_all-other targets row (update_row target.id (set_status status now) rows)
          (ground (arith, h)))

  update_row-other :
      (id : ℕ) (rows : List Maintenance)
      → has_row id rows ≡ false
      → update_row id (set_status status now) rows ≡ rows
  unfolding update_row
  update_row-other id [] h = refl
  update_row-other id (row ∷ rows) h = ground (arith, update_row-other id rows)

  has_row-filter :
      (id : ℕ) (chosen : Maintenance → Bool) (rows : List Maintenance)
      → has_row id rows ≡ false
      → has_row id (filter chosen rows) ≡ false
  has_row-filter id chosen [] h = refl
  has_row-filter id chosen (row ∷ rows) h = ground (arith, has_row-filter id chosen rows)

  mark_all-chosen :
      (chosen : Maintenance → Bool) (rows : List Maintenance)
      → IsKeyed rows
      → mark_all (filter chosen rows) rows ≡ map (marked chosen) rows
  unfolding mark_all marked update_row
  mark_all-chosen chosen [] h = refl
  mark_all-chosen chosen (row ∷ rows) (n, h) =
      let rest = mark_all-chosen chosen rows h in
      let others = has_row-filter row.id chosen rows n in
      elim (Bool-cases (chosen row)) [
        | inl e ↦
            let itself : (row.id == row.id) ≡ true = ground arith in
            rw (e, mark_all, itself, update_row-other row.id rows n)
              (mark_all-other (filter chosen rows) (set_status status now row) rows others
                ∙ ap (λ l. set_status status now row ∷ l) rest)
        | inr e ↦
            rw e (mark_all-other (filter chosen rows) row rows others ∙ ap (λ l. row ∷ l) rest)
      ]

has_row-map :
    (id : ℕ) (change : Maintenance → Maintenance) (rows : List Maintenance)
    → ((row : Maintenance) → (change row).id ≡ row.id)
    → has_row id (map change rows) ≡ has_row id rows
has_row-map id change [] keeps = refl
has_row-map id change (row ∷ rows) keeps =
    ground (arith, has_row-map id change rows keeps, keeps row)

map-IsKeyed :
    (change : Maintenance → Maintenance) (rows : List Maintenance)
    → ((row : Maintenance) → (change row).id ≡ row.id)
    → IsKeyed rows
    → IsKeyed (map change rows)
map-IsKeyed change [] keeps h = tt
map-IsKeyed change (row ∷ rows) keeps (n, h) =
    ground (arith, map-IsKeyed change rows keeps h, has_row-map row.id change rows keeps, keeps row)

-- The row after the job: where its status is due to change, that and the time of the change.
abbrev pub IsAfterJob : ℕ → Maintenance → Maintenance → Type 0
IsAfterJob now before after =
    (after.id ≡ before.id)
    × (after.status ≡ due_status now before.status before.details.start_at before.details.end_at)
    × (after.details ≡ before.details)
    × (after.suppress_notifications ≡ before.suppress_notifications)

abbrev pub Pointwise :
    (Maintenance → Maintenance → Type 0) → List Maintenance → List Maintenance → Type 0
Pointwise P [] [] = Unit
Pointwise P [] (y ∷ ys) = ⊥
Pointwise P (x ∷ xs) [] = ⊥
Pointwise P (x ∷ xs) (y ∷ ys) = P x y × Pointwise P xs ys

after_both :
    (now : ℕ) (row : Maintenance)
    → IsAfterJob now row
        (marked now completed (is_to_complete now) (marked now in_progress (is_to_start now) row))
unfolding marked
after_both now row = ground arith

all_after :
    (now : ℕ) (rows : List Maintenance)
    → Pointwise (IsAfterJob now) rows (
        map
          (marked now completed (is_to_complete now))
          (map (marked now in_progress (is_to_start now)) rows))
all_after now [] = tt
all_after now (row ∷ rows) = (after_both now row, all_after now rows)

-- Where no id stands twice, a run of the job leaves every maintenance in its place with the status that
-- its window asks for at that time, and its window as it was: a scheduled one whose start has come is in
-- progress, or completed where its end has come too, one in progress whose end has come is completed,
-- and the status of any other stays.
pub check_transitions-due :
    (new_id : ℕ → ℕ) (now : ℕ) (s : Maintenances)
    → IsKeyed s.rows
    → Pointwise (IsAfterJob now) s.rows (check_transitions new_id now s).rows
unfolding check_transitions get_maintenances_to_start get_maintenances_to_complete marked
check_transitions-due new_id now s keyed =
    let start = marked now in_progress (is_to_start now) in
    let started : Maintenances =
      add_updates new_id now in_progress "Maintenance started automatically"
        (with_systems s.systems (filter (is_to_start now) s.rows)) s in
    let rows : started.rows ≡ map start s.rows =
      add_updates-mark_all now in_progress new_id "Maintenance started automatically" s.systems
        (filter (is_to_start now) s.rows) s
      ∙ mark_all-chosen now in_progress (is_to_start now) s.rows keyed in
    let done =
      add_updates-mark_all now completed new_id "Maintenance completed automatically"
        started.systems (filter (is_to_complete now) started.rows) started
      ∙ mark_all-chosen now completed (is_to_complete now) started.rows (
          subst IsKeyed (sym rows) (
            map-IsKeyed start s.rows
              (λ row. if_cases (λ (r : Maintenance). r.id ≡ row.id) (is_to_start now row) refl refl)
              keyed))
      ∙ ap (map (marked now completed (is_to_complete now))) rows in
    subst (Pointwise (IsAfterJob now) s.rows) (sym done) (all_after now s.rows)

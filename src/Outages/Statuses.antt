-- ===== src/Outages/Statuses.antt =====
-- The new updates and statuses, and the deletion of a row, keep the tables together.
use checkmate.Prelude.{
  ℕ, ◌≡◌, refl, sym, subst, ◌∙◌, inl, inr, true, false, not, List, [], ◌∷◌, ◌++◌, Option, none,
  some, arith, filter, All-append, get_or_else, ◌==◌, if◌then◌else◌, ==_iff, Bool-cases,
  Option-cases,
}
use checkmate.Outages.Tables.{
  Outage, StatusUpdate, Outages, find_row, has_row, update_row, set_status, apply_change,
  delete_outage, add_update, change_status,
}
use checkmate.Outages.Consistent.{
  IsLinked, IsOwned, Follows, last_status, IsConsistent, last_status-append_one, All-update_row,
  has_row-update_row, update_row-absent, has_row-delete, delete-IsKeyed, has_row-find_row, All-mono,
  All-filter_mono,
}
use checkmate.Outages.Kept.{changed}

last_status-delete :
    {S : Type 0} (id k : ℕ) (updates : List (StatusUpdate S)) (status : S)
    → (id == k) ≡ false
    → last_status status id (filter (λ u. not (u.outage_id == k)) updates)
      ≡ last_status status id updates
last_status-delete id k [] status n = refl
last_status-delete id k (u ∷ updates) status n = elim (Bool-cases (u.outage_id == k)) [
  | inl e ↦
      let other : (u.outage_id == id) ≡ false = ground (arith, n, e) in
      rw (e, other) (last_status-delete id k updates status n)
  | inr e ↦ rw e (
      last_status-delete id k updates
        (if u.outage_id == id then get_or_else u.status_change status else status) n)
]

module _ {S D : Type 0} (initial : S) where
  -- A new status and the update that gives it.
  pub status_changed :
      (now : ℕ) (status : S) (u : StatusUpdate S) (s : Outages S D)
      → has_row u.outage_id s.rows ≡ true
      → u.status_change ≡ some status
      → IsConsistent initial s
      → IsConsistent initial (record s {
        rows = update_row u.outage_id (set_status status now) s.rows;
        updates = s.updates ++ u ∷ [];
      })
  status_changed now status u s here given h =
      let rows : List (Outage S D) = update_row u.outage_id (set_status status now) s.rows in
      let (keyed, linked, owned) =
        changed initial u.outage_id (set_status status now) s (λ row. refl) h in
      (
        keyed,
        linked,
        All-append (IsOwned rows) s.updates (u ∷ []) owned (
          has_row-update_row u.outage_id u.outage_id (set_status status now) s.rows (λ row. refl)
              ∙ here,
          tt,
        ),
        All-update_row (Follows initial s.updates) (Follows initial (s.updates ++ u ∷ []))
            u.outage_id (set_status status now) s.rows
            (λ row f. ground (
              arith,
              last_status-append_one initial row.id s.updates u,
              given,
              f,
              ==_iff u.outage_id row.id,
              ==_iff row.id u.outage_id,
            ))
            h.3,
      )

  -- An update that gives no status.
  pub status_kept :
      (u : StatusUpdate S) (s : Outages S D)
      → has_row u.outage_id s.rows ≡ true
      → u.status_change ≡ none
      → IsConsistent initial s
      → IsConsistent initial (record s { updates = s.updates ++ u ∷ [] })
  status_kept u s here given (keyed, linked, owned, followed) = (
    keyed,
    linked,
    All-append (IsOwned s.rows) s.updates (u ∷ []) owned (here, tt),
    All-mono (Follows initial s.updates) (Follows initial (s.updates ++ u ∷ [])) s.rows
        (λ row f. ground (arith, last_status-append_one initial row.id s.updates u, given, f))
        followed,
  )

  update_added :
      (now : ℕ) (u : StatusUpdate S) (status : Option S) (s : Outages S D)
      → has_row u.outage_id s.rows ≡ true
      → u.status_change ≡ status
      → IsConsistent initial s
      → IsConsistent initial (record s {
        rows = apply_change now status u.outage_id s.rows;
        updates = s.updates ++ u ∷ [];
      })
  update_added now u none s here given h = status_kept u s here given h
  update_added now u (some status) s here given h = status_changed now status u s here given h

  apply_change-absent :
      (now id : ℕ) (status : Option S) (rows : List (Outage S D))
      → has_row id rows ≡ false
      → apply_change now status id rows ≡ rows
  apply_change-absent now id none rows h = refl
  apply_change-absent now id (some status) rows h =
      update_row-absent id (set_status status now) rows h

  pub add_update-keeps :
      (now : ℕ) (u : StatusUpdate S) (s : Outages S D)
      → IsConsistent initial s
      → IsConsistent initial (add_update now u s).0
  unfolding add_update
  add_update-keeps now u s h = elim (Bool-cases (has_row u.outage_id s.rows)) [
    | inl here ↦ rw (add_update, here) (update_added now u u.status_change s here refl h)
    | inr gone ↦
        rw (add_update, gone)
          (subst (λ rows. IsConsistent initial (record s { rows = rows }))
            (sym (apply_change-absent now u.outage_id u.status_change s.rows gone)) h)
  ]

  pub change_status-keeps :
      (now : ℕ) (status : S) (u : StatusUpdate S) (s : Outages S D)
      → IsConsistent initial s
      → IsConsistent initial (change_status now status u s).0
  unfolding change_status
  change_status-keeps now status u s h = elim (Option-cases (find_row u.outage_id s.rows)) [
    | inl e ↦ rw (change_status, e) h
    | inr (row, e) ↦
        rw (change_status, e)
          (status_changed now status (record u { status_change = some status }) s
            (has_row-find_row u.outage_id s.rows row e) refl h)
  ]

  pub delete_outage-keeps :
      (id : ℕ) (s : Outages S D)
      → IsConsistent initial s
      → IsConsistent initial (delete_outage id s).0
  unfolding delete_outage
  delete_outage-keeps id s (keyed, linked, owned, followed) =
      let rows : List (Outage S D) = filter (λ row. not (row.id == id)) s.rows in
      let updates : List (StatusUpdate S) = filter (λ u. not (u.outage_id == id)) s.updates in
      elim (Option-cases (find_row id s.rows)) [
        | inl e ↦ rw (delete_outage, e) (keyed, linked, owned, followed)
        | inr (row, e) ↦
            rw (delete_outage, e)
              (
                delete-IsKeyed id s.rows keyed,
                All-filter_mono (IsLinked s.rows) (IsLinked rows)
                    (λ link. not (link.outage_id == id)) s.systems
                    (λ link kept h.
                      ground (arith, has_row-delete link.outage_id id s.rows, kept, h))
                    linked,
                All-filter_mono (IsOwned s.rows) (IsOwned rows) (λ u. not (u.outage_id == id))
                    s.updates
                    (λ u kept h. ground (arith, has_row-delete u.outage_id id s.rows, kept, h))
                    owned,
                All-filter_mono (Follows initial s.updates) (Follows initial updates)
                    (λ row. not (row.id == id)) s.rows
                    (λ row kept h.
                      h
                      ∙ sym (last_status-delete row.id id s.updates initial (ground (arith, kept))))
                    followed,
              )
      ]

-- ===== src/Outages/Kept.antt =====
-- The statements of the services on their tables keep them together.
use checkmate.Prelude.{
  ℕ, ◌≡◌, refl, sym, ap, ◌∙◌, inl, inr, String, true, false, not, List, [], ◌∷◌, ◌++◌, Option, none,
  some, arith, filter, All, All-append, ◌==◌, Bool-cases, Option-cases, if_cases,
}
use checkmate.Outages.Tables.{
  Outage, SystemLink, Outages, find_row, has_row, update_row, replace_systems, insert_outage,
  update_outage,
}
use checkmate.Outages.Consistent.{
  IsKeyed, IsLinked, IsOwned, Follows, last_status, IsConsistent, All-update_row,
  has_row-update_row, update_row-IsKeyed, has_row-append_one, append_one-IsKeyed, has_row-find_row,
  no_updates-last_status, All-insert_systems, All-mono, All-filter_mono,
}

module _ {S D : Type 0} where
  -- An insert that ends has added its row, whose id was new.
  pub insert_outage-ends :
      (row : Outage S D) (system_ids : List String) (s : Outages S D)
      → (insert_outage row system_ids s).1 ≡ none
      → (has_row row.id s.rows ≡ false)
        × ((insert_outage row system_ids s).0.rows ≡ s.rows ++ row ∷ [])
  unfolding insert_outage
  insert_outage-ends row system_ids s h = elim (Bool-cases (has_row row.id s.rows)) [
    | inl e ↦ absurd (ground (arith, h, e))
    | inr e ↦ rw (insert_outage, e) (refl, refl)
  ]

  pub update_row-last :
      (change : Outage S D → Outage S D) (rows : List (Outage S D)) (row : Outage S D)
      → has_row row.id rows ≡ false
      → change row ≡ row
      → update_row row.id change (rows ++ row ∷ []) ≡ rows ++ row ∷ []
  unfolding update_row
  update_row-last change [] row n e = ground (arith, e)
  update_row-last change (x ∷ rows) row n e = ground (arith, update_row-last change rows row)

module _ {S D : Type 0} (initial : S) where
  pub insert_outage-keeps :
      (row : Outage S D) (system_ids : List String) (s : Outages S D)
      → row.status ≡ initial
      → IsConsistent initial s
      → IsConsistent initial (insert_outage row system_ids s).0
  unfolding insert_outage
  insert_outage-keeps row system_ids s st (keyed, linked, owned, followed) =
      let rows : List (Outage S D) = s.rows ++ row ∷ [] in
      let still : (id : ℕ) → has_row id s.rows ≡ true → has_row id rows ≡ true =
        λ id h. ground (arith, has_row-append_one id s.rows row, h) in
      elim (Bool-cases (has_row row.id s.rows)) [
        | inl e ↦ rw (insert_outage, e) (keyed, linked, owned, followed)
        | inr e ↦
            rw (insert_outage, e)
              (
                append_one-IsKeyed s.rows row e keyed,
                All-insert_systems (IsLinked rows) row.id system_ids s.systems
                    (λ system_id. ground (arith, has_row-append_one row.id s.rows row))
                    (All-mono (IsLinked s.rows) (IsLinked rows) s.systems
                      (λ link h. still link.outage_id h) linked),
                All-mono (IsOwned s.rows) (IsOwned rows) s.updates (λ u h. still u.outage_id h)
                    owned,
                All-append (Follows initial s.updates) s.rows (row ∷ []) followed
                    (st ∙ sym (no_updates-last_status initial row.id s.rows s.updates e owned), tt),
              )
      ]

  replace_systems-keeps :
      (id : ℕ) (rows : List (Outage S D)) (system_ids : Option (List String))
      (links : List SystemLink)
      → has_row id rows ≡ true
      → All (IsLinked rows) links
      → All (IsLinked rows) (replace_systems id system_ids links).0
  unfolding replace_systems
  replace_systems-keeps id rows none links h hs = hs
  replace_systems-keeps id rows (some system_ids) links h hs =
      All-insert_systems (IsLinked rows) id system_ids
        (filter (λ link. not (link.outage_id == id)) links) (λ system_id. h)
        (All-filter_mono (IsLinked rows) (IsLinked rows) (λ link. not (link.outage_id == id)) links
          (λ link kept l. l) hs)

  -- Rows that are changed and keep their ids.
  pub changed :
      (id : ℕ) (change : Outage S D → Outage S D) (s : Outages S D)
      → ((row : Outage S D) → (change row).id ≡ row.id)
      → IsConsistent initial s
      → IsKeyed (update_row id change s.rows)
        × All (IsLinked (update_row id change s.rows)) s.systems
        × All (IsOwned (update_row id change s.rows)) s.updates
  changed id change s keeps (keyed, linked, owned, followed) =
      let rows : List (Outage S D) = update_row id change s.rows in
      let still : (k : ℕ) → has_row k s.rows ≡ true → has_row k rows ≡ true =
        λ k h. has_row-update_row k id change s.rows keeps ∙ h in
      (
        update_row-IsKeyed id change s.rows keeps keyed,
        All-mono (IsLinked s.rows) (IsLinked rows) s.systems (λ link h. still link.outage_id h)
            linked,
        All-mono (IsOwned s.rows) (IsOwned rows) s.updates (λ u h. still u.outage_id h) owned,
      )

  pub update_outage-keeps :
      (id : ℕ) (change : Outage S D → Outage S D) (system_ids : Option (List String))
      (s : Outages S D)
      → ((row : Outage S D) → (change row).id ≡ row.id)
      → ((row : Outage S D) → (change row).status ≡ row.status)
      → IsConsistent initial s
      → IsConsistent initial (update_outage id change system_ids s).0
  unfolding update_outage
  update_outage-keeps id change system_ids s ids statuses h =
      elim (Option-cases (find_row id s.rows)) [
        | inl e ↦ rw (update_outage, e) h
        | inr (row, e) ↦
            let (keyed, linked, owned) = changed id change s ids h in
            rw (update_outage, e)
              (
                keyed,
                replace_systems-keeps id (update_row id change s.rows) system_ids s.systems
                    (has_row-update_row id id change s.rows ids ∙ has_row-find_row id s.rows row e)
                    linked,
                owned,
                All-update_row (Follows initial s.updates) (Follows initial s.updates) id change
                    s.rows
                    (λ r f.
                      if_cases (Follows initial s.updates) (r.id == id)
                        (statuses r ∙ f ∙ ap (λ k. last_status initial k s.updates) (sym (ids r)))
                        f)
                    h.3,
              )
      ]

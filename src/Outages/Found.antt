-- ===== src/Outages/Found.antt =====
-- maintenance-backend/src/service.ts: a created maintenance is found, and the others as before.
use mathlib.Core.List.{append_assoc, append-nil}
use checkmate.Prelude.{
  ℕ, ◌≡◌, refl, sym, ap, ◌∙◌, inl, inr, String, Bool, true, false, ◌&&◌, ◌||◌, List, [], ◌∷◌, ◌++◌,
  none, some, arith, map, filter, any, All, All-of_In, ok, ◌==◌, Bool-cases, Option-cases, ==_iff,
}
use checkmate.Prelude.Text.{◌===◌, includes, ===_iff}
use checkmate.Prelude.Unique.{IsUnique}
use checkmate.Outages.Tables.{
  Outage, SystemLink, StatusUpdate, Outages, Detail, system_ids_of, insert_systems, find_row,
  has_row, get_outage, insert_outage,
}
use checkmate.Outages.Maintenances.{
  MaintenanceStatus, scheduled, Window, Maintenances, CreateMaintenanceInput, new_maintenance,
  create_maintenance,
}
use checkmate.Outages.Consistent.{IsConsistent, IsLinked, IsOwned}

abbrev link_to : ℕ → String → SystemLink
link_to id system_id = record { outage_id = id; system_id = system_id }

abbrev is_linked : ℕ → String → List SystemLink → Bool
is_linked id system_id links =
    any (λ link. link.outage_id == id && link.system_id === system_id) links

is_linked-append_one :
    (id : ℕ) (s t : String) (links : List SystemLink)
    → is_linked id s (links ++ link_to id t ∷ []) ≡ (is_linked id s links || (t === s))
is_linked-append_one id s t [] = ground arith
is_linked-append_one id s t (link ∷ links) = ground (arith, is_linked-append_one id s t links)

All-append_one :
    (id : ℕ) (t : String) (links : List SystemLink) (xs : List String)
    → includes xs t ≡ false
    → All (λ x. is_linked id x links ≡ false) xs
    → All (λ x. is_linked id x (links ++ link_to id t ∷ []) ≡ false) xs
All-append_one id t links [] n h = tt
All-append_one id t links (x ∷ xs) n (h, hs) = ground (
  arith,
  is_linked-append_one id x t links,
  All-append_one id t links xs,
  ===_iff x t,
  ===_iff t x,
)

-- Systems that are named once and not linked yet are all linked.
insert_systems-ends :
    (id : ℕ) (xs : List String) (links : List SystemLink)
    → IsUnique xs
    → All (λ x. is_linked id x links ≡ false) xs
    → insert_systems id xs links ≡ (links ++ map (link_to id) xs, true)
unfolding insert_systems
insert_systems-ends id [] links u h = ap (λ l. (l, true)) (sym (append-nil links))
insert_systems-ends id (x ∷ xs) links (n, u) (h, hs) =
    rw (insert_systems, h)
      (insert_systems-ends id xs (links ++ link_to id x ∷ []) u (All-append_one id x links xs n hs)
        ∙ ap (λ l. (l, true)) (append_assoc links (link_to id x ∷ []) (map (link_to id) xs)))

system_ids_of-links : (id : ℕ) (xs : List String) → system_ids_of id (map (link_to id) xs) ≡ xs
system_ids_of-links id [] = refl
system_ids_of-links id (x ∷ xs) = ground (arith, system_ids_of-links id xs)

system_ids_of-others :
    (id other : ℕ) (xs : List String)
    → (other == id) ≡ false
    → system_ids_of other (map (link_to id) xs) ≡ []
system_ids_of-others id other [] n = refl
system_ids_of-others id other (x ∷ xs) n = ground (arith, system_ids_of-others id other xs)

system_ids_of-append :
    (id : ℕ) (links more : List SystemLink)
    → system_ids_of id (links ++ more) ≡ system_ids_of id links ++ system_ids_of id more
system_ids_of-append id [] more = refl
system_ids_of-append id (link ∷ links) more = ground (arith, system_ids_of-append id links more)

module _ {S D : Type 0} where
  no_links :
      (id : ℕ) (rows : List (Outage S D)) (links : List SystemLink)
      → has_row id rows ≡ false
      → All (IsLinked rows) links
      → (system_ids_of id links ≡ []) × ((x : String) → is_linked id x links ≡ false)
  no_links id rows [] n h = (refl, λ x. refl)
  no_links id rows (link ∷ links) n (h, hs) =
      let (none_here, unlinked) = no_links id rows links n hs in
      let other : (link.outage_id == id) ≡ false = elim (Bool-cases (link.outage_id == id)) [
        | inl e ↦ absurd (ground (arith, ap (λ k. has_row k rows) ((==_iff link.outage_id id).0 e)))
        | inr e ↦ e
      ] in
      (rw other none_here, λ x. rw other (unlinked x))

  no_updates :
      (id : ℕ) (rows : List (Outage S D)) (updates : List (StatusUpdate S))
      → has_row id rows ≡ false
      → All (IsOwned rows) updates
      → filter (λ u. u.outage_id == id) updates ≡ []
  no_updates id rows [] n h = refl
  no_updates id rows (u ∷ updates) n (h, hs) = elim (Bool-cases (u.outage_id == id)) [
    | inl e ↦ absurd (ground (arith, ap (λ k. has_row k rows) ((==_iff u.outage_id id).0 e)))
    | inr e ↦ rw e (no_updates id rows updates n hs)
  ]

  find_row-append_one :
      (id : ℕ) (rows : List (Outage S D)) (row : Outage S D)
      → has_row id rows ≡ false
      → row.id ≡ id
      → find_row id (rows ++ row ∷ []) ≡ some row
  find_row-append_one id [] row n e = ground (arith, e)
  find_row-append_one id (x ∷ rows) row n e = ground (arith, find_row-append_one id rows row)

  find_row-others :
      (id : ℕ) (rows : List (Outage S D)) (row : Outage S D)
      → (row.id == id) ≡ false
      → find_row id (rows ++ row ∷ []) ≡ find_row id rows
  find_row-others id [] row n = ground arith
  find_row-others id (x ∷ rows) row n = ground (arith, find_row-others id rows row)

  -- The tables with a row and its systems at the end.
  abbrev inserted : Outage S D → List String → Outages S D → Outages S D
  inserted row system_ids s = record s {
    rows = s.rows ++ row ∷ [];
    systems = s.systems ++ map (link_to row.id) system_ids;
  }

  module _ (row : Outage S D) (system_ids : List String) (s : Outages S D)
      (linked : All (IsLinked s.rows) s.systems) (owned : All (IsOwned s.rows) s.updates)
      (new : has_row row.id s.rows ≡ false) where
    insert_outage-inserted :
        IsUnique system_ids → insert_outage row system_ids s ≡ (inserted row system_ids s, none)
    unfolding insert_outage
    insert_outage-inserted unique =
        let (unlinked, absent) = no_links row.id s.rows s.systems new linked in
        rw
          (
            insert_outage,
            new,
            insert_systems-ends row.id system_ids s.systems unique (
                All-of_In (λ x. is_linked row.id x s.systems ≡ false) system_ids (λ x m. absent x)),
          )
          refl

    get_outage-inserted :
        get_outage row.id (inserted row system_ids s)
        ≡ some (record { outage = row; system_ids = system_ids; updates = [] })
    unfolding get_outage
    get_outage-inserted =
        let (unlinked, absent) = no_links row.id s.rows s.systems new linked in
        let its_systems =
          system_ids_of-append row.id s.systems (map (link_to row.id) system_ids)
          ∙ ap (λ l. l ++ system_ids_of row.id (map (link_to row.id) system_ids)) unlinked
          ∙ system_ids_of-links row.id system_ids in
        rw
          (
            get_outage,
            find_row-append_one row.id s.rows row new refl,
            its_systems,
            no_updates row.id s.rows s.updates new owned,
          )
          refl

    get_outage-others :
        (other : ℕ)
        → (other == row.id) ≡ false
        → get_outage other (inserted row system_ids s) ≡ get_outage other s
    unfolding get_outage
    get_outage-others other n =
        let other_systems =
          system_ids_of-append other s.systems (map (link_to row.id) system_ids)
          ∙ ap (λ l. system_ids_of other s.systems ++ l)
              (system_ids_of-others row.id other system_ids n)
          ∙ append-nil (system_ids_of other s.systems) in
        let same = find_row-others other s.rows row (ground (arith, n)) in
        elim (Option-cases (find_row other s.rows)) [
          | inl e ↦ rw (get_outage, same, e) refl
          | inr (found, e) ↦ rw (get_outage, same, e, other_systems) refl
        ]

abbrev pub as_asked : ℕ → ℕ → CreateMaintenanceInput → Detail MaintenanceStatus Window
as_asked id now input = record {
  outage = new_maintenance id now input;
  system_ids = input.system_ids;
  updates = [];
}

-- In tables that fit together, a maintenance with a new id and systems that are named once each is
-- created: it is returned as it was asked for, scheduled, with its systems in their order and no
-- updates; getMaintenance finds it so, and finds any other id as before.
pub create_maintenance-get :
    (id now : ℕ) (input : CreateMaintenanceInput) (s : Maintenances)
    → IsConsistent scheduled s
    → has_row id s.rows ≡ false
    → IsUnique input.system_ids
    → (other : ℕ) → (other == id) ≡ false
    → let created = create_maintenance id now input s in
      (created.1 ≡ ok (some (as_asked id now input)))
      × (get_outage id created.0 ≡ some (as_asked id now input))
      × (get_outage other created.0 ≡ get_outage other s)
unfolding create_maintenance
create_maintenance-get id now input s (keyed, linked, owned, followed) new unique other n =
    let row = new_maintenance id now input in
    let found = get_outage-inserted row input.system_ids s linked owned new in
    let done = insert_outage-inserted row input.system_ids s linked owned new unique in
    rw (create_maintenance, done)
      (
        ap (λ p. ok (get_outage id p.0)) done ∙ ap ok found,
        found,
        get_outage-others row input.system_ids s linked owned new other n,
      )

-- ===== src/Outages/Consistent.antt =====
-- The tables of maintenances and incidents fit together, whatever the services do.
use checkmate.Prelude.{
  ℕ, ◌≡◌, refl, ap, inl, inr, String, Bool, true, false, not, ◌&&◌, ◌||◌, List, [], ◌∷◌, ◌++◌, some,
  arith, filter, any, All, All-append, get_or_else, ◌==◌, if◌then◌else◌, ==_iff, Bool-cases,
  if_cases,
}
use checkmate.Prelude.Text.{◌===◌}
use checkmate.Outages.Tables.{
  Outage, SystemLink, StatusUpdate, Outages, find_row, has_row, update_row, insert_systems,
}

module _ {S : Type 0} where
  -- The last status that the updates of a row give, in their order.
  abbrev pub last_status : S → ℕ → List (StatusUpdate S) → S
  last_status status id [] = status
  last_status status id (u ∷ updates) =
      last_status (if u.outage_id == id then get_or_else u.status_change status else status) id
        updates

  pub last_status-append_one :
      (initial : S) (id : ℕ) (updates : List (StatusUpdate S)) (u : StatusUpdate S)
      → last_status initial id (updates ++ u ∷ []) ≡ (
          if u.outage_id == id
          then get_or_else u.status_change (last_status initial id updates)
          else last_status initial id updates)
  last_status-append_one initial id [] u = refl
  last_status-append_one initial id (x ∷ updates) u =
      last_status-append_one
        (if x.outage_id == id then get_or_else x.status_change initial else initial) id updates u

module _ {S D : Type 0} where
  abbrev pub IsKeyed : List (Outage S D) → Type 0
  IsKeyed [] = Unit
  IsKeyed (row ∷ rows) = (has_row row.id rows ≡ false) × IsKeyed rows

  -- The row is there.
  abbrev pub IsLinked : List (Outage S D) → SystemLink → Type 0
  IsLinked rows link = has_row link.outage_id rows ≡ true

  abbrev pub IsOwned : List (Outage S D) → StatusUpdate S → Type 0
  IsOwned rows u = has_row u.outage_id rows ≡ true

  abbrev pub Follows : S → List (StatusUpdate S) → Outage S D → Type 0
  Follows initial updates row = row.status ≡ last_status initial row.id updates

  -- Ids stand once, systems and updates belong to rows, and the status of a row is the last one that
  -- its updates give, or the initial one.
  abbrev pub IsConsistent : S → Outages S D → Type 0
  IsConsistent initial s =
      IsKeyed s.rows
      × All (IsLinked s.rows) s.systems
      × All (IsOwned s.rows) s.updates
      × All (Follows initial s.updates) s.rows

  pub All-update_row {κ μ} :
      (P : Outage S D → Type κ) (Q : Outage S D → Type μ) (id : ℕ)
      (change : Outage S D → Outage S D) (rows : List (Outage S D))
      → ((row : Outage S D) → P row → Q (if row.id == id then change row else row))
      → All P rows
      → All Q (update_row id change rows)
  unfolding update_row
  All-update_row P Q id change [] h hs = tt
  All-update_row P Q id change (row ∷ rows) h (p, ps) =
      (h row p, All-update_row P Q id change rows h ps)

  pub has_row-update_row :
      (id k : ℕ) (change : Outage S D → Outage S D) (rows : List (Outage S D))
      → ((row : Outage S D) → (change row).id ≡ row.id)
      → has_row id (update_row k change rows) ≡ has_row id rows
  unfolding update_row
  has_row-update_row id k change [] keeps = refl
  has_row-update_row id k change (row ∷ rows) keeps =
      ground (arith, has_row-update_row id k change rows keeps, keeps row)

  pub update_row-IsKeyed :
      (k : ℕ) (change : Outage S D → Outage S D) (rows : List (Outage S D))
      → ((row : Outage S D) → (change row).id ≡ row.id)
      → IsKeyed rows
      → IsKeyed (update_row k change rows)
  unfolding update_row
  update_row-IsKeyed k change [] keeps h = tt
  update_row-IsKeyed k change (row ∷ rows) keeps (h, hs) = ground (
    arith,
    update_row-IsKeyed k change rows keeps hs,
    has_row-update_row row.id k change rows keeps,
    keeps row,
  )

  pub update_row-absent :
      (k : ℕ) (change : Outage S D → Outage S D) (rows : List (Outage S D))
      → has_row k rows ≡ false
      → update_row k change rows ≡ rows
  unfolding update_row
  update_row-absent k change [] h = refl
  update_row-absent k change (row ∷ rows) h = ground (arith, update_row-absent k change rows)

  pub has_row-append_one :
      (id : ℕ) (rows : List (Outage S D)) (row : Outage S D)
      → has_row id (rows ++ row ∷ []) ≡ (has_row id rows || (row.id == id))
  has_row-append_one id [] row = ground arith
  has_row-append_one id (x ∷ rows) row = ground (arith, has_row-append_one id rows row)

  pub append_one-IsKeyed :
      (rows : List (Outage S D)) (row : Outage S D)
      → has_row row.id rows ≡ false
      → IsKeyed rows
      → IsKeyed (rows ++ row ∷ [])
  append_one-IsKeyed [] row h hs = (refl, tt)
  append_one-IsKeyed (x ∷ rows) row h (n, hs) =
      ground (arith, append_one-IsKeyed rows row, has_row-append_one x.id rows row)

  pub has_row-delete :
      (id k : ℕ) (rows : List (Outage S D))
      → has_row id (filter (λ row. not (row.id == k)) rows) ≡ (has_row id rows && not (id == k))
  has_row-delete id k [] = refl
  has_row-delete id k (row ∷ rows) = ground (arith, has_row-delete id k rows)

  pub delete-IsKeyed :
      (k : ℕ) (rows : List (Outage S D))
      → IsKeyed rows
      → IsKeyed (filter (λ row. not (row.id == k)) rows)
  delete-IsKeyed k [] h = tt
  delete-IsKeyed k (row ∷ rows) (h, hs) =
      ground (arith, delete-IsKeyed k rows, has_row-delete row.id k rows)

  pub has_row-find_row :
      (id : ℕ) (rows : List (Outage S D)) (row : Outage S D)
      → find_row id rows ≡ some row
      → has_row id rows ≡ true
  has_row-find_row id [] row f = absurd (cc)
  has_row-find_row id (x ∷ rows) row f = ground (arith, has_row-find_row id rows row, f)

  pub no_updates-last_status :
      (initial : S) (id : ℕ) (rows : List (Outage S D)) (updates : List (StatusUpdate S))
      → has_row id rows ≡ false
      → All (IsOwned rows) updates
      → last_status initial id updates ≡ initial
  no_updates-last_status initial id rows [] n h = refl
  no_updates-last_status initial id rows (u ∷ updates) n (h, hs) =
      elim (Bool-cases (u.outage_id == id)) [
        | inl e ↦ absurd (ground (arith, ap (λ k. has_row k rows) ((==_iff u.outage_id id).0 e)))
        | inr e ↦ rw e (no_updates-last_status initial id rows updates n hs)
      ]

pub All-insert_systems {κ} :
    (P : SystemLink → Type κ) (id : ℕ) (system_ids : List String) (links : List SystemLink)
    → ((system_id : String) → P (record { outage_id = id; system_id = system_id }))
    → All P links
    → All P (insert_systems id system_ids links).0
unfolding insert_systems
All-insert_systems P id [] links h hs = hs
All-insert_systems P id (x ∷ xs) links h hs =
    if_cases (λ (r : List SystemLink × Bool). All P r.0)
      (any (λ link. link.outage_id == id && link.system_id === x) links) hs
      (All-insert_systems P id xs (links ++ record { outage_id = id; system_id = x } ∷ []) h
        (All-append P links _ hs (h x, tt)))

pub All-mono {κ μ} :
    {A : Type 0} (P : A → Type κ) (Q : A → Type μ) (xs : List A)
    → ((x : A) → P x → Q x)
    → All P xs
    → All Q xs
All-mono P Q [] f h = tt
All-mono P Q (x ∷ xs) f (h, hs) = (f x h, All-mono P Q xs f hs)

pub All-filter_mono {κ μ} :
    {A : Type 0} (P : A → Type κ) (Q : A → Type μ) (keep : A → Bool) (xs : List A)
    → ((x : A) → keep x ≡ true → P x → Q x)
    → All P xs
    → All Q (filter keep xs)
All-filter_mono P Q keep [] f h = tt
All-filter_mono P Q keep (x ∷ xs) f (h, hs) = elim (Bool-cases (keep x)) [
  | inl e ↦ rw e (f x e h, All-filter_mono P Q keep xs f hs)
  | inr e ↦ rw e (All-filter_mono P Q keep xs f hs)
]

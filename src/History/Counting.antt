-- ===== src/History/Counting.antt =====
-- The history of the health checks: sums over the aggregates of an assignment, and ids that occur once.
use checkmate.Prelude.{
  ℕ, ◌+◌, ◌≤◌, ◌≡◌, refl, sym, ap, subst, inl, inr, String, Bool, false, not, ◌&&◌, List, [], ◌∷◌,
  ◌++◌, arith, filter, In, In-filter, ◌==◌, if◌then◌else◌, Bool-cases, ==_iff,
}
use checkmate.Prelude.Text.{◌===◌}
use checkmate.History.Tables.{Aggregate, delete_by_id}

-- The counts of an aggregate.
pub data Column : Type 0 where
  all_runs healthy_runs degraded_runs unhealthy_runs : Column

module _ {R N : Type 0} where
  abbrev pub column_of : Column → Aggregate R N → ℕ
  column_of all_runs a = a.run_count
  column_of healthy_runs a = a.healthy_count
  column_of degraded_runs a = a.degraded_count
  column_of unhealthy_runs a = a.unhealthy_count

  abbrev pub is_assigned : String → String → Aggregate R N → Bool
  is_assigned system_id configuration_id a =
      a.system_id === system_id && a.configuration_id === configuration_id

  -- A count, summed over the aggregates of an assignment, hours and days together.
  abbrev pub total : Column → String → String → List (Aggregate R N) → ℕ
  total column system_id configuration_id [] = 0
  total column system_id configuration_id (a ∷ rows) =
      (if is_assigned system_id configuration_id a then column_of column a else 0)
      + total column system_id configuration_id rows

  abbrev pub occurrences : ℕ → List (Aggregate R N) → ℕ
  occurrences id [] = 0
  occurrences id (a ∷ rows) = (if a.id == id then 1 else 0) + occurrences id rows

  -- No id stands twice, as the primary key demands.
  abbrev pub IsKeyed : List (Aggregate R N) → Type 0
  IsKeyed rows = (id : ℕ) → occurrences id rows ≤ 1

  -- The database makes ids that no row has.
  abbrev pub IsFresh : (List (Aggregate R N) → ℕ) → Type 0
  IsFresh new_id = (rows : List (Aggregate R N)) → occurrences (new_id rows) rows ≡ 0

  pub occurrences-append :
      (id : ℕ) (xs ys : List (Aggregate R N))
      → occurrences id (xs ++ ys) ≡ occurrences id xs + occurrences id ys
  occurrences-append id [] ys = omega arith
  occurrences-append id (x ∷ xs) ys = omega (arith, occurrences-append id xs ys)

  pub append_fresh-IsKeyed :
      (new : Aggregate R N) (rows : List (Aggregate R N))
      → occurrences new.id rows ≡ 0
      → IsKeyed rows
      → IsKeyed (rows ++ new ∷ [])
  append_fresh-IsKeyed new rows fresh h id = elim (Bool-cases (new.id == id)) [
    | inl e ↦
        let same : new.id ≡ id = (==_iff new.id id).0 e in
        let none : occurrences id rows ≡ 0 = subst (λ k. occurrences k rows ≡ 0) same fresh in
        ground (arith, occurrences-append id rows (new ∷ []), none)
    | inr e ↦ ground (arith, occurrences-append id rows (new ∷ []), h id, e)
  ]

  pub occurrences-filter_le :
      (p : Aggregate R N → Bool) (id : ℕ) (rows : List (Aggregate R N))
      → occurrences id (filter p rows) ≤ occurrences id rows
  occurrences-filter_le p id [] = omega arith
  occurrences-filter_le p id (a ∷ rows) = ground (arith, occurrences-filter_le p id rows)

  pub In-occurs :
      (a : Aggregate R N) (rows : List (Aggregate R N)) → In a rows → 1 ≤ occurrences a.id rows
  In-occurs a [] m = absurd m
  In-occurs a (b ∷ rows) (inl e) = ground (arith, ap (λ x. x.id) e)
  In-occurs a (b ∷ rows) (inr m) = omega (arith, In-occurs a rows m)

  pub occurrences-delete_by_id :
      (k id : ℕ) (rows : List (Aggregate R N))
      → occurrences id (delete_by_id k rows) ≡ (if k == id then 0 else occurrences id rows)
  unfolding delete_by_id
  occurrences-delete_by_id k id [] = ground arith
  occurrences-delete_by_id k id (a ∷ rows) = ground (arith, occurrences-delete_by_id k id rows)

  pub In-delete_by_id :
      (a : Aggregate R N) (k : ℕ) (rows : List (Aggregate R N))
      → In a rows
      → (a.id == k) ≡ false
      → In a (delete_by_id k rows)
  unfolding delete_by_id
  In-delete_by_id a k rows m n = (In-filter (λ row. not (row.id == k)) a rows).1 (m, ground arith)

module _ {R N : Type 0} (column : Column) (system_id configuration_id : String) where
  pub total-append :
      (xs ys : List (Aggregate R N))
      → total column system_id configuration_id (xs ++ ys)
        ≡ total column system_id configuration_id xs + total column system_id configuration_id ys
  total-append [] ys = omega arith
  total-append (x ∷ xs) ys = omega (arith, total-append xs ys)

  total-delete_absent :
      (k : ℕ) (rows : List (Aggregate R N))
      → occurrences k rows ≡ 0
      → total column system_id configuration_id (delete_by_id k rows)
        ≡ total column system_id configuration_id rows
  unfolding delete_by_id
  total-delete_absent k [] h = refl
  total-delete_absent k (a ∷ rows) h = ground (arith, total-delete_absent k rows)

  total-delete_head :
      (b : Aggregate R N) (rows : List (Aggregate R N))
      → occurrences b.id (b ∷ rows) ≤ 1
      → total column system_id configuration_id (delete_by_id b.id (b ∷ rows))
          + total column system_id configuration_id (b ∷ [])
        ≡ total column system_id configuration_id (b ∷ rows)
  unfolding delete_by_id
  total-delete_head b rows h = ground (arith, total-delete_absent b.id rows, h)

  -- The deletion of a row by an id that stands once takes off that row's count.
  pub total-delete_by_id :
      (a : Aggregate R N) (rows : List (Aggregate R N))
      → occurrences a.id rows ≤ 1
      → In a rows
      → total column system_id configuration_id (delete_by_id a.id rows)
          + total column system_id configuration_id (a ∷ [])
        ≡ total column system_id configuration_id rows
  unfolding delete_by_id
  total-delete_by_id a [] h m = absurd m
  total-delete_by_id a (b ∷ rows) h (inl e) =
      subst
        (λ x.
          total column system_id configuration_id (delete_by_id x.id (b ∷ rows))
            + total column system_id configuration_id (x ∷ [])
          ≡ total column system_id configuration_id (b ∷ rows))
        e (total-delete_head b rows (subst (λ x. occurrences x.id (b ∷ rows) ≤ 1) (sym e) h))
  total-delete_by_id a (b ∷ rows) h (inr m) =
      ground (arith, In-occurs a rows m, total-delete_by_id a rows (omega (arith, h)) m)

-- ===== src/History/Conservation.antt =====
-- retention-job.ts: what the rollup does with the counts.
use checkmate.Prelude.{
  ℕ, ◌+◌, ◌≤◌, ◌≡◌, refl, sym, subst, ◌∙◌, inl, inr, String, Bool, true, List, [], ◌∷◌, ◌++◌, arith,
  filter, any, In, In-filter, In-append_left, All, All-In, All-of_In, All-parts, Bool-cases,
}
use checkmate.History.Tables.{Aggregate, Calendar, insert, conflicts, delete_by_id}
use checkmate.History.Rollup.{
  DailyBucket, daily_aggregate, is_old_hourly, group_by_day, delete_processed, roll_up_buckets,
  rollup_hourly_aggregates,
}
use checkmate.History.Counting.{
  Column, is_assigned, total, occurrences, IsKeyed, IsFresh, occurrences-append,
  append_fresh-IsKeyed, occurrences-filter_le, In-occurs, occurrences-delete_by_id, In-delete_by_id,
  total-append, total-delete_by_id,
}
use checkmate.History.Days.{
  members, occurrences-group_by_day, All-group_by_day, id-daily_aggregate, total-daily_aggregate,
}

module _ {R N : Type 0} where
  occurrences-delete_processed :
      (id : ℕ) (group rows : List (Aggregate R N))
      → occurrences id (delete_processed group rows) ≤ occurrences id rows
  unfolding delete_processed
  occurrences-delete_processed id [] rows = omega arith
  occurrences-delete_processed id (a ∷ group) rows = ground (
    arith,
    occurrences-delete_processed id group (delete_by_id a.id rows),
    occurrences-delete_by_id a.id id rows,
  )

  pub In-delete_processed :
      (a : Aggregate R N) (group rows : List (Aggregate R N))
      → In a rows
      → occurrences a.id group ≡ 0
      → In a (delete_processed group rows)
  unfolding delete_processed
  In-delete_processed a [] rows m n = m
  In-delete_processed a (b ∷ group) rows m n =
      In-delete_processed a group (delete_by_id b.id rows)
        (In-delete_by_id a b.id rows m (ground arith)) (ground arith)

  pub roll_up_buckets-IsKeyed :
      (new_id : List (Aggregate R N) → ℕ)
      → IsFresh new_id
      → (s c : String) (buckets : List (DailyBucket R N)) (rows : List (Aggregate R N))
      → IsKeyed rows
      → IsKeyed (roll_up_buckets new_id s c buckets rows).0
  unfolding roll_up_buckets insert
  roll_up_buckets-IsKeyed new_id fresh s c [] rows keyed = keyed
  roll_up_buckets-IsKeyed new_id fresh s c (b ∷ buckets) rows keyed =
      let new = daily_aggregate (new_id rows) s c b in
      elim (Bool-cases (any (conflicts new) rows)) [
        | inl e ↦ rw (roll_up_buckets, insert, e) keyed
        | inr e ↦
            let new_keyed : IsKeyed (rows ++ new ∷ []) =
              append_fresh-IsKeyed new rows
                (subst (λ k. occurrences k rows ≡ 0) (sym (id-daily_aggregate (new_id rows) s c b))
                  (fresh rows))
                keyed in
            rw (roll_up_buckets, insert, e)
              (roll_up_buckets-IsKeyed new_id fresh s c buckets
                (delete_processed b.aggregates (rows ++ new ∷ []))
                (λ id. omega (
                  arith,
                  new_keyed id,
                  occurrences-delete_processed id b.aggregates (rows ++ new ∷ []),
                )))
      ]

  -- The other aggregates of a group are still there when one of them is deleted.
  All-delete_by_id :
      (a : Aggregate R N) (group rows : List (Aggregate R N))
      → IsKeyed (a ∷ group)
      → All (λ b. In b rows) group
      → All (λ b. In b (delete_by_id a.id rows)) group
  All-delete_by_id a group rows keyed h =
      All-of_In (λ b. In b (delete_by_id a.id rows)) group
        (λ b m.
          In-delete_by_id b a.id rows (All-In (λ x. In x rows) b group h m)
            (ground (arith, keyed b.id, In-occurs b group m)))

  module _ (column : Column) (s c : String) where
    total-delete_processed :
        (group rows : List (Aggregate R N))
        → IsKeyed group
        → IsKeyed rows
        → All (λ a. In a rows) group
        → total column s c (delete_processed group rows) + total column s c group
          ≡ total column s c rows
    unfolding delete_processed
    total-delete_processed [] rows keyed rows_keyed h = omega arith
    total-delete_processed (a ∷ group) rows keyed rows_keyed (m, h) = omega (
      arith,
      total-delete_by_id column s c a rows (rows_keyed a.id) m,
      total-delete_processed group (delete_by_id a.id rows) (λ id. ground (arith, keyed id))
          (λ id. ground (arith, rows_keyed id, occurrences-delete_by_id a.id id rows))
          (All-delete_by_id a group rows keyed h),
    )

    roll_up_buckets_conserves :
        (new_id : List (Aggregate R N) → ℕ)
        → IsFresh new_id
        → (s' c' : String) (buckets : List (DailyBucket R N)) (rows : List (Aggregate R N))
        → IsKeyed (members buckets)
        → IsKeyed rows
        → All (λ a. In a rows) (members buckets)
        → All (λ a. is_assigned s' c' a ≡ true) (members buckets)
        → total column s c (roll_up_buckets new_id s' c' buckets rows).0 ≡ total column s c rows
    unfolding roll_up_buckets insert
    roll_up_buckets_conserves new_id fresh s' c' [] rows keyed rows_keyed h assigned = refl
    roll_up_buckets_conserves new_id fresh s' c' (b ∷ buckets) rows keyed rows_keyed h assigned =
        let new = daily_aggregate (new_id rows) s' c' b in
        elim (Bool-cases (any (conflicts new) rows)) [
          | inl e ↦ rw (roll_up_buckets, insert, e) refl
          | inr e ↦
              let inserted : List (Aggregate R N) = rows ++ new ∷ [] in
              let (h_here, h_rest) = All-parts (λ a. In a rows) b.aggregates (members buckets) h in
              let (a_here, a_rest) =
                All-parts (λ a. is_assigned s' c' a ≡ true) b.aggregates (members buckets)
                  assigned in
              let parts : (id : ℕ)
                  → occurrences id b.aggregates + occurrences id (members buckets) ≤ 1 =
                λ id.
                  omega (arith, keyed id, occurrences-append id b.aggregates (members buckets)) in
              let inserted_keyed : IsKeyed inserted =
                append_fresh-IsKeyed new rows
                  (subst (λ k. occurrences k rows ≡ 0)
                    (sym (id-daily_aggregate (new_id rows) s' c' b)) (fresh rows))
                  rows_keyed in
              let kept : All (λ a. In a (delete_processed b.aggregates inserted))
                  (members buckets) =
                All-of_In (λ a. In a (delete_processed b.aggregates inserted)) (members buckets)
                  (λ a m.
                    In-delete_processed a b.aggregates inserted
                      (In-append_left a rows (new ∷ [])
                        (All-In (λ x. In x rows) a (members buckets) h_rest m))
                      (omega (arith, parts a.id, In-occurs a (members buckets) m))) in
              rw (roll_up_buckets, insert, e)
                (roll_up_buckets_conserves new_id fresh s' c' buckets
                    (delete_processed b.aggregates inserted) (λ id. omega (arith, parts id))
                    (λ id. omega (
                      arith,
                      inserted_keyed id,
                      occurrences-delete_processed id b.aggregates inserted,
                    ))
                    kept a_rest
                  ∙ omega (
                    arith,
                    total-delete_processed b.aggregates inserted (λ id. omega (arith, parts id))
                        inserted_keyed
                        (All-of_In (λ a. In a inserted) b.aggregates
                          (λ a m.
                            In-append_left a rows (new ∷ [])
                              (All-In (λ x. In x rows) a b.aggregates h_here m))),
                    total-append column s c rows (new ∷ []),
                    total-daily_aggregate column s c (new_id rows) s' c' b a_here,
                  ))
        ]

module _ {R N : Type 0} (new_id : List (Aggregate R N) → ℕ) (fresh : IsFresh new_id) where
  pub rollup_hourly_aggregates-IsKeyed :
      (calendar : Calendar) (now : ℕ) (system_id configuration_id : String) (retention_days : ℕ)
      (rows : List (Aggregate R N))
      → IsKeyed rows
      → IsKeyed
          (rollup_hourly_aggregates calendar new_id now system_id configuration_id retention_days
            rows).0
  unfolding rollup_hourly_aggregates
  rollup_hourly_aggregates-IsKeyed calendar now system_id configuration_id retention_days rows
        keyed =
      roll_up_buckets-IsKeyed new_id fresh system_id configuration_id _ rows keyed

  -- Where no id stands twice and the database makes new ids, the rollup of an assignment's old hours
  -- keeps every count of every assignment, summed over its hours and days; also when an insert fails
  -- on the way.
  pub rollup_conserves :
      (calendar : Calendar) (now : ℕ) (system_id configuration_id : String) (retention_days : ℕ)
      (rows : List (Aggregate R N))
      → IsKeyed rows
      → (column : Column) (s c : String)
      → total column s c
          (rollup_hourly_aggregates calendar new_id now system_id configuration_id retention_days
            rows).0
        ≡ total column s c rows
  unfolding rollup_hourly_aggregates
  rollup_conserves calendar now system_id configuration_id retention_days rows keyed column s c =
      let is_old : Aggregate R N → Bool =
        is_old_hourly system_id configuration_id
          (calendar.day_start (calendar.days_before retention_days now)) in
      let old = filter is_old rows in
      let found : (a : Aggregate R N) → In a old → In a rows × (is_old a ≡ true) =
        λ a. (In-filter is_old a rows).0 in
      roll_up_buckets_conserves column s c new_id fresh system_id configuration_id
        (group_by_day calendar old []) rows
        (λ id. omega (
          arith,
          occurrences-group_by_day calendar id old [],
          occurrences-filter_le is_old id rows,
          keyed id,
        ))
        keyed
        (All-group_by_day (λ a. In a rows) calendar old []
          (All-of_In (λ a. In a rows) old (λ a m. (found a m).0)) tt)
        (All-group_by_day (λ a. is_assigned system_id configuration_id a ≡ true) calendar old []
          (All-of_In (λ a. is_assigned system_id configuration_id a ≡ true) old
            (λ a m. ground (arith, (found a m).1)))
          tt)

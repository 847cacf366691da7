-- ===== src/History/Kept.antt =====
-- retention-job.ts: the aggregates that the rollup does not touch.
use checkmate.Prelude.{
  ℕ, ◌≤◌, ◌≡◌, refl, sym, ap, subst, ◌∙◌, inl, inr, String, Bool, false, List, [], ◌∷◌, ◌++◌, ok,
  err, arith, filter, any, In, In-filter, In-append_left, In-append, ◌⊎◌, not, ◌==◌, Bool-cases,
}
use checkmate.History.Tables.{
  Aggregate, Calendar, insert, conflicts, delete_by_id, hourly, daily, same_size, unique_violation,
}
use checkmate.History.Rollup.{
  DailyBucket, daily_aggregate, is_old_hourly, group_by_day, delete_processed, roll_up_buckets,
  rollup_hourly_aggregates,
}
use checkmate.History.Counting.{
  occurrences, IsKeyed, occurrences-append, occurrences-filter_le, In-occurs,
}
use checkmate.History.Days.{members, occurrences-group_by_day}
use checkmate.History.Conservation.{In-delete_processed}

module _ {R N : Type 0} where
  -- A row whose id no bucket has stays.
  roll_up_buckets_keeps :
      (new_id : List (Aggregate R N) → ℕ) (s c : String) (buckets : List (DailyBucket R N))
      (rows : List (Aggregate R N)) (a : Aggregate R N)
      → In a rows
      → occurrences a.id (members buckets) ≡ 0
      → In a (roll_up_buckets new_id s c buckets rows).0
  unfolding roll_up_buckets insert
  roll_up_buckets_keeps new_id s c [] rows a m n = m
  roll_up_buckets_keeps new_id s c (b ∷ buckets) rows a m n =
      let new = daily_aggregate (new_id rows) s c b in
      let parts = occurrences-append a.id b.aggregates (members buckets) in
      elim (Bool-cases (any (conflicts new) rows)) [
        | inl e ↦ rw (roll_up_buckets, insert, e) m
        | inr e ↦
            rw (roll_up_buckets, insert, e)
              (roll_up_buckets_keeps new_id s c buckets
                (delete_processed b.aggregates (rows ++ new ∷ [])) a
                (In-delete_processed a b.aggregates (rows ++ new ∷ [])
                  (In-append_left a rows (new ∷ []) m) (omega (arith, parts, n)))
                (omega (arith, parts, n)))
      ]

  -- A row that does not pass shares its id with none that passes.
  occurrences-filter_other :
      (p : Aggregate R N → Bool) (a : Aggregate R N) (rows : List (Aggregate R N))
      → occurrences a.id rows ≤ 1
      → In a rows
      → p a ≡ false
      → occurrences a.id (filter p rows) ≡ 0
  occurrences-filter_other p a [] h m n = refl
  occurrences-filter_other p a (b ∷ rows) h (inl e) n =
      ground (arith, ap p e, ap (λ x. x.id) e, occurrences-filter_le p a.id rows)
  occurrences-filter_other p a (b ∷ rows) h (inr m) n =
      ground (arith, In-occurs a rows m, occurrences-filter_other p a rows (omega (arith, h)) m n)

  -- Where no id stands twice, the rollup keeps every aggregate that is not an old hour of the
  -- assignment: other assignments, recent hours and the days, as they are.
  pub rollup_keeps :
      (calendar : Calendar) (new_id : List (Aggregate R N) → ℕ) (now : ℕ)
      (system_id configuration_id : String) (retention_days : ℕ) (rows : List (Aggregate R N))
      → IsKeyed rows
      → (a : Aggregate R N) → In a rows
      → is_old_hourly system_id configuration_id
          (calendar.day_start (calendar.days_before retention_days now))
          a
        ≡ false
      → In a
          (rollup_hourly_aggregates calendar new_id now system_id configuration_id retention_days
            rows).0
  unfolding rollup_hourly_aggregates
  rollup_keeps calendar new_id now system_id configuration_id retention_days rows keyed a m young =
      let is_old : Aggregate R N → Bool =
        is_old_hourly system_id configuration_id
          (calendar.day_start (calendar.days_before retention_days now)) in
      let old = filter is_old rows in
      roll_up_buckets_keeps new_id system_id configuration_id (group_by_day calendar old []) rows a
        m
        (omega (
          arith,
          occurrences-group_by_day calendar a.id old [],
          occurrences-filter_other is_old a rows (keyed a.id) m young,
        ))

  In-delete_processed_inverse :
      (a : Aggregate R N) (group rows : List (Aggregate R N))
      → In a (delete_processed group rows)
      → In a rows × (occurrences a.id group ≡ 0)
  unfolding delete_processed delete_by_id
  In-delete_processed_inverse a [] rows m = (m, refl)
  In-delete_processed_inverse a (b ∷ group) rows m =
      let (m', n) = In-delete_processed_inverse a group (delete_by_id b.id rows) m in
      let (there, other) = (In-filter (λ row. not (row.id == b.id)) a rows).0 m' in
      (there, ground (arith, n, other))

  bucket_size-daily_aggregate :
      (id : ℕ) (s c : String) (b : DailyBucket R N) → (daily_aggregate id s c b).bucket_size ≡ daily
  unfolding daily_aggregate
  bucket_size-daily_aggregate id s c b = refl

  -- What is there after all buckets are rolled up was there before, in no bucket, or is a day.
  roll_up_buckets_leaves :
      (new_id : List (Aggregate R N) → ℕ) (s c : String) (buckets : List (DailyBucket R N))
      (rows : List (Aggregate R N)) (a : Aggregate R N)
      → (roll_up_buckets new_id s c buckets rows).1 ≡ ok tt
      → In a (roll_up_buckets new_id s c buckets rows).0
      → (In a rows × (occurrences a.id (members buckets) ≡ 0)) ⊎ (a.bucket_size ≡ daily)
  unfolding roll_up_buckets insert
  roll_up_buckets_leaves new_id s c [] rows a done m = inl (m, refl)
  roll_up_buckets_leaves new_id s c (b ∷ buckets) rows a done m =
      let new = daily_aggregate (new_id rows) s c b in
      elim (Bool-cases (any (conflicts new) rows)) [
        | inl e ↦
            let failed : (roll_up_buckets new_id s c (b ∷ buckets) rows).1 ≡ err unique_violation =
              rw (roll_up_buckets, insert, e) refl in
            absurd (cc)
        | inr e ↦
            let next : roll_up_buckets new_id s c (b ∷ buckets) rows
                ≡ roll_up_buckets new_id s c buckets
                    (delete_processed b.aggregates (rows ++ new ∷ [])) =
              rw (roll_up_buckets, insert, e) refl in
            elim (roll_up_buckets_leaves new_id s c buckets
              (delete_processed b.aggregates (rows ++ new ∷ [])) a (ap (λ r. r.1) (sym next) ∙ done)
              (subst (λ r. In a r.0) next m)) [
                | inr day ↦ inr day
                | inl (m', n) ↦
                    let (there, n') =
                      In-delete_processed_inverse a b.aggregates (rows ++ new ∷ []) m' in
                    elim (In-append a rows (new ∷ []) there) [
                      | inl old ↦ inl (
                        old,
                        omega
                            (arith, occurrences-append a.id b.aggregates (members buckets), n, n'),
                      )
                      | inr (inl same) ↦ inr (
                          subst (λ x. x.bucket_size ≡ daily) same
                            (bucket_size-daily_aggregate (new_id rows) s c b))
                      | inr (inr none_left) ↦ absurd none_left
                    ]
              ]
      ]

  -- A rollup that does not fail leaves none of the old hours of the assignment.
  pub rollup_complete :
      (calendar : Calendar) (new_id : List (Aggregate R N) → ℕ) (now : ℕ)
      (system_id configuration_id : String) (retention_days : ℕ) (rows : List (Aggregate R N))
      → (rollup_hourly_aggregates calendar new_id now system_id configuration_id retention_days
          rows).1
        ≡ ok tt
      → (a : Aggregate R N)
      → In a
          (rollup_hourly_aggregates calendar new_id now system_id configuration_id retention_days
            rows).0
      → is_old_hourly system_id configuration_id
          (calendar.day_start (calendar.days_before retention_days now))
          a
        ≡ false
  unfolding rollup_hourly_aggregates
  rollup_complete calendar new_id now system_id configuration_id retention_days rows done a m =
      let is_old : Aggregate R N → Bool =
        is_old_hourly system_id configuration_id
          (calendar.day_start (calendar.days_before retention_days now)) in
      let old = filter is_old rows in
      elim (Bool-cases (is_old a)) [
        | inr young ↦ young
        | inl e ↦
            elim (roll_up_buckets_leaves new_id system_id configuration_id
              (group_by_day calendar old []) rows a done m) [
                | inl (there, n) ↦ absurd (
                    omega (
                      arith,
                      n,
                      occurrences-group_by_day calendar a.id old [],
                      In-occurs a old ((In-filter is_old a rows).1 (there, e)),
                    ))
                | inr day ↦ ground (arith, ap (λ size. same_size size hourly) day)
              ]
      ]

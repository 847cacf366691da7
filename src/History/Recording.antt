-- ===== src/History/Recording.antt =====
-- realtime-aggregation.ts with retention-job.ts: what the aggregates say of the runs that were recorded.
use checkmate.Prelude.{
  ℕ, ◌+◌, ◌≤◌, ◌≡◌, refl, sym, subst, String, ◌&&◌, List, [], ◌∷◌, ◌++◌, Option, none, some, arith,
  if◌then◌else◌,
}
use checkmate.Prelude.Text.{◌===◌, ===_iff}
use checkmate.Health.Evaluator.{healthy, unhealthy, degraded}
use checkmate.History.Tables.{Aggregate, Calendar, upsert}
use checkmate.History.Digest.{DigestLibrary}
use checkmate.History.Collectors.{AggregatedResult}
use checkmate.History.Realtime.{
  IncrementParams, LatencyUpdate, is_status, new_row, updated_row, increment_hourly_aggregate,
}
use checkmate.History.Rollup.{rollup_hourly_aggregates}
use checkmate.History.Counting.{
  Column, all_runs, healthy_runs, degraded_runs, unhealthy_runs, column_of, total, occurrences,
  IsKeyed, IsFresh, occurrences-append, append_fresh-IsKeyed,
}
use checkmate.History.Conservation.{rollup_conserves, rollup_hourly_aggregates-IsKeyed}

-- What a run adds to a count of an assignment.
abbrev pub contribution : {D : Type 0} → Column → IncrementParams D → ℕ
contribution all_runs run = 1
contribution healthy_runs run = is_status healthy run.status
contribution degraded_runs run = is_status degraded run.status
contribution unhealthy_runs run = is_status unhealthy run.status

abbrev pub counted_for : {D : Type 0} → Column → String → String → IncrementParams D → ℕ
counted_for column s c run =
    if run.system_id === s && run.configuration_id === c then contribution column run else 0

module _ {N D : Type 0} (lib : DigestLibrary N) where
  updated_row-same :
      (run : IncrementParams D) (update : Option (LatencyUpdate N))
      (result : Option (AggregatedResult D)) (row : Aggregate (AggregatedResult D) N)
      → ((updated_row lib run update result row).system_id ≡ row.system_id)
        × ((updated_row lib run update result row).configuration_id ≡ row.configuration_id)
        × ((updated_row lib run update result row).id ≡ row.id)
  unfolding updated_row
  updated_row-same run none none row = (refl, refl, refl)
  updated_row-same run none (some r) row = (refl, refl, refl)
  updated_row-same run (some u) none row = (refl, refl, refl)
  updated_row-same run (some u) (some r) row = (refl, refl, refl)

  column_of-updated_row :
      (column : Column) (run : IncrementParams D) (update : Option (LatencyUpdate N))
      (result : Option (AggregatedResult D)) (row : Aggregate (AggregatedResult D) N)
      → column_of column (updated_row lib run update result row)
        ≡ column_of column row + contribution column run
  unfolding updated_row
  column_of-updated_row all_runs run update result row = refl
  column_of-updated_row healthy_runs run update result row = refl
  column_of-updated_row degraded_runs run update result row = refl
  column_of-updated_row unhealthy_runs run update result row = refl

  column_of-new_row :
      (column : Column) (id start : ℕ) (run : IncrementParams D) (update : Option (LatencyUpdate N))
      (result : Option (AggregatedResult D))
      → column_of column (new_row lib id run start update result) ≡ contribution column run
  unfolding new_row
  column_of-new_row all_runs id start run update result = refl
  column_of-new_row healthy_runs id start run update result = refl
  column_of-new_row degraded_runs id start run update result = refl
  column_of-new_row unhealthy_runs id start run update result = refl

  module _ (id start : ℕ) (run : IncrementParams D) (update : Option (LatencyUpdate N))
      (result : Option (AggregatedResult D)) where
    abbrev new : Aggregate (AggregatedResult D) N
    new = new_row lib id run start update result

    pub total-upsert :
        (column : Column) (s c : String) (rows : List (Aggregate (AggregatedResult D) N))
        → total column s c (upsert new (updated_row lib run update result) rows)
          ≡ total column s c rows + counted_for column s c run
    unfolding upsert new_row
    total-upsert column s c [] = ground (arith, column_of-new_row column id start run update result)
    total-upsert column s c (row ∷ rows) =
        let (system, configuration, same_id) = updated_row-same run update result row in
        ground (
          arith,
          total-upsert column s c rows,
          column_of-updated_row column run update result row,
          ===_iff row.system_id run.system_id,
          ===_iff row.configuration_id run.configuration_id,
          system,
          configuration,
        )

    occurrences-upsert :
        (k : ℕ) (rows : List (Aggregate (AggregatedResult D) N))
        → occurrences k (upsert new (updated_row lib run update result) rows)
          ≤ occurrences k (rows ++ new ∷ [])
    unfolding upsert
    occurrences-upsert k [] = omega arith
    occurrences-upsert k (row ∷ rows) =
        let (system, configuration, same_id) = updated_row-same run update result row in
        ground (arith, occurrences-upsert k rows, same_id, occurrences-append k rows (new ∷ []))

    id-new : new.id ≡ id
    unfolding new_row
    id-new = refl

    upsert-IsKeyed :
        (rows : List (Aggregate (AggregatedResult D) N))
        → occurrences id rows ≡ 0
        → IsKeyed rows
        → IsKeyed (upsert new (updated_row lib run update result) rows)
    upsert-IsKeyed rows fresh keyed k =
        let added : IsKeyed (rows ++ new ∷ []) =
          append_fresh-IsKeyed new rows (subst (λ j. occurrences j rows ≡ 0) (sym id-new) fresh)
            keyed in
        omega (arith, occurrences-upsert k rows, added k)

  -- A run adds to its assignment's counts what it is, and nothing to those of other assignments.
  pub total-increment_hourly_aggregate :
      (calendar : Calendar) (new_id : ℕ) (run : IncrementParams D)
      (rows : List (Aggregate (AggregatedResult D) N)) (column : Column) (s c : String)
      → total column s c (increment_hourly_aggregate lib calendar new_id run rows)
        ≡ total column s c rows + counted_for column s c run
  unfolding increment_hourly_aggregate
  total-increment_hourly_aggregate calendar new_id run rows column s c =
      total-upsert new_id (calendar.hour_start run.run_timestamp) run _ _ column s c rows

  pub increment_hourly_aggregate-IsKeyed :
      (calendar : Calendar) (new_id : ℕ) (run : IncrementParams D)
      (rows : List (Aggregate (AggregatedResult D) N))
      → occurrences new_id rows ≡ 0
      → IsKeyed rows
      → IsKeyed (increment_hourly_aggregate lib calendar new_id run rows)
  unfolding increment_hourly_aggregate
  increment_hourly_aggregate-IsKeyed calendar new_id run rows fresh keyed =
      upsert-IsKeyed new_id (calendar.hour_start run.run_timestamp) run _ _ rows fresh keyed

-- What changes the counts: a run that ends, or the rollup of an assignment's old hours at a time.
pub data HistoryEvent (D : Type 0) : Type 0 where
  recorded : IncrementParams D → HistoryEvent D
  rolled_up : ℕ → String → String → ℕ → HistoryEvent D

module _ {N D : Type 0} (lib : DigestLibrary N) (calendar : Calendar)
    (new_id : List (Aggregate (AggregatedResult D) N) → ℕ) where
  abbrev pub history_step :
      HistoryEvent D
      → List (Aggregate (AggregatedResult D) N)
      → List (Aggregate (AggregatedResult D) N)
  history_step (recorded run) rows = increment_hourly_aggregate lib calendar (new_id rows) run rows
  history_step (rolled_up now s c retention_days) rows =
      (rollup_hourly_aggregates calendar new_id now s c retention_days rows).0

  abbrev pub history_after :
      List (HistoryEvent D)
      → List (Aggregate (AggregatedResult D) N)
      → List (Aggregate (AggregatedResult D) N)
  history_after [] rows = rows
  history_after (e ∷ events) rows = history_after events (history_step e rows)

  -- The runs of the events that a count of an assignment is about.
  abbrev pub runs_recorded : Column → String → String → List (HistoryEvent D) → ℕ
  runs_recorded column s c [] = 0
  runs_recorded column s c (recorded run ∷ events) =
      counted_for column s c run + runs_recorded column s c events
  runs_recorded column s c (rolled_up now s' c' retention_days ∷ events) =
      runs_recorded column s c events

  history_accounted :
      IsFresh new_id
      → (events : List (HistoryEvent D)) (rows : List (Aggregate (AggregatedResult D) N))
      → IsKeyed rows
      → (column : Column) (s c : String)
      → total column s c (history_after events rows)
        ≡ total column s c rows + runs_recorded column s c events
  history_accounted fresh [] rows keyed column s c = omega arith
  history_accounted fresh (recorded run ∷ events) rows keyed column s c =
      let next = increment_hourly_aggregate lib calendar (new_id rows) run rows in
      omega (
        arith,
        history_accounted fresh events next
            (increment_hourly_aggregate-IsKeyed lib calendar (new_id rows) run rows (fresh rows)
              keyed)
            column s c,
        total-increment_hourly_aggregate lib calendar (new_id rows) run rows column s c,
      )
  history_accounted fresh (rolled_up now s' c' retention_days ∷ events) rows keyed column s c =
      let next = (rollup_hourly_aggregates calendar new_id now s' c' retention_days rows).0 in
      omega (
        arith,
        history_accounted fresh events next
            (rollup_hourly_aggregates-IsKeyed new_id fresh calendar now s' c' retention_days rows
              keyed)
            column s c,
        rollup_conserves new_id fresh calendar now s' c' retention_days rows keyed column s c,
      )

  -- From an empty table, where the database makes new ids: after any sequence of runs and rollups, the
  -- aggregates of an assignment count just the runs that were recorded for it, by status and together.
  pub every_run_counted_once :
      IsFresh new_id
      → (events : List (HistoryEvent D)) (column : Column) (s c : String)
      → total column s c (history_after events []) ≡ runs_recorded column s c events
  every_run_counted_once fresh events column s c =
      omega (arith, history_accounted fresh events [] (λ id. omega arith) column s c)

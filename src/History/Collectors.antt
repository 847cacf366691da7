-- ===== src/History/Collectors.antt =====
-- healthcheck-backend/src/realtime-aggregation.ts: the collectors' results, merged run by run.
use checkmate.Prelude.{
  ℕ, String, not, ◌&&◌, List, [], ◌∷◌, Option, none, some, is_some, get_or_else, if◌then◌else◌,
}
use checkmate.Prelude.Text.{◌===◌}
use checkmate.Prelude.Map.{get, set}
use checkmate.Health.Evaluator.{Status}

-- What a run has of one collector: `_collectorId`, and the data without the internal fields.
pub record CollectorData (D : Type 0) : Type 0 where
  pub collector_id : Option String
  pub metadata : D

-- What is stored of one collector: `_collectorId` with the merged data.
pub record Merged (D : Type 0) : Type 0 where
  pub collector_id : String
  pub merged : D

-- `aggregatedResult`: the merged data by the collector's uuid, if it has them.
pub record AggregatedResult (D : Type 0) : Type 0 where
  pub collectors : Option (List (String × Merged D))

pub record NewRun (D : Type 0) : Type 0 where
  pub status : Status
  pub latency_ms : Option ℕ
  pub metadata : D

-- `registry.getCollector(id)?.collector.mergeResult`.
abbrev pub CollectorRegistry : Type 0 → Type 0
CollectorRegistry D = String → Option (Option (Merged D) → NewRun D → D)

module _ {D : Type 0} (status : Status) (latency_ms : Option ℕ) where
  -- The loop over the collectors of a run.
  unfoldable pub merge_collectors :
      CollectorRegistry D
      → List (String × Merged D)
      → List (String × CollectorData D)
      → List (String × Merged D)
      → List (String × Merged D)
  merge_collectors registry existing [] merged = merged
  merge_collectors registry existing ((uuid, collected) ∷ rest) merged =
      merge_collectors registry existing rest (elim collected.collector_id [
        | none ↦ merged
        | some id ↦ if id === "" then merged else elim (registry id) [
          | none ↦ merged
          | some merge_result ↦
              set uuid
                (record {
                  collector_id = id;
                  merged = merge_result (get uuid existing) (record {
                    status = status;
                    latency_ms = latency_ms;
                    metadata = collected.metadata;
                  });
                })
                merged
        ]
      ])

  abbrev collectors_of : Option (AggregatedResult D) → List (String × Merged D)
  collectors_of none = []
  collectors_of (some r) = get_or_else r.collectors []

  unfoldable pub merge_collector_results :
      Option (AggregatedResult D)
      → Option (List (String × CollectorData D))
      → Option (CollectorRegistry D)
      → Option (AggregatedResult D)
  merge_collector_results existing_result run_collectors collector_registry =
      if not (is_some run_collectors) && not (is_some existing_result)
      then none
      else elim collector_registry [
        | none ↦ existing_result
        | some registry ↦
            let existing = collectors_of existing_result in
            some (record {
              collectors =
                  some
                    (merge_collectors registry existing (get_or_else run_collectors []) existing);
            })
      ]

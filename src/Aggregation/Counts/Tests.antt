-- ===== src/Aggregation/Counts/Tests.antt =====
-- The counts of concrete runs.
use checkmate.Prelude.{◌≡◌, refl, List, [], ◌∷◌, none, some}
use checkmate.Aggregation.Counts.{StatusRun, extract_latencies}

abbrev runs : List StatusRun
runs =
    record { status = "healthy"; latency_ms = some 12 }
    ∷ record { status = "pending"; latency_ms = none }
    ∷ record { status = "unhealthy"; latency_ms = none }
    ∷ record { status = "healthy"; latency_ms = some 20 }
    ∷ []

latencies : extract_latencies runs ≡ 12 ∷ 20 ∷ []
unfolding extract_latencies
latencies = refl

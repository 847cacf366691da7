-- ===== src/Aggregation/Counts.antt =====
-- healthcheck-backend/src/aggregation-utils.ts: the statuses and latencies of a list of runs.
pub mod Laws
mod Tests
use checkmate.Prelude.{ℕ, suc, String, List, [], ◌∷◌, Option, none, some, if◌then◌else◌}
use checkmate.Prelude.Text.{◌===◌}

-- A run as these functions take it: any text may stand for the status.
pub record StatusRun : Type 0 where
  pub status : String
  pub latency_ms : Option ℕ

pub record StatusCounts : Type 0 where
  pub healthy_count : ℕ
  pub degraded_count : ℕ
  pub unhealthy_count : ℕ

-- The `switch` in the loop of `countStatuses`.
unfoldable pub count_status : String → StatusCounts → StatusCounts
count_status status c =
    if status === "healthy"
    then record c { healthy_count = suc c.healthy_count }
    else if status === "degraded"
    then record c { degraded_count = suc c.degraded_count }
    else if status === "unhealthy"
    then record c { unhealthy_count = suc c.unhealthy_count }
    else c

unfoldable pub count_loop : StatusCounts → List StatusRun → StatusCounts
count_loop c [] = c
count_loop c (r ∷ runs) = count_loop (count_status r.status c) runs

unfoldable pub count_statuses : List StatusRun → StatusCounts
unfolding count_loop
count_statuses runs =
    count_loop (record { healthy_count = 0; degraded_count = 0; unhealthy_count = 0 }) runs

unfoldable pub extract_latencies : List StatusRun → List ℕ
extract_latencies [] = []
extract_latencies (r ∷ runs) =
    let rest = extract_latencies runs in elim r.latency_ms [ none ↦ rest | some l ↦ l ∷ rest ]

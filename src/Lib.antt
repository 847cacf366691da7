-- ===== src/Lib.antt =====
-- Checkmate is a modular monitoring platform: a backend that loads plugins, checks the health of
-- systems through the queue, keeps their states, and serves a typed RPC interface in which every
-- call passes an access middleware. This library models its core logic in plain functions and
-- proves what makes it correct.
--
-- The parts and the files that model them:
--
-- - Prelude: shared names, Boolean tests, lists (`filter`, `some`, `every`, `find` of the source's
--   arrays), text equality, the stable sort `toSorted`, and JavaScript's `Map`.
-- - Access: who may call what. `Access.Rule` has core/common/src/access-utils.ts (`access`,
--   `accessPair`, `qualifyAccessRuleId`) and the procedure metadata of core/common/src/types.ts.
--   `Access.Value` has the untyped values of requests and responses. `Access.Procedure`,
--   `Access.Authorize`, `Access.Filter` and `Access.Middleware` are `autoAuthMiddleware` of
--   core/backend-api/src/rpc.ts: the rules a procedure needs, the steps before its handler
--   (`authorize`), the filtering of its answer (`post_filter`), and the whole (`run_rules`,
--   `auto_auth_middleware`). The middleware calls the auth plugin through the record `AuthService`,
--   whose calls may fail (`none`). `Access.Teams` has the endpoints behind these calls
--   (core/auth-backend/src/router.ts: `checkResourceTeamAccess`, `getAccessibleResourceIds` and the
--   handlers that change grants and settings), over the tables of core/auth-backend/src/schema.ts
--   as lists of rows. `Access.Middleware.Lists` puts the two together.
-- - Integration: the delivery of events to webhooks, of core/integration-backend/src.
--   `Integration.Tables` has the tables of schema.ts, `Integration.Subscriptions` which of them want
--   an event, `Integration.Attempts` and `Integration.Delivery` the rest of delivery-coordinator.ts
--   (`routeEvent`, `executeDelivery`, `retryDelivery`), where the queue may refuse a job, and
--   `Integration.Delivery.Worker` its consumer over a queue that gives its jobs in any order, runs
--   one that throws again and drops it after its retries (plugins/queue-memory-backend/src/
--   memory-queue.ts, `processJob`).
-- - Outages: the maintenances and incidents of systems. `Outages.Tables` has the tables of
--   core/maintenance-backend/src/schema.ts and core/incident-backend/src/schema.ts, with their
--   references and cascades, and the statements that the two services share (in both service.ts:
--   `addUpdate`, the deletion, the change of a status); `Outages.Maintenances` has the rest of
--   `MaintenanceService` and the job of core/maintenance-backend/src/index.ts, `Outages.Incidents`
--   that of `IncidentService`. `Outages.Maintained` and `Outages.Resolved` have their histories.
-- - Config: core/backend-api/src/config-versioning.ts, the migration of stored records. A schema is
--   a function that may refuse a value, a migration a function that may throw; the types of all
--   versions are one type `T`.
-- - Health: core/healthcheck-backend/src/state-evaluator.ts, from the latest runs of a check to its
--   status, with the thresholds of core/healthcheck-common/src/schemas.ts.
-- - Queue: plugins/queue-memory-backend/src/memory-queue.ts. `Queue.Memory.State` has the state of
--   the queue and its semaphore, `Queue.Memory.Processing` `processNext` and `processJob`,
--   `Queue.Memory.Operations` the methods. The asynchronous code is cut at its `await`s into
--   `Event`s that the event loop runs one at a time in any order; the clock, new ids, and whether a
--   handler throws are inputs of the events. `Queue.Memory.Recurring` has the recurring jobs and
--   their timers, over that queue. `Queue.Interface` has what a proxy uses of
--   core/queue-api/src/queue.ts, with a law on the consumers that `Queue.Memory.Consumers` fills for
--   the in-memory queue. `Queue.Proxy` has core/backend/src/services/queue-proxy.ts and `getQueue` of
--   queue-manager.ts beside it.
-- - Events: core/backend/src/services/event-bus.ts. `Events.Groups` has the modes of a subscription
--   and the worker groups, `Events.Bus` the bus, whose channels are the proxies of `Queue.Proxy` over
--   any implementation of the interface.
-- - History: the stored history of the checks, in core/healthcheck-backend/src. `History.Tables` has
--   the tables of schema.ts with their unique index, `History.Realtime` (with `History.Digest` and
--   `History.Collectors`) `incrementHourlyAggregate` of realtime-aggregation.ts, `History.Rollup` and
--   `History.Retention` the job of retention-job.ts. Both work on the table of aggregates, and
--   `History.Recording` puts them together as sequences of `HistoryEvent`s. The t-digest library,
--   the `Date` methods, the collectors and the ids that the database makes are parameters.
-- - Plugins: `Plugins.Sorter` has core/backend/src/plugin-manager/dependency-sorter.ts, the order in
--   which the plugins are initialised. `Plugins.Extensions` has extension-points.ts beside it, the
--   calls that wait for an implementation.
-- - Aggregation: the statistics of many runs. `Aggregation.Incremental` has
--   core/backend-api/src/incremental-aggregation.ts, `Aggregation.Counts`,
--   `Aggregation.Tiers` and `Aggregation.Combine` have the counts of statuses, the merging of
--   buckets of several tiers and their combination (`countStatuses`, `mergeTieredBuckets` and
--   `combineBuckets` of core/healthcheck-backend/src/aggregation-utils.ts).
--
-- Numbers are natural numbers: versions, priorities, times in milliseconds and counters; none of
-- the modelled code computes below zero. Rounded quotients are exact (`round_ratio`). Loops are
-- structural recursion on the list they run over. Only the loop over the queue of `sortPlugins` is
-- recursion on fuel: it gets as much as there are plugins with an in-degree, each of which is taken
-- at most once.
--
-- Not modelled: user interfaces, plugins that only talk to the network or to third parties, the
-- database and RPC libraries (their tables are lists of rows, their calls functions), log messages,
-- the operations that a proxy waits for before a switch, and the other services of the backend
-- (plugin loading, the rest of the aggregation, the connections of integrations, what the
-- routers do after a call of a service).
pub mod Prelude
pub mod Health
pub mod History
pub mod Access
pub mod Integration
pub mod Outages
pub mod Config
pub mod Queue
pub mod Aggregation
pub mod Plugins
pub mod Events

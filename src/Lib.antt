-- ===== src/Lib.antt =====
-- Verification of the posting service, a Go program that publishes advertising campaigns to Meta
-- for many ad accounts and watches what they spend. Its HTTP API writes rows, a scheduler and the
-- API enqueue jobs, and workers claim jobs from PostgreSQL, call Meta and write outcomes back.
-- All interaction of the parts goes through the database, so the development models the tables
-- as lists of rows and each transaction as one function of them. An operation by one statement
-- is a test on the rows and an update of those that its WHERE clause selects (Sql).
--
-- - Prelude, Sql: shared names, numbers, lists; UPDATE, SELECT and unique keys over lists.
-- - Schema: the rows and status columns (internal/domain/models.go, internal/domain/types.go).
-- - Queue: internal/platform/database/job_repository.go. Queue.antt has `Claim` with its sweep of
--   jobs whose last lease expired; Queue/Leases has `ExtendLease`, `Complete`, `Fail`, `Cancel`
--   and `Enqueue`. Queue/Steps makes each a step of a relation on databases, and a history is a
--   sequence of such steps by any workers and clients. Each transaction takes the instant at
--   which it runs; the rows that other transactions have locked are a parameter of `Claim`.
-- - Retry: `RetryDelay` (internal/domain/types.go) on int64 nanoseconds, wrap-around written out.
-- - Batch: internal/platform/database/batch_repository.go. Batch.antt has the aggregation of a
--   batch from its account results; Batch/Outcome has how one account result ends.
-- - Json: the documents that internal/meta/schemas.go and internal/application/batches_shared.go
--   edit; a map is the list of its fields.
-- - Publish: publishing one account result. Publish.antt has the specs, their validation and payloads
--   (internal/meta/schemas.go), Publish/Model and Publish/Launch `PublishAccount`
--   (internal/meta/publisher.go), Publish/Reconcile, Publish/Attempt and Publish/Account
--   `PublishAccountResult` (internal/application/batches.go, internal/meta/reconciliation.go). The
--   repositories (Store), the Graph API (Graph) and the library's text functions (Texts) are records
--   of functions on a state of any type, so that each call may fail in any way; the calls that change
--   remote objects are logged in their order. A plan with a campaign tree is not modelled.
-- - Client: the retry loop of internal/meta/client.go, with as many rounds as retries and one.
-- - Insights: the daily insights of an account (internal/application/insights_daily.go,
--   internal/application/insights_jobs.go, internal/platform/database/ad_insight_repository.go,
--   internal/platform/database/insights_cursor_repository.go, internal/meta/insights_window.go). A day
--   is a number. Enqueue is a function of the service; a run of jobs is their repetition.
-- - Crypto: internal/platform/crypto/aesgcm.go over any AEAD cipher and any base64.
-- - Guard: internal/application/guards.go and internal/platform/database/guard_repository.go.
--   Guard.antt has the validation of a ladder of spend checkpoints; Guard/Evaluate has one
--   evaluation for one campaign, the record of its outcomes and the manual resume.
-- - Paging: internal/meta/pagination.go, over any service that answers pages. The walk has the
--   source's own limit of 10000 pages; shrinking runs on one unit of fuel more than the first limit,
--   which is enough since each round makes the limit smaller.
-- - Errors: internal/meta/errors.go, an error as a tree of what it wraps and joins.
-- - Usage: internal/meta/usage.go, the pressure of a reading and the worst of several.
-- - Worker: internal/worker/runner.go. Worker.antt has `dispatch`, Worker/Messages the stored error
--   text, Worker/Runner one job from its claim to its end over Queue, with Retry's delay. The ticks
--   of the lease timer are a list, each with what other transactions did since the last one.
-- - Scheduler: internal/worker/scheduler.go, one pass over the active connections, each request
--   through `Enqueue` of the schedule store to that of Queue; what others commit between two statements
--   is a parameter.
--
-- An identifier is a number and 0 is the nil UUID; an instant is a number of time units; JSON
-- columns are their text, and the decoders that read them are parameters. Floats are
-- any type with a comparison; what is used of it is a named hypothesis. Attempt
-- counters are unbounded numbers: they stay within `max_attempts`.
--
-- Not modelled: connection failures of PostgreSQL (but for Publish, whose Store may fail), the HTTP
-- API, the tickers of the scheduler, the Meta client's HTTP and JSON, campaign trees and the
-- launcher, the mapping of metrics, a spec that JSON cannot encode (raw fields come from JSON),
-- configuration, storage and the processes' wiring.
pub mod Prelude
pub mod Sql
pub mod Schema
pub mod Scheduler
pub mod Retry
pub mod Batch
pub mod Queue
pub mod Guard
pub mod Json
pub mod Errors
pub mod Insights
pub mod Publish
pub mod Paging
pub mod Usage
pub mod Crypto
pub mod Client
pub mod Worker

-- ===== src/Worker/Scope.antt =====
-- Which rows a dispatched job may touch (internal/worker/runner.go).
use meta_posting.Prelude.{ℕ, ◌<◌, ◌≡◌, ◌⊎◌, none, some}
use meta_posting.Schema.{Job}
use meta_posting.Worker.{
  sync_connection, publish_account_result, collect_insights, run_ad_entities_job,
  evaluate_due_guards, sync_tracker_stats, run_account_insights_job, run_backfill_insights_job,
  run_repair_insight_gaps_job, run_windowed_reach_job, run_retention_sweep_job, Dispatched, call,
  rejected,
}

-- A connection is named, and a job that belongs to a connection belongs to this one.
abbrev pub Names : Job → ℕ → Type 0
Names job c = (0 < c) × ((job.connection_id ≡ none) ⊎ (job.connection_id ≡ some c))

abbrev pub Suits : Job → Dispatched → Type 0
Suits job (rejected e) = Unit
Suits job (call (sync_connection c)) = Names job c
Suits job (call (collect_insights c)) = Names job c
Suits job (call (evaluate_due_guards (some c))) = Names job c
Suits job (call (evaluate_due_guards none)) = job.connection_id ≡ none
Suits job (call (publish_account_result r)) = 0 < r
Suits job (call (run_ad_entities_job a)) = 0 < a
Suits job (call (run_account_insights_job p)) = 0 < p.ad_account_id
Suits job (call (run_backfill_insights_job p)) = 0 < p.ad_account_id
Suits job (call (run_repair_insight_gaps_job p)) = 0 < p.ad_account_id
Suits job (call (run_windowed_reach_job p)) = 0 < p.ad_account_id
Suits job (call sync_tracker_stats) = Unit
Suits job (call (run_retention_sweep_job p)) = Unit

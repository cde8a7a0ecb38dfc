-- ===== src/Worker.antt =====
-- What a worker runs for a claimed job (internal/worker/runner.go, dispatch). The JSON decoders of
-- the payloads are parameters; a missing identifier reads as 0, the nil UUID.
pub mod Messages
pub mod Runner
pub mod Scope
pub mod Outcomes
mod Tests
use meta_posting.Prelude.{
  ℕ, String, Bool, true, false, not, Option, none, some, ◌==◌, str_eq, if◌then◌else◌,
}
use meta_posting.Prelude.Int.{ℤ}
use meta_posting.Schema.{Job}

-- `AccountInsightsJobPayload`.
pub record AccountInsights : Type 0 where
  pub ad_account_id : ℕ
  pub level : String
  pub since : String
  pub until : String
  pub reason : String

-- `BackfillInsightsJobPayload`.
pub record Backfill : Type 0 where
  pub ad_account_id : ℕ
  pub level : String

-- `RepairInsightGapsJobPayload` and `WindowedReachJobPayload`.
pub record LevelRange : Type 0 where
  pub ad_account_id : ℕ
  pub level : String
  pub since : String
  pub until : String

-- `RetentionSweepJobPayload`.
pub record Retention : Type 0 where
  pub before : ℕ
  pub limit : ℤ

-- `Payload.Decode` into each payload type; `none` is a decoding error.
pub record Decoders : Type 0 where
  pub connection : String → Option ℕ
  pub result : String → Option ℕ
  pub guards : String → Option (Option ℕ)
  pub ad_entities : String → Option ℕ
  pub account_insights : String → Option AccountInsights
  pub backfill : String → Option Backfill
  pub level_range : String → Option LevelRange
  pub retention : String → Option Retention

-- The methods of `JobService`.
pub data Call : Type 0 where
  sync_connection publish_account_result collect_insights run_ad_entities_job : ℕ → Call
  evaluate_due_guards : Option ℕ → Call
  sync_tracker_stats : Call
  run_account_insights_job : AccountInsights → Call
  run_backfill_insights_job : Backfill → Call
  run_repair_insight_gaps_job run_windowed_reach_job : LevelRange → Call
  run_retention_sweep_job : Retention → Call

pub data PayloadError : Type 0 where
  payload_empty payload_malformed result_id_required connection_id_required : PayloadError
  connection_mismatch ad_account_id_required unsupported_type : PayloadError

pub data Dispatched : Type 0 where
  call : Call → Dispatched
  rejected : PayloadError → Dispatched

-- `decodeJobPayload`, and what follows when it succeeds.
unfoldable pub decode_job_payload :
    {A : Type 0} → (String → Option A) → Job → (A → Dispatched) → Dispatched
decode_job_payload decode job next =
    if str_eq job.payload ""
    then rejected payload_empty
    else elim (decode job.payload) [ none ↦ rejected payload_malformed | some a ↦ next a ]

abbrev pub mismatched : Option ℕ → ℕ → Bool
mismatched none connection = false
mismatched (some c) connection = not (c == connection)

-- `validateConnectionPayload`, and what follows when it succeeds.
unfoldable pub validate_connection_payload : Job → ℕ → Dispatched → Dispatched
validate_connection_payload job connection next =
    if connection == 0
    then rejected connection_id_required
    else if mismatched job.connection_id connection
    then rejected connection_mismatch
    else next

-- `validateAdAccountPayload`, and what follows when it succeeds.
unfoldable pub validate_ad_account_payload : ℕ → Dispatched → Dispatched
validate_ad_account_payload ad_account next =
    if ad_account == 0 then rejected ad_account_id_required else next

abbrev pub guards_of : Job → Option ℕ → Dispatched
guards_of job (some connection) =
    validate_connection_payload job connection (call (evaluate_due_guards (some connection)))
guards_of job none = elim job.connection_id [
  | some _ ↦ rejected connection_id_required
  | none ↦ call (evaluate_due_guards none)
]

abbrev pub published : ℕ → Dispatched
published result =
    if result == 0 then rejected result_id_required else call (publish_account_result result)

-- `dispatch`: which method a job calls.
unfoldable pub dispatch : Decoders → Job → Dispatched
unfolding decode_job_payload validate_connection_payload validate_ad_account_payload
dispatch d job =
    if str_eq job.job_type "sync_connection"
    then decode_job_payload d.connection job
        (λ c. validate_connection_payload job c (call (sync_connection c)))
    else if str_eq job.job_type "publish_account"
    then decode_job_payload d.result job published
    else if str_eq job.job_type "collect_insights"
    then decode_job_payload d.connection job
        (λ c. validate_connection_payload job c (call (collect_insights c)))
    else if str_eq job.job_type "sync_tracker"
    then call sync_tracker_stats
    else if str_eq job.job_type "evaluate_guards"
    then decode_job_payload d.guards job (guards_of job)
    else if str_eq job.job_type "sync_ad_entities"
    then decode_job_payload d.ad_entities job
        (λ a. validate_ad_account_payload a (call (run_ad_entities_job a)))
    else if str_eq job.job_type "collect_account_insights"
    then decode_job_payload d.account_insights job
        (λ p. validate_ad_account_payload p.ad_account_id (call (run_account_insights_job p)))
    else if str_eq job.job_type "backfill_insights"
    then decode_job_payload d.backfill job
        (λ p. validate_ad_account_payload p.ad_account_id (call (run_backfill_insights_job p)))
    else if str_eq job.job_type "repair_insight_gaps"
    then decode_job_payload d.level_range job
        (λ p. validate_ad_account_payload p.ad_account_id (call (run_repair_insight_gaps_job p)))
    else if str_eq job.job_type "collect_windowed_reach"
    then decode_job_payload d.level_range job
        (λ p. validate_ad_account_payload p.ad_account_id (call (run_windowed_reach_job p)))
    else if str_eq job.job_type "retention_sweep"
    then decode_job_payload d.retention job (λ p. call (run_retention_sweep_job p))
    else rejected unsupported_type

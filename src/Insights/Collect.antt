-- ===== src/Insights/Collect.antt =====
-- Collecting the daily insights of one ad account: one pass, one chunk of history, and the repair of
-- gaps (internal/application/insights_daily.go). Meta and the other tables are an interface over a
-- state `S`; the four tables of insights are lists. A failing statement on these is not modelled.
use meta_posting.Prelude.{
  ℕ, suc, ◌-◌, ◌/◌, max, String, Bool, true, false, Option, none, some, List, [], ◌∷◌, ◌++◌, ◌==◌,
  ltb, if◌then◌else◌, length,
}
use meta_posting.Sql.{find_where}
use meta_posting.Errors.{Error, GraphError}
use meta_posting.Publish.Model.{Answer, answered, refused}
use meta_posting.Publish.Records.{access_token_error, join_errors}
use meta_posting.Publish.Backend.{AdAccount}
use meta_posting.Insights.{
  Level, DailyRow, SyncState, Tables, each_day, mark_coverage, missing_dates, oldest_covered,
  upsert_daily, is_state_of, ensure_state, advance_synced_through, set_backfilled_through,
  record_failure,
}
use meta_posting.Insights.Ranges.{contiguous_ranges}

-- `fetch_daily` is refused if Meta's answer is an error; an answer is the rows that
-- `dailyInsightFromRow` makes of it, or the error of a row that it cannot read. `today` is the account's
-- calendar day; `not_found` is the error for a missing state row, `invalid` that for a payload.
-- `enqueue_backfill_job` is Enqueue for a connection's job under the key of the account, the level and
-- the minute; a row that is there under the key is no error.
pub record Source (S : Type 0) : Type 0 where
  pub get_ad_account : ℕ → S → Answer AdAccount
  pub access_token : ℕ → S → S × Answer String
  pub fetch_daily : String → Level → ℕ → ℕ → S → S × Answer (Answer (List DailyRow))
  pub enqueue_backfill_job : ℕ → ℕ → Level → ℕ → S → S × Option Error
  pub mark_connection_expired : ℕ → GraphError → S → S × Option Error
  pub today : ℕ → S → ℕ
  pub short_text : Error → String
  pub not_found : Error
  pub invalid : Error

pub record World (S : Type 0) : Type 0 where
  pub state : S
  pub tables : Tables

-- `AccountInsightsRequest`.
pub record Request : Type 0 where
  pub ad_account_id : ℕ
  pub level : Level
  pub since : ℕ
  pub until : ℕ
  pub advance_watermark : Bool

-- How many of the rows are of a day.
unfoldable pub count_rows : ℕ → List DailyRow → ℕ
count_rows day [] = 0
count_rows day (r ∷ rs) = let rest = count_rows day rs in if r.date == day then suc rest else rest

-- The map `counts`: the days of the rows, and every day of the range.
unfoldable pub counts_of : List DailyRow → List ℕ → List (ℕ × ℕ)
unfolding count_rows
counts_of rows [] = []
counts_of rows (day ∷ days) = (day, count_rows day rows) ∷ counts_of rows days

abbrev pub dates_of : List DailyRow → List ℕ
dates_of [] = []
dates_of (r ∷ rs) = r.date ∷ dates_of rs

module _ {S : Type 0} (source : Source S) (now : ℕ) where
  abbrev pub with_sync : (List SyncState → List SyncState) → World S → World S
  with_sync f w = record w { tables = record w.tables { sync = f w.tables.sync } }

  -- The rows are stored, and every day of the range is marked as fetched.
  unfoldable pub store_rows : ℕ → Request → List DailyRow → World S → World S
  unfolding upsert_daily mark_coverage counts_of each_day advance_synced_through
  store_rows id request rows w =
      let days = each_day request.since request.until in
      let sync = w.tables.sync in
      record w {
        tables = record {
          daily = upsert_daily rows w.tables.daily;
          coverage =
              mark_coverage id request.level (counts_of rows (dates_of rows ++ days)) now
                w.tables.coverage;
          sync =
              if request.advance_watermark
              then advance_synced_through id request.level request.until sync
              else sync;
        };
      }

  abbrev pub failure_kept : Request → Error → World S → World S × Option Error
  failure_kept request e w =
      (with_sync (record_failure request.ad_account_id (source.short_text e)) w, some e)

  abbrev pub expired_then : Error → World S → S × Option Error → World S × Option Error
  expired_then e w (s, failure) = (record w { state = s }, join_errors (some e ∷ failure ∷ []))

  abbrev pub fetched :
      Request → AdAccount → World S → S × Answer (Answer (List DailyRow)) → World S × Option Error
  fetched request account w (s, answered (refused e)) = (record w { state = s }, some e)
  fetched request account w (s, answered (answered rows)) =
      (store_rows account.id request rows (record w { state = s }), none)
  fetched request account w (s, refused e) = elim (access_token_error e) [
    | some g ↦
        expired_then e (record w { state = s })
          (source.mark_connection_expired account.connection_id g s)
    | none ↦ failure_kept request e (record w { state = s })
  ]

  abbrev pub with_token : Request → AdAccount → World S → S × Answer String → World S × Option Error
  with_token request account w (s, refused e) = (record w { state = s }, some e)
  with_token request account w (s, answered token) =
      fetched request account (record w { state = s })
        (source.fetch_daily account.account_id request.level request.since request.until s)

  abbrev pub with_account : Request → World S → Answer AdAccount → World S × Option Error
  with_account request w (refused e) = (w, some e)
  with_account request w (answered account) =
      with_token request account (with_sync (ensure_state account.id account.connection_id none) w)
        (source.access_token account.connection_id w.state)

  -- `CollectAccountInsights`.
  unfoldable pub collect_account_insights : Request → World S → World S × Option Error
  unfolding store_rows record_failure access_token_error ensure_state
  collect_account_insights request w =
      with_account request w (source.get_ad_account request.ad_account_id w.state)

  abbrev pub max_gap_repair_days : ℕ
  max_gap_repair_days = 30

  abbrev pub range_request : ℕ → Level → ℕ × ℕ → Request
  range_request id level (since, until) = record {
    ad_account_id = id;
    level = level;
    since = since;
    until = until;
    advance_watermark = false;
  }

  -- What follows a range of the repair.
  abbrev pub next_range :
      (World S → World S × Option Error) → World S × Option Error → World S × Option Error
  next_range next (w, some e) = (w, some e)
  next_range next (w, none) = next w

  unfoldable pub repair_ranges : ℕ → Level → List (ℕ × ℕ) → World S → World S × Option Error
  unfolding collect_account_insights
  repair_ranges id level [] w = (w, none)
  repair_ranges id level (range ∷ ranges) w =
      next_range (repair_ranges id level ranges)
        (collect_account_insights (range_request id level range) w)

  abbrev pub repaired : ℕ → World S × Option Error → World S × Answer ℕ
  repaired n (w, some e) = (w, refused e)
  repaired n (w, none) = (w, answered n)

  -- `RepairInsightGaps`: how many ranges were fetched.
  unfoldable pub repair_insight_gaps : ℕ → Level → ℕ → ℕ → World S → World S × Answer ℕ
  unfolding missing_dates contiguous_ranges repair_ranges
  repair_insight_gaps id level since until w =
      let ranges =
        contiguous_ranges (missing_dates id level since until w.tables.coverage)
          max_gap_repair_days in
      repaired (length ranges) (repair_ranges id level ranges w)

  -- `backfillChunkDays`.
  unfoldable pub backfill_chunk_days : Level → ℕ
  backfill_chunk_days Level.account = 30
  backfill_chunk_days Level.campaign = 30
  backfill_chunk_days Level.ad_set = 14
  backfill_chunk_days Level.ad = 7

  -- The day before the oldest that is covered, or before today.
  abbrev pub last_uncovered : ℕ → Option ℕ → ℕ
  last_uncovered today none = today - 1
  last_uncovered today (some oldest) = oldest - 1

  abbrev pub chunk_from : ℕ → Level → ℕ → Option (ℕ × ℕ)
  chunk_from target level until =
      if ltb until target
      then none
      else some (max target (until - (backfill_chunk_days level - 1)), until)

  abbrev pub chunk_for : ℕ → Level → World S → Option ℕ → Answer (Option (ℕ × ℕ))
  chunk_for id level w none = answered none
  chunk_for id level w (some target) =
      let oldest = oldest_covered id level w.tables.coverage in
      elim oldest [
        | some day ↦ answered (chunk_from target level (day - 1))
        | none ↦ elim (source.get_ad_account id w.state) [
          | refused e ↦ refused e
          | answered account ↦ answered (chunk_from target level (source.today id w.state - 1))
        ]
      ]

  -- `BackfillChunk`; `none` once the target is reached.
  unfoldable pub backfill_chunk : ℕ → Level → World S → Answer (Option (ℕ × ℕ))
  unfolding find_where oldest_covered backfill_chunk_days
  backfill_chunk id level w = elim (find_where (is_state_of id) w.tables.sync) [
    | none ↦ refused source.not_found
    | some s ↦ chunk_for id level w s.backfill_target_date
  ]

  abbrev pub backfilled : ℕ → ℕ → World S × Option Error → World S × Answer Bool
  backfilled id since (w, some e) = (w, refused e)
  backfilled id since (w, none) = (with_sync (set_backfilled_through id since) w, answered true)

  abbrev pub chunk_fetched : ℕ → Level → World S → Answer (Option (ℕ × ℕ)) → World S × Answer Bool
  chunk_fetched id level w (refused e) = (w, refused e)
  chunk_fetched id level w (answered none) = (w, answered false)
  chunk_fetched id level w (answered (some (since, until))) =
      backfilled id since (collect_account_insights (range_request id level (since, until)) w)

  -- `BackfillAccountInsights`: whether a chunk was fetched.
  unfoldable pub backfill_account_insights : ℕ → Level → World S → World S × Answer Bool
  unfolding backfill_chunk collect_account_insights set_backfilled_through
  backfill_account_insights id level w = chunk_fetched id level w (backfill_chunk id level w)

  abbrev pub enqueued : World S → S × Option Error → World S × Option Error
  enqueued w (s, e) = (record w { state = s }, e)

  abbrev pub enqueue_for : ℕ → Level → World S → Answer AdAccount → World S × Option Error
  enqueue_for id level w (refused e) = (w, some e)
  enqueue_for id level w (answered account) =
      enqueued w (source.enqueue_backfill_job account.connection_id id level (now / 60) w.state)

  -- `EnqueueBackfillInsights`; an instant counts seconds.
  unfoldable pub enqueue_backfill_insights : ℕ → Level → World S → World S × Option Error
  enqueue_backfill_insights id level w = enqueue_for id level w (source.get_ad_account id w.state)

  abbrev pub after_chunk : ℕ → Level → World S × Answer Bool → World S × Option Error
  after_chunk id level (w, refused e) = (w, some e)
  after_chunk id level (w, answered false) = (w, none)
  after_chunk id level (w, answered true) = enqueue_backfill_insights id level w

  abbrev pub with_level : ℕ → World S → Option Level → World S × Option Error
  with_level id w none = (w, some source.invalid)
  with_level id w (some level) = after_chunk id level (backfill_account_insights id level w)

  -- `RunBackfillInsightsJob`; a level that is not supported is `none`.
  unfoldable pub run_backfill_insights_job : ℕ → Option Level → World S → World S × Option Error
  unfolding backfill_account_insights enqueue_backfill_insights
  run_backfill_insights_job id level w =
      if id == 0 then (w, some source.invalid) else with_level id w level

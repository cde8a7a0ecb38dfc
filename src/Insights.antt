-- ===== src/Insights.antt =====
-- The daily insights of ad accounts: the days that were fetched, and how missing days are found
-- (internal/platform/database/ad_insight_repository.go, internal/meta/insights_window.go,
-- internal/domain/insights_daily.go). A day is its number; 0 comes before every day that occurs.
pub mod Ranges
pub mod Covered
pub mod Marked
pub mod Collect
pub mod Rotation
pub mod Repair
pub mod Chunk
pub mod Backfill
mod Tests
use meta_posting.Prelude.{
  ℕ, zero, suc, ◌+◌, ◌-◌, max, min, String, Bool, true, false, not, ◌&&◌, Option, none, some, List,
  [], ◌∷◌, ◌++◌, ◌==◌, leb, ltb, str_eq, if◌then◌else◌,
}
use meta_posting.Sql.{update_where, any_row, find_where}

-- `InsightLevel`.
pub data Level : Type 0 where
  account campaign ad_set ad : Level

abbrev pub same_level : Level → Level → Bool
same_level Level.account Level.account = true
same_level Level.campaign Level.campaign = true
same_level Level.ad_set Level.ad_set = true
same_level Level.ad Level.ad = true
same_level _ _ = false

-- `AdInsightCoverage`.
pub record Coverage : Type 0 where
  pub ad_account_id : ℕ
  pub level : Level
  pub date : ℕ
  pub row_count : ℕ
  pub fetched_at : ℕ

-- `AdInsightDaily`: its unique key, and the rest as a text.
pub record DailyRow : Type 0 where
  pub ad_account_id : ℕ
  pub level : Level
  pub meta_object_id : String
  pub date : ℕ
  pub metrics : String

-- `AdAccountSyncState`, the columns that the collection writes.
pub record SyncState : Type 0 where
  pub ad_account_id : ℕ
  pub connection_id : ℕ
  pub backfill_target_date : Option ℕ
  pub backfilled_through : Option ℕ
  pub synced_through : Level → Option ℕ
  pub consecutive_failures : ℕ
  pub last_error : String

pub record Tables : Type 0 where
  pub coverage : List Coverage
  pub daily : List DailyRow
  pub sync : List SyncState

-- `EachDay`, as many days from the first on as there are.
unfoldable pub days_from : ℕ → ℕ → List ℕ
days_from day zero = []
days_from day (suc n) = day ∷ days_from (suc day) n

unfoldable pub each_day : ℕ → ℕ → List ℕ
unfolding days_from
each_day since until = days_from since (suc until - since)

abbrev pub is_for : ℕ → Level → ℕ → Coverage → Bool
is_for id level day c = (c.ad_account_id == id) && (same_level c.level level && (c.date == day))

-- `ON CONFLICT (ad_account_id, level, date) DO UPDATE`.
unfoldable pub upsert_coverage : Coverage → List Coverage → List Coverage
unfolding any_row update_where
upsert_coverage c rows =
    let same = is_for c.ad_account_id c.level c.date in
    if any_row same rows
    then update_where same
        (λ old. record old { row_count = c.row_count; fetched_at = c.fetched_at }) rows
    else rows ++ c ∷ []

-- `MarkCoverage`, from the days and the counts of their rows.
unfoldable pub mark_coverage : ℕ → Level → List (ℕ × ℕ) → ℕ → List Coverage → List Coverage
unfolding upsert_coverage
mark_coverage id level [] now rows = rows
mark_coverage id level ((day, count) ∷ counts) now rows = mark_coverage id level counts now (
    upsert_coverage
      (record {
        ad_account_id = id;
        level = level;
        date = day;
        row_count = count;
        fetched_at = now;
      })
      rows)

abbrev pub is_covered : ℕ → Level → List Coverage → ℕ → Bool
is_covered id level rows day = any_row (is_for id level day) rows

unfoldable pub uncovered : ℕ → Level → List Coverage → List ℕ → List ℕ
unfolding any_row
uncovered id level rows [] = []
uncovered id level rows (day ∷ days) =
    let rest = uncovered id level rows days in
    if is_covered id level rows day then rest else day ∷ rest

-- `MissingDates`.
unfoldable pub missing_dates : ℕ → Level → ℕ → ℕ → List Coverage → List ℕ
unfolding uncovered each_day
missing_dates id level since until rows = uncovered id level rows (each_day since until)

abbrev pub earlier : ℕ → Option ℕ → Option ℕ
earlier day none = some day
earlier day (some other) = some (min day other)

-- The oldest day of `CoverageBounds`.
unfoldable pub oldest_covered : ℕ → Level → List Coverage → Option ℕ
oldest_covered id level [] = none
oldest_covered id level (c ∷ cs) =
    let rest = oldest_covered id level cs in
    if (c.ad_account_id == id) && same_level c.level level then earlier c.date rest else rest

abbrev pub same_daily : DailyRow → DailyRow → Bool
same_daily a b =
    (a.ad_account_id == b.ad_account_id)
    && (same_level a.level b.level
        && (str_eq a.meta_object_id b.meta_object_id && (a.date == b.date)))

-- `UpsertDaily`.
unfoldable pub upsert_daily : List DailyRow → List DailyRow → List DailyRow
unfolding any_row update_where
upsert_daily [] rows = rows
upsert_daily (r ∷ rs) rows = upsert_daily rs (
    if any_row (same_daily r) rows
    then update_where (same_daily r) (λ old. r) rows
    else rows ++ r ∷ [])

abbrev pub is_state_of : ℕ → SyncState → Bool
is_state_of id s = s.ad_account_id == id

abbrev pub no_watermarks : Level → Option ℕ
no_watermarks level = none

-- `Ensure`: the row of the account is inserted unless there is one.
unfoldable pub ensure_state : ℕ → ℕ → Option ℕ → List SyncState → List SyncState
unfolding any_row
ensure_state id connection target rows =
    if any_row (is_state_of id) rows
    then rows
    else rows
      ++ record {
        ad_account_id = id;
        connection_id = connection;
        backfill_target_date = target;
        backfilled_through = none;
        synced_through = no_watermarks;
        consecutive_failures = 0;
        last_error = "";
      }
        ∷ []

abbrev pub later : Option ℕ → ℕ → Option ℕ
later none day = some day
later (some other) day = some (max other day)

abbrev pub advanced : Level → ℕ → SyncState → SyncState
advanced level day s = record s {
  synced_through =
      λ l. if same_level l level then later (s.synced_through l) day else s.synced_through l;
  consecutive_failures = 0;
  last_error = "";
}

-- `AdvanceSyncedThrough`, which never moves a watermark back.
unfoldable pub advance_synced_through : ℕ → Level → ℕ → List SyncState → List SyncState
unfolding update_where
advance_synced_through id level day rows = update_where (is_state_of id) (advanced level day) rows

abbrev pub reached_back : ℕ → SyncState → SyncState
reached_back day s = record s { backfilled_through = earlier day s.backfilled_through }

-- `SetBackfilledThrough`, which never moves it forward.
unfoldable pub set_backfilled_through : ℕ → ℕ → List SyncState → List SyncState
unfolding update_where
set_backfilled_through id day rows = update_where (is_state_of id) (reached_back day) rows

abbrev pub failed_again : String → SyncState → SyncState
failed_again message s = record s {
  consecutive_failures = suc s.consecutive_failures;
  last_error = message;
}

-- `RecordFailure`.
unfoldable pub record_failure : ℕ → String → List SyncState → List SyncState
unfolding update_where
record_failure id message rows = update_where (is_state_of id) (failed_again message) rows

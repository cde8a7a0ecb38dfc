-- ===== src/Batch.antt =====
-- The batches and the results of their accounts
-- (internal/platform/database/batch_repository.go): one transaction is one function, which returns
-- the new tables or, rolled back, an error.
pub mod Outcome
pub mod Frame
pub mod Totals
pub mod Tests
use meta_posting.Prelude.{
  ℕ, suc, ◌+◌, max, String, Bool, true, false, ◌&&◌, ◌||◌, Option, none, some, List, [], ◌∷◌, ◌++◌,
  map, ◌==◌, ltb, str_eq, if◌then◌else◌, length,
}
use meta_posting.Sql.{update_where, any_row, count_where, select_where, find_key}
use meta_posting.Schema.{
  batch_key, result_key, AccountStatus, BatchStatus, AccountResult, Batch, ObjectType,
  PublishedObject, Database, Result, ok, err, record_not_found, duplicated_key, object_required,
  ◌>>=◌,
}
use meta_posting.Schema.Account

-- What one account result holds when it is handed to `Create`: an empty status means pending.
pub record NewResult : Type 0 where
  pub row : AccountResult
  pub status : Option AccountStatus

abbrev status_or_pending : Option AccountStatus → AccountStatus
status_or_pending none = AccountStatus.pending
status_or_pending (some s) = s

abbrev pub new_row : ℕ → NewResult → AccountResult
new_row batch_id r =
    let row = r.row in record row { batch_id = batch_id; status = status_or_pending r.status }

-- The unique index on (connection_id, idempotency_key).
abbrev pub same_batch_key : Batch → Batch → Bool
same_batch_key a b =
    (a.connection_id == b.connection_id) && str_eq a.idempotency_key b.idempotency_key

-- The unique index on (batch_id, ad_account_id) among the rows to insert.
unfoldable pub repeats_account : List NewResult → Bool
repeats_account [] = false
repeats_account (r ∷ rs) =
    any_row (λ s. let x = s.row in let y = r.row in x.ad_account_id == y.ad_account_id) rs
    || repeats_account rs

unfoldable pub create : Batch → List NewResult → Database → Result Database
unfolding any_row repeats_account
create batch new db =
    let b = record batch { total_accounts = length new } in
    if any_row (same_batch_key b) db.batches || repeats_account new
    then err duplicated_key
    else ok (record db {
      batches = db.batches ++ b ∷ [];
      results = db.results ++ map (new_row batch.id) new;
    })

-- `FindByIdempotencyKey`.
unfoldable pub find_by_idempotency_key : ℕ → String → List Batch → Result Batch
find_by_idempotency_key connection key [] = err record_not_found
find_by_idempotency_key connection key (b ∷ bs) =
    let rest = find_by_idempotency_key connection key bs in
    if (b.connection_id == connection) && str_eq b.idempotency_key key then ok b else rest

-- How many results of a batch stand in each status, as the aggregate of `recalculateBatch` counts.
pub record Counts : Type 0 where
  pub succeeded : ℕ
  pub failed : ℕ
  pub pending : ℕ
  pub running : ℕ

abbrev pub of_batch : ℕ → (AccountStatus → Bool) → AccountResult → Bool
of_batch batch p r = (r.batch_id == batch) && p r.status

unfoldable pub counts : ℕ → List AccountResult → Counts
unfolding count_where
counts batch results = record {
  succeeded = count_where (of_batch batch Account.is_succeeded) results;
  failed = count_where (of_batch batch Account.is_failed) results;
  pending = count_where (of_batch batch Account.is_pending) results;
  running = count_where (of_batch batch Account.is_running) results;
}

-- The `CASE` of the update.
unfoldable pub status_of : Counts → ℕ → BatchStatus → BatchStatus
status_of c total current =
    if ltb 0 c.pending || ltb 0 c.running
    then BatchStatus.running
    else if c.succeeded == total
    then BatchStatus.succeeded
    else if ltb 0 c.succeeded && ltb 0 c.failed
    then BatchStatus.partially_succeeded
    else if c.failed == total
    then BatchStatus.failed
    else current

unfoldable pub aggregated : Counts → ℕ → Batch → Batch
unfolding status_of
aggregated c now b = record b {
  succeeded_accounts = c.succeeded;
  failed_accounts = c.failed;
  status = status_of c b.total_accounts b.status;
  completed_at = if (c.pending == 0) && (c.running == 0) then some now else none;
  updated_at = now;
}

-- `recalculateBatch`, and `Recalculate`, which runs it in a transaction of its own.
unfoldable pub recalculate : ℕ → ℕ → Database → Result Database
unfolding aggregated counts find_key update_where
recalculate batch now db = elim (find_key batch_key batch db.batches) [
  | none ↦ err record_not_found
  | some _ ↦ ok (record db {
    batches =
        update_where (λ b. b.id == batch) (aggregated (counts batch db.results) now) db.batches;
  })
]

-- Statuses from which an account may be run (again).
abbrev pub is_runnable : AccountStatus → Bool
is_runnable AccountStatus.pending = true
is_runnable AccountStatus.failed = true
is_runnable AccountStatus.running = true
is_runnable _ = false

unfoldable pub started : ℕ → AccountResult → AccountResult
started now r = record r {
  status = AccountStatus.running;
  attempts = suc r.attempts;
  started_at = some (max r.created_at now);
  completed_at = none;
  error_code = "";
  error_subcode = "";
  error_message = "";
  updated_at = now;
}

abbrev coalesce : Option ℕ → ℕ → Option ℕ
coalesce none n = some n
coalesce (some m) n = some m

unfoldable pub restarted : ℕ → Batch → Batch
restarted now b = record b {
  status = BatchStatus.running;
  started_at = coalesce b.started_at (max b.created_at now);
  completed_at = none;
  updated_at = now;
}

-- The second update of `MarkAccountRunning`, on the batch of the result.
unfoldable pub restart_batch : ℕ → Database → Option AccountResult → Result Database
unfolding restarted any_row update_where
restart_batch now db none = err record_not_found
restart_batch now db (some r) =
    if any_row (λ b. b.id == r.batch_id) db.batches
    then ok
        (record db { batches = update_where (λ b. b.id == r.batch_id) (restarted now) db.batches })
    else err record_not_found

abbrev pub is_startable : ℕ → AccountResult → Bool
is_startable id r = (r.id == id) && is_runnable r.status

unfoldable pub mark_account_running : ℕ → ℕ → Database → Result Database
unfolding started restart_batch any_row update_where find_key
mark_account_running id now db =
    let results = update_where (is_startable id) (started now) db.results in
    if any_row (is_startable id) db.results
    then restart_batch now (record db { results = results }) (find_key result_key id results)
    else err record_not_found

-- The values of `SetStatus`.
abbrev pub with_status : BatchStatus → ℕ → Batch → Batch
with_status BatchStatus.running now b = record b {
  status = BatchStatus.running;
  updated_at = now;
  started_at = elim b.started_at [ none ↦ some now | some t ↦ some t ];
}
with_status BatchStatus.draft now b = record b { status = BatchStatus.draft; updated_at = now }
with_status BatchStatus.queued now b = record b { status = BatchStatus.queued; updated_at = now }
with_status status now b = record b { status = status; updated_at = now; completed_at = some now }

unfoldable pub set_status : ℕ → BatchStatus → ℕ → Database → Result Database
unfolding any_row update_where
set_status id status now db =
    if any_row (λ b. b.id == id) db.batches
    then ok
        (record db { batches = update_where (λ b. b.id == id) (with_status status now) db.batches })
    else err record_not_found

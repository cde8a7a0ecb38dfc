-- ===== src/Scheduler.antt =====
-- The scheduler's pass over the active connections (internal/worker/scheduler.go). The connections
-- are a list. An instant counts nanoseconds since the zero time of Go, in the year 1. `between` is what
-- others commit between two statements of a request, each of which is a transaction of its own.
pub mod Found
pub mod Again
pub mod Single
mod Tests
use meta_posting.Prelude.{
  ℕ, ◌-◌, ◌%◌, ◌/◌, String, Bool, true, false, ◌&&◌, ◌||◌, Option, none, some, List, [], ◌∷◌, ◌==◌,
  ltb, str_eq, if◌then◌else◌,
}
use meta_posting.Prelude.Int.{ℤ}
use meta_posting.Schema.{
  Job, JobStatus, Database, DbError, Result, ok, err, duplicated_key, is_active,
}
use meta_posting.Queue.Leases.{Request, same_connection, enqueue}

abbrev pub is_recurring_job : String → Bool
is_recurring_job t = str_eq t "collect_insights" || str_eq t "evaluate_guards"

abbrev pub is_active_recurring : ℕ → String → Job → Bool
is_active_recurring id t x =
    same_connection (some id) x.connection_id && (str_eq x.job_type t && is_active x.status)

-- `ORDER BY created_at ASC, id ASC`.
abbrev pub is_created_before : Job → Job → Bool
is_created_before a b =
    ltb a.created_at b.created_at || (a.created_at == b.created_at && ltb a.id b.id)

abbrev pub first_of : Job → Option Job → Option Job
first_of x none = some x
first_of x (some y) = if is_created_before y x then some y else some x

unfoldable pub first_where : (Job → Bool) → List Job → Option Job
first_where p [] = none
first_where p (x ∷ xs) = let rest = first_where p xs in if p x then first_of x rest else rest

-- `activeRecurringJob`, for a job of a connection and of a recurring type; `none` also stands for the
-- record that is not found.
unfoldable pub active_recurring_job : Job → Database → Option Job
unfolding first_where
active_recurring_job job db = elim job.connection_id [
  | none ↦ none
  | some id ↦
      if is_recurring_job job.job_type
      then first_where (is_active_recurring id job.job_type) db.jobs
      else none
]

abbrev pub standing :
    Database → Option Job → Result (Database × (Job × Bool)) → Result (Database × (Job × Bool))
standing db (some existing) otherwise = ok (db, (existing, false))
standing db none otherwise = otherwise

module _ (between : Database → Database) where
  -- A refusal by the index of active jobs means that one is active already.
  abbrev pub coalesced :
      Job → Database → Result (Database × (Job × Bool)) → Result (Database × (Job × Bool))
  coalesced job db (ok done) = ok done
  coalesced job db (err duplicated_key) =
      standing (between db) (active_recurring_job job (between db)) (err duplicated_key)
  coalesced job db (err e) = err e

  -- `RepositoryScheduleStore.Enqueue`.
  unfoldable pub enqueue_scheduled : ℕ → Request → Database → Result (Database × (Job × Bool))
  unfolding active_recurring_job enqueue
  enqueue_scheduled now r db =
      standing db (active_recurring_job r.row db)
        (coalesced r.row (between db) (enqueue now r (between db)))

-- Why a connection has no job: the context is cancelled, or the store failed.
pub data Failure : Type 0 where
  interrupted : Failure
  not_enqueued : ℕ → DbError → Failure

-- `Truncate`: to a multiple of the interval since the zero time; an interval that is not positive
-- counts as 0.
abbrev pub truncated : ℕ → ℕ → ℕ
truncated now interval = if interval == 0 then now else now - now % interval

-- `scheduleBucket`, the Unix seconds that it prints, from 1970 on.
unfoldable pub schedule_bucket : ℕ → ℕ → ℕ
schedule_bucket now interval = truncated now interval / 1000000000 - 62135596800

-- `dedupe_text` joins the text of a connection, a colon and that of the bucket; `is_cancelled` says
-- whether the context is, at the turn of a connection.
pub record Pass : Type 0 where
  pub job_type : String
  pub interval : ℕ
  pub priority : ℤ
  pub max_attempts : ℤ
  pub payload : ℕ → String
  pub dedupe_text : ℕ → ℕ → String
  pub new_id : Database → ℕ
  pub is_cancelled : ℕ → Bool

module _ (pass : Pass) (between : Database → Database) where
  unfoldable pub scheduled_job : ℕ → ℕ → Database → Request
  unfolding schedule_bucket
  scheduled_job now id db = record {
    row = record {
      id = pass.new_id db;
      created_at = now;
      updated_at = now;
      connection_id = some id;
      job_type = pass.job_type;
      status = JobStatus.pending;
      priority = pass.priority;
      payload = pass.payload id;
      dedupe_key = some (pass.dedupe_text id (schedule_bucket now pass.interval));
      attempts = 0;
      max_attempts = 0;
      available_at = now;
      locked_by = "";
      locked_at = none;
      locked_until = none;
      last_error = "";
      finished_at = none;
    };
    status = some JobStatus.pending;
    available_at = some now;
    max_attempts = pass.max_attempts;
  }

  -- What follows the request for one connection.
  abbrev pub then_others :
      ℕ
      → (Database → Database × List Failure)
      → Database
      → Result (Database × (Job × Bool))
      → Database × List Failure
  then_others id next db (ok (db', made)) = next db'
  then_others id next db (err e) =
      let (db', failures) = next (between db) in (db', not_enqueued id e ∷ failures)

  -- `scheduleForActiveConnections`, with the failures that it joins.
  unfoldable pub schedule_for_active_connections : ℕ → List ℕ → Database → Database × List Failure
  unfolding enqueue_scheduled scheduled_job
  schedule_for_active_connections now [] db = (db, [])
  schedule_for_active_connections now (id ∷ ids) db =
      let others =
        then_others id (schedule_for_active_connections now ids) db
          (enqueue_scheduled between now (scheduled_job now id db) db) in
      if pass.is_cancelled id then (db, interrupted ∷ []) else others

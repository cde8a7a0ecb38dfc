-- ===== src/Queue/Leases.antt =====
-- What a worker does with a claimed job, and what a client does with any job
-- (internal/platform/database/job_repository.go).
use meta_posting.Prelude.{
  ℕ, ◌+◌, String, Bool, true, false, ◌&&◌, ◌||◌, Option, none, some, [], ◌∷◌, ◌++◌, ◌==◌, ltb, leb,
  str_eq, if◌then◌else◌,
}
use meta_posting.Prelude.Int.{ℤ, pos, ltb_ℤ, pos_part}
use meta_posting.Sql.{update_where, any_row, find_key, find_where}
use meta_posting.Schema.{
  job_key, Job, JobStatus, Database, Result, ok, err, record_not_found, lease_lost,
  lease_not_positive, duplicated_key, is_running, is_active,
}
use meta_posting.Queue.{Decoder, finalize_dead}

-- `locked_until > now`.
abbrev pub is_live : ℕ → Option ℕ → Bool
is_live now none = false
is_live now (some t) = ltb now t

-- The row is running, locked by this worker, on a lease that has not expired.
abbrev pub holds : String → ℕ → Job → Bool
holds worker now j =
    is_running j.status && (str_eq j.locked_by worker && is_live now j.locked_until)

abbrev pub is_held : ℕ → String → ℕ → Job → Bool
is_held id worker now j = (j.id == id) && holds worker now j

abbrev pub extended : ℕ → ℕ → Job → Job
extended lease now j = record j { locked_until = some (now + lease); updated_at = now }

unfoldable pub extend_lease : ℕ → String → ℤ → ℕ → Database → Result Database
unfolding any_row update_where
extend_lease id worker lease now db =
    if ltb_ℤ (pos 0) lease
    then (if any_row (is_held id worker now) db.jobs
        then ok (record db {
          jobs = update_where (is_held id worker now) (extended (pos_part lease) now) db.jobs;
        })
        else err lease_lost)
    else err lease_not_positive

abbrev pub completed : ℕ → Job → Job
completed now j = record j {
  status = JobStatus.succeeded;
  locked_by = "";
  locked_at = none;
  locked_until = none;
  last_error = "";
  finished_at = some now;
  updated_at = now;
}

unfoldable pub complete : ℕ → String → ℕ → Database → Result Database
unfolding any_row update_where
complete id worker now db =
    if any_row (is_held id worker now) db.jobs
    then ok (record db { jobs = update_where (is_held id worker now) (completed now) db.jobs })
    else err lease_lost

-- The row that `Fail` writes: dead if the attempts are used up, else pending again.
abbrev pub failed_row : String → ℤ → ℕ → Job → Job
failed_row message retry_delay now j =
    if leb j.max_attempts j.attempts
    then record j {
      status = JobStatus.dead;
      locked_by = "";
      locked_at = none;
      locked_until = none;
      last_error = message;
      finished_at = some now;
      updated_at = now;
    }
    else record j {
      status = JobStatus.pending;
      available_at = now + pos_part retry_delay;
      locked_by = "";
      locked_at = none;
      locked_until = none;
      last_error = message;
      finished_at = none;
      updated_at = now;
    }

-- The part of `Fail` behind the lock test: the dead job's account result is closed with it.
unfoldable pub fail_held : Decoder → String → ℤ → ℕ → Job → Database → Result Database
unfolding update_where finalize_dead
fail_held decode message retry_delay now job db =
    let written = record db {
      jobs = update_where (λ j. j.id == job.id) (failed_row message retry_delay now) db.jobs;
    } in
    if leb job.max_attempts job.attempts
    then finalize_dead decode job message now written
    else ok written

abbrev pub with_row : Job → Result Database → Result (Database × Job)
with_row j (ok db) = ok (db, j)
with_row j (err e) = err e

unfoldable pub fail : Decoder → ℕ → String → String → ℤ → ℕ → Database → Result (Database × Job)
unfolding fail_held find_key
fail decode id worker message retry_delay now db = elim (find_key job_key id db.jobs) [
  | none ↦ err record_not_found
  | some job ↦
      if holds worker now job
      then with_row (failed_row message retry_delay now job)
          (fail_held decode message retry_delay now job db)
      else err lease_lost
]

abbrev pub cancelled : ℕ → Job → Job
cancelled now j = record j {
  status = JobStatus.cancelled;
  locked_by = "";
  locked_at = none;
  locked_until = none;
  finished_at = some now;
  updated_at = now;
}

abbrev pub is_cancellable : ℕ → Job → Bool
is_cancellable id j = (j.id == id) && is_active j.status

unfoldable pub cancel : ℕ → ℕ → Database → Result Database
unfolding any_row update_where
cancel id now db =
    if any_row (is_cancellable id) db.jobs
    then ok (record db { jobs = update_where (is_cancellable id) (cancelled now) db.jobs })
    else err record_not_found

-- The unique index on (type, dedupe_key), which speaks of rows with a key only.
abbrev pub same_dedupe : String → String → Job → Bool
same_dedupe job_type key j = elim j.dedupe_key [
  | none ↦ false
  | some k ↦ str_eq j.job_type job_type && str_eq k key
]

-- What a caller hands to `Enqueue`: an empty status, a zero time and a maximum that is not
-- positive are filled in.
pub record Request : Type 0 where
  pub row : Job
  pub status : Option JobStatus
  pub available_at : Option ℕ
  pub max_attempts : ℤ

abbrev or_pending : Option JobStatus → JobStatus
or_pending none = JobStatus.pending
or_pending (some s) = s

abbrev or_now : ℕ → Option ℕ → ℕ
or_now now none = now
or_now now (some t) = t

unfoldable pub filled : ℕ → Request → Job
filled now r =
    let row = r.row in
    record row {
      status = or_pending r.status;
      available_at = or_now now r.available_at;
      max_attempts = (if ltb_ℤ (pos 0) r.max_attempts then pos_part r.max_attempts else 5);
    }

-- The partial unique index of migrations/00003: one active job of each of these types for a
-- connection.
abbrev pub is_indexed_type : String → Bool
is_indexed_type t = str_eq t "collect_insights" || str_eq t "evaluate_rules"

abbrev pub same_connection : Option ℕ → Option ℕ → Bool
same_connection (some a) (some b) = a == b
same_connection _ _ = false

abbrev pub same_recurring : Job → Job → Bool
same_recurring job x =
    same_connection job.connection_id x.connection_id
    && (str_eq x.job_type job.job_type && is_active x.status)

unfoldable pub insert_job : Job → Database → Result (Database × (Job × Bool))
unfolding any_row
insert_job job db =
    if is_active job.status
      && (is_indexed_type job.job_type && any_row (same_recurring job) db.jobs)
    then err duplicated_key
    else ok (record db { jobs = db.jobs ++ job ∷ [] }, (job, true))

-- `Enqueue`: the row that stands for the request, and whether it was created.
unfoldable pub enqueue : ℕ → Request → Database → Result (Database × (Job × Bool))
unfolding filled find_where insert_job
enqueue now r db =
    let job = filled now r in
    elim job.dedupe_key [
      | none ↦ insert_job job db
      | some key ↦ elim (find_where (same_dedupe job.job_type key) db.jobs) [
        | none ↦ insert_job job db
        | some existing ↦ ok (db, (existing, false))
      ]
    ]

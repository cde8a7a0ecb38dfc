-- ===== src/Queue.antt =====
-- The job queue (internal/platform/database/job_repository.go). The JSON decoder that reads a
-- publish job's `result_id` is a parameter.
pub mod Leases
pub mod Order
pub mod Claims
pub mod Invariant
pub mod Steps
pub mod Handouts
pub mod Lifecycle
mod Tests
pub mod Dead
mod DeadTests
use meta_posting.Prelude.{
  ℕ, suc, ◌+◌, String, Bool, true, false, ◌&&◌, ◌||◌, not, Option, none, some, List, [], ◌∷◌, ◌++◌,
  ◌==◌, ltb, leb, str_eq, if◌then◌else◌, max,
}
use meta_posting.Prelude.Int.{ℤ, pos, ltb_ℤ, pos_part}
use meta_posting.Sql.{update_where, any_row, select_where, find_key, find_where}
use meta_posting.Schema.{
  result_key, Job, JobStatus, AccountStatus, AccountResult, Database, Result, ok, err,
  record_not_found, lease_lost, worker_id_required, lease_not_positive,
  insert_ignored_without_dedupe_key, ◌>>=◌, is_pending, is_running, is_active,
}
use meta_posting.Schema.Account
use meta_posting.Batch.{recalculate}

-- The type of `Job.Payload.Decode` into a struct with a `result_id`; `none` is a decoding error.
abbrev pub Decoder : Type 0
Decoder = String → Option ℕ

abbrev pub expired_text : String
expired_text = "worker lease expired after final attempt"

-- `locked_until <= now`; NULL is no time.
abbrev pub lapsed : ℕ → Option ℕ → Bool
lapsed now none = false
lapsed now (some t) = leb t now

-- `deadPublishAccountResultID`.
abbrev not_nil : ℕ → Option ℕ
not_nil id = if id == 0 then none else some id

abbrev decoded : Option ℕ → Option ℕ
decoded none = none
decoded (some id) = not_nil id

unfoldable pub dead_result_id : Decoder → Job → Option ℕ
dead_result_id decode job =
    if str_eq job.job_type "publish_account" && not (str_eq job.payload "")
    then decoded (decode job.payload)
    else none

abbrev pub message_or_expired : String → String
message_or_expired m = if str_eq m "" then expired_text else m

abbrev pub is_open_result : ℕ → AccountResult → Bool
is_open_result id r = (r.id == id) && Account.is_open r.status

unfoldable pub exhausted : String → ℕ → AccountResult → AccountResult
exhausted message now r = record r {
  status = AccountStatus.failed;
  error_code = "job_attempts_exhausted";
  error_subcode = "";
  error_message = message;
  completed_at = some (max r.created_at now);
  updated_at = now;
}

-- `finalizeDeadPublishAccountResult` once the payload names a result.
unfoldable pub close_result : ℕ → String → ℕ → Database → Result Database
unfolding find_key update_where exhausted recalculate
close_result id message now db = elim (find_key result_key id db.results) [
  | none ↦ ok db
  | some r ↦ recalculate r.batch_id now (record db {
    results =
        (if Account.is_open r.status
          then update_where (is_open_result id) (exhausted (message_or_expired message) now)
              db.results
          else db.results);
  })
]

unfoldable pub finalize_dead : Decoder → Job → String → ℕ → Database → Result Database
unfolding dead_result_id close_result
finalize_dead decode job message now db = elim (dead_result_id decode job) [
  | none ↦ ok db
  | some id ↦ close_result id message now db
]

unfoldable pub finalize_all : Decoder → List Job → ℕ → Database → Result Database
unfolding finalize_dead
finalize_all decode [] now db = ok db
finalize_all decode (j ∷ js) now db =
    finalize_dead decode j j.last_error now db >>= finalize_all decode js now

-- A running job whose final lease has expired, and what the sweep of `Claim` makes of it.
abbrev pub is_spent : ℕ → Job → Bool
is_spent now j = is_running j.status && (lapsed now j.locked_until && leb j.max_attempts j.attempts)

abbrev pub buried : ℕ → Job → Job
buried now j = record j {
  status = JobStatus.dead;
  locked_by = "";
  locked_at = none;
  locked_until = none;
  finished_at = some now;
  last_error = (if str_eq j.last_error "" then expired_text else j.last_error);
  updated_at = now;
}

unfoldable pub sweep : Decoder → ℕ → Database → Result Database
unfolding update_where select_where finalize_all
sweep decode now db =
    let dead = update_where (λ _. true) (buried now) (select_where (is_spent now) db.jobs) in
    finalize_all decode dead now
      (record db { jobs = update_where (is_spent now) (buried now) db.jobs })

-- Due: pending and available, or running on an expired lease, with attempts left.
abbrev pub is_due : ℕ → Job → Bool
is_due now j =
    (is_pending j.status && leb j.available_at now
      || is_running j.status && lapsed now j.locked_until)
    && ltb j.attempts j.max_attempts

-- `ORDER BY priority DESC, available_at ASC, created_at ASC, id ASC`.
unfoldable pub before : Job → Job → Bool
before a b =
    if ltb_ℤ b.priority a.priority
    then true
    else if ltb_ℤ a.priority b.priority
    then false
    else if ltb a.available_at b.available_at
    then true
    else if ltb b.available_at a.available_at
    then false
    else if ltb a.created_at b.created_at
    then true
    else if ltb b.created_at a.created_at
    then false
    else ltb a.id b.id

-- `LIMIT 1`.
abbrev pub earlier : Job → Option Job → Option Job
earlier j none = some j
earlier j (some k) = if before k j then some k else some j

-- `locked` is the rows that other transactions hold, which SKIP LOCKED passes over.
abbrev pub is_candidate : (ℕ → Bool) → ℕ → Job → Bool
is_candidate locked now j = is_due now j && not (locked j.id)

unfoldable pub candidate : (ℕ → Bool) → ℕ → List Job → Option Job
unfolding before
candidate locked now [] = none
candidate locked now (j ∷ js) =
    let best = candidate locked now js in if is_candidate locked now j then earlier j best else best

abbrev pub leased : String → ℕ → ℕ → Job → Job
leased worker lease now j = record j {
  status = JobStatus.running;
  attempts = suc j.attempts;
  locked_by = worker;
  locked_at = some now;
  locked_until = some (now + lease);
  finished_at = none;
  updated_at = now;
}

unfoldable pub take_candidate : (ℕ → Bool) → String → ℕ → ℕ → Database → Database × Result Job
unfolding candidate update_where
take_candidate locked worker lease now db = elim (candidate locked now db.jobs) [
  | none ↦ (db, err record_not_found)
  | some c ↦ (
    record db { jobs = update_where (λ j. j.id == c.id) (leased worker lease now) db.jobs },
    ok (leased worker lease now c),
  )
]

-- A sweep that fails is rolled back with the transaction.
abbrev pub after_sweep :
    (Database → Database × Result Job) → Database → Result Database → Database × Result Job
after_sweep take db (ok swept) = take swept
after_sweep take db (err e) = (db, err e)

-- `Claim`. The sweep is committed also when no job is due.
unfoldable pub claim : Decoder → (ℕ → Bool) → String → ℤ → ℕ → Database → Database × Result Job
unfolding sweep take_candidate
claim decode locked worker lease now db =
    if str_eq worker ""
    then (db, err worker_id_required)
    else if ltb_ℤ (pos 0) lease
    then after_sweep (take_candidate locked worker (pos_part lease) now) db (sweep decode now db)
    else (db, err lease_not_positive)

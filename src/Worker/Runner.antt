-- ===== src/Worker/Runner.antt =====
-- One job from its claim to its end (internal/worker/runner.go). The handler works on the database
-- by transactions of its own; while it runs, the lease is extended at each tick of a timer.
use meta_posting.Prelude.{ℕ, String, Bool, Option, none, some, List, [], ◌∷◌, if◌then◌else◌}
use meta_posting.Prelude.Int.{ℤ, pos, ltb_ℤ}
use meta_posting.Schema.{Job, Database, DbError, Result, ok, err, record_not_found}
use meta_posting.Retry.{positive_or, retry_delay}
use meta_posting.Queue.{Decoder, claim}
use meta_posting.Queue.Leases.{extend_lease, complete, fail}
use meta_posting.Worker.{Decoders, Call, PayloadError, Dispatched, call, rejected, dispatch}
use meta_posting.Worker.Messages.{truncate_message}

-- `RunnerOptions`, without the clock, the timer and the logger.
pub record Options : Type 0 where
  pub worker_id : String
  pub poll_interval : ℤ
  pub lease_duration : ℤ
  pub retry_base_delay : ℤ
  pub retry_max_delay : ℤ
  pub cleanup_timeout : ℤ
  pub max_error_bytes : ℤ

pub data OptionsError : Type 0 where
  runner_worker_id_required runner_lease_not_positive : OptionsError

pub data Built : Type 0 where
  runner : Options → Built
  unusable : OptionsError → Built

-- `NewRunner` with a service and a store; `is_blank` says that nothing is left of a trimmed text.
unfoldable pub new_runner : (String → Bool) → Options → Built
new_runner is_blank options =
    if is_blank options.worker_id
    then unusable runner_worker_id_required
    else if ltb_ℤ (pos 0) options.lease_duration
    then runner (record options {
      poll_interval = positive_or (pos 2000000000) options.poll_interval;
      retry_base_delay = positive_or (pos 5000000000) options.retry_base_delay;
      retry_max_delay = positive_or (pos 900000000000) options.retry_max_delay;
      cleanup_timeout = positive_or (pos 10000000000) options.cleanup_timeout;
      max_error_bytes = positive_or (pos 4096) options.max_error_bytes;
    })
    else unusable runner_lease_not_positive

-- What the worker is given: the texts' bytes, the decoders, the handlers, which return an error's
-- text, and the texts of payload errors.
pub record Service : Type 0 where
  pub decode_result : Decoder
  pub decoders : Decoders
  pub run : Call → Database → Database × Option String
  pub payload_message : Job → PayloadError → String
  pub bytes : String → List ℕ
  pub text : List ℕ → String
  pub valid_string : List ℕ → Bool
  pub to_valid : List ℕ → List ℕ

-- A tick of the lease timer: what other transactions, the handler's among them, have done since the
-- last one, and the instant.
pub record Tick : Type 0 where
  pub meanwhile : Database → Database
  pub at : ℕ

-- `maintainLease` over the ticks before the handler returns; it ends at the first error.
unfoldable pub maintain_lease : Options → Job → List Tick → Database → Database × Option DbError
unfolding extend_lease
maintain_lease options job [] db = (db, none)
maintain_lease options job (t ∷ ts) db =
    elim (extend_lease job.id options.worker_id options.lease_duration t.at (t.meanwhile db)) [
      | err e ↦ (t.meanwhile db, some e)
      | ok db' ↦ maintain_lease options job ts db'
    ]

-- What `ProcessOne` reports.
pub data Outcome : Type 0 where
  idle completed_job failed_job : Outcome
  claim_error lease_error complete_error : DbError → Outcome
  fail_error : String → DbError → Outcome

abbrev pub handled : Service → Job → Dispatched → Database → Database × Option String
handled service job (rejected e) db = (db, some (service.payload_message job e))
handled service job (call c) db = service.run c db

abbrev pub after_complete : Database → Result Database → Database × Outcome
after_complete db (ok db') = (db', completed_job)
after_complete db (err e) = (db, complete_error e)

abbrev pub after_fail : String → Database → Result (Database × Job) → Database × Outcome
after_fail message db (ok (db', job)) = (db', failed_job)
after_fail message db (err e) = (db, fail_error message e)

-- The text that is stored for an error.
abbrev pub stored : Service → Options → String → String
stored service options message = service.text (
    truncate_message service.valid_string service.to_valid (service.bytes message)
      options.max_error_bytes)

module _ (service : Service) (options : Options) where
  -- The end of a job whose lease was kept.
  unfoldable pub settle_job : Job → ℕ → Option String → Database → Database × Outcome
  unfolding complete fail retry_delay
  settle_job job now none db = after_complete db (complete job.id options.worker_id now db)
  settle_job job now (some message) db = after_fail message db (
      fail service.decode_result job.id options.worker_id (stored service options message)
        (retry_delay (pos job.attempts) options.retry_base_delay options.retry_max_delay) now db)

  abbrev pub ended : Job → ℕ → Option DbError → Database × Option String → Database × Outcome
  ended job now (some lost) (db, message) = (db, lease_error lost)
  ended job now none (db, message) = settle_job job now message db

  -- `processClaimed`.
  unfoldable pub process_claimed : Job → List Tick → ℕ → Database → Database × Outcome
  unfolding maintain_lease dispatch settle_job
  process_claimed job ticks now db =
      let (db', lost) = maintain_lease options job ticks db in
      ended job now lost (handled service job (dispatch service.decoders job) db')

  abbrev pub after_claim : List Tick → ℕ → Database × Result Job → Database × Outcome
  after_claim ticks now (db, err record_not_found) = (db, idle)
  after_claim ticks now (db, err e) = (db, claim_error e)
  after_claim ticks now (db, ok job) = process_claimed job ticks now db

  -- `ProcessOne`, claiming at `start` and settling at `now`.
  unfoldable pub process_one : (ℕ → Bool) → ℕ → List Tick → ℕ → Database → Database × Outcome
  unfolding claim process_claimed
  process_one locked start ticks now db =
      after_claim ticks now
        (claim service.decode_result locked options.worker_id options.lease_duration start db)

-- ===== src/Worker/Outcomes.antt =====
-- What is in the queue when a worker has ended a job (internal/worker/runner.go).
use meta_posting.Prelude.{ℕ, ◌+◌, ◌-◌, ◌*◌, ◌^◌, ◌≤◌, ◌<◌, min, String, ◌≡◌, ◌⊎◌, some}
use meta_posting.Prelude.Int.{pos_part}
use meta_posting.Sql.{find_key}
use meta_posting.Schema.{job_key, Job, JobStatus, Database}
use meta_posting.Retry.{hour, second, positive_or}
use meta_posting.Worker.{Dispatched, call, rejected}
use meta_posting.Worker.Runner.{Options, Service, stored}

-- How a row stands after a failed attempt: dead, or due again after a delay.
abbrev pub Rescheduled : ℕ → ℕ → Job → Type 0
Rescheduled now delay k =
    ((k.status ≡ JobStatus.dead) × (k.max_attempts ≤ k.attempts))
    ⊎ ((k.status ≡ JobStatus.pending)
        × (k.attempts < k.max_attempts)
        × (k.available_at ≡ now + delay))

module _ (service : Service) (options : Options) where
  -- The delay before the next try.
  abbrev pub delay_of : Job → ℕ
  delay_of job =
      min (pos_part (positive_or hour options.retry_max_delay))
        (pos_part (positive_or second options.retry_base_delay) * 2 ^ (job.attempts - 1))

  abbrev pub FailedRow : Job → ℕ → String → Database → Type 0
  FailedRow job now message db =
      (k : Job) × (find_key job_key job.id db.jobs ≡ some k)
      × Rescheduled now (delay_of job) k
      × (k.locked_by ≡ "")
      × (k.last_error ≡ stored service options message)

  -- The error of a job: of its payload, or of the handler, which finds the database `db`.
  abbrev pub Fails : Job → Dispatched → Database → String → Type 0
  Fails job (rejected e) db message = message ≡ service.payload_message job e
  Fails job (call c) db message = (service.run c db).1 ≡ some message

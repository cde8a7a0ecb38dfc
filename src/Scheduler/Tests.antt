-- ===== src/Scheduler/Tests.antt =====
-- Passes of the scheduler over two connections (internal/worker/scheduler.go).
use meta_posting.Prelude.{
  ℕ, ◌+◌, ◌*◌, inl, ◌==◌, ◌≡◌, refl, false, Bool, arith, [], ◌∷◌, if◌then◌else◌,
}
use meta_posting.Prelude.Int.{pos}
use meta_posting.Sql.{count_where}
use meta_posting.Schema.{Job, Database}
use meta_posting.Queue.Leases.{Request, filled}
use meta_posting.Scheduler.{
  Pass, schedule_for_active_connections, schedule_bucket, scheduled_job, enqueue_scheduled,
}
use meta_posting.Scheduler.Found.{unshared}
use meta_posting.Scheduler.Again.{schedule_for_active_connections-again}
use meta_posting.Scheduler.Single.{AtMostOne, enqueue_scheduled_le}

-- 15 minutes begin 1784808900 seconds after the start of 1970.
abbrev at_start : ℕ
at_start = (62135596800 + 1784808900 + 100) * 1000000000

abbrev five_later : ℕ
five_later = at_start + 300 * 1000000000

abbrev ten_later : ℕ
ten_later = at_start + 600 * 1000000000

bucket_of_start : schedule_bucket at_start 900000000000 ≡ 1784808900
unfolding schedule_bucket
bucket_of_start = refl

abbrev insights_pass : Pass
insights_pass = record {
  job_type = "collect_insights";
  interval = 900000000000;
  priority = pos 20;
  max_attempts = pos 5;
  payload = λ id. "";
  dedupe_text = λ id bucket. if id == 1 then "one" else "two";
  new_id = λ db. 7;
  is_cancelled = λ id. false;
}

abbrev no_rows : Database
no_rows = record { jobs = []; results = []; batches = []; objects = [] }

abbrev first_pass : Database
first_pass =
    (schedule_for_active_connections insights_pass unshared at_start (1 ∷ 2 ∷ []) no_rows).0

schedule_for_active_connections-again_example :
    schedule_for_active_connections insights_pass unshared five_later (1 ∷ 2 ∷ []) first_pass
    ≡ (first_pass, [])
unfolding schedule_for_active_connections schedule_bucket
schedule_for_active_connections-again_example =
    schedule_for_active_connections-again insights_pass at_start five_later (1 ∷ 2 ∷ []) no_rows
      first_pass refl refl

abbrev second_request : Request
second_request = scheduled_job insights_pass unshared ten_later 1 first_pass

abbrev answered_again : Database × (Job × Bool)
answered_again =
    (first_pass, (filled at_start (scheduled_job insights_pass unshared at_start 1 no_rows), false))

enqueue_scheduled_le_example : AtMostOne 1 "collect_insights" first_pass
unfolding schedule_for_active_connections schedule_bucket enqueue_scheduled count_where
    scheduled_job filled
enqueue_scheduled_le_example =
    enqueue_scheduled_le 1 "collect_insights" ten_later second_request first_pass first_pass
      answered_again.1 (inl refl) (omega arith) refl

-- ===== src/Worker/Tests.antt =====
-- A worker with one running job, and the theorems at this input.
use meta_posting.Prelude.{
  ℕ, ◌≤◌, ◌<◌, Bool, true, ◌≡◌, refl, none, some, List, [], ◌∷◌, length, not, ◌==◌, arith,
}
use meta_posting.Prelude.Int.{pos}
use meta_posting.Schema.{Job, JobStatus, Database}
use meta_posting.Worker.{Decoders, rejected, connection_mismatch, dispatch}
use meta_posting.Worker.Messages.{IsLongest, truncate_message, truncate_message-IsLongest}
use meta_posting.Worker.Runner.{Options, Service, Tick, process_claimed}

abbrev sync_job : Job
sync_job = record {
  id = 4;
  created_at = 1;
  updated_at = 1;
  connection_id = some 2;
  job_type = "sync_connection";
  status = JobStatus.running;
  priority = pos 0;
  payload = "{}";
  dedupe_key = none;
  attempts = 1;
  max_attempts = 3;
  available_at = 5;
  locked_by = "worker-a";
  locked_at = some 6;
  locked_until = some 30;
  last_error = "";
  finished_at = none;
}

-- Every payload names connection 9.
abbrev decoders : Decoders
decoders = record {
  connection = λ p. some 9;
  result = λ p. none;
  guards = λ p. none;
  ad_entities = λ p. none;
  account_insights = λ p. none;
  backfill = λ p. none;
  level_range = λ p. none;
  retention = λ p. none;
}

rejects_other_connection : dispatch decoders sync_job ≡ rejected connection_mismatch
unfolding dispatch
rejects_other_connection = refl

-- A text is valid unless it is one byte, and every text is repaired to one of two bytes.
abbrev two_byte : List ℕ → Bool
two_byte bs = not (length bs == 1)

abbrev repaired : List ℕ → List ℕ
repaired bs = 7 ∷ 8 ∷ []

cut_before_broken : truncate_message two_byte repaired (9 ∷ []) (pos 1) ≡ []
unfolding truncate_message
cut_before_broken = refl

truncate_message-IsLongest_example :
    (two_byte (truncate_message two_byte repaired (9 ∷ []) (pos 1)) ≡ true)
    × (length (truncate_message two_byte repaired (9 ∷ []) (pos 1)) ≤ 1)
    × ((length (repaired (9 ∷ [])) ≤ 1
          → truncate_message two_byte repaired (9 ∷ []) (pos 1) ≡ repaired (9 ∷ []))
        × (1 < length (repaired (9 ∷ []))
            → IsLongest two_byte 1
                (repaired (9 ∷ []))
                (truncate_message two_byte repaired (9 ∷ []) (pos 1))))
truncate_message-IsLongest_example =
    truncate_message-IsLongest two_byte repaired (9 ∷ []) 1 refl (λ bs. refl) (omega arith)

abbrev service : Service
service = record {
  decode_result = λ p. none;
  decoders = decoders;
  run = λ c db. (db, none);
  payload_message = λ job e. "payload";
  bytes = λ s. 1 ∷ [];
  text = λ bs. "payload";
  valid_string = two_byte;
  to_valid = repaired;
}

abbrev options : Options
options = record {
  worker_id = "worker-a";
  poll_interval = pos 2;
  lease_duration = pos 20;
  retry_base_delay = pos 5;
  retry_max_delay = pos 900;
  cleanup_timeout = pos 10;
  max_error_bytes = pos 4096;
}

abbrev one_running : Database
one_running = record { jobs = sync_job ∷ []; results = []; batches = []; objects = [] }

abbrev one_tick : List Tick
one_tick = record { meanwhile = λ db. db; at = 12 } ∷ []

abbrev rescheduled : Database
rescheduled = (process_claimed service options sync_job one_tick 14 one_running).0

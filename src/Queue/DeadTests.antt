-- ===== src/Queue/DeadTests.antt =====
-- A publish job that fails for the last time, and the theorem at this input.
use meta_posting.Prelude.{true, false, ◌≡◌, refl, [], ◌∷◌, none, some}
use meta_posting.Prelude.Int.{pos}
use meta_posting.Sql.{find_key}
use meta_posting.Schema.{
  batch_key, result_key, Job, JobStatus, AccountResult, AccountStatus, Batch, Database,
}
use meta_posting.Schema.Account
use meta_posting.Batch.{recalculate, counts, aggregated}
use meta_posting.Batch.Totals.{Reflects}
use meta_posting.Batch.Tests.{account_row, running_batch}
use meta_posting.Queue.{Decoder, close_result, dead_result_id, finalize_dead}
use meta_posting.Queue.Leases.{fail, failed_row}
use meta_posting.Queue.Dead.{fail-closes, closed_row}

abbrev second_result : Decoder
second_result payload = some 2

abbrev last_try : Job
last_try = record {
  id = 8;
  created_at = 1;
  updated_at = 1;
  connection_id = some 1;
  job_type = "publish_account";
  status = JobStatus.running;
  priority = pos 10;
  payload = "{\"result_id\":2}";
  dedupe_key = none;
  attempts = 3;
  max_attempts = 3;
  available_at = 5;
  locked_by = "worker-a";
  locked_at = some 6;
  locked_until = some 30;
  last_error = "";
  finished_at = none;
}

abbrev failing : Database
failing = record {
  jobs = last_try ∷ [];
  results = account_row 1 AccountStatus.succeeded ∷ account_row 2 AccountStatus.running ∷ [];
  batches = running_batch ∷ [];
  objects = [];
}

abbrev closed_results : Database
closed_results = record failing {
  results =
      account_row 1 AccountStatus.succeeded
      ∷ closed_row "no budget" 9 (account_row 2 AccountStatus.running)
      ∷ [];
}

abbrev failed_for_good : Database
failed_for_good = record closed_results {
  jobs = failed_row "no budget" (pos 5) 9 last_try ∷ [];
  batches = aggregated (counts 1 closed_results.results) 9 running_batch ∷ [];
}

fail-closes_example :
    (r' : AccountResult) × (find_key result_key 2 failed_for_good.results ≡ some r')
    × (Account.is_open r'.status ≡ false)
    × (Account.is_open AccountStatus.running ≡ true → r'.status ≡ AccountStatus.failed)
    × ((b' : Batch) × (find_key batch_key 1 failed_for_good.batches ≡ some b')
        × Reflects b'.status 1 failed_for_good.results)
unfolding find_key fail finalize_dead dead_result_id close_result recalculate counts aggregated
fail-closes_example =
    fail-closes second_result 8 "worker-a" "no budget" (pos 5) 9 failing failed_for_good
      (failed_row "no budget" (pos 5) 9 last_try) 2 (account_row 2 AccountStatus.running)
      running_batch refl refl refl refl refl refl

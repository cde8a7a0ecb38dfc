-- ===== src/Batch/Tests.antt =====
-- A batch for two ad accounts, one published and one failed, and the theorem at this input.
use meta_posting.Prelude.{ℕ, ◌+◌, ◌≤◌, ◌≡◌, refl, ◌↔◌, [], ◌∷◌, none, some}
use meta_posting.Sql.{find_key}
use meta_posting.Schema.{batch_key, AccountResult, AccountStatus, Batch, BatchStatus, Database}
use meta_posting.Schema.Account
use meta_posting.Batch.{recalculate, counts, aggregated}
use meta_posting.Batch.Totals.{NoneOf, Reflects, recalculate-Reflects}

abbrev pub account_row : ℕ → AccountStatus → AccountResult
account_row id status = record {
  id = id;
  created_at = 1;
  updated_at = 1;
  batch_id = 1;
  ad_account_id = id;
  status = status;
  attempts = 1;
  request_json = "{}";
  response_json = "{}";
  error_code = "";
  error_subcode = "";
  error_message = "";
  started_at = some 2;
  completed_at = none;
}

abbrev pub running_batch : Batch
running_batch = record {
  id = 1;
  created_at = 1;
  updated_at = 1;
  connection_id = 1;
  name = "spring";
  status = BatchStatus.running;
  idempotency_key = "k";
  specification = "{}";
  total_accounts = 2;
  succeeded_accounts = 0;
  failed_accounts = 0;
  started_at = some 2;
  completed_at = none;
  created_by = "";
}

abbrev settled_accounts : Database
settled_accounts = record {
  jobs = [];
  results = account_row 1 AccountStatus.succeeded ∷ account_row 2 AccountStatus.failed ∷ [];
  batches = running_batch ∷ [];
  objects = [];
}

abbrev recalculated : Database
recalculated = record settled_accounts {
  batches = aggregated (counts 1 settled_accounts.results) 9 running_batch ∷ [];
}

ends_partially :
    (aggregated (counts 1 settled_accounts.results) 9 running_batch).status
    ≡ BatchStatus.partially_succeeded
unfolding counts aggregated
ends_partially = refl

recalculate-Reflects_example :
    (b' : Batch) × (find_key batch_key 1 recalculated.batches ≡ some b')
    × Reflects b'.status 1 recalculated.results
    × ((b'.completed_at ≡ none) ↔ (¬ NoneOf 1 Account.is_open recalculated.results))
    × (b'.succeeded_accounts + b'.failed_accounts ≤ b'.total_accounts)
unfolding find_key recalculate counts aggregated
recalculate-Reflects_example =
    recalculate-Reflects 1 9 settled_accounts recalculated running_batch refl refl refl

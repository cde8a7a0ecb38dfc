-- ===== src/Queue/Dead.antt =====
-- The account result of a publish job that dies (internal/platform/database/job_repository.go).
use meta_posting.Prelude.{
  ℕ, String, true, false, ◌&&◌, ◌≡◌, refl, inl, inr, some, ◌==◌, arith, ==_iff, Bool-cases,
  if◌then◌else◌, leb, ◌∙◌, sym,
}
use mathlib.Core.Path.{subst}
use meta_posting.Prelude.Int.{ℤ}
use meta_posting.Sql.{find_key, update_where}
use meta_posting.Sql.Laws.{find_key-update_where, find_key_key, count_where-update_where}
use meta_posting.Schema.{
  batch_key, result_key, Job, JobStatus, AccountStatus, AccountResult, Batch, Database, ok,
}
use meta_posting.Schema.Account
use meta_posting.Batch.{recalculate}
use meta_posting.Batch.Frame.{recalculate-results}
use meta_posting.Batch.Totals.{members, Reflects, recalculate-Reflects}
use meta_posting.Queue.{
  Decoder, message_or_expired, is_open_result, exhausted, close_result, finalize_dead,
  dead_result_id,
}
use meta_posting.Queue.Leases.{failed_row, fail_held, fail}
use meta_posting.Queue.Invariant.{fail-eq-ok}

-- The row of a result that its job's death closes.
abbrev pub closed_row : String → ℕ → AccountResult → AccountResult
closed_row message now r =
    if Account.is_open r.status then exhausted (message_or_expired message) now r else r

exhausted-id :
    (message : String) (now : ℕ) (r : AccountResult) → (exhausted message now r).id ≡ r.id
unfolding exhausted
exhausted-id message now r = refl

exhausted-batch :
    (message : String) (now batch : ℕ) (r : AccountResult)
    → (((exhausted message now r).batch_id == batch) && true) ≡ ((r.batch_id == batch) && true)
unfolding exhausted
exhausted-batch message now batch r = refl

module _ (id : ℕ) (message : String) (now : ℕ) (db db' : Database) (r : AccountResult)
    (found : find_key result_key id db.results ≡ some r)
    (done : close_result id message now db ≡ ok db') where
  abbrev closing : Database
  closing = record db {
    results =
        (if Account.is_open r.status
          then update_where (is_open_result id) (exhausted (message_or_expired message) now)
              db.results
          else db.results);
  }

  recalculated : recalculate r.batch_id now closing ≡ ok db'
  unfolding close_result
  recalculated = rw (found, close_result) at done

  closing_row : find_key result_key id closing.results ≡ some (closed_row message now r)
  closing_row = elim (Bool-cases (Account.is_open r.status)) [
    | inl running ↦
        rw
          (
            running,
            find_key-update_where result_key id (is_open_result id)
                (exhausted (message_or_expired message) now)
                (exhausted-id (message_or_expired message) now) db.results,
            found,
            (==_iff r.id id).1 (find_key_key result_key id db.results r found),
            running,
          )
          refl
    | inr settled ↦ rw settled found
  ]

  closing_members : members r.batch_id closing.results ≡ members r.batch_id db.results
  closing_members = elim (Bool-cases (Account.is_open r.status)) [
    | inl running ↦ rw running (
        count_where-update_where (is_open_result id) (λ x. (x.batch_id == r.batch_id) && true)
          (exhausted (message_or_expired message) now)
          (exhausted-batch (message_or_expired message) now r.batch_id) db.results)
    | inr settled ↦ rw settled
  ]

  -- The result is closed, and its batch is recalculated from the closed results.
  pub close_result-closes :
      (b : Batch)
      → find_key batch_key r.batch_id db.batches ≡ some b
      → b.total_accounts ≡ members r.batch_id db.results
      → (find_key result_key id db'.results ≡ some (closed_row message now r))
        × ((b' : Batch) × (find_key batch_key r.batch_id db'.batches ≡ some b')
            × Reflects b'.status r.batch_id db'.results)
  close_result-closes b at total =
      let (b', at', reflects, _, _) =
        recalculate-Reflects r.batch_id now closing db' b at (total ∙ sym closing_members)
          recalculated in
      (
        rw (recalculate-results r.batch_id now closing db' recalculated) closing_row,
        (b', at', reflects),
      )

closed_row_final :
    (message : String) (now : ℕ) (r : AccountResult)
    → Account.is_open (closed_row message now r).status ≡ false
unfolding exhausted
closed_row_final message now r = ground arith

closed_row_failed :
    (message : String) (now : ℕ) (r : AccountResult)
    → Account.is_open r.status ≡ true
    → (closed_row message now r).status ≡ AccountStatus.failed
unfolding exhausted
closed_row_failed message now r h = ground arith

dead_spent :
    (message : String) (delay : ℤ) (now : ℕ) (job : Job)
    → (failed_row message delay now job).status ≡ JobStatus.dead
    → leb job.max_attempts job.attempts ≡ true
dead_spent message delay now job h = ground arith

same_payload :
    (decode : Decoder) (message : String) (delay : ℤ) (now : ℕ) (job : Job)
    → dead_result_id decode (failed_row message delay now job) ≡ dead_result_id decode job
unfolding dead_result_id
same_payload decode message delay now job = elim (Bool-cases (leb job.max_attempts job.attempts)) [
  | inl t ↦ rw t
  | inr t ↦ rw t
]

abbrev after_failure : String → ℤ → ℕ → Job → Database → Database
after_failure message delay now job db = record db {
  jobs = update_where (λ j. j.id == job.id) (failed_row message delay now) db.jobs;
}

fail_held-close :
    (decode : Decoder) (message : String) (delay : ℤ) (now : ℕ) (job : Job) (db db' : Database)
    (result : ℕ)
    → fail_held decode message delay now job db ≡ ok db'
    → leb job.max_attempts job.attempts ≡ true
    → dead_result_id decode job ≡ some result
    → close_result result message now (after_failure message delay now job db) ≡ ok db'
unfolding fail_held finalize_dead
fail_held-close decode message delay now job db db' result h spent named =
    rw (named, finalize_dead) at rw (spent, fail_held) at h

-- When a worker's failure report uses up the attempts of a publish job, the same transaction
-- leaves the account result that the job was for neither pending nor running - failed, if it was
-- either - and the status of its batch says how the results of the batch now stand.
pub fail-closes :
    (decode : Decoder) (id : ℕ) (worker message : String) (delay : ℤ) (now : ℕ) (db db' : Database)
    (j : Job) (result : ℕ) (r : AccountResult) (b : Batch)
    → fail decode id worker message delay now db ≡ ok (db', j)
    → j.status ≡ JobStatus.dead
    → dead_result_id decode j ≡ some result
    → find_key result_key result db.results ≡ some r
    → find_key batch_key r.batch_id db.batches ≡ some b
    → b.total_accounts ≡ members r.batch_id db.results
    → (r' : AccountResult) × (find_key result_key result db'.results ≡ some r')
      × (Account.is_open r'.status ≡ false)
      × (Account.is_open r.status ≡ true → r'.status ≡ AccountStatus.failed)
      × ((b' : Batch) × (find_key batch_key r.batch_id db'.batches ≡ some b')
          × Reflects b'.status r.batch_id db'.results)
fail-closes decode id worker message delay now db db' j result r b h dead payload found at total =
    let (job, _, _, row, written) = fail-eq-ok decode id worker message delay now db db' j h in
    let written_row = subst (λ x. x.status ≡ JobStatus.dead) row dead in
    let named = subst (λ x. dead_result_id decode x ≡ some result) row payload in
    let (closed, reflects) =
      close_result-closes result message now (after_failure message delay now job db) db' r found
        (fail_held-close decode message delay now job db db' result written
          (dead_spent message delay now job written_row)
          (sym (same_payload decode message delay now job) ∙ named))
        b at total in
    (
      closed_row message now r,
      closed,
      closed_row_final message now r,
      closed_row_failed message now r,
      reflects,
    )

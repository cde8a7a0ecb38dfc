-- ===== src/Batch/Outcome.antt =====
-- How an account's publish attempt ends, and the objects it created
-- (internal/platform/database/batch_repository.go).
use meta_posting.Prelude.{
  ℕ, String, Bool, true, false, ◌&&◌, ◌||◌, Option, none, some, List, [], ◌∷◌, ◌++◌, ◌==◌, str_eq,
  if◌then◌else◌, not,
}
use meta_posting.Sql.{update_where, any_row, find_key, find_where}
use meta_posting.Schema.{
  batch_key, AccountStatus, AccountResult, Batch, ObjectType, PublishedObject, Database, Result, ok,
  err, record_not_found, duplicated_key, object_required, ◌>>=◌,
}
use meta_posting.Schema.Account
use meta_posting.Batch.{recalculate}

abbrev pub same_type : ObjectType → ObjectType → Bool
same_type ObjectType.campaign ObjectType.campaign = true
same_type ObjectType.ad_set ObjectType.ad_set = true
same_type ObjectType.creative ObjectType.creative = true
same_type ObjectType.ad ObjectType.ad = true
same_type _ _ = false

-- The unique index (ad_account_id, idempotency_key).
abbrev pub same_key : PublishedObject → PublishedObject → Bool
same_key a b = (a.ad_account_id == b.ad_account_id) && str_eq a.idempotency_key b.idempotency_key

-- The unique index (ad_account_id, object_type, meta_object_id).
abbrev pub same_remote : PublishedObject → PublishedObject → Bool
same_remote a b =
    (a.ad_account_id == b.ad_account_id)
    && (same_type a.object_type b.object_type && str_eq a.meta_object_id b.meta_object_id)

-- `ON CONFLICT DO NOTHING`: a row that any unique index has already is not inserted.
unfoldable pub insert_new : List PublishedObject → List PublishedObject → List PublishedObject
unfolding any_row
insert_new [] objects = objects
insert_new (o ∷ os) objects =
    insert_new os (
      if any_row (λ x. same_key x o || same_remote x o) objects then objects else objects ++ o ∷ [])

-- What `persistResultPublishedObjects` writes over each object.
abbrev pub owned_by : AccountResult → Batch → PublishedObject → PublishedObject
owned_by result batch o = record o {
  batch_id = result.batch_id;
  batch_account_result_id = result.id;
  ad_account_id = result.ad_account_id;
  connection_id = batch.connection_id;
}

unfoldable pub own_all : AccountResult → Batch → List PublishedObject → List PublishedObject
own_all result batch [] = []
own_all result batch (o ∷ os) = owned_by result batch o ∷ own_all result batch os

unfoldable pub persist_objects : AccountResult → List PublishedObject → Database → Result Database
unfolding insert_new own_all find_key
persist_objects result [] db = ok db
persist_objects result (o ∷ os) db = elim (find_key batch_key result.batch_id db.batches) [
  | none ↦ err record_not_found
  | some batch ↦ ok (record db { objects = insert_new (own_all result batch (o ∷ os)) db.objects })
]

-- `AccountResultCompletion`; `AccountResultRetry` is the same without the status.
pub record Completion : Type 0 where
  pub status : AccountStatus
  pub response_json : String
  pub error_code : String
  pub error_subcode : String
  pub error_message : String

-- The columns that `FinishAccountResult` and `RecordAccountRetry` write.
abbrev pub settled : Completion → Option ℕ → ℕ → AccountResult → AccountResult
settled c completed_at now r = record r {
  status = c.status;
  response_json = c.response_json;
  error_code = c.error_code;
  error_subcode = c.error_subcode;
  error_message = c.error_message;
  completed_at = completed_at;
  updated_at = now;
}

abbrev pub is_started : ℕ → AccountResult → Bool
is_started id r = (r.id == id) && Account.is_running r.status

-- Both end the same way: update the running row, persist its objects, recalculate its batch.
unfoldable pub settle :
    ℕ → Completion → Option ℕ → List PublishedObject → ℕ → Database → Result Database
unfolding find_where update_where persist_objects recalculate
settle id c completed_at published now db = elim (find_where (is_started id) db.results) [
  | none ↦ err record_not_found
  | some r ↦
      persist_objects (settled c completed_at now r) published (record db {
        results = update_where (is_started id) (settled c completed_at now) db.results;
      })
      >>= recalculate r.batch_id now
]

unfoldable pub finish_account_result :
    ℕ → Completion → List PublishedObject → ℕ → Database → Result Database
unfolding settle
finish_account_result id c published now = settle id c (some now) published now

-- The status of the argument is not read: a retry goes back to pending.
unfoldable pub record_account_retry :
    ℕ → Completion → List PublishedObject → ℕ → Database → Result Database
unfolding settle
record_account_retry id c published now =
    settle id (record c { status = AccountStatus.pending }) none published now

-- `ON CONFLICT (ad_account_id, idempotency_key) DO UPDATE`: the id and the creation time stay.
abbrev pub overwritten : PublishedObject → PublishedObject → PublishedObject
overwritten new old = record new { id = old.id; created_at = old.created_at }

-- Another row of the account that stands for the same remote object.
abbrev pub clashes : PublishedObject → PublishedObject → Bool
clashes o x = same_remote x o && not (same_key x o)

unfoldable pub checkpoint_published_object : Option PublishedObject → Database → Result Database
unfolding any_row update_where
checkpoint_published_object none db = err object_required
checkpoint_published_object (some o) db =
    if any_row (clashes o) db.objects
    then err duplicated_key
    else if any_row (λ x. same_key x o) db.objects
    then ok (record db { objects = update_where (λ x. same_key x o) (overwritten o) db.objects })
    else ok (record db { objects = db.objects ++ o ∷ [] })

unfoldable pub update_published_status : ℕ → String → String → ℕ → Database → Result Database
unfolding any_row update_where
update_published_status id status response now db =
    if any_row (λ o. o.id == id) db.objects
    then ok (record db {
      objects =
          update_where (λ o. o.id == id)
            (λ o. record o {
              effective_status = status;
              response_json = response;
              last_synced_at = some now;
              updated_at = now;
            })
            db.objects;
    })
    else err record_not_found

-- `MarkPublishedStatusChecked`.
unfoldable pub mark_published_status_checked : ℕ → ℕ → Database → Result Database
unfolding any_row update_where
mark_published_status_checked id now db =
    if any_row (λ o. o.id == id) db.objects
    then ok (record db {
      objects =
          update_where (λ o. o.id == id)
            (λ o. record o { last_synced_at = some now; updated_at = now }) db.objects;
    })
    else err record_not_found

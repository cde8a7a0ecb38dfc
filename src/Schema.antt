-- ===== src/Schema.antt =====
-- The rows that the worker and the repositories keep (internal/domain/models.go) and their status
-- columns (internal/domain/types.go). An identifier is a number and 0 is `uuid.Nil`; an instant is
-- a number; a JSON column is its text.
pub mod Account
use meta_posting.Prelude.{
  ℕ, String, Bool, true, false, Option, List, ◌||◌, ◌≡◌, refl, ◌⊎◌, inl, inr,
}
use meta_posting.Prelude.Int.{ℤ}

pub data JobStatus : Type 0 where
  pending running succeeded dead cancelled : JobStatus

pub data AccountStatus : Type 0 where
  pending running succeeded failed skipped : AccountStatus

pub data BatchStatus : Type 0 where
  draft queued running partially_succeeded succeeded failed cancelled : BatchStatus

pub record Job : Type 0 where
  pub id : ℕ
  pub created_at : ℕ
  pub updated_at : ℕ
  pub connection_id : Option ℕ
  pub job_type : String
  pub status : JobStatus
  pub priority : ℤ
  pub payload : String
  pub dedupe_key : Option String
  pub attempts : ℕ
  pub max_attempts : ℕ
  pub available_at : ℕ
  pub locked_by : String
  pub locked_at : Option ℕ
  pub locked_until : Option ℕ
  pub last_error : String
  pub finished_at : Option ℕ

pub record AccountResult : Type 0 where
  pub id : ℕ
  pub created_at : ℕ
  pub updated_at : ℕ
  pub batch_id : ℕ
  pub ad_account_id : ℕ
  pub status : AccountStatus
  pub attempts : ℕ
  pub request_json : String
  pub response_json : String
  pub error_code : String
  pub error_subcode : String
  pub error_message : String
  pub started_at : Option ℕ
  pub completed_at : Option ℕ

pub record Batch : Type 0 where
  pub id : ℕ
  pub created_at : ℕ
  pub updated_at : ℕ
  pub connection_id : ℕ
  pub name : String
  pub status : BatchStatus
  pub idempotency_key : String
  pub specification : String
  pub total_accounts : ℕ
  pub succeeded_accounts : ℕ
  pub failed_accounts : ℕ
  pub started_at : Option ℕ
  pub completed_at : Option ℕ
  pub created_by : String

pub data ObjectType : Type 0 where
  campaign ad_set creative ad : ObjectType

pub record PublishedObject : Type 0 where
  pub id : ℕ
  pub created_at : ℕ
  pub updated_at : ℕ
  pub batch_id : ℕ
  pub batch_account_result_id : ℕ
  pub connection_id : ℕ
  pub ad_account_id : ℕ
  pub object_type : ObjectType
  pub meta_object_id : String
  pub parent_meta_object_id : String
  pub name : String
  pub desired_status : String
  pub effective_status : String
  pub idempotency_key : String
  pub request_json : String
  pub response_json : String
  pub last_synced_at : Option ℕ

-- The tables that one transaction of the queue or of the batches may touch.
pub record Database : Type 0 where
  pub jobs : List Job
  pub results : List AccountResult
  pub batches : List Batch
  pub objects : List PublishedObject

-- The primary keys.
abbrev pub job_key : Job → ℕ
job_key j = j.id

abbrev pub result_key : AccountResult → ℕ
result_key r = r.id

abbrev pub batch_key : Batch → ℕ
batch_key b = b.id

-- The errors that the repositories return.
pub data DbError : Type 0 where
  record_not_found lease_lost worker_id_required lease_not_positive : DbError
  insert_ignored_without_dedupe_key object_required duplicated_key : DbError

pub data Result {ℓ} (A : Type ℓ) : Type ℓ where
  ok : A → Result A
  err : DbError → Result A

infixl 5 ◌>>=◌
abbrev pub ◌>>=◌ {ℓ κ} : {A : Type ℓ} {B : Type κ} → Result A → (A → Result B) → Result B
r >>= step = elim r [ err e ↦ err e | ok mid ↦ step mid ]

abbrev pub is_pending : JobStatus → Bool
is_pending JobStatus.pending = true
is_pending _ = false

abbrev pub is_running : JobStatus → Bool
is_running JobStatus.running = true
is_running _ = false

-- Pending or running: the jobs that `Cancel` and the recurring jobs' index speak of.
abbrev pub is_active : JobStatus → Bool
is_active s = is_pending s || is_running s

-- A transaction that commits went through its first statement.
pub >>=-eq-ok {ℓ κ} :
    {A : Type ℓ} {B : Type κ} (r : Result A) (step : A → Result B) {last : B}
    → (r >>= step) ≡ ok last
    → (mid : A) × (r ≡ ok mid) × (step mid ≡ ok last)
>>=-eq-ok (err e) step h = cc
>>=-eq-ok (ok mid) step h = (mid, refl, h)

pub Result-cases {ℓ} :
    {A : Type ℓ} (r : Result A) → ((a : A) × (r ≡ ok a)) ⊎ ((e : DbError) × (r ≡ err e))
Result-cases (ok a) = inl (a, refl)
Result-cases (err e) = inr (e, refl)

-- ===== src/Publish/Backend.antt =====
-- What publishing one account result works with (internal/application/batches.go): the plan, the
-- repositories, the Meta client, and what the code takes from other packages. They share a state
-- `S`; the instants of one attempt are a single `now`; a context is not modelled.
use meta_posting.Prelude.{ℕ, String, Bool, Option, List}
use meta_posting.Json.{Value, Fields}
use meta_posting.Schema.{AccountResult, Batch, ObjectType, PublishedObject}
use meta_posting.Errors.{Error, GraphError}
use meta_posting.Batch.Outcome.{Completion}
use meta_posting.Publish.{Hierarchy, SpecError}
use meta_posting.Publish.Model.{Stage, Outcome, Answer}

pub record MediaBinding : Type 0 where
  pub media_id : ℕ
  pub target : String

-- `AccountPublishPlan` of a single hierarchy.
pub record Plan : Type 0 where
  pub hierarchy : Hierarchy
  pub media_bindings : List MediaBinding
  pub validate_only : Bool
  pub leave_paused : Bool

pub record AdAccount : Type 0 where
  pub id : ℕ
  pub connection_id : ℕ
  pub account_id : String
  pub meta_ad_account_id : String

pub record RemotePublishedObject : Type 0 where
  pub id : String
  pub name : String
  pub campaign_id : String
  pub ad_set_id : String
  pub status : String
  pub effective_status : String

pub record AuditEvent : Type 0 where
  pub connection_id : ℕ
  pub action : String
  pub entity_id : ℕ

-- The repositories' methods, which may fail in any way.
pub record Store (S : Type 0) : Type 0 where
  pub get_account_result : ℕ → S → Answer AccountResult
  pub get_batch : ℕ → S → Answer Batch
  pub get_ad_account : ℕ → S → Answer AdAccount
  pub list_result_published_objects : ℕ → S → Answer (List PublishedObject)
  pub mark_account_running : ℕ → ℕ → S → S × Option Error
  pub checkpoint_published_object : PublishedObject → S → S × Answer PublishedObject
  pub update_published_status : ℕ → String → String → ℕ → S → S × Option Error
  pub record_account_retry : ℕ → Completion → List PublishedObject → ℕ → S → S × Option Error
  pub finish_account_result : ℕ → Completion → List PublishedObject → ℕ → S → S × Option Error
  pub mark_connection_expired : ℕ → GraphError → S → S × Option Error
  pub access_token : ℕ → S → S × Answer String
  pub audit : AuditEvent → S → S

-- The Graph API. `collect_objects` reads the edge of the account that holds the objects of a kind.
pub record Graph (S : Type 0) : Type 0 where
  pub post_json : ObjectType → String → Fields → S → S × Answer String
  pub post_status : String → String → S → S × Answer Bool
  pub collect_objects : ObjectType → String → S → S × Answer (List RemotePublishedObject)
  pub upload_media : AdAccount → ℕ → S → S × Answer String

-- `encoding/json`, `strings`, `strconv` and the texts of errors.
pub record Texts : Type 0 where
  pub trim_space : String → String
  pub split : String → List String
  pub replace_all : String → String → String → String
  pub atoi : String → Option ℕ
  pub itoa : ℕ → String
  pub uuid : ℕ → String
  pub has_hint : String → Bool
  pub error_text : Error → String
  pub invalid_spec : List SpecError → Error
  pub decode_plan : String → Answer Plan
  pub plan_json : Plan → String
  pub outcome_json : Outcome → String
  pub stage_json : Stage → String
  pub reconciled_json : RemotePublishedObject → Option Stage → String
  pub encode_hierarchy : Hierarchy → Value
  pub decode_hierarchy : Value → Answer Hierarchy

-- ===== src/Publish/Records.antt =====
-- The rows and the errors that a publication leaves (internal/application/batches.go,
-- internal/application/batches_shared.go, internal/application/service.go).
use meta_posting.Prelude.{
  String, Bool, true, false, not, ◌&&◌, Option, none, some, List, [], ◌∷◌, str_eq, ◌==◌,
  if◌then◌else◌,
}
use Prim.Native.String.{◌++◌ as ◌followed_by◌}
use meta_posting.Schema.{AccountResult, Batch, ObjectType, PublishedObject}
use meta_posting.Errors.{
  Error, Errors, leaf, wrapped, joined, no_more, also, graph, GraphError, find_graph,
  is_retryable_error,
}
use meta_posting.Publish.Model.{
  Stage, StageName, safety_pause, StageState, failed, Outcome, Ids, id_of, plain_error,
}
use meta_posting.Publish.Payloads.{name_of}
use meta_posting.Publish.Backend.{Plan, RemotePublishedObject, Texts}

-- `checkpointByType`.
abbrev pub Checkpoints : Type 0
Checkpoints = ObjectType → Option PublishedObject

abbrev pub same_kind : ObjectType → ObjectType → Bool
same_kind ObjectType.campaign ObjectType.campaign = true
same_kind ObjectType.ad_set ObjectType.ad_set = true
same_kind ObjectType.creative ObjectType.creative = true
same_kind ObjectType.ad ObjectType.ad = true
same_kind _ _ = false

abbrev pub no_checkpoints : Checkpoints
no_checkpoints kind = none

abbrev pub with_checkpoint : PublishedObject → Checkpoints → Checkpoints
with_checkpoint o known kind = if same_kind o.object_type kind then some o else known kind

-- The map from the rows of the result: the last row of a type wins.
abbrev pub index_checkpoints : List PublishedObject → Checkpoints → Checkpoints
index_checkpoints [] known = known
index_checkpoints (o ∷ os) known = index_checkpoints os (with_checkpoint o known)

abbrev pub checkpoint_id : Option PublishedObject → String
checkpoint_id none = ""
checkpoint_id (some o) = o.meta_object_id

-- `resumeFromCheckpoints`.
abbrev pub resume_from : Checkpoints → Ids
resume_from known = record {
  campaign_id = checkpoint_id (known ObjectType.campaign);
  ad_set_id = checkpoint_id (known ObjectType.ad_set);
  creative_id = checkpoint_id (known ObjectType.creative);
  ad_id = checkpoint_id (known ObjectType.ad);
}

abbrev pub type_name : ObjectType → String
type_name ObjectType.campaign = "campaign"
type_name ObjectType.ad_set = "ad_set"
type_name ObjectType.creative = "creative"
type_name ObjectType.ad = "ad"

abbrev pub key_of : Batch → ObjectType → String
key_of batch kind = batch.idempotency_key followed_by (":" followed_by type_name kind)

abbrev pub desired_status : Bool → String
desired_status leave_paused = if leave_paused then "PAUSED" else "ACTIVE"

-- `checkpointForStage` by `publishedCheckpoint`; the database gives the id and the times.
unfoldable pub checkpoint_for_stage :
    Batch → AccountResult → Plan → ObjectType → String → String → String → PublishedObject
checkpoint_for_stage batch result plan kind meta_id request_json response_json = record {
  id = 0;
  created_at = 0;
  updated_at = 0;
  batch_id = batch.id;
  batch_account_result_id = result.id;
  connection_id = batch.connection_id;
  ad_account_id = result.ad_account_id;
  object_type = kind;
  meta_object_id = meta_id;
  parent_meta_object_id = "";
  name = name_of kind plan.hierarchy;
  desired_status = desired_status plan.leave_paused;
  effective_status = "PAUSED";
  idempotency_key = key_of batch kind;
  request_json = request_json;
  response_json = response_json;
  last_synced_at = none;
}

abbrev pub is_safety_pause : StageName → Bool
is_safety_pause safety_pause = true
is_safety_pause _ = false

abbrev pub has_failed : StageState → Bool
has_failed failed = true
has_failed _ = false

-- The last stage that satisfies a test, as the loops from the end find it.
abbrev pub last_stage : (Stage → Bool) → List Stage → Option Stage
last_stage p [] = none
last_stage p (s ∷ ss) =
    let later = last_stage p ss in
    elim later [ some t ↦ some t | none ↦ if p s then some s else none ]

-- `publishResultConfirmedPaused`.
unfoldable pub confirmed_paused : Outcome → Bool
confirmed_paused r = elim (last_stage (λ s. is_safety_pause s.name) r.stages) [
  | none ↦ false
  | some s ↦ not (has_failed s.state)
]

abbrev pub effective_status : Plan → Outcome → String
effective_status plan r =
    if r.activated
    then "ACTIVE"
    else if plan.leave_paused
    then "PAUSED"
    else if confirmed_paused r
    then "PAUSED"
    else "UNKNOWN"

abbrev pub parent_id : ObjectType → Ids → String
parent_id ObjectType.campaign ids = ""
parent_id ObjectType.ad_set ids = ids.campaign_id
parent_id ObjectType.creative ids = ""
parent_id ObjectType.ad ids = ids.ad_set_id

-- The rows for the kinds of the result that have an id.
unfoldable pub published_of :
    List ObjectType → Batch → AccountResult → Plan → Outcome → String → List PublishedObject
unfolding confirmed_paused
published_of [] batch result plan r response = []
published_of (kind ∷ kinds) batch result plan r response =
    let rest = published_of kinds batch result plan r response in
    if str_eq (id_of kind r.ids) ""
    then rest
    else record {
      id = 0;
      created_at = 0;
      updated_at = 0;
      batch_id = batch.id;
      batch_account_result_id = result.id;
      connection_id = batch.connection_id;
      ad_account_id = result.ad_account_id;
      object_type = kind;
      meta_object_id = id_of kind r.ids;
      parent_meta_object_id = parent_id kind r.ids;
      name = name_of kind plan.hierarchy;
      desired_status = desired_status plan.leave_paused;
      effective_status = effective_status plan r;
      idempotency_key = key_of batch kind;
      request_json = result.request_json;
      response_json = response;
      last_synced_at = none;
    }
      ∷ rest

-- `publishedObjects`.
unfoldable pub published_objects :
    Batch → AccountResult → Plan → Outcome → String → List PublishedObject
unfolding published_of
published_objects batch result plan r response =
    published_of
      (ObjectType.campaign ∷ ObjectType.ad_set ∷ ObjectType.creative ∷ ObjectType.ad ∷ []) batch
      result plan r response

abbrev pub is_failure : Stage → Bool
is_failure s = elim s.failure [ none ↦ false | some f ↦ true ]

abbrev pub is_retryable_stage : Stage → Bool
is_retryable_stage s = elim s.failure [ none ↦ false | some f ↦ f.retryable ]

abbrev pub any_stage : (Stage → Bool) → List Stage → Bool
any_stage p [] = false
any_stage p (s ∷ ss) = if p s then true else any_stage p ss

-- `errors.Join`: none if there is none.
abbrev pub some_errors : List (Option Error) → Errors
some_errors [] = no_more
some_errors (none ∷ es) = some_errors es
some_errors (some e ∷ es) = also e (some_errors es)

abbrev pub join_errors : List (Option Error) → Option Error
join_errors es = elim (some_errors es) [
  | no_more ↦ none
  | also e rest ↦ some (joined (also e rest))
]

-- `reconciledEffectiveStatus`.
abbrev pub reconciled_status : Texts → RemotePublishedObject → String
reconciled_status texts remote =
    let effective = texts.trim_space remote.effective_status in
    let status = texts.trim_space remote.status in
    if not (str_eq effective "")
    then effective
    else if not (str_eq status "")
    then status
    else "UNKNOWN"

-- An access token that Meta no longer takes.
abbrev pub is_token_error : GraphError → Bool
is_token_error g = (g.code == 190) && not (g.error_subcode == 2069032)

unfoldable mutual
  -- `metaAccessTokenError`.
  pub access_token_error : Error → Option GraphError
  access_token_error (leaf (graph g)) = if is_token_error g then some g else none
  access_token_error (leaf _) = none
  access_token_error (wrapped e) = access_token_error e
  access_token_error (joined es) = access_token_error_in es

  pub access_token_error_in : Errors → Option GraphError
  access_token_error_in no_more = none
  access_token_error_in (also e es) =
      let rest = access_token_error_in es in
      elim (access_token_error e) [ some g ↦ some g | none ↦ rest ]

module _ (texts : Texts) where
  -- `lastPublishFailure`.
  unfoldable pub last_publish_failure : Outcome → Error
  unfolding find_graph
  last_publish_failure r = elim (last_stage is_failure r.stages) [
    | none ↦ plain_error
    | some s ↦ elim s.failure [
      | none ↦ plain_error
      | some f ↦ elim (find_graph texts.has_hint f.cause) [
        | none ↦ plain_error
        | some g ↦ leaf (graph g)
      ]
    ]
  ]

  -- `publishFailureJobError`.
  unfoldable pub publish_failure_job_error : Error → Option Outcome → Option Error
  unfolding is_retryable_error
  publish_failure_job_error cause r =
      if is_retryable_error texts.has_hint cause then some (wrapped cause) else elim r [
        | none ↦ none
        | some result ↦
            if any_stage is_retryable_stage result.stages then some (wrapped cause) else none
      ]

-- ===== src/Publish/Attempt.antt =====
-- One attempt to publish one account result (internal/application/batches.go, PublishAccountResult
-- for a plan with a single hierarchy).
use meta_posting.Prelude.{
  ℕ, String, Bool, not, ◌&&◌, Option, none, some, List, [], ◌∷◌, str_eq, if◌then◌else◌,
}
use meta_posting.Schema.{AccountStatus, AccountResult, Batch, ObjectType, PublishedObject}
use meta_posting.Errors.{Error, GraphError, find_graph}
use meta_posting.Batch.Outcome.{Completion}
use meta_posting.Publish.Model.{
  Stage, creation, activating, Outcome, World, Answer, answered, refused, plain_error, add_stage,
}
use meta_posting.Publish.Backend.{Plan, Store, Graph, Texts}
use meta_posting.Publish.Marker.{apply_publish_marker}
use meta_posting.Publish.Records.{
  Checkpoints, with_checkpoint, checkpoint_for_stage, published_objects, join_errors,
  access_token_error, last_publish_failure, publish_failure_job_error,
}
use meta_posting.Publish.Reconcile.{safety_pause_campaign, pause_stage}

-- What a publication works on: the backend's state and the checkpoints.
abbrev pub Publishing : Type 0 → Type 0
Publishing S = S × Checkpoints

abbrev pub parent_checkpoint : ObjectType → Checkpoints → Option PublishedObject
parent_checkpoint ObjectType.campaign known = none
parent_checkpoint ObjectType.ad_set known = known ObjectType.campaign
parent_checkpoint ObjectType.creative known = none
parent_checkpoint ObjectType.ad known = known ObjectType.ad_set

abbrev pub with_parent : Option PublishedObject → PublishedObject → PublishedObject
with_parent none o = o
with_parent (some p) o = record o { parent_meta_object_id = p.meta_object_id }

module _ {S : Type 0} (store : Store S) (api : Graph S) (texts : Texts) (now : ℕ) where
  module _ (batch : Batch) (result : AccountResult) (plan : Plan) where
    abbrev pub checkpointed :
        ObjectType → Checkpoints → S × Answer PublishedObject → Publishing S × Option Error
    checkpointed kind known (s, refused e) = ((s, known), some e)
    checkpointed kind known (s, answered o) =
        ((s, with_checkpoint (record o { object_type = kind }) known), none)

    abbrev pub activation_kept :
        PublishedObject → Checkpoints → S × Option Error → Publishing S × Option Error
    activation_kept o known (s, some e) = ((s, known), some e)
    activation_kept o known (s, none) =
        ((s, with_checkpoint (record o { effective_status = "ACTIVE" }) known), none)

    -- `onStage`: a creation is checkpointed, and an activation is recorded on its checkpoint.
    unfoldable pub on_stage : Stage → Publishing S → Publishing S × Option Error
    unfolding checkpoint_for_stage
    on_stage stage (s, known) = elim stage.name [
      | creation kind ↦ checkpointed kind known (
          store.checkpoint_published_object
            (with_parent (parent_checkpoint kind known) (
              checkpoint_for_stage batch result plan kind stage.entity_id (texts.plan_json plan)
                (texts.stage_json stage)))
            s)
      | activating kind ↦ elim (known kind) [
        | none ↦ ((s, known), some plain_error)
        | some o ↦
            activation_kept o known
              (store.update_published_status o.id "ACTIVE" (texts.stage_json stage) now s)
      ]
      | _ ↦ ((s, known), none)
    ]

  -- `markConnectionExpiredForMetaError`.
  unfoldable pub mark_expired_for : ℕ → Error → S → S × Option Error
  unfolding access_token_error
  mark_expired_for connection e s = elim (access_token_error e) [
    | none ↦ (s, none)
    | some g ↦ store.mark_connection_expired connection g s
  ]

  abbrev pub published_for : AccountResult → Outcome → S → List PublishedObject
  published_for result r s = elim (store.get_batch result.batch_id s) [
    | refused e ↦ []
    | answered batch ↦ elim (texts.decode_plan result.request_json) [
      | refused e ↦ []
      | answered plan ↦
          published_objects batch result
            (record plan {
              hierarchy = apply_publish_marker texts.trim_space texts.uuid result.id plan.hierarchy;
            })
            r (texts.outcome_json r)
    ]
  ]

  -- The error of Graph that a failure is recorded under: the last in the stages, else in the cause.
  abbrev pub or_else : Option GraphError → Option GraphError → Option GraphError
  or_else none later = later
  or_else (some g) later = some g

  abbrev pub stage_graph : Stage → Option GraphError
  stage_graph stage = elim stage.failure [
    | none ↦ none
    | some f ↦ find_graph texts.has_hint f.cause
  ]

  abbrev pub last_graph : List Stage → Option GraphError
  last_graph [] = none
  last_graph (stage ∷ stages) = or_else (last_graph stages) (stage_graph stage)

  abbrev pub failure_graph : Error → Option Outcome → Option GraphError
  failure_graph cause none = or_else (access_token_error cause) (find_graph texts.has_hint cause)
  failure_graph cause (some r) =
      or_else (last_graph r.stages)
        (or_else (access_token_error cause) (find_graph texts.has_hint cause))

  -- `graphErrorCodes`, in the record of the failure.
  abbrev pub failure_record : Error → Option GraphError → String → Completion
  failure_record cause none response = record {
    status = AccountStatus.failed;
    response_json = response;
    error_code = "";
    error_subcode = "";
    error_message = texts.error_text cause;
  }
  failure_record cause (some g) response = record {
    status = AccountStatus.failed;
    response_json = response;
    error_code = texts.itoa g.code;
    error_subcode = texts.itoa g.error_subcode;
    error_message = texts.error_text cause;
  }

  abbrev pub response_of : Option Outcome → String
  response_of none = "{}"
  response_of (some r) = texts.outcome_json r

  abbrev pub rows_of : AccountResult → Option Outcome → S → List PublishedObject
  rows_of result none s = []
  rows_of result (some r) s = published_for result r s

  abbrev pub audit_action : Option Error → String
  audit_action none = "batch.account.failed"
  audit_action (some e) = "batch.account.retry_pending"

  -- What follows the record of the failure.
  abbrev pub failure_recorded :
      ℕ → AccountResult → Error → Option Error → Option Error → S × Option Error → S × Option Error
  failure_recorded connection result cause retry expiry (s, some e) =
      (s, join_errors (some cause ∷ expiry ∷ some e ∷ []))
  failure_recorded connection result cause retry (some x) (s, none) =
      (s, join_errors (some cause ∷ some x ∷ []))
  failure_recorded connection result cause retry none (s, none) = (
    store.audit
        (record { connection_id = connection; action = audit_action retry; entity_id = result.id })
        s,
    retry,
  )

  -- A failure that is worth a retry leaves the result pending; any other ends it.
  abbrev pub record_failure :
      AccountResult → Option Error → Completion → List PublishedObject → S → S × Option Error
  record_failure result none failure rows s =
      store.finish_account_result result.id failure rows now s
  record_failure result (some e) failure rows s =
      store.record_account_retry result.id failure rows now s

  -- `finishPublishFailure`.
  unfoldable pub finish_publish_failure :
      ℕ → AccountResult → Option Outcome → Error → S → S × Option Error
  unfolding mark_expired_for find_graph published_objects apply_publish_marker
      publish_failure_job_error
  finish_publish_failure connection result r cause s =
      let (s1, expiry) = mark_expired_for connection cause s in
      let retry = publish_failure_job_error texts cause r in
      failure_recorded connection result cause retry expiry (
        record_failure result retry (failure_record cause (failure_graph cause r) (response_of r))
          (rows_of result r s1) s1)

  -- `finish_publish_failure` in the world that logs.
  abbrev pub give_up :
      Batch → AccountResult → Option Outcome → Error → World S → World S × Option Error
  give_up batch result r cause w =
      let (s, e) = finish_publish_failure batch.connection_id result r cause w.state in
      (record w { state = s }, e)

  -- The error of the pause comes before that of the failure.
  abbrev pub pause_error : Option Error → Option Error → Option Error
  pause_error none e = e
  pause_error (some c) e = join_errors (some c ∷ e ∷ [])

  -- The failed publication of a campaign that may have been activated: it is paused first.
  abbrev pub give_up_paused :
      Batch → AccountResult → Outcome → World S × Option Error → World S × Option Error
  give_up_paused batch result r (w, complaint) =
      let (w', e) =
        give_up batch result
          (some (add_stage (pause_stage store api texts r.ids.campaign_id complaint) r))
          (last_publish_failure texts r) w in
      (w', pause_error complaint e)

  -- A campaign that an error must not leave spending is paused.
  abbrev pub not_durable : Bool → Outcome → Error → World S → World S × Option Error
  not_durable leave_paused r e w =
      let (w', complaint) = safety_pause_campaign store api texts r.ids.campaign_id w in
      if not leave_paused && not (str_eq r.ids.campaign_id "")
      then (w', join_errors (some e ∷ complaint ∷ []))
      else (w, some e)

  -- What follows the record of a success.
  abbrev pub success_recorded :
      ℕ → Batch → Bool → Outcome → World S → S × Option Error → World S × Option Error
  success_recorded id batch leave_paused r w (s, some e) =
      not_durable leave_paused r e (record w { state = s })
  success_recorded id batch leave_paused r w (s, none) = (
    record w {
      state =
          store.audit
            (record {
              connection_id = batch.connection_id;
              action = "batch.account.published";
              entity_id = id;
            })
            s;
    },
    none,
  )

  abbrev pub completion_of : Outcome → Completion
  completion_of r = record {
    status = AccountStatus.succeeded;
    response_json = texts.outcome_json r;
    error_code = "";
    error_subcode = "";
    error_message = "";
  }

  -- What `PublishAccountResult` does with the result of the publication; `id` is its argument.
  unfoldable pub concluded :
      ℕ → Batch → AccountResult → Plan → Outcome → World S → World S × Option Error
  unfolding finish_publish_failure safety_pause_campaign published_objects last_publish_failure
  concluded id batch result plan r w =
      if not r.success
      then if not (str_eq r.ids.campaign_id "") && not plan.leave_paused
        then give_up_paused batch result r
            (safety_pause_campaign store api texts r.ids.campaign_id w)
        else give_up batch result (some r) (last_publish_failure texts r) w
      else success_recorded id batch plan.leave_paused r w (
          store.finish_account_result id (completion_of r)
            (published_objects batch result plan r (texts.outcome_json r)) now w.state)

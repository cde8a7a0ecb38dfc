-- ===== src/Publish/Reconcile.antt =====
-- What a retry finds out before it creates anything (internal/application/batches.go,
-- internal/meta/reconciliation.go).
use meta_posting.Prelude.{
  ℕ, String, Bool, true, ◌&&◌, ◌||◌, Option, none, some, List, [], ◌∷◌, str_eq, if◌then◌else◌,
}
use meta_posting.Schema.{AccountResult, Batch, ObjectType, PublishedObject}
use meta_posting.Errors.{Error, wrapped}
use meta_posting.Publish.Model.{
  Stage, safety_pause, activated, failed, World, Answer, answered, refused, Service, plain_error,
}
use meta_posting.Publish.Launch.{set_entity_status}
use meta_posting.Publish.Payloads.{name_of}
use meta_posting.Publish.Backend.{Plan, RemotePublishedObject, Store, Graph, Texts}
use meta_posting.Publish.Records.{
  Checkpoints, with_checkpoint, checkpoint_for_stage, reconciled_status,
}

-- `ParentID`.
abbrev pub remote_parent : ObjectType → RemotePublishedObject → String
remote_parent ObjectType.campaign o = ""
remote_parent ObjectType.ad_set o = o.campaign_id
remote_parent ObjectType.creative o = ""
remote_parent ObjectType.ad o = o.ad_set_id

-- A remote object that bears the name, below the parent if one is given.
abbrev pub is_match : ObjectType → String → String → RemotePublishedObject → Bool
is_match kind name parent o =
    str_eq o.name name && (str_eq parent "" || str_eq (remote_parent kind o) parent)

unfoldable pub matches_of :
    ObjectType → String → String → List RemotePublishedObject → List RemotePublishedObject
matches_of kind name parent [] = []
matches_of kind name parent (o ∷ os) =
    let rest = matches_of kind name parent os in
    if is_match kind name parent o then o ∷ rest else rest

-- None, the only match, or the refusal of an ambiguous retry.
abbrev pub only_match : List RemotePublishedObject → Answer (Option RemotePublishedObject)
only_match [] = answered none
only_match (o ∷ []) = answered (some o)
only_match (o ∷ p ∷ os) = refused plain_error

-- What an object looked for gives the step behind it.
pub data Found : Type 0 where
  absent : Found
  present : PublishedObject → Found
  broken : Error → Found

module _ {S : Type 0} (store : Store S) (api : Graph S) (texts : Texts) where
  abbrev pub is_blank : String → Bool
  is_blank s = str_eq (texts.trim_space s) ""

  -- The part of the Graph API that a publication uses, with a callback for its stages.
  abbrev pub service_for :
      {T : Type 0} → (T → S) → (S → T → T) → (Stage → T → T × Option Error) → Service T
  service_for get set on_stage = record {
    is_blank = is_blank;
    has_hint = texts.has_hint;
    post_json = λ kind account payload t.
        let (s, answer) = api.post_json kind account payload (get t) in (set s t, answer);
    post_status =
        λ id status t. let (s, answer) = api.post_status id status (get t) in (set s t, answer);
    on_stage = on_stage;
    invalid_spec = texts.invalid_spec;
  }

  abbrev pub plain_service : Service S
  plain_service = service_for (λ s. s) (λ s t. s) (λ stage s. (s, none))

  -- `FindPublishedObjectByName`.
  unfoldable pub find_published_object_by_name :
      String → ObjectType → String → String → S → S × Answer (Option RemotePublishedObject)
  unfolding matches_of
  find_published_object_by_name account kind name parent s =
      let trimmed = texts.trim_space name in
      let (s', objects) = api.collect_objects kind account s in
      if str_eq trimmed "" then (s, refused plain_error) else (
        s',
        elim objects [
          | refused e ↦ refused (wrapped e)
          | answered os ↦ only_match (matches_of kind trimmed parent os)
        ],
      )

  -- The failure of the stage has the error's message only, and no Graph error.
  abbrev pub pause_stage : String → Option Error → Stage
  pause_stage id none = record {
    name = safety_pause;
    state = activated;
    entity_id = id;
    failure = none;
  }
  pause_stage id (some e) = record {
    name = safety_pause;
    state = failed;
    entity_id = id;
    failure = some (record { cause = plain_error; retryable = true });
  }

  -- `safetyPauseCampaign`; the stage is `pause_stage` of the error.
  unfoldable pub safety_pause_campaign : String → World S → World S × Option Error
  unfolding set_entity_status
  safety_pause_campaign id w = set_entity_status plain_service id "PAUSED" w

  -- A checkpoint of an object that exists, which is then known.
  abbrev pub kept_checkpoint :
      Checkpoints → World S → S × Answer PublishedObject → World S × Checkpoints × Found
  kept_checkpoint known w (s, refused e) = (record w { state = s }, known, broken (wrapped e))
  kept_checkpoint known w (s, answered o) =
      (record w { state = s }, with_checkpoint o known, present o)

  module _ (now : ℕ) (batch : Batch) (result : AccountResult) (account : String) (plan : Plan) where
    -- What a search for one object leads to.
    abbrev pub reconciled :
        ObjectType
        → String
        → Checkpoints
        → World S
        → S × Answer (Option RemotePublishedObject)
        → World S × Checkpoints × Found
    reconciled kind parent known w (s, refused e) = (record w { state = s }, known, broken e)
    reconciled kind parent known w (s, answered none) = (record w { state = s }, known, absent)
    reconciled kind parent known w (s, answered (some remote)) =
        let row =
          checkpoint_for_stage batch result plan kind remote.id (texts.plan_json plan)
            (texts.reconciled_json remote none) in
        let o = record row {
          parent_meta_object_id = parent;
          effective_status = reconciled_status texts remote;
          last_synced_at = some now;
        } in
        kept_checkpoint known (record w { state = s }) (store.checkpoint_published_object o s)

    -- `reconcileRemoteObject`.
    unfoldable pub reconcile_remote_object :
        ObjectType → String → Checkpoints → World S → World S × Checkpoints × Found
    unfolding find_published_object_by_name checkpoint_for_stage
    reconcile_remote_object kind parent known w = elim (known kind) [
      | some o ↦ (w, known, present o)
      | none ↦
          reconciled kind parent known w (
            find_published_object_by_name account kind (name_of kind plan.hierarchy) parent w.state)
    ]

    -- The campaign that an earlier attempt has left without a checkpoint: paused, then recorded.
    abbrev pub paused_then :
        RemotePublishedObject → Checkpoints → World S × Option Error → World S × Checkpoints × Found
    paused_then remote known (w, some e) = (w, known, broken (wrapped e))
    paused_then remote known (w, none) =
        let row =
          checkpoint_for_stage batch result plan ObjectType.campaign remote.id
            (texts.plan_json plan)
            (texts.reconciled_json remote (some (pause_stage remote.id none))) in
        let o = record row { last_synced_at = some now } in
        kept_checkpoint known w (store.checkpoint_published_object o w.state)

    abbrev pub reconciled_campaign :
        Checkpoints
        → World S
        → S × Answer (Option RemotePublishedObject)
        → World S × Checkpoints × Found
    reconciled_campaign known w (s, refused e) = (record w { state = s }, known, broken e)
    reconciled_campaign known w (s, answered none) = (record w { state = s }, known, absent)
    reconciled_campaign known w (s, answered (some remote)) =
        paused_then remote known (safety_pause_campaign remote.id (record w { state = s }))

    abbrev pub status_kept :
        PublishedObject → Checkpoints → World S → S × Option Error → World S × Checkpoints × Found
    status_kept o known w (s, some e) = (record w { state = s }, known, broken (wrapped e))
    status_kept o known w (s, none) =
        let paused = record o { effective_status = "PAUSED" } in
        (record w { state = s }, with_checkpoint paused known, present paused)

    -- A campaign with a checkpoint is paused again.
    abbrev pub paused_again :
        PublishedObject → Checkpoints → World S × Option Error → World S × Checkpoints × Found
    paused_again o known (w, some e) = (w, known, broken (wrapped e))
    paused_again o known (w, none) = status_kept o known w (
        store.update_published_status o.id "PAUSED"
          (texts.stage_json (pause_stage o.meta_object_id none)) now w.state)

    unfoldable pub reconcile_campaign : Checkpoints → World S → World S × Checkpoints × Found
    unfolding find_published_object_by_name safety_pause_campaign checkpoint_for_stage
    reconcile_campaign known w = elim (known ObjectType.campaign) [
      | some o ↦ paused_again o known (safety_pause_campaign o.meta_object_id w)
      | none ↦ reconciled_campaign known w (
          find_published_object_by_name account ObjectType.campaign plan.hierarchy.campaign.name ""
            w.state)
    ]

    -- An object that is not there ends the search, and so does an error.
    abbrev pub if_present :
        World S × Checkpoints × Found
        → (PublishedObject → World S → Checkpoints → World S × Checkpoints × Option Error)
        → World S × Checkpoints × Option Error
    if_present (w, known, absent) next = (w, known, none)
    if_present (w, known, broken e) next = (w, known, some e)
    if_present (w, known, present o) next = next o w known

    abbrev pub nothing_more :
        PublishedObject → World S → Checkpoints → World S × Checkpoints × Option Error
    nothing_more ad w known = (w, known, none)

    abbrev pub search_ad :
        PublishedObject
        → PublishedObject
        → World S
        → Checkpoints
        → World S × Checkpoints × Option Error
    search_ad ad_set creative w known =
        if_present (reconcile_remote_object ObjectType.ad ad_set.meta_object_id known w)
          nothing_more

    abbrev pub search_creative :
        PublishedObject → World S → Checkpoints → World S × Checkpoints × Option Error
    search_creative ad_set w known =
        if_present (reconcile_remote_object ObjectType.creative "" known w) (search_ad ad_set)

    abbrev pub search_ad_set :
        PublishedObject → World S → Checkpoints → World S × Checkpoints × Option Error
    search_ad_set campaign w known =
        if_present (reconcile_remote_object ObjectType.ad_set campaign.meta_object_id known w)
          search_creative

    -- `reconcilePublishRetry`.
    unfoldable pub reconcile_publish_retry :
        Checkpoints → World S → World S × Checkpoints × Option Error
    unfolding reconcile_campaign reconcile_remote_object
    reconcile_publish_retry known w = if_present (reconcile_campaign known w) search_ad_set

-- ===== src/Publish/Launch.antt =====
-- Publishing one hierarchy to one ad account (internal/meta/publisher.go).
use meta_posting.Prelude.{
  String, Bool, true, false, not, ◌&&◌, Option, none, some, List, [], ◌∷◌, ◌++◌, str_eq,
  if◌then◌else◌,
}
use meta_posting.Schema.{ObjectType}
use meta_posting.Errors.{Error, leaf, response, is_retryable_error}
use meta_posting.Publish.{Hierarchy, validate}
use meta_posting.Publish.Model.{
  StageName, validation, activation, creation, remote_validation, resumption, activating,
  checkpointing, created, activated, validated, locally_validated, skipped, failed, Stage, Ids,
  id_of, with_id, LaunchRequest, Outcome, post, set_status, World, Answer, answered, refused,
  Service, plain_error, done_stage, add_stage, create_payload, execution_options, creation_order,
  activation_order, is_answered, blank_outcome, is_nil,
}

module _ {S : Type 0} (service : Service S) where
  -- `failedStage`.
  abbrev pub failed_stage : StageName → Error → Stage
  failed_stage name e = record {
    name = name;
    state = failed;
    entity_id = "";
    failure = some (record { cause = e; retryable = is_retryable_error service.has_hint e });
  }

  -- The error that an answer to a change of status is taken for.
  abbrev pub status_error : Answer Bool → Option Error
  status_error (refused e) = some e
  status_error (answered false) = some plain_error
  status_error (answered true) = none

  -- `SetEntityStatus` for a status of Meta's.
  unfoldable pub set_entity_status : String → String → World S → World S × Option Error
  set_entity_status id status w =
      let (state, answer) = service.post_status id status w.state in
      if service.is_blank id then (w, some plain_error) else (
        record w { state = state; sent = w.sent ++ set_status id status ∷ [] },
        status_error answer,
      )

  -- What the callback's answer does to the result.
  abbrev pub told : Stage → World S → Outcome → S × Option Error → World S × Outcome × Bool
  told stage w r (state, none) = (record w { state = state }, r, true)
  told stage w r (state, some e) =
      (record w { state = state }, add_stage (failed_stage (checkpointing stage.name) e) r, false)

  -- `notifyPublishStage`; `true` is to go on.
  unfoldable pub notify : Stage → World S → Outcome → World S × Outcome × Bool
  notify stage w r = told stage w r (service.on_stage stage w.state)

  -- `emptyCreateIDResponseError` for a success without an id.
  abbrev pub id_given : Answer String → Answer String
  id_given (refused e) = refused e
  id_given (answered id) = if str_eq id "" then refused (leaf response) else answered id

  -- `createCampaign`, `createAdSet`, `createCreative` and `createAd`, without `validateOnly`.
  unfoldable pub create : ObjectType → String → Hierarchy → Ids → World S → World S × Answer String
  unfolding create_payload
  create kind account h ids w =
      let payload = create_payload kind h ids in
      let (state, answer) = service.post_json kind account payload w.state in
      (record w { state = state; sent = w.sent ++ post kind account payload ∷ [] }, id_given answer)

  -- What follows a create call.
  abbrev pub settled : ObjectType → Outcome → World S × Answer String → World S × Outcome × Bool
  settled kind r (w, refused e) = (w, add_stage (failed_stage (creation kind) e) r, false)
  settled kind r (w, answered id) =
      notify (done_stage (creation kind) created id) w
        (record (add_stage (done_stage (creation kind) created id) r) {
          ids = with_id kind id r.ids;
        })

  -- One object of the hierarchy: reused if an earlier attempt has made it, else created.
  unfoldable pub launch_object :
      ObjectType → LaunchRequest → World S → Outcome → World S × Outcome × Bool
  unfolding create notify
  launch_object kind request w r =
      let known = id_of kind request.resume in
      if str_eq known ""
      then settled kind r (create kind request.account_id request.hierarchy r.ids w)
      else (
        w,
        record (add_stage (done_stage (resumption kind) skipped known) r) {
          ids = with_id kind known r.ids;
        },
        true,
      )

  -- What follows a call that activates.
  abbrev pub activated_or_not :
      ObjectType → Outcome → World S × Option Error → World S × Outcome × Bool
  activated_or_not kind r (w, some e) = (w, add_stage (failed_stage (activating kind) e) r, false)
  activated_or_not kind r (w, none) =
      notify (done_stage (activating kind) activated (id_of kind r.ids)) w
        (add_stage (done_stage (activating kind) activated (id_of kind r.ids)) r)

  -- One activation.
  unfoldable pub activate_object : ObjectType → World S → Outcome → World S × Outcome × Bool
  unfolding set_entity_status notify
  activate_object kind w r =
      activated_or_not kind r (set_entity_status (id_of kind r.ids) "ACTIVE" w)

  -- What follows only if the step before it says to go on.
  abbrev pub and_then :
      World S × Outcome × Bool
      → (World S → Outcome → World S × Outcome × Bool)
      → World S × Outcome × Bool
  and_then (w, r, true) next = next w r
  and_then (w, r, false) next = (w, r, false)

  unfoldable pub launch_all :
      List ObjectType → LaunchRequest → World S → Outcome → World S × Outcome × Bool
  unfolding launch_object
  launch_all [] request w r = (w, r, true)
  launch_all (kind ∷ kinds) request w r =
      and_then (launch_object kind request w r) (launch_all kinds request)

  unfoldable pub activate_all : List ObjectType → World S → Outcome → World S × Outcome × Bool
  unfolding activate_object
  activate_all [] w r = (w, r, true)
  activate_all (kind ∷ kinds) w r = and_then (activate_object kind w r) (activate_all kinds)

  abbrev pub live : World S → Outcome → World S × Outcome × Bool
  live w r = (w, record r { activated = true; success = true }, true)

  -- The part of `PublishAccount` behind the creations.
  unfoldable pub go_live : LaunchRequest → World S → Outcome → World S × Outcome × Bool
  unfolding activate_all
  go_live request w r =
      if request.leave_paused
      then (w, record (add_stage (done_stage activation skipped "") r) { success = true }, true)
      else and_then (activate_all activation_order w r) live

  -- A create call with `validateOnly`, and its stage.
  unfoldable pub validate_remotely :
      ObjectType → String → Hierarchy → Ids → World S → World S × Answer String
  unfolding create_payload
  validate_remotely kind account h ids w =
      let payload = execution_options (create_payload kind h ids) in
      let (state, answer) = service.post_json kind account payload w.state in
      (record w { state = state; sent = w.sent ++ post kind account payload ∷ [] }, answer)

  abbrev pub validation_stage : ObjectType → Answer String → Stage
  validation_stage kind (answered id) = done_stage (remote_validation kind) validated id
  validation_stage kind (refused e) = failed_stage (remote_validation kind) e

  -- `validateOnly`.
  unfoldable pub validate_only : LaunchRequest → World S → Outcome → World S × Outcome
  unfolding validate_remotely
  validate_only request w r =
      let (w1, campaign) =
        validate_remotely ObjectType.campaign request.account_id request.hierarchy r.ids w in
      let (w2, creative) =
        validate_remotely ObjectType.creative request.account_id request.hierarchy r.ids w1 in
      let good = is_answered campaign && is_answered creative in
      (
        w2,
        record r {
          validated = good;
          success = good;
          stages =
              r.stages
              ++ validation_stage ObjectType.campaign campaign
                ∷ validation_stage ObjectType.creative creative
                ∷ done_stage (remote_validation ObjectType.ad_set) locally_validated ""
                ∷ done_stage (remote_validation ObjectType.ad) locally_validated ""
                ∷ [];
        },
      )

  abbrev pub rejected : Error → Outcome
  rejected e = add_stage (failed_stage validation e) blank_outcome

  abbrev pub without_flag : World S × Outcome × Bool → World S × Outcome
  without_flag (w, r, b) = (w, r)

  -- `PublishAccount`.
  unfoldable pub publish_account : LaunchRequest → World S → World S × Outcome
  unfolding validate launch_all go_live validate_only
  publish_account request w =
      let complaints = validate service.is_blank request.hierarchy in
      let begun = add_stage (done_stage validation locally_validated "") blank_outcome in
      if service.is_blank request.account_id
      then (w, rejected plain_error)
      else if str_eq request.access_token ""
      then (w, rejected plain_error)
      else if not (is_nil complaints)
      then (w, rejected (service.invalid_spec complaints))
      else if request.validate_only
      then validate_only request w begun
      else without_flag (and_then (launch_all creation_order request w begun) (go_live request))

-- ===== src/Publish/Account.antt =====
-- `PublishAccountResult` as a whole (internal/application/batches.go), for a plan with a single
-- hierarchy: what it reads, the retry's preflight, the media, the publication and its conclusion.
use meta_posting.Prelude.{
  ℕ, String, not, ◌&&◌, Option, none, some, List, [], ◌∷◌, ◌==◌, ltb, if◌then◌else◌,
}
use meta_posting.Schema.{AccountResult, Batch, ObjectType, PublishedObject}
use meta_posting.Errors.{Error, wrapped}
use meta_posting.Publish.{Hierarchy}
use meta_posting.Publish.Model.{
  LaunchRequest, World, Answer, answered, refused, Service, plain_error,
}
use meta_posting.Publish.Launch.{publish_account}
use meta_posting.Publish.Backend.{Plan, AdAccount, Store, Graph, Texts}
use meta_posting.Publish.Marker.{apply_publish_marker}
use meta_posting.Publish.Media.{bind_media}
use meta_posting.Publish.Records.{
  Checkpoints, no_checkpoints, index_checkpoints, resume_from, join_errors, access_token_error,
}
use meta_posting.Publish.Reconcile.{is_blank, service_for, reconcile_publish_retry}
use meta_posting.Publish.Attempt.{
  Publishing, on_stage, mark_expired_for, finish_publish_failure, give_up, concluded,
}

module _ {S : Type 0} (store : Store S) (api : Graph S) (texts : Texts) (now : ℕ) where
  -- `adAccountGraphID`.
  abbrev pub ad_account_graph_id : AdAccount → String
  ad_account_graph_id account =
      if not (is_blank store api texts account.account_id)
      then account.account_id
      else if not (is_blank store api texts account.meta_ad_account_id)
      then account.meta_ad_account_id
      else ""

  module _ (id : ℕ) (batch : Batch) (result : AccountResult) (account : AdAccount) where
    abbrev pub request_for : Plan → String → Checkpoints → LaunchRequest
    request_for plan token known = record {
      account_id = ad_account_graph_id account;
      access_token = token;
      hierarchy = plan.hierarchy;
      validate_only = plan.validate_only;
      leave_paused = plan.leave_paused;
      resume = resume_from known;
    }

    abbrev pub publishing_service : Plan → Service (Publishing S)
    publishing_service plan =
        service_for store api texts (λ (t : Publishing S). t.0) (λ s t. (s, t.1))
          (on_stage store api texts now batch result plan)

    abbrev pub entered : Checkpoints → World S → World (Publishing S)
    entered known w = record { state = (w.state, known); sent = w.sent }

    abbrev pub left : World (Publishing S) → World S
    left w = let (s, known) = w.state in record { state = s; sent = w.sent }

    -- The publication, and what follows it.
    unfoldable pub publish_plan : Plan → String → Checkpoints → World S → World S × Option Error
    unfolding publish_account concluded on_stage
    publish_plan plan token known w =
        let (w', r) =
          publish_account (publishing_service plan) (request_for plan token known)
            (entered known w) in
        concluded store api texts now id batch result plan r (left w')

    abbrev pub media_bound :
        Plan → String → Checkpoints → World S → S × Answer Hierarchy → World S × Option Error
    media_bound plan token known w (s, refused e) =
        give_up store api texts now batch result none e (record w { state = s })
    media_bound plan token known w (s, answered h) =
        publish_plan (record plan { hierarchy = h }) token known (record w { state = s })

    -- The media are only needed to make a creative.
    unfoldable pub with_media : Plan → String → Checkpoints → World S → World S × Option Error
    unfolding bind_media publish_plan finish_publish_failure
    with_media plan token known w = elim (known ObjectType.creative) [
      | some o ↦ publish_plan plan token known w
      | none ↦
          media_bound plan token known w
            (bind_media api texts account plan.media_bindings [] plan.hierarchy w.state)
    ]

    abbrev pub preflown :
        Plan → String → World S × Checkpoints × Option Error → World S × Option Error
    preflown plan token (w, known, some e) = (w, some e)
    preflown plan token (w, known, none) = with_media plan token known w

    -- A retry is reconciled first.
    unfoldable pub with_preflight : Plan → String → Checkpoints → World S → World S × Option Error
    unfolding reconcile_publish_retry with_media
    with_preflight plan token known w =
        if ltb 0 result.attempts && not plan.validate_only
        then preflown plan token (
            reconcile_publish_retry store api texts now batch result (ad_account_graph_id account)
              plan known w)
        else with_media plan token known w

    abbrev pub tokened : Plan → Checkpoints → World S → S × Answer String → World S × Option Error
    tokened plan known w (s, refused e) =
        give_up store api texts now batch result none e (record w { state = s })
    tokened plan known w (s, answered token) =
        with_preflight plan token known (record w { state = s })

    abbrev pub marked : Plan → Plan
    marked plan = record plan {
      hierarchy = apply_publish_marker texts.trim_space texts.uuid result.id plan.hierarchy;
    }

    abbrev pub listed : Plan → World S → Answer (List PublishedObject) → World S × Option Error
    listed plan w (refused e) = (w, some e)
    listed plan w (answered objects) =
        tokened plan (index_checkpoints objects no_checkpoints) w
          (store.access_token batch.connection_id w.state)

    abbrev pub decoded : World S → Answer Plan → World S × Option Error
    decoded w (refused e) = give_up store api texts now batch result none (wrapped e) w
    decoded w (answered plan) =
        listed (marked plan) w (store.list_result_published_objects result.id w.state)

    abbrev pub begun : World S → S × Option Error → World S × Option Error
    begun w (s, some e) = (record w { state = s }, some e)
    begun w (s, none) = decoded (record w { state = s }) (texts.decode_plan result.request_json)

    -- From `MarkAccountRunning` on.
    unfoldable pub run_account : World S → World S × Option Error
    unfolding with_preflight finish_publish_failure apply_publish_marker
    run_account w =
        if account.connection_id == batch.connection_id
        then begun w (store.mark_account_running id now w.state)
        else (w, some plain_error)

  -- The deferred check for an access token that Meta no longer takes.
  unfoldable pub after_token_error : Batch → World S × Option Error → World S × Option Error
  unfolding access_token_error mark_expired_for
  after_token_error batch (w, none) = (w, none)
  after_token_error batch (w, some e) =
      let (s, expiry) = mark_expired_for store api texts now batch.connection_id e w.state in
      elim (access_token_error e) [
        | none ↦ (w, some e)
        | some g ↦ (record w { state = s }, join_errors (some e ∷ expiry ∷ []))
      ]

  abbrev pub account_read :
      ℕ → Batch → AccountResult → World S → Answer AdAccount → World S × Option Error
  account_read id batch result w (refused e) = (w, some e)
  account_read id batch result w (answered account) = run_account id batch result account w

  abbrev pub batch_read : ℕ → AccountResult → World S → Answer Batch → World S × Option Error
  batch_read id result w (refused e) = (w, some e)
  batch_read id result w (answered batch) =
      after_token_error batch
        (account_read id batch result w (store.get_ad_account result.ad_account_id w.state))

  abbrev pub result_read : ℕ → World S → Answer AccountResult → World S × Option Error
  result_read id w (refused e) = (w, some e)
  result_read id w (answered result) =
      batch_read id result w (store.get_batch result.batch_id w.state)

  -- `PublishAccountResult`.
  unfoldable pub publish_account_result : ℕ → World S → World S × Option Error
  unfolding run_account after_token_error
  publish_account_result id w = result_read id w (store.get_account_result id w.state)

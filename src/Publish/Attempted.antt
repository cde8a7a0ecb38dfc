-- ===== src/Publish/Attempted.antt =====
-- What an attempt for one account returns (internal/application/batches.go, PublishAccountResult).
use meta_posting.Prelude.{
  ℕ, String, true, ◌≡◌, refl, sym, ap, ◌⊎◌, inl, inr, Option, none, some, List, [], ◌++◌, str_eq,
  Option-cases, if_cases, not, ◌==◌, ltb, ◌&&◌,
}
use mathlib.Core.Path.{subst}
use meta_posting.Schema.{AccountResult, Batch, ObjectType, PublishedObject}
use meta_posting.Errors.{Error}
use meta_posting.Publish.{Hierarchy}
use meta_posting.Publish.Model.{Outcome, Sent, World, Answer, answered, refused}
use meta_posting.Publish.Launch.{publish_account}
use meta_posting.Publish.Creation.{Prefix}
use meta_posting.Publish.Order.{all_activations}
use meta_posting.Publish.Calm.{NoActive, Calm, Calm-silent, Calm-trans, publish_account-Sends}
use meta_posting.Publish.Backend.{Plan, AdAccount, Store, Graph, Texts}
use meta_posting.Publish.Media.{bind_media}
use meta_posting.Publish.Records.{
  Checkpoints, no_checkpoints, index_checkpoints, published_objects, last_publish_failure,
}
use meta_posting.Publish.Reconcile.{reconcile_publish_retry}
use meta_posting.Publish.Preflight.{reconcile_publish_retry-Calm}
use meta_posting.Publish.Attempt.{give_up, concluded, completion_of}
use meta_posting.Publish.Account.{
  left, publish_plan, publishing_service, request_for, entered, media_bound, with_media, preflown,
  with_preflight, tokened, marked, listed, decoded, begun, run_account, ad_account_graph_id,
}
use meta_posting.Publish.Safety.{
  unpaused_because, Concludes, give_up_paused-Concludes, unpaused-Concludes,
  success_recorded-Concludes,
}

module _ {S : Type 0} (store : Store S) (api : Graph S) (texts : Texts) (now : ℕ) (id : ℕ)
    (trim : texts.trim_space "" ≡ "") where
  module _ (batch : Batch) (result : AccountResult) where
    concluded-Concludes :
        (plan : Plan) (r : Outcome) (started : List Sent) (w : World S)
        → (plan.leave_paused ≡ true → started ≡ [])
        → Concludes store api texts now id batch result plan r started w
            (concluded store api texts now id batch result plan r w)
    unfolding concluded
    concluded-Concludes plan r started w idle =
        if_cases (Concludes store api texts now id batch result plan r started w) (not r.success)
          (λ p.
            if_cases (Concludes store api texts now id batch result plan r started w)
              (not (str_eq r.ids.campaign_id "") && not plan.leave_paused)
              (λ q. give_up_paused-Concludes store api texts now id batch result plan r started w)
              (λ q.
                unpaused-Concludes store api texts now id batch result plan r started w
                  (give_up store api texts now batch result (some r) (last_publish_failure texts r)
                    w)
                  trim refl
                  (unpaused_because plan.leave_paused (str_eq r.ids.campaign_id "") started idle
                    q)))
          (λ p.
            success_recorded-Concludes store api texts now id batch result plan r started w
              (store.finish_account_result id (completion_of store api texts now r)
                (published_objects batch result plan r (texts.outcome_json r)) now w.state)
              trim idle refl)

    module _ (account : AdAccount) where
      -- The run of `PublishAccount`, and the world that it leaves.
      abbrev pub launched : Plan → String → Checkpoints → World S → World S × Outcome
      launched plan token known w =
          let (w', r) =
            publish_account (publishing_service store api texts now id batch result account plan)
              (request_for store api texts now id batch result account plan token known)
              (entered store api texts now id batch result account known w) in
          (left store api texts now id batch result account w', r)

      -- A publication asks for ACTIVE at most for its ad, then its ad set, then its campaign, behind all
      -- its other calls, and is concluded so that no campaign stays active by accident.
      abbrev pub Publishes : Plan → String → Checkpoints → World S → World S × Option Error → Type 0
      Publishes plan token known w res =
          (calls : List Sent) × (started : List Sent) × ((launched plan token known w).0.sent
            ≡ w.sent ++ (calls ++ started))
          × NoActive calls
          × Prefix started (all_activations (launched plan token known w).1.ids)
          × Concludes store api texts now id batch result plan (launched plan token known w).1
              started (launched plan token known w).0 res

      -- An attempt asks for no ACTIVE, or it returns what a publication returns, before which it has
      -- asked for none.
      abbrev pub Attempted : World S → World S × Option Error → Type 0
      Attempted w res =
          Calm w.sent res.0.sent
          ⊎ ((plan : Plan) × (token : String) × (known : Checkpoints) × (w1 : World S) × Calm w.sent
                w1.sent
              × (res ≡ publish_plan store api texts now id batch result account plan token known w1)
              × Publishes plan token known w1 res)

      publish_plan-Publishes :
          (plan : Plan) (token : String) (known : Checkpoints) (w : World S)
          → Publishes plan token known w
              (publish_plan store api texts now id batch result account plan token known w)
      unfolding publish_plan
      publish_plan-Publishes plan token known w =
          let (calls, started, h, quiet, starts, idle) =
            publish_account-Sends
              (publishing_service store api texts now id batch result account plan)
              (request_for store api texts now id batch result account plan token known)
              (entered store api texts now id batch result account known w) in
          (
            calls,
            started,
            h,
            quiet,
            starts,
            concluded-Concludes plan (launched plan token known w).1 started
                (launched plan token known w).0 idle,
          )

      ran :
          (plan : Plan) (token : String) (known : Checkpoints) (w : World S)
          → Attempted w
              (publish_plan store api texts now id batch result account plan token known w)
      ran plan token known w = inr (
        plan,
        token,
        known,
        w,
        Calm-silent w.sent,
        refl,
        publish_plan-Publishes plan token known w,
      )

      later_attempt :
          (w w1 : World S) (res : World S × Option Error)
          → Calm w.sent w1.sent
          → Attempted w1 res
          → Attempted w res
      later_attempt w w1 res c (inl d) = inl (Calm-trans w.sent w1.sent res.0.sent c d)
      later_attempt w w1 res c (inr (plan, token, known, w2, d, same, how)) =
          inr (plan, token, known, w2, Calm-trans w.sent w1.sent w2.sent c d, same, how)

      media_bound-Attempted :
          (plan : Plan) (token : String) (known : Checkpoints) (w : World S)
          (res : S × Answer Hierarchy)
          → Attempted w
              (media_bound store api texts now id batch result account plan token known w res)
      media_bound-Attempted plan token known w (s, refused e) = inl (Calm-silent w.sent)
      media_bound-Attempted plan token known w (s, answered h) =
          ran (record plan { hierarchy = h }) token known (record w { state = s })

      with_media-none :
          (plan : Plan) (token : String) (known : Checkpoints) (w : World S)
          → known ObjectType.creative ≡ none
          → media_bound store api texts now id batch result account plan token known w
              (bind_media api texts account plan.media_bindings [] plan.hierarchy w.state)
            ≡ with_media store api texts now id batch result account plan token known w
      unfolding with_media
      with_media-none plan token known w e = rw (e, with_media) refl

      with_media-some :
          (plan : Plan) (token : String) (known : Checkpoints) (w : World S) (o : PublishedObject)
          → known ObjectType.creative ≡ some o
          → publish_plan store api texts now id batch result account plan token known w
            ≡ with_media store api texts now id batch result account plan token known w
      unfolding with_media
      with_media-some plan token known w o e =
          ap
            (λ (c : Option PublishedObject). elim c [
              | some x ↦ publish_plan store api texts now id batch result account plan token known w
              | none ↦
                  media_bound store api texts now id batch result account plan token known w
                    (bind_media api texts account plan.media_bindings [] plan.hierarchy w.state)
            ])
            (sym e)

      with_media-Attempted :
          (plan : Plan) (token : String) (known : Checkpoints) (w : World S)
          → Attempted w (with_media store api texts now id batch result account plan token known w)
      with_media-Attempted plan token known w = elim (Option-cases (known ObjectType.creative)) [
        | inl e ↦ subst (Attempted w) (with_media-none plan token known w e) (
            media_bound-Attempted plan token known w
              (bind_media api texts account plan.media_bindings [] plan.hierarchy w.state))
        | inr (o, e) ↦
            subst (Attempted w) (with_media-some plan token known w o e) (ran plan token known w)
      ]

      preflown-Attempted :
          (plan : Plan) (token : String) (w : World S) (res : World S × Checkpoints × Option Error)
          → Calm w.sent res.0.sent
          → Attempted w (preflown store api texts now id batch result account plan token res)
      preflown-Attempted plan token w (w1, known, some e) c = inl c
      preflown-Attempted plan token w (w1, known, none) c =
          later_attempt w w1 _ c (with_media-Attempted plan token known w1)

      with_preflight-Attempted :
          (plan : Plan) (token : String) (known : Checkpoints) (w : World S)
          → Attempted w
              (with_preflight store api texts now id batch result account plan token known w)
      unfolding with_preflight
      with_preflight-Attempted plan token known w =
          if_cases (Attempted w) (ltb 0 result.attempts && not plan.validate_only)
            (λ p.
              preflown-Attempted plan token w
                (reconcile_publish_retry store api texts now batch result
                  (ad_account_graph_id store api texts now account) plan known w)
                (reconcile_publish_retry-Calm store api texts now batch result
                  (ad_account_graph_id store api texts now account) plan known w))
            (λ p. with_media-Attempted plan token known w)

      tokened-Attempted :
          (plan : Plan) (known : Checkpoints) (w : World S) (res : S × Answer String)
          → Attempted w (tokened store api texts now id batch result account plan known w res)
      tokened-Attempted plan known w (s, refused e) = inl (Calm-silent w.sent)
      tokened-Attempted plan known w (s, answered token) =
          with_preflight-Attempted plan token known (record w { state = s })

      listed-Attempted :
          (plan : Plan) (w : World S) (res : Answer (List PublishedObject))
          → Attempted w (listed store api texts now id batch result account plan w res)
      listed-Attempted plan w (refused e) = inl (Calm-silent w.sent)
      listed-Attempted plan w (answered objects) =
          tokened-Attempted plan (index_checkpoints objects no_checkpoints) w
            (store.access_token batch.connection_id w.state)

      decoded-Attempted :
          (w : World S) (res : Answer Plan)
          → Attempted w (decoded store api texts now id batch result account w res)
      decoded-Attempted w (refused e) = inl (Calm-silent w.sent)
      decoded-Attempted w (answered plan) =
          listed-Attempted (marked store api texts now id batch result account plan) w
            (store.list_result_published_objects result.id w.state)

      begun-Attempted :
          (w : World S) (res : S × Option Error)
          → Attempted w (begun store api texts now id batch result account w res)
      begun-Attempted w (s, some e) = inl (Calm-silent w.sent)
      begun-Attempted w (s, none) =
          decoded-Attempted (record w { state = s }) (texts.decode_plan result.request_json)

      pub run_account-Attempted :
          (w : World S) → Attempted w (run_account store api texts now id batch result account w)
      unfolding run_account
      run_account-Attempted w =
          if_cases (Attempted w) (account.connection_id == batch.connection_id)
            (λ p. begun-Attempted w (store.mark_account_running id now w.state))
            (λ p. inl (Calm-silent w.sent))

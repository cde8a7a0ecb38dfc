-- ===== src/Publish/Preflight.antt =====
-- A retry's preflight never asks for ACTIVE (internal/application/batches.go,
-- reconcilePublishRetry).
use meta_posting.Prelude.{ℕ, String, Option, none, some, Option-cases, inl, inr}
use meta_posting.Schema.{AccountResult, Batch, ObjectType, PublishedObject}
use meta_posting.Errors.{Error}
use meta_posting.Publish.Model.{World, Answer, answered, refused}
use meta_posting.Publish.Payloads.{name_of}
use meta_posting.Publish.Calm.{Calm, Calm-silent, Calm-trans, set_entity_status-Calm}
use meta_posting.Publish.Backend.{Plan, RemotePublishedObject, Store, Graph, Texts}
use meta_posting.Publish.Records.{Checkpoints}
use meta_posting.Publish.Reconcile.{
  Found, absent, present, broken, kept_checkpoint, reconciled, reconcile_remote_object, paused_then,
  reconciled_campaign, status_kept, paused_again, reconcile_campaign, if_present, nothing_more,
  search_ad, search_creative, search_ad_set, reconcile_publish_retry, safety_pause_campaign,
  plain_service, find_published_object_by_name,
}

module _ {S : Type 0} (store : Store S) (api : Graph S) (texts : Texts) (now : ℕ) (batch : Batch)
    (result : AccountResult) (account : String) (plan : Plan) where
  kept_checkpoint-Calm :
      (known : Checkpoints) (w : World S) (s : S × Answer PublishedObject)
      → Calm w.sent (kept_checkpoint store api texts known w s).0.sent
  kept_checkpoint-Calm known w (s, refused e) = Calm-silent w.sent
  kept_checkpoint-Calm known w (s, answered o) = Calm-silent w.sent

  reconciled-Calm :
      (kind : ObjectType) (parent : String) (known : Checkpoints) (w : World S)
      (s : S × Answer (Option RemotePublishedObject))
      → Calm w.sent
          (reconciled store api texts now batch result account plan kind parent known w s).0.sent
  reconciled-Calm kind parent known w (s, refused e) = Calm-silent w.sent
  reconciled-Calm kind parent known w (s, answered none) = Calm-silent w.sent
  reconciled-Calm kind parent known w (s, answered (some remote)) =
      kept_checkpoint-Calm known (record w { state = s }) _

  object-Calm :
      (kind : ObjectType) (parent : String) (known : Checkpoints) (w : World S)
      → Calm w.sent
          (reconcile_remote_object store api texts now batch result account plan kind parent known
            w).0.sent
  unfolding reconcile_remote_object
  object-Calm kind parent known w = elim (Option-cases (known kind)) [
    | inl e ↦
        rw (e, reconcile_remote_object)
          (reconciled-Calm kind parent known w (
            find_published_object_by_name store api texts account kind (name_of kind plan.hierarchy)
              parent w.state))
    | inr (o, e) ↦ rw (e, reconcile_remote_object) (Calm-silent w.sent)
  ]

  paused_then-Calm :
      (remote : RemotePublishedObject) (known : Checkpoints) (w : World S)
      (p : World S × Option Error)
      → Calm w.sent p.0.sent
      → Calm w.sent
          (paused_then store api texts now batch result account plan remote known p).0.sent
  paused_then-Calm remote known w (w1, some e) c = c
  paused_then-Calm remote known w (w1, none) c =
      Calm-trans w.sent w1.sent _ c (kept_checkpoint-Calm known w1 _)

  reconciled_campaign-Calm :
      (known : Checkpoints) (w : World S) (s : S × Answer (Option RemotePublishedObject))
      → Calm w.sent
          (reconciled_campaign store api texts now batch result account plan known w s).0.sent
  unfolding safety_pause_campaign
  reconciled_campaign-Calm known w (s, refused e) = Calm-silent w.sent
  reconciled_campaign-Calm known w (s, answered none) = Calm-silent w.sent
  reconciled_campaign-Calm known w (s, answered (some remote)) =
      paused_then-Calm remote known w
        (safety_pause_campaign store api texts remote.id (record w { state = s }))
        (set_entity_status-Calm (plain_service store api texts) remote.id (record w { state = s }))

  status_kept-Calm :
      (o : PublishedObject) (known : Checkpoints) (w : World S) (s : S × Option Error)
      → Calm w.sent (status_kept store api texts now batch result account plan o known w s).0.sent
  status_kept-Calm o known w (s, some e) = Calm-silent w.sent
  status_kept-Calm o known w (s, none) = Calm-silent w.sent

  paused_again-Calm :
      (o : PublishedObject) (known : Checkpoints) (w : World S) (p : World S × Option Error)
      → Calm w.sent p.0.sent
      → Calm w.sent (paused_again store api texts now batch result account plan o known p).0.sent
  paused_again-Calm o known w (w1, some e) c = c
  paused_again-Calm o known w (w1, none) c =
      Calm-trans w.sent w1.sent _ c (status_kept-Calm o known w1 _)

  campaign-Calm :
      (known : Checkpoints) (w : World S)
      → Calm w.sent
          (reconcile_campaign store api texts now batch result account plan known w).0.sent
  unfolding reconcile_campaign safety_pause_campaign
  campaign-Calm known w = elim (Option-cases (known ObjectType.campaign)) [
    | inl e ↦
        rw (e, reconcile_campaign)
          (reconciled_campaign-Calm known w (
            find_published_object_by_name store api texts account ObjectType.campaign
              plan.hierarchy.campaign.name "" w.state))
    | inr (o, e) ↦
        rw (e, reconcile_campaign)
          (paused_again-Calm o known w (safety_pause_campaign store api texts o.meta_object_id w)
            (set_entity_status-Calm (plain_service store api texts) o.meta_object_id w))
  ]

  if_present-Calm :
      (w : World S) (step : World S × Checkpoints × Found)
      (next : PublishedObject → World S → Checkpoints → World S × Checkpoints × Option Error)
      → Calm w.sent step.0.sent
      → ((o : PublishedObject) (w1 : World S) (known : Checkpoints)
          → Calm w1.sent (next o w1 known).0.sent)
      → Calm w.sent (if_present store api texts now batch result account plan step next).0.sent
  if_present-Calm w (w1, known, absent) next c d = c
  if_present-Calm w (w1, known, broken e) next c d = c
  if_present-Calm w (w1, known, present o) next c d = Calm-trans w.sent w1.sent _ c (d o w1 known)

  pub reconcile_publish_retry-Calm :
      (known : Checkpoints) (w : World S)
      → Calm w.sent
          (reconcile_publish_retry store api texts now batch result account plan known w).0.sent
  unfolding reconcile_publish_retry
  reconcile_publish_retry-Calm known w =
      if_present-Calm w (reconcile_campaign store api texts now batch result account plan known w)
        (search_ad_set store api texts now batch result account plan) (campaign-Calm known w)
        (λ campaign w1 known1.
          if_present-Calm w1
            (reconcile_remote_object store api texts now batch result account plan ObjectType.ad_set
              campaign.meta_object_id known1 w1)
            (search_creative store api texts now batch result account plan)
            (object-Calm ObjectType.ad_set campaign.meta_object_id known1 w1)
            (λ ad_set w2 known2.
              if_present-Calm w2
                (reconcile_remote_object store api texts now batch result account plan
                  ObjectType.creative "" known2 w2)
                (search_ad store api texts now batch result account plan ad_set)
                (object-Calm ObjectType.creative "" known2 w2)
                (λ creative w3 known3.
                  if_present-Calm w3
                    (reconcile_remote_object store api texts now batch result account plan
                      ObjectType.ad ad_set.meta_object_id known3 w3)
                    (nothing_more store api texts now batch result account plan)
                    (object-Calm ObjectType.ad ad_set.meta_object_id known3 w3)
                    (λ ad w4 known4. Calm-silent w4.sent))))

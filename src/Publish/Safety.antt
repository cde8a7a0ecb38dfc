-- ===== src/Publish/Safety.antt =====
-- An attempt never leaves a campaign active by accident (internal/application/batches.go).
use meta_posting.Prelude.{
  ℕ, String, Bool, not, ◌&&◌, if_cases, true, false, ◌≡◌, refl, ◌∙◌, ◌⊎◌, inl, inr, Option, none,
  some, List, [], ◌∷◌, ◌++◌, str_eq, str_eq_iff, Bool-cases,
}
use meta_posting.Schema.{AccountStatus, AccountResult, Batch}
use meta_posting.Errors.{Error}
use meta_posting.Publish.Model.{Outcome, Sent, set_status, World}
use meta_posting.Publish.Launch.{set_entity_status, status_error}
use meta_posting.Publish.Backend.{Plan, Store, Graph, Texts}
use meta_posting.Publish.Records.{published_objects}
use meta_posting.Publish.Reconcile.{is_blank, plain_service, safety_pause_campaign}
use meta_posting.Publish.Attempt.{pause_error, give_up_paused, success_recorded, completion_of}

-- Why the failed campaign need not be paused.
pub unpaused_because :
    (paused nameless : Bool) (started : List Sent)
    → (paused ≡ true → started ≡ [])
    → (not nameless && not paused) ≡ false
    → (started ≡ []) ⊎ (nameless ≡ true)
unpaused_because true nameless started idle h = inl (idle refl)
unpaused_because false true started idle h = inr refl
unpaused_because false false started idle h = cc

and_comm-false : (a b : Bool) → (a && b) ≡ false → (b && a) ≡ false
and_comm-false true b h = rw h refl
and_comm-false false true h = refl
and_comm-false false false h = refl

module _ {S : Type 0} (store : Store S) (api : Graph S) (texts : Texts) (now : ℕ) (id : ℕ)
    (batch : Batch) (result : AccountResult) (plan : Plan) where
  -- The success of the result is written, by the call of an outcome in a state.
  abbrev pub Recorded : Outcome → S → Type 0
  Recorded r s =
      (s' : S) × ((completion_of store api texts now r).status ≡ AccountStatus.succeeded)
      × (store.finish_account_result id (completion_of store api texts now r)
            (published_objects batch result plan r (texts.outcome_json r)) now s
          ≡ (s', none))

  -- Meta confirms, in a state, that an object is paused.
  abbrev pub Confirmed : String → S → Type 0
  Confirmed object s =
      status_error (plain_service store api texts) (api.post_status object "PAUSED" s).1 ≡ none

  -- How a publication with an outcome is concluded that has asked for some activations, from the world
  -- that it leaves: nothing was activated, or the campaign has a blank id, which Meta is never asked
  -- about; or the success is recorded; or one more call asks to pause the campaign.
  abbrev pub Concludes : Outcome → List Sent → World S → World S × Option Error → Type 0
  Concludes r started w res =
      ((res.0.sent ≡ w.sent)
        × ((started ≡ []) ⊎ (is_blank store api texts r.ids.campaign_id ≡ true)))
      ⊎ (((res.0.sent ≡ w.sent) × (res.1 ≡ none) × Recorded r w.state)
          ⊎ ((res.0.sent ≡ w.sent ++ set_status r.ids.campaign_id "PAUSED" ∷ [])
              × (res.1 ≡ none → Confirmed r.ids.campaign_id w.state)))

  -- An error that is joined to the others is not lost.
  pause_error-none :
      (complaint e : Option Error)
      → pause_error store api texts now complaint e ≡ none
      → complaint ≡ none
  pause_error-none none e h = refl
  pause_error-none (some c) none h = cc
  pause_error-none (some c) (some e) h = cc

  -- The pause of a campaign, and what is returned behind it.
  paused-Concludes :
      (r : Outcome) (started : List Sent) (w : World S) (res : World S × Option Error)
      → res.0.sent ≡ (safety_pause_campaign store api texts r.ids.campaign_id w).0.sent
      → (res.1 ≡ none → (safety_pause_campaign store api texts r.ids.campaign_id w).1 ≡ none)
      → Concludes r started w res
  unfolding safety_pause_campaign set_entity_status
  paused-Concludes r started w res k u =
      elim (Bool-cases (is_blank store api texts r.ids.campaign_id)) [
        | inl b ↦ inl (k ∙ rw (b, safety_pause_campaign) refl, inr b)
        | inr b ↦ inr (
            inr
              (k ∙ rw (b, safety_pause_campaign) refl, (λ t. rw (b, safety_pause_campaign) at u t)))
      ]

  pub give_up_paused-Concludes :
      (r : Outcome) (started : List Sent) (w : World S)
      → Concludes r started w (
          give_up_paused store api texts now batch result r
            (safety_pause_campaign store api texts r.ids.campaign_id w))
  give_up_paused-Concludes r started w =
      paused-Concludes r started w
        (give_up_paused store api texts now batch result r
          (safety_pause_campaign store api texts r.ids.campaign_id w))
        refl (pause_error-none (safety_pause_campaign store api texts r.ids.campaign_id w).1 _)

  -- The pause of a campaign behind an error that is returned.
  pause_failed-Concludes :
      (r : Outcome) (started : List Sent) (w : World S) (s : S) (e : Option Error)
      → (e ≡ none → ⊥)
      → Concludes r started w
          ((safety_pause_campaign store api texts r.ids.campaign_id (record w { state = s })).0, e)
  unfolding safety_pause_campaign set_entity_status
  pause_failed-Concludes r started w s e lost =
      elim (Bool-cases (is_blank store api texts r.ids.campaign_id)) [
        | inl b ↦ inl (rw (b, safety_pause_campaign) refl, inr b)
        | inr b ↦ inr (inr (rw (b, safety_pause_campaign) refl, (λ t. absurd (lost t))))
      ]

  -- What is left to conclude when the campaign must not be paused.
  pub unpaused-Concludes :
      (r : Outcome) (started : List Sent) (w : World S) (res : World S × Option Error)
      → texts.trim_space "" ≡ ""
      → res.0.sent ≡ w.sent
      → (started ≡ []) ⊎ (str_eq r.ids.campaign_id "" ≡ true)
      → Concludes r started w res
  unpaused-Concludes r started w res trim silent (inl idle) = inl (silent, inl idle)
  unpaused-Concludes r started w res trim silent (inr nameless) =
      inl (silent, inr (rw ((str_eq_iff r.ids.campaign_id "").0 nameless, trim) refl))

  pub success_recorded-Concludes :
      (r : Outcome) (started : List Sent) (w : World S) (res : S × Option Error)
      → texts.trim_space "" ≡ ""
      → (plan.leave_paused ≡ true → started ≡ [])
      → store.finish_account_result id
          (completion_of store api texts now r)
          (published_objects batch result plan r (texts.outcome_json r))
          now
          w.state
        ≡ res
      → Concludes r started w
          (success_recorded store api texts now id batch plan.leave_paused r w res)
  unfolding safety_pause_campaign set_entity_status
  success_recorded-Concludes r started w (s, none) trim idle k =
      inr (inl (refl, refl, (s, refl, k)))
  success_recorded-Concludes r started w (s, some e) trim idle k =
      if_cases (Concludes r started w) (not plan.leave_paused && not (str_eq r.ids.campaign_id ""))
        (λ q. pause_failed-Concludes r started w s _ (λ t. cc))
        (λ q.
          unpaused-Concludes r started w (record w { state = s }, some e) trim refl
            (unpaused_because plan.leave_paused (str_eq r.ids.campaign_id "") started idle
              (and_comm-false (not plan.leave_paused) (not (str_eq r.ids.campaign_id "")) q)))

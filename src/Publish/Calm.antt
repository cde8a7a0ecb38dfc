-- ===== src/Publish/Calm.antt =====
-- The parts of an attempt that never ask for ACTIVE (internal/meta/publisher.go).
use meta_posting.Prelude.{
  String, Bool, true, false, ◌≡◌, refl, sym, ap, ◌∙◌, inl, inr, Option, List, [], ◌∷◌, ◌++◌, str_eq,
  Bool-cases, if_both, not, All, All-append,
}
use mathlib.Core.List.{append_assoc, append-nil}
use meta_posting.Schema.{ObjectType}
use meta_posting.Errors.{Error}
use meta_posting.Publish.{Hierarchy, validate}
use meta_posting.Publish.Model.{
  LaunchRequest, Outcome, Sent, post, set_status, World, Service, plain_error, done_stage,
  add_stage, validation, locally_validated, blank_outcome, is_nil, create_payload,
  execution_options,
}
use meta_posting.Publish.Launch.{set_entity_status, validate_only, publish_account, rejected}
use meta_posting.Publish.Creation.{Prefix, Creates, no_more, also}
use meta_posting.Publish.Order.{all_activations, InOrder, publish_account-InOrder}

abbrev pub is_activation : Sent → Bool
is_activation (post kind account payload) = false
is_activation (set_status id status) = str_eq status "ACTIVE"

abbrev pub NoActive : List Sent → Type 0
NoActive sent = All (λ x. is_activation x ≡ false) sent

-- One log follows another without a call for ACTIVE.
abbrev pub Calm : List Sent → List Sent → Type 0
Calm before after = (more : List Sent) × (after ≡ before ++ more) × NoActive more

pub Calm-silent : (before : List Sent) → Calm before before
Calm-silent before = ([], sym (append-nil before), tt)

pub Calm-trans :
    (before mid after : List Sent) → Calm before mid → Calm mid after → Calm before after
Calm-trans before mid after (xs, h, a) (ys, h', b) = (
  xs ++ ys,
  h' ∙ ap (λ s. s ++ ys) h ∙ append_assoc before xs ys,
  All-append (λ x. is_activation x ≡ false) xs ys a b,
)

Creates-NoActive :
    (account : String) (h : Hierarchy) {kinds : List ObjectType} {made : List Sent}
    → Creates account h kinds made
    → NoActive made
Creates-NoActive account h no_more = tt
Creates-NoActive account h (also ids rest) = (refl, Creates-NoActive account h rest)

module _ {S : Type 0} (service : Service S) where
  -- What a publication sends: calls that activate nothing, and the activations.
  abbrev pub Sends : LaunchRequest → World S → World S × Outcome → Type 0
  Sends request w (w', r) =
      (calls : List Sent) × (started : List Sent) × (w'.sent ≡ w.sent ++ (calls ++ started))
      × NoActive calls
      × Prefix started (all_activations r.ids)
      × (request.leave_paused ≡ true → started ≡ [])

  ordered-Sends :
      (request : LaunchRequest) (w : World S) (res : World S × Outcome)
      → InOrder service request w res
      → Sends request w res
  ordered-Sends request w (w', r)
        (kinds, made, started, sent, creates, first, starts, after, paused, whole) =
      (
        made,
        started,
        sent,
        Creates-NoActive request.account_id request.hierarchy creates,
        starts,
        paused,
      )

  silent-Sends : (request : LaunchRequest) (w : World S) (r : Outcome) → Sends request w (w, r)
  silent-Sends request w r = ([], [], sym (append-nil w.sent), tt, (_, refl), (λ t. refl))

  validate_only-Sends :
      (request : LaunchRequest) (w : World S) (r : Outcome)
      → Sends request w (validate_only service request w r)
  unfolding validate_only
  validate_only-Sends request w r =
      let campaign =
        post ObjectType.campaign request.account_id
          (execution_options (create_payload ObjectType.campaign request.hierarchy r.ids)) in
      let creative =
        post ObjectType.creative request.account_id
          (execution_options (create_payload ObjectType.creative request.hierarchy r.ids)) in
      (
        campaign ∷ creative ∷ [],
        [],
        append_assoc w.sent (campaign ∷ []) (creative ∷ []),
        (refl, (refl, tt)),
        (_, refl),
        (λ t. refl),
      )

  pub publish_account-Sends :
      (request : LaunchRequest) (w : World S) → Sends request w (publish_account service request w)
  unfolding publish_account
  publish_account-Sends request w = elim (Bool-cases request.validate_only) [
    | inr h ↦
        ordered-Sends request w (publish_account service request w)
          (publish_account-InOrder service request w h)
    | inl h ↦
        if_both (Sends request w) (service.is_blank request.account_id)
          (silent-Sends request w (rejected service plain_error))
          (if_both (Sends request w) (str_eq request.access_token "")
            (silent-Sends request w (rejected service plain_error))
            (if_both (Sends request w) (not (is_nil (validate service.is_blank request.hierarchy)))
              (silent-Sends request w (
                rejected service
                  (service.invalid_spec (validate service.is_blank request.hierarchy))))
              (rw h (
                validate_only-Sends request w
                  (add_stage (done_stage validation locally_validated "") blank_outcome)))))
  ]

  pub set_entity_status-Calm :
      (id : String) (w : World S) → Calm w.sent (set_entity_status service id "PAUSED" w).0.sent
  unfolding set_entity_status
  set_entity_status-Calm id w =
      if_both (λ (p : World S × Option Error). Calm w.sent p.0.sent) (service.is_blank id)
        (Calm-silent w.sent) (set_status id "PAUSED" ∷ [], refl, (refl, tt))

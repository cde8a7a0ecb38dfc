-- ===== src/Publish/Order.antt =====
-- In which order a publication makes its calls (internal/meta/publisher.go, PublishAccount).
use meta_posting.Prelude.{
  String, Bool, true, false, ◌≡◌, refl, sym, ap, ◌∙◌, ◌⊎◌, inl, inr, ◌≢◌, Option, none, some, List,
  [], ◌∷◌, ◌++◌, str_eq, Bool-cases, if_both, not,
}
use mathlib.Core.List.{append_assoc, append-nil}
use meta_posting.Schema.{ObjectType}
use meta_posting.Errors.{Error}
use meta_posting.Publish.{validate}
use meta_posting.Publish.Model.{
  activating, activated, done_stage, add_stage, Ids, id_of, LaunchRequest, Outcome, Sent,
  set_status, World, Service, plain_error, creation_order, activation_order, is_nil, blank_outcome,
  validation, locally_validated,
}
use meta_posting.Publish.Launch.{
  set_entity_status, activated_or_not, activate_object, and_then, launch_all, activate_all, go_live,
  live, publish_account, without_flag, rejected,
}
use meta_posting.Publish.Creation.{
  Prefix, missing, Creates, no_more, SameFlags, notify-Quiet, Launches, launch_all-Launches,
}

-- The calls that activate objects.
abbrev pub activations : Ids → List ObjectType → List Sent
activations ids [] = []
activations ids (kind ∷ kinds) = set_status (id_of kind ids) "ACTIVE" ∷ activations ids kinds

-- The calls that let a hierarchy spend: the campaign's is the last.
abbrev pub all_activations : Ids → List Sent
all_activations ids =
    set_status ids.ad_id "ACTIVE"
    ∷ set_status ids.ad_set_id "ACTIVE"
    ∷ set_status ids.campaign_id "ACTIVE"
    ∷ []

-- The kinds that a publication has to create, parents before their children.
abbrev pub to_create : Ids → List ObjectType
to_create resume =
    missing resume
      (ObjectType.campaign ∷ ObjectType.ad_set ∷ ObjectType.creative ∷ ObjectType.ad ∷ [])

module _ {S : Type 0} (service : Service S) where
  -- A change of status asks at most once, and an error is certain when it does not ask.
  abbrev Asks : String → World S → World S × Option Error → Type 0
  Asks id w (w', complaint) =
      (w'.sent ≡ w.sent ++ set_status id "ACTIVE" ∷ [])
      ⊎ ((w'.sent ≡ w.sent) × (complaint ≡ some plain_error))

  set_entity_status-Asks :
      (id : String) (w : World S) → Asks id w (set_entity_status service id "ACTIVE" w)
  unfolding set_entity_status
  set_entity_status-Asks id w = elim (Bool-cases (service.is_blank id)) [
    | inl e ↦ rw (e, set_entity_status) (inr (refl, refl))
    | inr e ↦ rw (e, set_entity_status) (inl refl)
  ]

  -- What activating objects adds to the log.
  abbrev Activates : World S → Outcome → List Sent → World S × Outcome × Bool → Type 0
  Activates w r calls (w', r', go) =
      (started : List Sent) × (w'.sent ≡ w.sent ++ started)
      × Prefix started calls
      × (go ≡ true → started ≡ calls)
      × SameFlags r r'
      × (r'.ids ≡ r.ids)

  activated-Activates :
      (kind : ObjectType) (w : World S) (r : Outcome) (step : World S × Option Error)
      → Asks (id_of kind r.ids) w step
      → Activates w r (activations r.ids (kind ∷ [])) (activated_or_not service kind r step)
  activated-Activates kind w r (w', some e) (inl asked) =
      (activations r.ids (kind ∷ []), asked, ([], refl), (λ t. refl), (refl, refl), refl)
  activated-Activates kind w r (w', some e) (inr (silent, same)) = (
    [],
    silent ∙ sym (append-nil w.sent),
    (activations r.ids (kind ∷ []), refl),
    (λ t. cc),
    (refl, refl),
    refl,
  )
  activated-Activates kind w r (w', none) (inl asked) =
      let (quiet, same, ids) =
        notify-Quiet service (done_stage (activating kind) activated (id_of kind r.ids)) w'
          (add_stage (done_stage (activating kind) activated (id_of kind r.ids)) r) in
      (activations r.ids (kind ∷ []), quiet ∙ asked, ([], refl), (λ t. refl), same, ids)
  activated-Activates kind w r (w', none) (inr (silent, same)) = cc

  activated_then :
      (kind : ObjectType) (kinds : List ObjectType) (w : World S) (r : Outcome)
      (step : World S × Outcome × Bool)
      → Activates w r (activations r.ids (kind ∷ [])) step
      → ((w1 : World S) (r1 : Outcome)
          → Activates w1 r1 (activations r1.ids kinds) (activate_all service kinds w1 r1))
      → Activates w r
          (activations r.ids (kind ∷ kinds))
          (and_then service step (activate_all service kinds))
  activated_then kind kinds w r (w1, r1, false) (started, more, (zs, starts), whole, same, ids)
        rest =
      (
        started,
        more,
        (
          zs ++ activations r.ids kinds,
          sym (append_assoc started zs _) ∙ ap (λ xs. xs ++ activations r.ids kinds) starts,
        ),
        (λ t. cc),
        same,
        ids,
      )
  activated_then kind kinds w r (w1, r1, true) (started, more, starts, whole, (s, a), ids) rest =
      let (started', more', (zs, starts'), whole', (s', a'), ids') = rest w1 r1 in
      (
        set_status (id_of kind r.ids) "ACTIVE" ∷ started',
        more'
            ∙ ap (λ xs. xs ++ started') more
            ∙ append_assoc w.sent started started'
            ∙ ap (λ xs. w.sent ++ (xs ++ started')) (whole refl),
        (
          zs,
          ap (λ xs. set_status (id_of kind r.ids) "ACTIVE" ∷ xs)
              (starts' ∙ ap (λ i. activations i kinds) ids),
        ),
        (λ t.
            ap (λ xs. set_status (id_of kind r.ids) "ACTIVE" ∷ xs)
              (whole' t ∙ ap (λ i. activations i kinds) ids)),
        (s' ∙ s, a' ∙ a),
        ids' ∙ ids,
      )

  activate_all-Activates :
      (kinds : List ObjectType) (w : World S) (r : Outcome)
      → Activates w r (activations r.ids kinds) (activate_all service kinds w r)
  unfolding activate_all activate_object
  activate_all-Activates [] w r =
      ([], sym (append-nil w.sent), ([], refl), (λ t. refl), (refl, refl), refl)
  activate_all-Activates (kind ∷ kinds) w r =
      activated_then kind kinds w r
        (activated_or_not service kind r (set_entity_status service (id_of kind r.ids) "ACTIVE" w))
        (activated-Activates kind w r (set_entity_status service (id_of kind r.ids) "ACTIVE" w)
          (set_entity_status-Asks (id_of kind r.ids) w))
        (activate_all-Activates kinds)

  -- The calls behind the creations.
  abbrev Starts : Bool → World S → World S × Outcome × Bool → Type 0
  Starts paused w (w', r', go) =
      (started : List Sent) × (w'.sent ≡ w.sent ++ started)
      × Prefix started (activations r'.ids activation_order)
      × (paused ≡ true → started ≡ [])
      × (paused ≡ false → r'.success ≡ true → started ≡ activations r'.ids activation_order)

  live-Starts :
      (w : World S) (r : Outcome) (step : World S × Outcome × Bool)
      → r.success ≡ false
      → Activates w r (activations r.ids activation_order) step
      → Starts false w (and_then service step (live service))
  live-Starts w r (w1, r1, true) fresh (started, more, starts, whole, same, ids) =
      (started, more, rw ids starts, (λ t. cc), (λ t u. rw ids (whole refl)))
  live-Starts w r (w1, r1, false) fresh (started, more, starts, whole, same, ids) =
      (started, more, rw ids starts, (λ t. cc), (λ t u. cc (fresh, same.0)))

  go_live-Starts :
      (request : LaunchRequest) (w : World S) (r : Outcome)
      → r.success ≡ false
      → Starts request.leave_paused w (go_live service request w r)
  unfolding go_live
  go_live-Starts request w r fresh = elim (Bool-cases request.leave_paused) [
    | inl e ↦ rw (e, go_live) ([], sym (append-nil w.sent), (_, refl), (λ t. refl), (λ t. cc))
    | inr e ↦
        rw (e, go_live)
          (live-Starts w r (activate_all service activation_order w r) fresh
            (activate_all-Activates activation_order w r))
  ]

  -- What a publication has sent in the end, from the calls before it.
  abbrev pub InOrder : LaunchRequest → World S → World S × Outcome → Type 0
  InOrder request w res =
      (kinds : List ObjectType) × (made : List Sent) × (started : List Sent) × (res.0.sent
        ≡ w.sent ++ (made ++ started))
      × Creates request.account_id request.hierarchy kinds made
      × Prefix kinds (to_create request.resume)
      × Prefix started (all_activations res.1.ids)
      × (started ≢ [] → kinds ≡ to_create request.resume)
      × (request.leave_paused ≡ true → started ≡ [])
      × (res.1.success ≡ true
          → (kinds ≡ to_create request.resume)
            × (request.leave_paused ≡ false → started ≡ all_activations res.1.ids))

  nothing-InOrder :
      (request : LaunchRequest) (w : World S) (r : Outcome)
      → r.success ≡ false
      → InOrder request w (w, r)
  nothing-InOrder request w r h = (
    [],
    [],
    [],
    sym (append-nil w.sent),
    no_more,
    (_, refl),
    (_, refl),
    (λ t. absurd (t refl)),
    (λ t. refl),
    (λ t. cc),
  )

  launched-InOrder :
      (request : LaunchRequest) (w : World S) (r : Outcome) (step : World S × Outcome × Bool)
      → r.success ≡ false
      → Launches service request w r (missing request.resume creation_order) step
      → InOrder request w (without_flag service (and_then service step (go_live service request)))
  launched-InOrder request w r (w1, r1, false) fresh
        (kinds, made, more, creates, starts, whole, (s, a)) =
      (
        kinds,
        made,
        [],
        more ∙ ap (λ xs. w.sent ++ xs) (sym (append-nil made)),
        creates,
        starts,
        (_, refl),
        (λ t. absurd (t refl)),
        (λ t. refl),
        (λ t. cc (s, fresh)),
      )
  launched-InOrder request w r (w1, r1, true) fresh
        (kinds, made, more, creates, starts, whole, (s, a)) =
      let (started, more', starts', paused, all) = go_live-Starts request w1 r1 (s ∙ fresh) in
      (
        kinds,
        made,
        started,
        more' ∙ ap (λ xs. xs ++ started) more ∙ append_assoc w.sent made started,
        creates,
        starts,
        starts',
        (λ t. whole refl),
        paused,
        (λ t. (whole refl, λ u. all u t)),
      )

  -- What a publication (not only a validation) sends, whatever the answers: create calls, in the order
  -- campaign, ad set, creative, ad, only for the kinds without an id of an earlier attempt, each at
  -- most once and with its own payload; and then ACTIVE for the ad, the ad set and the campaign, in
  -- this order and so the campaign's last. It activates nothing before everything is created, and
  -- nothing at all if asked to leave it paused. When it succeeds, it has made all of these calls.
  pub publish_account-InOrder :
      (request : LaunchRequest) (w : World S)
      → request.validate_only ≡ false
      → InOrder request w (publish_account service request w)
  unfolding publish_account
  publish_account-InOrder request w h =
      let complaints = validate service.is_blank request.hierarchy in
      let begun = add_stage (done_stage validation locally_validated "") blank_outcome in
      if_both (InOrder request w) (service.is_blank request.account_id)
        (nothing-InOrder request w (rejected service plain_error) refl)
        (if_both (InOrder request w) (str_eq request.access_token "")
          (nothing-InOrder request w (rejected service plain_error) refl)
          (if_both (InOrder request w) (not (is_nil complaints))
            (nothing-InOrder request w (rejected service (service.invalid_spec complaints)) refl)
            (rw h (
              launched-InOrder request w begun (launch_all service creation_order request w begun)
                refl (launch_all-Launches service creation_order request w begun)))))

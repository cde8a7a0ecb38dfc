-- ===== src/Publish/Creation.antt =====
-- Which create calls a publication makes (internal/meta/publisher.go, PublishAccount).
use meta_posting.Prelude.{
  String, Bool, true, false, ◌≡◌, refl, sym, ap, ◌∙◌, inl, inr, Option, none, some, List, [], ◌∷◌,
  ◌++◌, str_eq, Bool-cases, if◌then◌else◌,
}
use mathlib.Core.List.{append_assoc, append-nil}
use meta_posting.Schema.{ObjectType}
use meta_posting.Errors.{Error}
use meta_posting.Publish.{Hierarchy}
use meta_posting.Publish.Model.{
  Stage, creation, created, done_stage, add_stage, with_id, Ids, id_of, LaunchRequest, Outcome,
  Sent, post, World, Answer, answered, refused, Service, create_payload,
}
use meta_posting.Publish.Launch.{told, settled, notify, create, launch_object, and_then, launch_all}

-- One list begins another.
abbrev pub Prefix {ℓ} : {A : Type ℓ} → List A → List A → Type ℓ
Prefix {A} xs ys = (zs : List A) × (xs ++ zs ≡ ys)

-- The kinds that no earlier attempt has left an id of.
abbrev pub missing : Ids → List ObjectType → List ObjectType
missing resume [] = []
missing resume (kind ∷ kinds) =
    if str_eq (id_of kind resume) "" then kind ∷ missing resume kinds else missing resume kinds

-- Create calls of the account, one for each kind, with the payloads that the hierarchy gives.
pub data Creates (account : String) (h : Hierarchy) : List ObjectType → List Sent → Type 0 where
  no_more : Creates account h [] []
  also :
      {kind : ObjectType} {kinds : List ObjectType} {sent : List Sent} (ids : Ids)
      → Creates account h kinds sent
      → Creates account h (kind ∷ kinds) (post kind account (create_payload kind h ids) ∷ sent)

-- What no step changes in a result.
abbrev pub SameFlags : Outcome → Outcome → Type 0
SameFlags r r' = (r'.success ≡ r.success) × (r'.activated ≡ r.activated)

module _ {S : Type 0} (service : Service S) where
  -- What a step leaves alone that only tells the callback.
  abbrev pub Quiet : World S → Outcome → World S × Outcome × Bool → Type 0
  Quiet w r (w', r', b) = (w'.sent ≡ w.sent) × SameFlags r r' × (r'.ids ≡ r.ids)

  told-Quiet :
      (stage : Stage) (w : World S) (r : Outcome) (res : S × Option Error)
      → Quiet w r (told service stage w r res)
  told-Quiet stage w r (state, none) = (refl, (refl, refl), refl)
  told-Quiet stage w r (state, some e) = (refl, (refl, refl), refl)

  pub notify-Quiet :
      (stage : Stage) (w : World S) (r : Outcome) → Quiet w r (notify service stage w r)
  unfolding notify
  notify-Quiet stage w r = told-Quiet stage w r (service.on_stage stage w.state)

  -- The call that launches one kind, if it has no id yet.
  abbrev creation_of : ObjectType → LaunchRequest → Ids → List Sent
  creation_of kind request ids =
      if str_eq (id_of kind request.resume) ""
      then post kind request.account_id (create_payload kind request.hierarchy ids) ∷ []
      else []

  -- What a step adds to the log, without a change of the flags.
  abbrev Adds : World S → Outcome → List Sent → World S × Outcome × Bool → Type 0
  Adds w r more (w', r', b) = (w'.sent ≡ w.sent ++ more) × SameFlags r r'

  settled-Adds :
      (kind : ObjectType) (w : World S) (r : Outcome) (more : List Sent)
      (res : World S × Answer String)
      → res.0.sent ≡ w.sent ++ more
      → Adds w r more (settled service kind r res)
  settled-Adds kind w r more (w', refused e) h = (h, (refl, refl))
  settled-Adds kind w r more (w', answered id) h =
      let (quiet, same, ids) =
        notify-Quiet (done_stage (creation kind) created id) w'
          (record (add_stage (done_stage (creation kind) created id) r) {
            ids = with_id kind id r.ids;
          }) in
      (quiet ∙ h, same)

  launch_object-Adds :
      (kind : ObjectType) (request : LaunchRequest) (w : World S) (r : Outcome)
      → Adds w r (creation_of kind request r.ids) (launch_object service kind request w r)
  unfolding launch_object create
  launch_object-Adds kind request w r = elim (Bool-cases (str_eq (id_of kind request.resume) "")) [
    | inl e ↦
        rw (e, launch_object)
          (settled-Adds kind w r
            (post kind request.account_id (create_payload kind request.hierarchy r.ids) ∷ [])
            (create service kind request.account_id request.hierarchy r.ids w) refl)
    | inr e ↦ rw (e, launch_object) (sym (append-nil w.sent), (refl, refl))
  ]

  launch_object-resumed :
      (kind : ObjectType) (request : LaunchRequest) (w : World S) (r : Outcome)
      → str_eq (id_of kind request.resume) "" ≡ false
      → (launch_object service kind request w r).2 ≡ true
  unfolding launch_object
  launch_object-resumed kind request w r e = rw (e, launch_object) refl

  -- What launching the rest of the kinds adds to the log.
  abbrev pub Launches :
      LaunchRequest → World S → Outcome → List ObjectType → World S × Outcome × Bool → Type 0
  Launches request w r wanted (w', r', go) =
      (kinds : List ObjectType) × (made : List Sent) × (w'.sent ≡ w.sent ++ made)
      × Creates request.account_id request.hierarchy kinds made
      × Prefix kinds wanted
      × (go ≡ true → kinds ≡ wanted)
      × SameFlags r r'

  -- A step that has added a create call, or none, before the rest.
  launched-made :
      (request : LaunchRequest) (kind : ObjectType) (wanted : List ObjectType) (w : World S)
      (r : Outcome) (w1 : World S) (r1 : Outcome) (res : World S × Outcome × Bool)
      → Adds w r
          (post kind request.account_id (create_payload kind request.hierarchy r.ids) ∷ [])
          (w1, r1, true)
      → Launches request w1 r1 wanted res
      → Launches request w r (kind ∷ wanted) res
  launched-made request kind wanted w r w1 r1 (w', r', go) (h, (s, a))
        (kinds, made, more, creates, (zs, starts), whole, (s', a')) =
      (
        kind ∷ kinds,
        post kind request.account_id (create_payload kind request.hierarchy r.ids) ∷ made,
        more ∙ rw h (append_assoc w.sent _ made),
        also r.ids creates,
        (zs, ap (λ xs. kind ∷ xs) starts),
        (λ t. ap (λ xs. kind ∷ xs) (whole t)),
        (s' ∙ s, a' ∙ a),
      )

  launched-kept :
      (request : LaunchRequest) (wanted : List ObjectType) (w : World S) (r : Outcome)
      (w1 : World S) (r1 : Outcome) (res : World S × Outcome × Bool)
      → Adds w r [] (w1, r1, true)
      → Launches request w1 r1 wanted res
      → Launches request w r wanted res
  launched-kept request wanted w r w1 r1 (w', r', go) (h, (s, a))
        (kinds, made, more, creates, starts, whole, (s', a')) =
      (
        kinds,
        made,
        more ∙ ap (λ xs. xs ++ made) (h ∙ append-nil w.sent),
        creates,
        starts,
        whole,
        (s' ∙ s, a' ∙ a),
      )

  launched_then :
      (kind : ObjectType) (kinds : List ObjectType) (request : LaunchRequest) (w : World S)
      (r : Outcome) (step : World S × Outcome × Bool)
      → Adds w r (creation_of kind request r.ids) step
      → (str_eq (id_of kind request.resume) "" ≡ false → step.2 ≡ true)
      → ((w1 : World S) (r1 : Outcome)
          → Launches request w1 r1
              (missing request.resume kinds)
              (launch_all service kinds request w1 r1))
      → Launches request w r
          (missing request.resume (kind ∷ kinds))
          (and_then service step (launch_all service kinds request))
  launched_then kind kinds request w r (w1, r1, true) adds resumed rest =
      elim (Bool-cases (str_eq (id_of kind request.resume) "")) [
        | inl e ↦ rw e (
            launched-made request kind (missing request.resume kinds) w r w1 r1
              (launch_all service kinds request w1 r1) (rw e at adds) (rest w1 r1))
        | inr e ↦ rw e (
            launched-kept request (missing request.resume kinds) w r w1 r1
              (launch_all service kinds request w1 r1) (rw e at adds) (rest w1 r1))
      ]
  launched_then kind kinds request w r (w1, r1, false) adds resumed rest =
      elim (Bool-cases (str_eq (id_of kind request.resume) "")) [
        | inl e ↦
            let (h, same) = rw e at adds in
            rw e (
              kind ∷ [],
              _,
              h,
              also r.ids no_more,
              (missing request.resume kinds, refl),
              (λ t. cc),
              same,
            )
        | inr e ↦ cc (resumed e)
      ]

  pub launch_all-Launches :
      (kinds : List ObjectType) (request : LaunchRequest) (w : World S) (r : Outcome)
      → Launches request w r (missing request.resume kinds) (launch_all service kinds request w r)
  unfolding launch_all
  launch_all-Launches [] request w r =
      ([], [], sym (append-nil w.sent), no_more, ([], refl), (λ t. refl), (refl, refl))
  launch_all-Launches (kind ∷ kinds) request w r =
      launched_then kind kinds request w r (launch_object service kind request w r)
        (launch_object-Adds kind request w r) (launch_object-resumed kind request w r)
        (launch_all-Launches kinds request)

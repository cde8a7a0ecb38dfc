-- ===== src/Publish/Model.antt =====
-- What the publisher works on: the request and the result for one ad account, the stages in it, and
-- the Graph API that it talks to (internal/meta/publisher.go). The times of stages are left out. The
-- Graph API and the callback for each stage work on a state `S`; the calls that change remote
-- objects are logged in `sent`, in the order in which they are made.
use meta_posting.Prelude.{String, Bool, true, false, Option, none, List, [], ◌∷◌, ◌++◌}
use meta_posting.Json.{text, array, object, nil, cons, Fields, end, field, put}
use meta_posting.Schema.{ObjectType}
use meta_posting.Errors.{Error, leaf, other}
use meta_posting.Publish.{
  Hierarchy, SpecError, campaign_payload, ad_set_payload, creative_payload, ad_payload,
}

pub data StageName : Type 0 where
  validation publication activation safety_pause : StageName
  creation remote_validation resumption activating : ObjectType → StageName
  checkpointing : StageName → StageName

pub data StageState : Type 0 where
  created activated validated locally_validated skipped failed : StageState

-- `PublishFailure`; the text and the Graph error are those of the error.
pub record Failure : Type 0 where
  pub cause : Error
  pub retryable : Bool

pub record Stage : Type 0 where
  pub name : StageName
  pub state : StageState
  pub entity_id : String
  pub failure : Option Failure

-- `PublishResume`: the Meta ids that an earlier attempt has left, or "".
pub record Ids : Type 0 where
  pub campaign_id : String
  pub ad_set_id : String
  pub creative_id : String
  pub ad_id : String

abbrev pub id_of : ObjectType → Ids → String
id_of ObjectType.campaign ids = ids.campaign_id
id_of ObjectType.ad_set ids = ids.ad_set_id
id_of ObjectType.creative ids = ids.creative_id
id_of ObjectType.ad ids = ids.ad_id

abbrev pub with_id : ObjectType → String → Ids → Ids
with_id ObjectType.campaign id ids = record ids { campaign_id = id }
with_id ObjectType.ad_set id ids = record ids { ad_set_id = id }
with_id ObjectType.creative id ids = record ids { creative_id = id }
with_id ObjectType.ad id ids = record ids { ad_id = id }

-- `AccountPublishRequest`.
pub record LaunchRequest : Type 0 where
  pub account_id : String
  pub access_token : String
  pub hierarchy : Hierarchy
  pub validate_only : Bool
  pub leave_paused : Bool
  pub resume : Ids

-- `AccountPublishResult`.
pub record Outcome : Type 0 where
  pub ids : Ids
  pub success : Bool
  pub activated : Bool
  pub validated : Bool
  pub stages : List Stage

-- A request that changes a remote object.
pub data Sent : Type 0 where
  post : ObjectType → String → Fields → Sent
  set_status : String → String → Sent

pub record World (S : Type 0) : Type 0 where
  pub state : S
  pub sent : List Sent

pub data Answer (A : Type 0) : Type 0 where
  answered : A → Answer A
  refused : Error → Answer A

-- The Graph API, the callback, and what the code takes from the standard library: `post_json` returns
-- the id of the answer, `post_status` its `success`.
pub record Service (S : Type 0) : Type 0 where
  pub is_blank : String → Bool
  pub has_hint : String → Bool
  pub post_json : ObjectType → String → Fields → S → S × Answer String
  pub post_status : String → String → S → S × Answer Bool
  pub on_stage : Stage → S → S × Option Error
  pub invalid_spec : List SpecError → Error

abbrev pub plain_error : Error
plain_error = leaf other

abbrev pub done_stage : StageName → StageState → String → Stage
done_stage name state id = record { name = name; state = state; entity_id = id; failure = none }

abbrev pub add_stage : Stage → Outcome → Outcome
add_stage stage r = record r { stages = r.stages ++ stage ∷ [] }

abbrev pub paused : Fields → Fields
paused payload = put "status" (text "PAUSED") payload

abbrev pub named : String → Fields → Fields
named name payload = put "name" (text name) payload

abbrev pub creation_order : List ObjectType
creation_order = ObjectType.campaign ∷ ObjectType.ad_set ∷ ObjectType.creative ∷ ObjectType.ad ∷ []

-- Bottom-up, so that the campaign is PAUSED until the last call.
abbrev pub activation_order : List ObjectType
activation_order = ObjectType.ad ∷ ObjectType.ad_set ∷ ObjectType.campaign ∷ []

abbrev pub is_answered : Answer String → Bool
is_answered (answered id) = true
is_answered (refused e) = false

abbrev pub no_ids : Ids
no_ids = record { campaign_id = ""; ad_set_id = ""; creative_id = ""; ad_id = "" }

abbrev pub blank_outcome : Outcome
blank_outcome = record {
  ids = no_ids;
  success = false;
  activated = false;
  validated = false;
  stages = [];
}

abbrev pub is_nil : {A : Type 0} → List A → Bool
is_nil [] = true
is_nil (x ∷ xs) = false

-- The payload of a create call, from the ids that are known by then.
unfoldable pub create_payload : ObjectType → Hierarchy → Ids → Fields
unfolding campaign_payload ad_set_payload creative_payload ad_payload put
create_payload ObjectType.campaign h ids =
    paused (named h.campaign.name (campaign_payload h.campaign))
create_payload ObjectType.ad_set h ids =
    paused
      (put "campaign_id" (text ids.campaign_id) (named h.ad_set.name (ad_set_payload h.ad_set)))
create_payload ObjectType.creative h ids = named h.creative.name (creative_payload h.creative)
create_payload ObjectType.ad h ids = paused (
    put "creative" (object (field "creative_id" (text ids.creative_id) end))
      (put "adset_id" (text ids.ad_set_id) (named h.ad.name (ad_payload h.ad))))

abbrev pub execution_options : Fields → Fields
execution_options payload =
    put "execution_options" (array (cons (text "validate_only") nil)) payload

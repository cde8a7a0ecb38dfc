-- ===== src/Publish.antt =====
-- The campaign hierarchy that is published, its validation and the payloads that Meta receives
-- (internal/meta/schemas.go, internal/meta/publisher.go). A spec keeps the fields that the code
-- reads, the document that `json.Marshal` makes of it, and its raw extension fields.
pub mod Model
pub mod Launch
pub mod Creation
pub mod Order
pub mod Payloads
pub mod Backend
pub mod Marker
pub mod Media
pub mod Records
pub mod Reconcile
pub mod Attempt
pub mod Account
pub mod Calm
pub mod Preflight
pub mod Safety
pub mod Attempted
pub mod Durable
mod Tests
use meta_posting.Prelude.{
  ℕ, String, Bool, true, false, not, ◌&&◌, ◌||◌, Option, none, some, List, [], ◌∷◌, ◌++◌, str_eq,
  if◌then◌else◌,
}
use meta_posting.Json.{
  Value, null, text, array, object, Items, nil, cons, Fields, end, field, lookup, put, remove,
  deep_merge, struct_payload,
}

pub record CampaignSpec : Type 0 where
  pub name : String
  pub objective : String
  pub special_ad_categories : List String
  pub document : Fields
  pub raw : Fields

-- The raw fields of its targeting and of its promoted object, if it has one.
pub record AdSetSpec : Type 0 where
  pub name : String
  pub geo_locations : Fields
  pub targeting_raw : Fields
  pub promoted_object : Option Fields
  pub document : Fields
  pub raw : Fields

pub record StorySpec : Type 0 where
  pub page_id : String
  pub has_link_data : Bool
  pub has_video_data : Bool

-- The raw fields of its asset feed, if it has one.
pub record CreativeSpec : Type 0 where
  pub name : String
  pub object_story_id : String
  pub source_instagram_media_id : String
  pub object_story_spec : Option StorySpec
  pub asset_feed_spec : Option Fields
  pub document : Fields
  pub raw : Fields

pub record AdSpec : Type 0 where
  pub name : String
  pub document : Fields
  pub raw : Fields

-- `HierarchySpec`.
pub record Hierarchy : Type 0 where
  pub campaign : CampaignSpec
  pub ad_set : AdSetSpec
  pub creative : CreativeSpec
  pub ad : AdSpec

-- `Objective.IsODAX`.
abbrev pub is_odax : String → Bool
is_odax o =
    str_eq o "OUTCOME_APP_PROMOTION"
    || (str_eq o "OUTCOME_AWARENESS"
        || (str_eq o "OUTCOME_ENGAGEMENT"
            || (str_eq o "OUTCOME_LEADS"
                || (str_eq o "OUTCOME_SALES" || str_eq o "OUTCOME_TRAFFIC"))))

pub data SpecError : Type 0 where
  campaign_name_required objective_not_odax ad_set_name_required targeting_required : SpecError
  creative_name_required creative_source_required story_id_combined page_id_required : SpecError
  story_content_required ad_name_required : SpecError

abbrev pub no_fields : Fields → Bool
no_fields end = true
no_fields (field k v fs) = false

abbrev pub is_given : {A : Type 0} → Option A → Bool
is_given none = false
is_given (some a) = true

abbrev pub lacks_page : Option StorySpec → Bool
lacks_page none = false
lacks_page (some s) = str_eq s.page_id ""

abbrev pub lacks_content : Option StorySpec → Option Fields → Bool
lacks_content none feed = false
lacks_content (some s) feed = not s.has_link_data && (not s.has_video_data && not (is_given feed))

-- A test of the validation, before the findings of the tests behind it.
abbrev pub unless_ok : Bool → SpecError → List SpecError → List SpecError
unless_ok bad e es = if bad then e ∷ es else es

-- `HierarchySpec.Validate`: every complaint; `is_blank` says that nothing is left of a trimmed text.
unfoldable pub validate : (String → Bool) → Hierarchy → List SpecError
validate is_blank h = unless_ok (is_blank h.campaign.name) campaign_name_required (
    unless_ok (not (is_odax h.campaign.objective)) objective_not_odax (
      unless_ok (is_blank h.ad_set.name) ad_set_name_required (
        unless_ok
          (no_fields h.ad_set.geo_locations
            && (no_fields h.ad_set.targeting_raw && no_fields h.ad_set.raw))
          targeting_required
          (unless_ok (is_blank h.creative.name) creative_name_required (
            unless_ok
              (str_eq h.creative.object_story_id ""
                && (str_eq h.creative.source_instagram_media_id ""
                    && not (is_given h.creative.object_story_spec)))
              creative_source_required
              (unless_ok
                (not (str_eq h.creative.object_story_id "")
                  && (is_given h.creative.object_story_spec || is_given h.creative.asset_feed_spec))
                story_id_combined
                (unless_ok (lacks_page h.creative.object_story_spec) page_id_required (
                  unless_ok (lacks_content h.creative.object_story_spec h.creative.asset_feed_spec)
                    story_content_required
                    (unless_ok (is_blank h.ad.name) ad_name_required [])))))))))

-- A map inside a payload, without its "raw" key and under raw fields of its own.
unfoldable pub merge_inner : String → Fields → Fields → Fields
unfolding lookup put remove deep_merge
merge_inner key raw payload = elim (lookup key payload) [
  | none ↦ payload
  | some (object inner) ↦ put key (object (deep_merge (remove "raw" inner) raw)) payload
  | some _ ↦ payload
]

abbrev pub is_null_or_missing : Option Value → Bool
is_null_or_missing none = true
is_null_or_missing (some null) = true
is_null_or_missing (some _) = false

abbrev pub is_empty : List String → Bool
is_empty [] = true
is_empty (x ∷ xs) = false

-- `campaignPayload`.
unfoldable pub campaign_payload : CampaignSpec → Fields
unfolding struct_payload lookup put
campaign_payload spec =
    let payload = struct_payload spec.document spec.raw in
    if is_empty spec.special_ad_categories
      && is_null_or_missing (lookup "special_ad_categories" payload)
    then put "special_ad_categories" (array (cons (text "NONE") nil)) payload
    else payload

abbrev pub merge_if_given : String → Option Fields → Fields → Fields
merge_if_given key none payload = payload
merge_if_given key (some raw) payload = merge_inner key raw payload

-- `adSetPayload`.
unfoldable pub ad_set_payload : AdSetSpec → Fields
unfolding struct_payload merge_inner
ad_set_payload spec =
    merge_if_given "promoted_object" spec.promoted_object
      (merge_inner "targeting" spec.targeting_raw (struct_payload spec.document spec.raw))

-- `creativePayload`.
unfoldable pub creative_payload : CreativeSpec → Fields
unfolding struct_payload merge_inner
creative_payload spec =
    merge_if_given "asset_feed_spec" spec.asset_feed_spec (struct_payload spec.document spec.raw)

-- `adPayload`.
unfoldable pub ad_payload : AdSpec → Fields
unfolding struct_payload
ad_payload spec = struct_payload spec.document spec.raw

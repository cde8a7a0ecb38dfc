-- ===== src/Publish/Payloads.antt =====
-- What the create calls say, whatever the raw extension fields of the hierarchy hold
-- (internal/meta/publisher.go, createCampaign to createAd).
use meta_posting.Prelude.{String, ◌≡◌, refl, ◌∙◌, ◌≢◌, some}
use meta_posting.Json.{text, object, Fields, end, field, lookup, put}
use meta_posting.Json.Merge.{lookup-put}
use meta_posting.Schema.{ObjectType}
use meta_posting.Publish.{Hierarchy, campaign_payload, ad_set_payload, creative_payload, ad_payload}
use meta_posting.Publish.Model.{Ids, create_payload, named}

-- The name that the hierarchy gives an object.
abbrev pub name_of : ObjectType → Hierarchy → String
name_of ObjectType.campaign h = h.campaign.name
name_of ObjectType.ad_set h = h.ad_set.name
name_of ObjectType.creative h = h.creative.name
name_of ObjectType.ad h = h.ad.name

-- The objects that a payload refers to.
abbrev pub Links : ObjectType → Ids → Fields → Type 0
Links ObjectType.campaign ids payload = Unit
Links ObjectType.ad_set ids payload = lookup "campaign_id" payload ≡ some (text ids.campaign_id)
Links ObjectType.creative ids payload = Unit
Links ObjectType.ad ids payload =
    (lookup "adset_id" payload ≡ some (text ids.ad_set_id))
    × (lookup "creative" payload ≡ some (object (field "creative_id" (text ids.creative_id) end)))

-- An object that is created is PAUSED (a creative has no status), bears the name that the hierarchy
-- gives it, and refers to the objects that were made before it.
pub lookup-create_payload :
    (kind : ObjectType) (h : Hierarchy) (ids : Ids)
    → (kind ≢ ObjectType.creative
        → lookup "status" (create_payload kind h ids) ≡ some (text "PAUSED"))
      × (lookup "name" (create_payload kind h ids) ≡ some (text (name_of kind h)))
      × Links kind ids (create_payload kind h ids)
unfolding create_payload
lookup-create_payload ObjectType.campaign h ids =
    let inner = campaign_payload h.campaign in
    (
      (λ t. lookup-put "status" "status" (text "PAUSED") (named h.campaign.name inner)),
      lookup-put "status" "name" (text "PAUSED") (named h.campaign.name inner)
          ∙ lookup-put "name" "name" (text h.campaign.name) inner,
      tt,
    )
lookup-create_payload ObjectType.ad_set h ids =
    let base = named h.ad_set.name (ad_set_payload h.ad_set) in
    let linked = put "campaign_id" (text ids.campaign_id) base in
    (
      (λ t. lookup-put "status" "status" (text "PAUSED") linked),
      lookup-put "status" "name" (text "PAUSED") linked
          ∙ lookup-put "campaign_id" "name" (text ids.campaign_id) base
          ∙ lookup-put "name" "name" (text h.ad_set.name) (ad_set_payload h.ad_set),
      lookup-put "status" "campaign_id" (text "PAUSED") linked
          ∙ lookup-put "campaign_id" "campaign_id" (text ids.campaign_id) base,
    )
lookup-create_payload ObjectType.creative h ids = (
  (λ t. absurd (t refl)),
  lookup-put "name" "name" (text h.creative.name) (creative_payload h.creative),
  tt,
)
lookup-create_payload ObjectType.ad h ids =
    let made = object (field "creative_id" (text ids.creative_id) end) in
    let base = named h.ad.name (ad_payload h.ad) in
    let placed = put "adset_id" (text ids.ad_set_id) base in
    let linked = put "creative" made placed in
    (
      (λ t. lookup-put "status" "status" (text "PAUSED") linked),
      lookup-put "status" "name" (text "PAUSED") linked
          ∙ lookup-put "creative" "name" made placed
          ∙ lookup-put "adset_id" "name" (text ids.ad_set_id) base
          ∙ lookup-put "name" "name" (text h.ad.name) (ad_payload h.ad),
      (
        lookup-put "status" "adset_id" (text "PAUSED") linked
            ∙ lookup-put "creative" "adset_id" made placed
            ∙ lookup-put "adset_id" "adset_id" (text ids.ad_set_id) base,
        lookup-put "status" "creative" (text "PAUSED") linked
            ∙ lookup-put "creative" "creative" made placed,
      ),
    )

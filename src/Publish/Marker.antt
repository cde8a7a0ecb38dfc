-- ===== src/Publish/Marker.antt =====
-- The unique names under which a retry finds its objects again (internal/application/batches.go).
use meta_posting.Prelude.{
  ℕ, zero, suc, ◌-◌, ◌≤◌, String, Bool, true, false, ◌≡◌, refl, inl, inr, ◌&&◌, leb, ltb, max, ◌==◌,
  str_eq, str_eq_iff, arith, Bool-cases, if◌then◌else◌,
}
use Prim.Native.String.{[], ◌∷◌, ◌++◌, count}
use mathlib.Core.Path.{subst}
use text.Mathlib.TextLemmas.{length-nil, length-cons, length-append, nil-append, cons-append}
use meta_posting.Publish.{Hierarchy}

abbrev pub publish_name_max_runes : ℕ
publish_name_max_runes = 240

-- The first runes of a name, and what is behind them.
unfoldable pub take_runes : ℕ → String → String
take_runes zero s = []
take_runes (suc n) [] = []
take_runes (suc n) (c ∷ s) = c ∷ take_runes n s

unfoldable pub drop_runes : ℕ → String → String
drop_runes zero s = s
drop_runes (suc n) [] = []
drop_runes (suc n) (c ∷ s) = drop_runes n s

-- `strings.HasSuffix`.
unfoldable pub has_suffix : String → String → Bool
unfolding drop_runes
has_suffix s t = leb (count t) (count s) && str_eq (drop_runes (count s - count t) s) t

module _ (trim_space : String → String) where
  -- `taggedPublishName`.
  unfoldable pub tagged_publish_name : String → String → String
  unfolding has_suffix take_runes
  tagged_publish_name name marker =
      let trimmed = trim_space name in
      let room = publish_name_max_runes - count marker in
      if has_suffix trimmed marker
      then trimmed
      else if leb publish_name_max_runes (count marker)
      then marker
      else trim_space (if ltb room (count trimmed) then take_runes room trimmed else trimmed)
        ++ marker

  -- `applyPublishMarker`; 0 is `uuid.Nil`.
  unfoldable pub apply_publish_marker : (ℕ → String) → ℕ → Hierarchy → Hierarchy
  unfolding tagged_publish_name
  apply_publish_marker uuid id h =
      let marker = " [RP:" ++ (uuid id ++ "]") in
      let campaign = h.campaign in
      let ad_set = h.ad_set in
      let creative = h.creative in
      let ad = h.ad in
      if id == 0 then h else record h {
        campaign = record campaign { name = tagged_publish_name campaign.name marker };
        ad_set = record ad_set { name = tagged_publish_name ad_set.name marker };
        creative = record creative { name = tagged_publish_name creative.name marker };
        ad = record ad { name = tagged_publish_name ad.name marker };
      }

count-take_runes : (n : ℕ) (s : String) → count (take_runes n s) ≤ n
unfolding take_runes
count-take_runes zero s = rw length-nil (omega arith)
count-take_runes (suc n) [] = rw length-nil (omega arith)
count-take_runes (suc n) (c ∷ s) =
    let shorter = count-take_runes n s in rw (length-cons c (take_runes n s)) (omega arith)

drop_runes-append : (s t : String) → drop_runes (count s) (s ++ t) ≡ t
unfolding drop_runes
drop_runes-append [] t = nil-append t
drop_runes-append (c ∷ s) t = rw (length-cons c s, cons-append c s t) (drop_runes-append s t)

has_suffix-append : (s t : String) → has_suffix (s ++ t) t ≡ true
unfolding has_suffix
has_suffix-append s t =
    let sum = length-append s t in
    let behind : count (s ++ t) - count t ≡ count s = omega arith in
    let fits : leb (count t) (count (s ++ t)) ≡ true = ground arith in
    rw (fits, behind, drop_runes-append s t) ((str_eq_iff t t).1 refl)

has_suffix_refl : (t : String) → has_suffix t t ≡ true
has_suffix_refl t = subst (λ s. has_suffix s t ≡ true) (nil-append t) (has_suffix-append [] t)

module _ (trim_space : String → String)
    (shortens : (s : String) → count (trim_space s) ≤ count s) where
  count-cut_name :
      (room : ℕ) (s : String)
      → count (trim_space (if ltb room (count s) then take_runes room s else s)) ≤ room
  count-cut_name room s = elim (Bool-cases (ltb room (count s))) [
    | inl long ↦ rw long (
        let cut = shortens (take_runes room s) in
        let short = count-take_runes room s in omega arith)
    | inr fits ↦ rw fits (let cut = shortens s in ground arith)
  ]

  -- A tagged name ends in the marker by which a retry finds the object, and unless the name ended
  -- in it before, it has at most 240 runes (or is the marker alone, if that is longer). Trimming is
  -- taken not to lengthen a text.
  pub tagged_publish_name-has_suffix :
      (name marker : String)
      → (has_suffix (tagged_publish_name trim_space name marker) marker ≡ true)
        × (has_suffix (trim_space name) marker ≡ false
            → count (tagged_publish_name trim_space name marker)
              ≤ max publish_name_max_runes (count marker))
  unfolding tagged_publish_name
  tagged_publish_name-has_suffix name marker =
      elim (Bool-cases (has_suffix (trim_space name) marker)) [
        | inl tagged ↦ rw (tagged, tagged_publish_name) (tagged, (λ t. cc))
        | inr bare ↦ elim (Bool-cases (leb publish_name_max_runes (count marker))) [
          | inl wide ↦
              rw (bare, wide, tagged_publish_name) (has_suffix_refl marker, (λ t. omega arith))
          | inr narrow ↦
              let cut = count-cut_name (publish_name_max_runes - count marker) (trim_space name) in
              let below : count marker ≤ publish_name_max_runes = ground arith in
              rw (bare, narrow, tagged_publish_name)
                (has_suffix-append _ marker, (λ t. rw (length-append _ marker) (omega arith)))
        ]
      ]

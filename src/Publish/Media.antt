-- ===== src/Publish/Media.antt =====
-- The media of a publication: each is uploaded once, and its reference is set in the hierarchy
-- (internal/application/batches.go, internal/application/batches_shared.go).
use meta_posting.Prelude.{
  ℕ, String, Bool, true, false, Option, none, some, List, [], ◌∷◌, map, ◌==◌, str_eq, if◌then◌else◌,
}
use Prim.Native.String.{[] as empty, ◌∷◌ as ◌before◌}
use text.Mathlib.Text.{starts_with}
use meta_posting.Json.{set_pointer, Edited, edited, refused as not_set}
use meta_posting.Errors.{wrapped}
use meta_posting.Publish.{Hierarchy}
use meta_posting.Publish.Model.{Answer, answered, refused, plain_error}
use meta_posting.Publish.Backend.{MediaBinding, AdAccount, Graph, Texts}

module _ (texts : Texts) where
  -- `strings.ReplaceAll` of `~1` before that of `~0`.
  abbrev pub unescaped : String → String
  unescaped s = texts.replace_all (texts.replace_all s "~1" "/") "~0" "~"

  abbrev pub any_empty : List String → Bool
  any_empty [] = false
  any_empty (s ∷ ss) = if str_eq s "" then true else any_empty ss

  abbrev pub behind_first : String → String
  behind_first empty = empty
  behind_first (c before s) = s

  -- `jsonPointerTokens`; `split` is by "/".
  unfoldable pub json_pointer_tokens : String → Option (List String)
  json_pointer_tokens pointer =
      let tokens = map unescaped (texts.split (behind_first pointer)) in
      if starts_with pointer "/" then if any_empty tokens then none else some tokens else none

  abbrev pub redecoded : Edited → Answer Hierarchy
  redecoded (not_set e) = refused plain_error
  redecoded (edited v) = texts.decode_hierarchy v

  -- `setSpecJSONPointer`.
  unfoldable pub set_spec_json_pointer : Hierarchy → String → String → Answer Hierarchy
  unfolding json_pointer_tokens set_pointer
  set_spec_json_pointer h pointer value = elim (json_pointer_tokens pointer) [
    | none ↦ refused plain_error
    | some tokens ↦ redecoded (set_pointer texts.atoi tokens value (texts.encode_hierarchy h))
  ]

abbrev pub uploaded_of : ℕ → List (ℕ × String) → Option String
uploaded_of id [] = none
uploaded_of id ((i, s) ∷ us) = if i == id then some s else uploaded_of id us

module _ {S : Type 0} (api : Graph S) (texts : Texts) (account : AdAccount) where
  -- An upload's answer, with the uploads that are known then.
  abbrev pub remembered :
      ℕ → List (ℕ × String) → S × Answer String → S × List (ℕ × String) × Answer String
  remembered id known (s, refused e) = (s, known, refused (wrapped e))
  remembered id known (s, answered ref) = (s, (id, ref) ∷ known, answered ref)

  unfoldable pub upload_once : ℕ → List (ℕ × String) → S → S × List (ℕ × String) × Answer String
  upload_once id known s = elim (uploaded_of id known) [
    | some ref ↦ (s, known, answered ref)
    | none ↦ remembered id known (api.upload_media account id s)
  ]

  abbrev pub bound_then :
      (List (ℕ × String) → Hierarchy → S → S × Answer Hierarchy)
      → String
      → Hierarchy
      → S × List (ℕ × String) × Answer String
      → S × Answer Hierarchy
  bound_then next target h (s, known, refused e) = (s, refused e)
  bound_then next target h (s, known, answered ref) =
      elim (set_spec_json_pointer texts h target ref) [
        | refused e ↦ (s, refused (wrapped e))
        | answered h' ↦ next known h' s
      ]

  -- The loop over the media bindings.
  unfoldable pub bind_media :
      List MediaBinding → List (ℕ × String) → Hierarchy → S → S × Answer Hierarchy
  unfolding upload_once set_spec_json_pointer
  bind_media [] known h s = (s, answered h)
  bind_media (b ∷ bs) known h s =
      bound_then (bind_media bs) b.target h (upload_once b.media_id known s)

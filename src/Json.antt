-- ===== src/Json.antt =====
-- JSON documents as the publisher edits them (internal/meta/schemas.go,
-- internal/application/batches_shared.go). A number is its text: that of the document where it is read
-- with `UseNumber`, and else that of the float64 that was read.
pub mod Merge
pub mod Pointer
mod Tests
use meta_posting.Prelude.{
  ℕ, zero, suc, String, Bool, true, false, ◌&&◌, not, Option, none, some, List, [], ◌∷◌, str_eq,
  if◌then◌else◌,
}

mutual
  pub data Value : Type 0 where
    null : Value
    text : String → Value
    number : String → Value
    boolean : Bool → Value
    object : Fields → Value
    array : Items → Value

  -- A map, field by field.
  pub data Fields : Type 0 where
    field : String → Value → Fields → Fields
    end : Fields

  -- The elements of an array.
  pub data Items : Type 0 where
    cons : Value → Items → Items
    nil : Items

unfoldable pub lookup : String → Fields → Option Value
lookup k end = none
lookup k (field j v fs) = if str_eq j k then some v else lookup k fs

-- `fields[k] = v`.
unfoldable pub put : String → Value → Fields → Fields
put k v end = field k v end
put k v (field j w fs) = if str_eq j k then field j v fs else field j w (put k v fs)

-- `delete(fields, k)`.
unfoldable pub remove : String → Fields → Fields
remove k end = end
remove k (field j w fs) = let rest = remove k fs in if str_eq j k then rest else field j w rest

unfoldable mutual
  unfolding lookup put

  -- `deepMerge`, over the keys of the override in turn.
  pub deep_merge : Fields → Fields → Fields
  deep_merge destination end = destination
  deep_merge destination (field k v rest) =
      deep_merge (put k (merged (lookup k destination) v) destination) rest

  -- What a key holds after the merge: two maps are merged, and anything else is replaced.
  pub merged : Option Value → Value → Value
  merged (some (object d)) (object o) = object (deep_merge d o)
  merged old null = null
  merged old (boolean b) = boolean b
  merged old (number n) = number n
  merged old (text t) = text t
  merged old (array xs) = array xs
  merged old (object o) = object o

-- `structPayload`: `document` is the map that json.Unmarshal makes of the marshalled struct; its "raw" key
-- goes, and the raw fields are laid over it.
unfoldable pub struct_payload : Fields → Fields → Fields
unfolding remove deep_merge
struct_payload document raw = deep_merge (remove "raw" document) raw

pub data PointerError : Type 0 where
  replaces_root missing_segment bad_index crosses_scalar : PointerError

pub data Edited : Type 0 where
  edited : Value → Edited
  refused : PointerError → Edited

unfoldable pub item : ℕ → Items → Option Value
item i nil = none
item zero (cons x xs) = some x
item (suc i) (cons x xs) = item i xs

unfoldable pub set_item : ℕ → Value → Items → Items
set_item i v nil = nil
set_item zero v (cons x xs) = cons v xs
set_item (suc i) v (cons x xs) = cons x (set_item i v xs)

abbrev pub in_field : String → Fields → Edited → Edited
in_field k fs (edited v) = edited (object (put k v fs))
in_field k fs (refused e) = refused e

abbrev pub in_item : ℕ → Items → Edited → Edited
in_item i xs (edited v) = edited (array (set_item i v xs))
in_item i xs (refused e) = refused e

-- `atoi` reads an index; `none` is no number, or a negative one.
module _ (atoi : String → Option ℕ) where
  abbrev pub indexed : String → Items → Option (ℕ × Value)
  indexed t xs = elim (atoi t) [
    | none ↦ none
    | some i ↦ elim (item i xs) [ none ↦ none | some x ↦ some (i, x) ]
  ]

  -- One segment of the pointer; `deeper` goes on in the value below.
  abbrev pub edit_at : (Value → Edited) → String → Value → Edited
  edit_at deeper t (object fs) = elim (lookup t fs) [
    | none ↦ refused missing_segment
    | some v ↦ in_field t fs (deeper v)
  ]
  edit_at deeper t (array xs) = elim (indexed t xs) [
    | none ↦ refused bad_index
    | some (i, v) ↦ in_item i xs (deeper v)
  ]
  edit_at deeper t _ = refused crosses_scalar

  -- The last segment, which need not exist in a map.
  abbrev pub edit_last : String → String → Value → Edited
  edit_last value t (object fs) = edited (object (put t (text value) fs))
  edit_last value t (array xs) = elim (indexed t xs) [
    | none ↦ refused bad_index
    | some (i, v) ↦ edited (array (set_item i (text value) xs))
  ]
  edit_last value t _ = refused crosses_scalar

  -- `setJSONPointerValue`.
  unfoldable pub set_pointer : List String → String → Value → Edited
  unfolding lookup put item set_item
  set_pointer [] value current = refused replaces_root
  set_pointer (t ∷ []) value current = edit_last value t current
  set_pointer (t ∷ u ∷ us) value current = edit_at (set_pointer (u ∷ us) value) t current

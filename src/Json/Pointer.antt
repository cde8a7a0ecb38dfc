-- ===== src/Json/Pointer.antt =====
-- What a pointer reads after it was written (internal/application/batches_shared.go).
use meta_posting.Prelude.{
  ℕ, zero, suc, String, true, ◌≡◌, refl, ◌∙◌, Option, none, some, List, [], ◌∷◌, str_eq, str_eq_iff,
  arith, Option-cases, inl, inr,
}
use meta_posting.Json.{
  Value, null, boolean, number, text, array, object, Items, nil, cons, Fields, lookup, put, item,
  set_item, Edited, edited, refused, in_field, in_item, edit_at, edit_last, set_pointer,
}
use meta_posting.Json.Merge.{lookup-put}

str_eq_refl : (t : String) → str_eq t t ≡ true
str_eq_refl t = (str_eq_iff t t).1 refl

item-set_item :
    (i : ℕ) (v x : Value) (xs : Items) → item i xs ≡ some x → item i (set_item i v xs) ≡ some v
unfolding item set_item
item-set_item i v x nil h = cc
item-set_item zero v x (cons y ys) h = refl
item-set_item (suc i) v x (cons y ys) h = item-set_item i v x ys h

module _ (atoi : String → Option ℕ) where
  -- The value below one segment.
  pub child : String → Value → Option Value
  child t (object fs) = lookup t fs
  child t (array xs) = elim (atoi t) [ none ↦ none | some i ↦ item i xs ]
  child t _ = none

  -- The value that a pointer names.
  pub get_pointer : List String → Value → Option Value
  unfolding child
  get_pointer [] v = some v
  get_pointer (t ∷ ts) v = elim (child t v) [ none ↦ none | some w ↦ get_pointer ts w ]

  get_pointer-step :
      (t : String) (ts : List String) (v w : Value)
      → child t v ≡ some w
      → get_pointer (t ∷ ts) v ≡ get_pointer ts w
  unfolding get_pointer
  get_pointer-step t ts v w h = rw (h, get_pointer)

  child-array : (t : String) (i : ℕ) (xs : Items) → atoi t ≡ some i → child t (array xs) ≡ item i xs
  unfolding child
  child-array t i xs e = rw (e, child) refl

  in_field-edited :
      (t : String) (fs : Fields) (r : Edited) (out : Value)
      → in_field t fs r ≡ edited out
      → (w : Value) × (r ≡ edited w) × (out ≡ object (put t w fs))
  in_field-edited t fs (edited w) out h = (w, refl, ground arith)
  in_field-edited t fs (refused e) out h = cc

  in_item-edited :
      (i : ℕ) (xs : Items) (r : Edited) (out : Value)
      → in_item i xs r ≡ edited out
      → (w : Value) × (r ≡ edited w) × (out ≡ array (set_item i w xs))
  in_item-edited i xs (edited w) out h = (w, refl, ground arith)
  in_item-edited i xs (refused e) out h = cc

  -- What an edit below one segment does: the child is edited, and the result holds it there.
  abbrev Descends : (Value → Edited) → String → Value → Value → Type 0
  Descends deeper t v out =
      (w : Value) × (w' : Value) × (child t v ≡ some w)
      × (deeper w ≡ edited w')
      × (child t out ≡ some w')

  child-in_field :
      (deeper : Value → Edited) (t : String) (fs : Fields) (out : Value)
      → edit_at atoi deeper t (object fs) ≡ edited out
      → Descends deeper t (object fs) out
  unfolding child
  child-in_field deeper t fs out h = elim (Option-cases (lookup t fs)) [
    | inl e ↦ cc (rw (e, edit_at) at h)
    | inr (v, e) ↦
        let (w, done, same) = in_field-edited t fs (deeper v) out (rw (e, edit_at) at h) in
        (v, w, e, done, rw same (lookup-put t t w fs ∙ rw (str_eq_refl t) refl))
  ]

  child-in_item :
      (deeper : Value → Edited) (t : String) (xs : Items) (out : Value)
      → edit_at atoi deeper t (array xs) ≡ edited out
      → Descends deeper t (array xs) out
  unfolding child
  child-in_item deeper t xs out h = elim (Option-cases (atoi t)) [
    | inl e ↦ cc (rw (e, edit_at) at h)
    | inr (i, e) ↦ elim (Option-cases (item i xs)) [
      | inl beyond ↦ cc (rw beyond at rw (e, edit_at) at h)
      | inr (v, found) ↦
          let (w, done, same) =
            in_item-edited i xs (deeper v) out (rw found at rw (e, edit_at) at h) in
          (
            v,
            w,
            child-array t i xs e ∙ found,
            done,
            rw same (child-array t i (set_item i w xs) e ∙ item-set_item i w v xs found),
          )
    ]
  ]

  child-edit_at :
      (deeper : Value → Edited) (t : String) (v out : Value)
      → edit_at atoi deeper t v ≡ edited out
      → Descends deeper t v out
  child-edit_at deeper t (object fs) out h = child-in_field deeper t fs out h
  child-edit_at deeper t (array xs) out h = child-in_item deeper t xs out h
  child-edit_at deeper t null out h = cc
  child-edit_at deeper t (boolean b) out h = cc
  child-edit_at deeper t (number n) out h = cc
  child-edit_at deeper t (text s) out h = cc

  child-edit_last :
      (value t : String) (v out : Value)
      → edit_last atoi value t v ≡ edited out
      → child t out ≡ some (text value)
  unfolding child
  child-edit_last value t (object fs) out h =
      let same : out ≡ object (put t (text value) fs) = ground arith in
      rw same (lookup-put t t (text value) fs ∙ rw (str_eq_refl t) refl)
  child-edit_last value t (array xs) out h = elim (Option-cases (atoi t)) [
    | inl e ↦ cc (rw (e, edit_last) at h)
    | inr (i, e) ↦ elim (Option-cases (item i xs)) [
      | inl beyond ↦ cc (rw beyond at rw (e, edit_last) at h)
      | inr (v, found) ↦
          let same : out ≡ array (set_item i (text value) xs) = ground (arith, e, found) in
          rw same (
            child-array t i (set_item i (text value) xs) e
            ∙ item-set_item i (text value) v xs found)
    ]
  ]
  child-edit_last value t null out h = cc
  child-edit_last value t (boolean b) out h = cc
  child-edit_last value t (number n) out h = cc
  child-edit_last value t (text s) out h = cc

  -- When a pointer is set in a document, the same pointer then reads the text that was written.
  pub get_pointer-set_pointer :
      (tokens : List String) (value : String) (document out : Value)
      → set_pointer atoi tokens value document ≡ edited out
      → get_pointer tokens out ≡ some (text value)
  unfolding set_pointer get_pointer
  get_pointer-set_pointer [] value document out h = cc
  get_pointer-set_pointer (t ∷ []) value document out h =
      get_pointer-step t [] out (text value) (child-edit_last value t document out h)
  get_pointer-set_pointer (t ∷ u ∷ us) value document out h =
      let (w, w', below, done, above) =
        child-edit_at (set_pointer atoi (u ∷ us) value) t document out h in
      get_pointer-step t (u ∷ us) out w' above ∙ get_pointer-set_pointer (u ∷ us) value w w' done

-- ===== src/Json/Tests.antt =====
-- The merge and the pointers at concrete documents.
use meta_posting.Prelude.{ℕ, String, ◌≡◌, refl, Option, none, some, [], ◌∷◌, str_eq, if◌then◌else◌}
use meta_posting.Json.{
  Value, number, text, array, object, nil, cons, Fields, end, field, lookup, deep_merge,
  set_pointer,
}
use meta_posting.Json.Merge.{overridden, lookup-deep_merge}
use meta_posting.Json.Pointer.{get_pointer, get_pointer-set_pointer}

abbrev base : Fields
base = field "name" (text "Spring") (field "bid" (object (field "amount" (number "100") end)) end)

abbrev patch : Fields
patch = field "bid" (object (field "cap" (number "250") end)) (field "status" (text "PAUSED") end)

merge_keeps : lookup "name" (deep_merge base patch) ≡ some (text "Spring")
unfolding lookup deep_merge
merge_keeps = refl

lookup-deep_merge_example :
    lookup "bid" (deep_merge base patch) ≡ overridden (lookup "bid" base) (lookup "bid" patch)
unfolding lookup
lookup-deep_merge_example = lookup-deep_merge "bid" base patch (refl, (refl, tt))

abbrev first_only : String → Option ℕ
first_only s = if str_eq s "0" then some 0 else none

abbrev story : Value
story = object (field "images" (array (cons (object (field "hash" (text "old") end)) nil)) end)

abbrev changed : Value
changed = object (field "images" (array (cons (object (field "hash" (text "abc") end)) nil)) end)

get_pointer-set_pointer_example :
    get_pointer first_only ("images" ∷ "0" ∷ "hash" ∷ []) changed ≡ some (text "abc")
unfolding set_pointer lookup
get_pointer-set_pointer_example =
    get_pointer-set_pointer first_only ("images" ∷ "0" ∷ "hash" ∷ []) "abc" story changed refl

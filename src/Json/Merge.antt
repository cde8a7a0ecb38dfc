-- ===== src/Json/Merge.antt =====
-- What a merged document holds (internal/meta/schemas.go, deepMerge).
use meta_posting.Prelude.{
  String, ◌≡◌, refl, Option, none, some, str_eq, str_eq_iff, arith, if◌then◌else◌,
}
use meta_posting.Json.{
  Value, null, text, number, boolean, object, array, Fields, end, field, lookup, put, remove,
  deep_merge, merged,
}

pub lookup-put :
    (k j : String) (v : Value) (fs : Fields)
    → lookup j (put k v fs) ≡ (if str_eq k j then some v else lookup j fs)
unfolding lookup put
lookup-put k j v end = refl
lookup-put k j v (field i w fs) =
    ground (arith, str_eq_iff k j, str_eq_iff i k, str_eq_iff i j, lookup-put k j v fs)

lookup-remove :
    (k j : String) (fs : Fields)
    → lookup j (remove k fs) ≡ (if str_eq k j then none else lookup j fs)
unfolding lookup remove
lookup-remove k j end = ground arith
lookup-remove k j (field i w fs) =
    ground (arith, str_eq_iff k j, str_eq_iff i k, str_eq_iff i j, lookup-remove k j fs)

-- A map has each key once.
abbrev pub UniqueFields : Fields → Type 0
UniqueFields end = Unit
UniqueFields (field k v fs) = (lookup k fs ≡ none) × UniqueFields fs

-- The value of a key after a merge, from its values before.
abbrev pub overridden : Option Value → Option Value → Option Value
overridden old none = old
overridden (some (object a)) (some (object b)) = some (object (deep_merge a b))
overridden old (some v) = some v

overridden-merged : (old : Option Value) (v : Value) → overridden old (some v) ≡ some (merged old v)
unfolding merged
overridden-merged none null = refl
overridden-merged none (boolean b) = refl
overridden-merged none (number n) = refl
overridden-merged none (text t) = refl
overridden-merged none (array xs) = refl
overridden-merged none (object b) = refl
overridden-merged (some (object a)) (object b) = refl
overridden-merged (some (object a)) null = refl
overridden-merged (some (object a)) (boolean b) = refl
overridden-merged (some (object a)) (number n) = refl
overridden-merged (some (object a)) (text t) = refl
overridden-merged (some (object a)) (array xs) = refl
overridden-merged (some null) null = refl
overridden-merged (some null) (boolean c) = refl
overridden-merged (some null) (number m) = refl
overridden-merged (some null) (text u) = refl
overridden-merged (some null) (array ys) = refl
overridden-merged (some null) (object fs) = refl
overridden-merged (some (boolean b)) null = refl
overridden-merged (some (boolean b)) (boolean c) = refl
overridden-merged (some (boolean b)) (number m) = refl
overridden-merged (some (boolean b)) (text u) = refl
overridden-merged (some (boolean b)) (array ys) = refl
overridden-merged (some (boolean b)) (object fs) = refl
overridden-merged (some (number n)) null = refl
overridden-merged (some (number n)) (boolean c) = refl
overridden-merged (some (number n)) (number m) = refl
overridden-merged (some (number n)) (text u) = refl
overridden-merged (some (number n)) (array ys) = refl
overridden-merged (some (number n)) (object fs) = refl
overridden-merged (some (text t)) null = refl
overridden-merged (some (text t)) (boolean c) = refl
overridden-merged (some (text t)) (number m) = refl
overridden-merged (some (text t)) (text u) = refl
overridden-merged (some (text t)) (array ys) = refl
overridden-merged (some (text t)) (object fs) = refl
overridden-merged (some (array xs)) null = refl
overridden-merged (some (array xs)) (boolean c) = refl
overridden-merged (some (array xs)) (number m) = refl
overridden-merged (some (array xs)) (text u) = refl
overridden-merged (some (array xs)) (array ys) = refl
overridden-merged (some (array xs)) (object fs) = refl

-- A merge works key by key: a key that the override has not keeps its value, and any other gets the
-- override's value, merged in turn if both are maps. So the order of the keys does not matter.
pub lookup-deep_merge :
    (k : String) (d o : Fields)
    → UniqueFields o
    → lookup k (deep_merge d o) ≡ overridden (lookup k d) (lookup k o)
unfolding lookup deep_merge
lookup-deep_merge k d end u = refl
lookup-deep_merge k d (field j v rest) (fresh, u) = ground (
  arith,
  str_eq_iff j k,
  overridden-merged (lookup j d) v,
  overridden-merged (lookup k d) v,
  lookup-put j k (merged (lookup j d) v) d,
  lookup-deep_merge k (put j (merged (lookup j d) v) d) rest u,
)

-- ===== src/Paging/Tests.antt =====
-- A service with two pages that refuses more than 40 items a page, and the theorems at this input.
use meta_posting.Prelude.{
  ℕ, suc, Bool, true, ◌≡◌, refl, none, some, [], ◌∷◌, ltb, arith, if◌then◌else◌,
}
use meta_posting.Prelude.Int.{pos}
use meta_posting.Paging.{
  page, refused, collected, Graph, Gathered, gathered, first_limit, collect_pages_with_meta,
  collect_pages_adaptive,
}
use meta_posting.Paging.Collect.{last_page, next_page, collect_pages_with_meta-Chain}
use meta_posting.Paging.Adaptive.{Shrinks, collect_pages_adaptive-Shrinks}

-- The metadata is the number of requests so far; the values are the limit.
abbrev two_pages : Graph ℕ ℕ Bool ℕ ℕ
two_pages = record {
  get_with_meta = λ path query s. (
    suc s,
    elim query [
      | some limit ↦ if ltb 40 limit then refused true (suc s) else page (1 ∷ 2 ∷ []) "next" (suc s)
      | none ↦ page (3 ∷ []) "" (suc s)
    ],
  );
}

abbrev this_error : Bool → Bool
this_error e = e

abbrev replaced : ℕ → ℕ → ℕ
replaced limit old = limit

shrinks_twice :
    collect_pages_adaptive two_pages 0 this_error replaced "ads" 0 (pos 150) 0
    ≡ some (4, gathered (1 ∷ 2 ∷ 3 ∷ []))
unfolding collect_pages_adaptive
shrinks_twice = refl

collect_pages_with_meta-Chain_example :
    collect_pages_with_meta two_pages 0 "ads" (some 25) 0 ≡ (2, collected (1 ∷ 2 ∷ 3 ∷ []) 2)
collect_pages_with_meta-Chain_example =
    collect_pages_with_meta-Chain two_pages 2 0 "ads" (some 25) 0 2 (1 ∷ 2 ∷ 3 ∷ []) 2
      (next_page {items = 1 ∷ 2 ∷ []} refl refl (last_page refl)) (omega arith)

collect_pages_adaptive-Shrinks_example :
    (s' : ℕ) × (g : Gathered ℕ Bool) × (collect_pages_adaptive two_pages 0 this_error replaced "ads"
        0
        (pos 150)
        0
      ≡ some (s', g))
    × Shrinks two_pages 0 this_error replaced "ads" 0 (first_limit (pos 150)) 0 g s'
collect_pages_adaptive-Shrinks_example =
    collect_pages_adaptive-Shrinks two_pages 0 this_error replaced "ads" 0 (pos 150) 0

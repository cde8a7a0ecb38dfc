-- ===== src/Paging/Collect.antt =====
-- What a walk along the paging links collects (internal/meta/pagination.go).
use meta_posting.Prelude.{
  ℕ, zero, suc, ◌≤◌, String, false, ◌≡◌, refl, ap, ◌∙◌, Option, none, List, [], ◌++◌, str_eq, arith,
}
use mathlib.Core.List.{append_assoc}
use meta_posting.Paging.{page, collected, Graph, safety_limit, follow, collect_pages_with_meta}

module _ {S T E M V : Type 0} (graph : Graph S T E M V) where
  -- `Chain n path query s items m s'`: from `path`, the service answers `n` pages, one linking to the
  -- next and the last linking nowhere; together they hold `items`, and the last has metadata `m`.
  pub data Chain : ℕ → String → Option V → S → List T → M → S → Type 0 where
    last_page :
        {path : String} {query : Option V} {s s' : S} {items : List T} {m : M}
        → graph.get_with_meta path query s ≡ (s', page items "" m)
        → Chain 1 path query s items m s'
    next_page :
        {n : ℕ} {path next : String} {query : Option V} {s mid s' : S} {items rest : List T}
        {m m' : M}
        → graph.get_with_meta path query s ≡ (mid, page items next m)
        → str_eq next "" ≡ false
        → Chain n next none mid rest m' s'
        → Chain (suc n) path query s (items ++ rest) m' s'

  follow-Chain :
      {n : ℕ} {path : String} {query : Option V} {s s' : S} {items : List T} {m : M}
      → Chain n path query s items m s'
      → (left : ℕ) (result : List T) (last : M) → n ≤ left
      → follow graph left path query result last s ≡ (s', collected (result ++ items) m)
  unfolding follow
  follow-Chain (last_page h) zero result last fits = absurd (omega arith)
  follow-Chain (last_page h) (suc left) result last fits = rw h refl
  follow-Chain (next_page h linked chain) zero result last fits = absurd (omega arith)
  follow-Chain (next_page {s' = s'} {items = items} {rest = rest} {m' = m'} h linked chain)
        (suc left) result last fits =
      rw (h, linked)
        (follow-Chain chain left (result ++ items) _ (omega arith)
          ∙ ap (λ xs. (s', collected xs m')) (append_assoc result items rest))

  -- When the service answers at most 10000 pages, each linking to the next and the last to none, the
  -- walk returns all items of all pages in their order, with the metadata of the last page.
  pub collect_pages_with_meta-Chain :
      (n : ℕ) (no_meta : M) (path : String) (query : Option V) (s s' : S) (items : List T) (m : M)
      → Chain n path query s items m s'
      → n ≤ safety_limit
      → collect_pages_with_meta graph no_meta path query s ≡ (s', collected items m)
  unfolding collect_pages_with_meta
  collect_pages_with_meta-Chain n no_meta path query s s' items m chain fits =
      follow-Chain chain safety_limit [] no_meta fits

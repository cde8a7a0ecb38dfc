-- ===== src/Paging.antt =====
-- Following Meta's paging links (internal/meta/pagination.go). What the Graph API answers depends
-- on a state `S` of it, which each request may change; URL values are an element of `V`.
pub mod Collect
pub mod Adaptive
mod Tests
use meta_posting.Prelude.{
  ℕ, zero, suc, ◌/◌, String, Bool, true, false, ◌||◌, not, Option, none, some, List, [], ◌∷◌, ◌++◌,
  ltb, leb, str_eq, if◌then◌else◌,
}
use meta_posting.Prelude.Int.{ℤ, pos, ltb_ℤ, pos_part}

-- What `GetWithMeta` returns: a page with its `paging.next`, or an error; and the metadata.
pub data Answer (T E M : Type 0) : Type 0 where
  page : List T → String → M → Answer T E M
  refused : E → M → Answer T E M

-- What `CollectPagesWithMeta` returns.
pub data Collected (T E M : Type 0) : Type 0 where
  collected : List T → M → Collected T E M
  failed : E → M → Collected T E M
  over_limit : M → Collected T E M

pub record Graph (S T E M V : Type 0) : Type 0 where
  pub get_with_meta : String → Option V → S → S × Answer T E M

abbrev pub safety_limit : ℕ
safety_limit = 10000

module _ {S T E M V : Type 0} (graph : Graph S T E M V) where
  -- What the loop does with an answer; `onward` is its next round.
  abbrev pub answered :
      (List T → String → M → S → S × Collected T E M)
      → List T
      → S × Answer T E M
      → S × Collected T E M
  answered onward result (s, refused e m) = (s, failed e m)
  answered onward result (s, page items next m) =
      if str_eq next "" then (s, collected (result ++ items) m) else onward items next m s

  -- The loop; `pages_left` counts down from the safety limit.
  unfoldable pub follow :
      (pages_left : ℕ) → String → Option V → List T → M → S → S × Collected T E M
  follow zero path query result last s = (s, over_limit last)
  follow (suc n) path query result last s =
      answered (λ items next m. follow n next none (result ++ items) m) result
        (graph.get_with_meta path query s)

  -- `CollectPagesWithMeta` with a client; `no_meta` is the zero ResponseMeta.
  unfoldable pub collect_pages_with_meta : M → String → Option V → S → S × Collected T E M
  unfolding follow
  collect_pages_with_meta no_meta path query s = follow safety_limit path query [] no_meta s

-- What `CollectPagesAdaptive` returns; `paging_error` is the error of the safety limit.
pub data Gathered (T E : Type 0) : Type 0 where
  gathered : List T → Gathered T E
  gave_up : E → Gathered T E
  paging_error : Gathered T E

-- `minAdaptiveLimit`.
abbrev pub min_adaptive_limit : ℕ
min_adaptive_limit = 10

-- `limit /= 2`, and no less than the floor.
abbrev pub smaller : ℕ → ℕ
smaller limit = if ltb (limit / 2) min_adaptive_limit then min_adaptive_limit else limit / 2

-- The limit asked for, or 100.
abbrev pub first_limit : ℤ → ℕ
first_limit asked = if ltb_ℤ (pos 0) asked then pos_part asked else 100

module _ {S T E M V : Type 0} (graph : Graph S T E M V) (no_meta : M) (is_oversized : E → Bool)
    (set_limit : ℕ → V → V) (path : String) (query : V) where
  -- `CollectPages` with the limit set.
  unfoldable pub attempt : ℕ → S → S × Collected T E M
  unfolding collect_pages_with_meta
  attempt limit s = collect_pages_with_meta graph no_meta path (some (set_limit limit query)) s

  -- What the loop does with an outcome; `again` is its next round.
  abbrev pub concluded :
      ℕ → (S → Option (S × Gathered T E)) → S × Collected T E M → Option (S × Gathered T E)
  concluded limit again (s, collected items m) = some (s, gathered items)
  concluded limit again (s, over_limit m) = some (s, paging_error)
  concluded limit again (s, failed e m) =
      if not (is_oversized e) || leb limit min_adaptive_limit then some (s, gave_up e) else again s

  -- The loop, on fuel; `none` is running out of it.
  unfoldable pub shrink : (fuel : ℕ) → (limit : ℕ) → S → Option (S × Gathered T E)
  unfolding attempt
  shrink zero limit s = none
  shrink (suc fuel) limit s = concluded limit (shrink fuel (smaller limit)) (attempt limit s)

  -- `CollectPagesAdaptive`; `asked` is the limit that the query holds, 0 for none or no number.
  unfoldable pub collect_pages_adaptive : ℤ → S → Option (S × Gathered T E)
  unfolding shrink
  collect_pages_adaptive asked s = shrink (suc (first_limit asked)) (first_limit asked) s

-- ===== src/Paging/Adaptive.antt =====
-- Shrinking the page until Meta accepts it (internal/meta/pagination.go).
use meta_posting.Prelude.{
  ℕ, zero, suc, ◌≤◌, ◌<◌, String, Bool, true, false, ◌≡◌, inl, inr, refl, Option, some, List, leb,
  max, ◌/◌, arith, Bool-cases,
}
use mathlib.Core.Path.{subst}
use meta_posting.Prelude.Int.{ℤ, pos, negsuc}
use meta_posting.Paging.{
  Collected, collected, failed, over_limit, Graph, Gathered, gathered, gave_up, paging_error,
  min_adaptive_limit, smaller, first_limit, collect_pages_with_meta, attempt, concluded, shrink,
  collect_pages_adaptive,
}

smaller-eq : (limit : ℕ) → smaller limit ≡ max 10 (limit / 2)
smaller-eq limit = ground arith

-- The limit of the first attempt.
abbrev pub start : ℤ → ℕ
start (pos zero) = 100
start (pos (suc n)) = suc n
start (negsuc n) = 100

start-eq : (asked : ℤ) → first_limit asked ≡ start asked
start-eq (pos zero) = ground arith
start-eq (pos (suc n)) = ground arith
start-eq (negsuc n) = ground arith

smaller-below :
    (limit fuel : ℕ) → min_adaptive_limit < limit → limit < suc fuel → smaller limit < fuel
smaller-below limit fuel above enough = ground arith

module _ {S T E M V : Type 0} (graph : Graph S T E M V) (no_meta : M) (is_oversized : E → Bool)
    (set_limit : ℕ → V → V) (path : String) (query : V) where
  -- All pages with a limit that is sent along.
  abbrev pub tried : ℕ → S → S × Collected T E M
  tried limit s = collect_pages_with_meta graph no_meta path (some (set_limit limit query)) s

  attempt-eq :
      (limit : ℕ) (s : S)
      → attempt graph no_meta is_oversized set_limit path query limit s ≡ tried limit s
  unfolding attempt
  attempt-eq limit s = refl

  -- `Shrinks limit s g s'`: from `limit` on, refusals for size are answered by smaller pages, down to
  -- the floor, and the first other outcome, or the refusal at the floor, is `g`.
  pub data Shrinks : ℕ → S → Gathered T E → S → Type 0 where
    accepted :
        {limit : ℕ} {s s' : S} {items : List T} {m : M}
        → tried limit s ≡ (s', collected items m)
        → Shrinks limit s (gathered items) s'
    too_long :
        {limit : ℕ} {s s' : S} {m : M}
        → tried limit s ≡ (s', over_limit m)
        → Shrinks limit s paging_error s'
    other_error :
        {limit : ℕ} {s s' : S} {e : E} {m : M}
        → tried limit s ≡ (s', failed e m)
        → is_oversized e ≡ false
        → Shrinks limit s (gave_up e) s'
    at_floor :
        {limit : ℕ} {s s' : S} {e : E} {m : M}
        → tried limit s ≡ (s', failed e m)
        → limit ≤ 10
        → Shrinks limit s (gave_up e) s'
    retry :
        {limit : ℕ} {s mid s' : S} {e : E} {m : M} {g : Gathered T E}
        → tried limit s ≡ (mid, failed e m)
        → is_oversized e ≡ true
        → 10 < limit
        → Shrinks (max 10 (limit / 2)) mid g s'
        → Shrinks limit s g s'

  abbrev Ends : ℕ → ℕ → S → Type 0
  Ends fuel limit s =
      (s' : S) × (g : Gathered T E) × (shrink graph no_meta is_oversized set_limit path query fuel
          limit s
        ≡ some (s', g))
      × Shrinks limit s g s'

  abbrev again : ℕ → ℕ → S → Option (S × Gathered T E)
  again fuel limit = shrink graph no_meta is_oversized set_limit path query fuel (smaller limit)

  concluded-Shrinks :
      (fuel limit : ℕ) (s : S) (r : S × Collected T E M)
      → tried limit s ≡ r
      → ((mid : S) → min_adaptive_limit < limit → Ends fuel (smaller limit) mid)
      → (s' : S) × (g : Gathered T E) × (concluded graph no_meta is_oversized set_limit path query
            limit
            (again fuel limit)
            r
          ≡ some (s', g))
        × Shrinks limit s g s'
  concluded-Shrinks fuel limit s (s', collected items m) h next =
      (s', gathered items, refl, accepted h)
  concluded-Shrinks fuel limit s (s', over_limit m) h next = (s', paging_error, refl, too_long h)
  concluded-Shrinks fuel limit s (mid, failed e m) h next = elim (Bool-cases (is_oversized e)) [
    | inr other ↦ (mid, gave_up e, (rw other refl), other_error h other)
    | inl big ↦ elim (Bool-cases (leb limit min_adaptive_limit)) [
      | inl floor ↦ (mid, gave_up e, (rw (big, floor) refl), at_floor h (ground arith))
      | inr above ↦
          let (s', g, run, down) = next mid (ground arith) in
          (s', g, (rw (big, above) run), retry h big (ground arith) (rw (smaller-eq limit) at down))
    ]
  ]

  shrink-Ends : (fuel limit : ℕ) (s : S) → limit < fuel → Ends fuel limit s
  unfolding shrink
  shrink-Ends zero limit s enough = absurd (omega arith)
  shrink-Ends (suc fuel) limit s enough =
      concluded-Shrinks fuel limit s (tried limit s) refl
        (λ mid above. shrink-Ends fuel (smaller limit) mid (smaller-below limit fuel above enough))

  abbrev Gathers : ℕ → ℕ → S → Type 0
  Gathers first limit s =
      (s' : S) × (g : Gathered T E) × (shrink graph no_meta is_oversized set_limit path query
          (suc first) first s
        ≡ some (s', g))
      × Shrinks limit s g s'

  from_start :
      (asked : ℤ) (s : S)
      → Gathers (first_limit asked) (first_limit asked) s
      → Gathers (first_limit asked) (start asked) s
  from_start asked s h = subst (λ limit. Gathers (first_limit asked) limit s) (start-eq asked) h

  -- `CollectPagesAdaptive` always ends. It starts with the limit asked for, or 100; it answers each
  -- refusal for size above the floor of 10 by half the limit, no less than the floor; and it returns
  -- the items of the first attempt that succeeds, or the first error that is not a refusal for size,
  -- or the refusal for size at a limit of at most 10.
  pub collect_pages_adaptive-Shrinks :
      (asked : ℤ) (s : S)
      → (s' : S) × (g : Gathered T E) × (collect_pages_adaptive graph no_meta is_oversized set_limit
            path query asked s
          ≡ some (s', g))
        × Shrinks (start asked) s g s'
  unfolding collect_pages_adaptive
  collect_pages_adaptive-Shrinks asked s =
      from_start asked s (shrink-Ends (suc (first_limit asked)) (first_limit asked) s (omega arith))

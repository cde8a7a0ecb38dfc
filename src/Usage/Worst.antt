-- ===== src/Usage/Worst.antt =====
-- That the combined reading is the most pessimistic one (internal/meta/usage.go, WorstUsage).
use meta_posting.Prelude.{
  Bool, true, false, ◌≡◌, refl, Option, none, some, List, [], ◌∷◌, All, arith, Bool-cases, inl, inr,
}
use meta_posting.Prelude.Int.{ℤ, ◌≤ℤ◌}
use mathlib.Core.Path.{subst}
use meta_posting.Guard.Order.{IsFloatOrder}
use meta_posting.Usage.{Usage, pressure, no_usage, worse, worst_of, found, worst_usage}

module _ {F : Type 0} (lt : F → F → Bool) (zero : F) (hundredth : F → F)
    (order : IsFloatOrder lt) where
  -- `w` is at least as bad as `u`, in pressure and in the time until access returns.
  abbrev pub AtLeast : Usage F → Usage F → Type 0
  AtLeast w u =
      (lt (pressure lt zero hundredth w) (pressure lt zero hundredth u) ≡ false)
      × (u.regain ≤ℤ w.regain)

  AtLeast-trans : (a b c : Usage F) → AtLeast a b → AtLeast b c → AtLeast a c
  AtLeast-trans a b c h k = (order.cotrans _ _ _ h.0 k.0, ground (arith, h.1, k.1))

  AtLeast-refl : (a : Usage F) → AtLeast a a
  AtLeast-refl a = (order.irrefl _, ground arith)

  asym : (a b : F) → lt a b ≡ true → lt b a ≡ false
  asym a b h = elim (Bool-cases (lt b a)) [
    | inl k ↦ cc (order.trans a b a h k, order.irrefl a)
    | inr k ↦ k
  ]

  pressure-regain :
      (u : Usage F) (n : ℤ)
      → pressure lt zero hundredth (record u { regain = n }) ≡ pressure lt zero hundredth u
  unfolding pressure
  pressure-regain u n = refl

  worse-AtLeast :
      (w u : Usage F)
      → AtLeast (worse lt zero hundredth w u) w × AtLeast (worse lt zero hundredth w u) u
  unfolding worse
  worse-AtLeast w u =
      elim (Bool-cases (lt (pressure lt zero hundredth w) (pressure lt zero hundredth u))) [
        | inl up ↦ rw up (((asym _ _ up, ground arith)), (order.irrefl _, ground arith))
        | inr down ↦ rw down ((order.irrefl _, ground arith), (down, ground arith))
      ]

  abbrev pub Covers : Usage F → Option (Usage F) → Type 0
  Covers w none = Unit
  Covers w (some u) = AtLeast w u

  worst_of-AtLeast :
      (w : Usage F) (us : List (Option (Usage F)))
      → AtLeast (worst_of lt zero hundredth w us) w
        × All (Covers (worst_of lt zero hundredth w us)) us
  unfolding worst_of
  worst_of-AtLeast w [] = (AtLeast-refl w, tt)
  worst_of-AtLeast w (none ∷ us) = let (above, all) = worst_of-AtLeast w us in (above, (tt, all))
  worst_of-AtLeast w (some u ∷ us) =
      let (above, all) = worst_of-AtLeast (worse lt zero hundredth w u) us in
      let (left, right) = worse-AtLeast w u in
      (
        AtLeast-trans (worst_of lt zero hundredth (worse lt zero hundredth w u) us)
            (worse lt zero hundredth w u) w above left,
        (
          AtLeast-trans (worst_of lt zero hundredth (worse lt zero hundredth w u) us)
              (worse lt zero hundredth w u) u above right,
          all,
        ),
      )

  abbrev pub CoversAll : Usage F → Option (Usage F) → Option (Usage F) → Option (Usage F) → Type 0
  CoversAll w app account business = Covers w app × Covers w account × Covers w business

  moved :
      (x w : Usage F) (app account business : Option (Usage F))
      → some x ≡ some w
      → CoversAll x app account business
      → CoversAll w app account business
  moved x w app account business e h =
      let same : x ≡ w = cc in subst (λ y. CoversAll y app account business) same h

  -- A combined reading is at least as bad, both in pressure and in the time until access returns, as
  -- each of the three headers' readings.
  pub worst_usage-Covers :
      (app account business : Option (Usage F)) (w : Usage F)
      → worst_usage lt zero hundredth app account business ≡ some w
      → CoversAll w app account business
  unfolding worst_usage
  worst_usage-Covers app account business w h =
      elim (Bool-cases (found lt zero hundredth (app ∷ account ∷ business ∷ []))) [
        | inl some_found ↦
            let all =
              (worst_of-AtLeast (no_usage lt zero hundredth) (app ∷ account ∷ business ∷ [])).1 in
            moved _ w app account business (rw some_found at h) (all.0, all.1.0, all.1.1.0)
        | inr nothing ↦ cc (rw nothing at h)
      ]

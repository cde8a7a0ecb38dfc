-- ===== src/Guard/Checks.antt =====
-- The recorded outcomes of a ladder: what saving one does, and what a manual resume does
-- (internal/platform/database/guard_repository.go, internal/application/guards.go).
use meta_posting.Prelude.{
  ℕ, true, false, ◌≡◌, refl, ap, Option, none, some, List, [], ◌∷◌, ◌++◌, ◌==◌, All, arith,
  Bool-cases, Option-cases, inl, inr, if◌then◌else◌,
}
use meta_posting.Sql.{update_where, find_where}
use meta_posting.Guard.Evaluate.{
  CheckStatus, Check, same_check, same_row, is_overridden, rewritten, save_check, decided,
  override_failed,
}

-- The unique index: no two rows are for one guard, campaign and rung.
abbrev pub UniqueChecks : {F : Type 0} → List (Check F) → Type 0
UniqueChecks [] = Unit
UniqueChecks (c ∷ cs) = All (λ d. same_row c d ≡ false) cs × UniqueChecks cs

-- What a saved outcome leaves behind: a manual override stays.
abbrev pub kept_or : CheckStatus → Option CheckStatus → CheckStatus
kept_or s (some CheckStatus.overridden) = CheckStatus.overridden
kept_or s _ = s

-- The outcome of a row that an update rewrites, if there is one.
abbrev updated : CheckStatus → Option CheckStatus → Option CheckStatus
updated s none = none
updated s (some _) = some s

abbrev status_of : {F : Type 0} → Option (Check F) → Option CheckStatus
status_of none = none
status_of (some c) = some c.status

-- A resume: every failed rung of the campaign counts as decided from then on.
abbrev pub lifted : Option CheckStatus → Option CheckStatus
lifted (some CheckStatus.failed) = some CheckStatus.overridden
lifted s = s

module _ {F : Type 0} where
  decided-append :
      (guard object index : ℕ) (c : Check F) (cs : List (Check F))
      → decided guard object (cs ++ c ∷ []) index
        ≡ (if same_check guard object index c then some c.status else decided guard object cs index)
  unfolding decided
  decided-append guard object index c [] = refl
  decided-append guard object index c (d ∷ cs) =
      ground (arith, decided-append guard object index c cs)

  decided-update_where :
      (guard object index : ℕ) (c : Check F) (cs : List (Check F))
      → decided guard object (update_where (same_row c) (rewritten c) cs) index ≡ (
          if same_check guard object index c
          then updated c.status (decided guard object cs index)
          else decided guard object cs index)
  unfolding decided update_where
  decided-update_where guard object index c [] = ground arith
  decided-update_where guard object index c (d ∷ cs) =
      ground (arith, decided-update_where guard object index c cs)

  absent :
      (c : Check F) (cs : List (Check F))
      → find_where (same_row c) cs ≡ none
      → decided c.guard_id c.published_object_id cs c.checkpoint_index ≡ none
  unfolding decided find_where
  absent c [] h = refl
  absent c (d ∷ cs) h = ground (arith, absent c cs)

  no_other :
      (c d : Check F) (cs : List (Check F))
      → same_row c d ≡ true
      → All (λ e. same_row d e ≡ false) cs
      → decided c.guard_id c.published_object_id cs c.checkpoint_index ≡ none
  unfolding decided
  no_other c d [] h u = refl
  no_other c d (e ∷ cs) h u = ground (arith, u.0, no_other c d cs h u.1)

  present :
      (c old : Check F) (cs : List (Check F))
      → UniqueChecks cs
      → find_where (same_row c) cs ≡ some old
      → decided c.guard_id c.published_object_id cs c.checkpoint_index ≡ some old.status
  unfolding decided find_where
  present c old [] u h = cc
  present c old (d ∷ cs) u h = elim (Bool-cases (same_row c d)) [
    | inl hit ↦ rw (no_other c d cs hit u.0, decided) (rw hit (ap (λ x. status_of x) (rw hit at h)))
    | inr miss ↦ rw (present c old cs u.1 (rw miss at h), decided) refl
  ]

  -- An update of another row, and of the row itself.
  save_check-new :
      (c : Check F) (cs : List (Check F)) (guard object index : ℕ)
      → find_where (same_row c) cs ≡ none
      → decided guard object (cs ++ c ∷ []) index ≡ (
          if same_check guard object index c
          then some (kept_or c.status (decided guard object cs index))
          else decided guard object cs index)
  save_check-new c cs guard object index h =
      ground (arith, decided-append guard object index c cs, absent c cs h)

  save_check-old :
      (c old : Check F) (cs : List (Check F)) (guard object index : ℕ)
      → UniqueChecks cs
      → find_where (same_row c) cs ≡ some old
      → decided guard object
          (if is_overridden old.status then cs else update_where (same_row c) (rewritten c) cs)
          index
        ≡ (if same_check guard object index c
            then some (kept_or c.status (decided guard object cs index))
            else decided guard object cs index)
  save_check-old c old cs guard object index u h =
      ground (arith, decided-update_where guard object index c cs, present c old cs u h)

  -- Saving an outcome sets it for its rung, unless an operator has overridden that rung, and
  -- changes no other rung of any guard or campaign.
  pub decided-save_check :
      (c : Check F) (cs : List (Check F)) (guard object index : ℕ)
      → UniqueChecks cs
      → decided guard object (save_check c cs) index ≡ (
          if same_check guard object index c
          then some (kept_or c.status (decided guard object cs index))
          else decided guard object cs index)
  unfolding save_check
  decided-save_check c cs guard object index u = elim (Option-cases (find_where (same_row c) cs)) [
    | inl fresh ↦ rw (save_check, fresh) (save_check-new c cs guard object index fresh)
    | inr (old, h) ↦ rw (save_check, h) (save_check-old c old cs guard object index u h)
  ]

  -- A manual resume turns each failed outcome of its campaign into an overridden one, for every
  -- guard, and leaves all other outcomes alone.
  pub decided-override_failed :
      (resumed guard object index : ℕ) (cs : List (Check F))
      → decided guard object (override_failed resumed cs) index ≡ (
          if object == resumed
          then lifted (decided guard object cs index)
          else decided guard object cs index)
  unfolding decided override_failed update_where
  decided-override_failed resumed guard object index [] = ground arith
  decided-override_failed resumed guard object index (c ∷ cs) =
      ground (arith, decided-override_failed resumed guard object index cs)

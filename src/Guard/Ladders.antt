-- ===== src/Guard/Ladders.antt =====
-- Which ladders `normalizeCheckpoints` accepts, and how it returns them
-- (internal/application/guards.go).
use meta_posting.Prelude.{
  ℕ, ◌≤◌, ◌<◌, Bool, true, false, ◌≡◌, refl, inl, inr, Option, none, some, List, [], ◌∷◌, All,
  arith, Bool-cases, length, ltb,
}
use mathlib.Core.Path.{subst}
use mathlib.Core.List.{Perm}
use meta_posting.Guard.{
  Checkpoint, ladder, LadderError, sort, feq, repeats, has_negative, has_no_threshold, fault,
  first_fault, judged, normalize_checkpoints,
}
use meta_posting.Guard.Order.{
  IsFloatOrder, IsAscending, IsSorted, sort-perm, sort-IsSorted, sort-ascending,
}

module _ {F : Type 0} (lt : F → F → Bool) (zero : F) where
  -- A checkpoint with a positive spend, no negative threshold and some threshold.
  pub record IsUsable (c : Checkpoint F) : Type 0 where
    pub positive : lt zero c.spend ≡ true
    pub not_negative : has_negative lt zero c ≡ false
    pub thresholded : has_no_threshold lt zero c ≡ false

  fault-none :
      (p : Option (Checkpoint F)) (c : Checkpoint F)
      → fault lt zero p c ≡ none
      → IsUsable c × (repeats lt zero p c ≡ false)
  unfolding fault
  fault-none p c h = elim (Bool-cases (lt zero c.spend)) [
    | inl positive ↦ elim (Bool-cases (repeats lt zero p c)) [
      | inl again ↦ cc (rw (positive, again) at h)
      | inr fresh ↦ elim (Bool-cases (has_negative lt zero c)) [
        | inl negative ↦ cc (rw (positive, fresh, negative) at h)
        | inr sound ↦ elim (Bool-cases (has_no_threshold lt zero c)) [
          | inl empty ↦ cc (rw (positive, fresh, sound, empty) at h)
          | inr some_threshold ↦ (
            record { positive = positive; not_negative = sound; thresholded = some_threshold },
            fresh,
          )
        ]
      ]
    ]
    | inr negative ↦ cc (rw negative at h)
  ]

  none-fault :
      (p : Option (Checkpoint F)) (c : Checkpoint F)
      → IsUsable c
      → repeats lt zero p c ≡ false
      → fault lt zero p c ≡ none
  unfolding fault
  none-fault p c u fresh = rw (u.positive, fresh, u.not_negative, u.thresholded)

  first_fault-cons :
      (p : Option (Checkpoint F)) (c : Checkpoint F) (cs : List (Checkpoint F))
      → first_fault lt zero p (c ∷ cs) ≡ none
      → (fault lt zero p c ≡ none) × (first_fault lt zero (some c) cs ≡ none)
  unfolding first_fault
  first_fault-cons p c cs h = go (fault lt zero p c) refl
    where
      go :
          (f : Option LadderError)
          → fault lt zero p c ≡ f
          → (fault lt zero p c ≡ none) × (first_fault lt zero (some c) cs ≡ none)
      go none e = (e, rw (e, first_fault) at h)
      go (some x) e = cc (rw (e, first_fault) at h)

module _ {F : Type 0} (lt : F → F → Bool) (zero : F) (order : IsFloatOrder lt) where
  -- Behind `p` in a sorted list, what the loop lets pass is above `p`.
  above :
      (c p : Checkpoint F)
      → lt c.spend p.spend ≡ false
      → feq lt zero c.spend p.spend ≡ false
      → lt p.spend c.spend ≡ true
  above c p below differs = ground (arith, below, differs)

  All-above :
      (p c : Checkpoint F) (cs : List (Checkpoint F))
      → lt p.spend c.spend ≡ true
      → All (λ d. lt c.spend d.spend ≡ true) cs
      → All (λ d. lt p.spend d.spend ≡ true) cs
  All-above p c [] h hs = tt
  All-above p c (d ∷ cs) h hs =
      (order.trans p.spend c.spend d.spend h hs.0, All-above p c cs h hs.1)

  accepted_after :
      (p : Checkpoint F) (cs : List (Checkpoint F))
      → IsSorted lt (p ∷ cs)
      → first_fault lt zero (some p) cs ≡ none
      → IsAscending lt (p ∷ cs) × All (IsUsable lt zero) cs
  accepted_after p [] sorted h = ((tt, tt), tt)
  accepted_after p (c ∷ cs) sorted h =
      let (first, rest) = first_fault-cons lt zero (some p) c cs h in
      let (usable, differs) = fault-none lt zero (some p) c first in
      let up = above c p sorted.0.0 differs in
      let (ascending, all_usable) = accepted_after c cs sorted.1 rest in
      (((up, All-above p c cs up ascending.0), ascending), (usable, all_usable))

  accepted :
      (cs : List (Checkpoint F))
      → IsSorted lt cs
      → first_fault lt zero none cs ≡ none
      → IsAscending lt cs × All (IsUsable lt zero) cs
  accepted [] sorted h = (tt, tt)
  accepted (c ∷ cs) sorted h =
      let (first, rest) = first_fault-cons lt zero none c cs h in
      let (usable, _) = fault-none lt zero none c first in
      let (ascending, all_usable) = accepted_after c cs sorted rest in
      (ascending, (usable, all_usable))

  judged-eq-ladder :
      (cs out : List (Checkpoint F)) (f : Option LadderError)
      → judged lt zero cs f ≡ ladder out
      → (f ≡ none) × (cs ≡ out)
  judged-eq-ladder cs out none h = (refl, cc)
  judged-eq-ladder cs out (some e) h = cc

  -- A ladder that is accepted is the given checkpoints in strictly ascending order of spend, each
  -- with a positive spend, no negative threshold and at least one that is not zero; there are one
  -- to twenty of them.
  pub normalize_checkpoints-IsAscending :
      (cs out : List (Checkpoint F))
      → normalize_checkpoints lt zero cs ≡ ladder out
      → Perm out cs
        × IsAscending lt out
        × All (IsUsable lt zero) out
        × (0 < length cs)
        × (length cs ≤ 20)
  unfolding normalize_checkpoints
  normalize_checkpoints-IsAscending [] out h = cc
  normalize_checkpoints-IsAscending (c ∷ cs) out h = elim (Bool-cases (ltb 20 (length (c ∷ cs)))) [
    | inl long ↦ cc (rw long at h)
    | inr short ↦
        let (clean, same) =
          judged-eq-ladder (sort lt zero (c ∷ cs)) out
            (first_fault lt zero none (sort lt zero (c ∷ cs))) (rw short at h) in
        let (ascending, usable) =
          accepted (sort lt zero (c ∷ cs)) (sort-IsSorted lt zero order (c ∷ cs)) clean in
        (
          subst (λ l. Perm l (c ∷ cs)) same (sort-perm lt zero order (c ∷ cs)),
          subst (IsAscending lt) same ascending,
          subst (All (IsUsable lt zero)) same usable,
          omega arith,
          ground (arith, short),
        )
  ]

  differs_after :
      (p c : Checkpoint F) → lt p.spend c.spend ≡ true → repeats lt zero (some p) c ≡ false
  differs_after p c h = ground (arith, h)

  clean_after :
      (p : Checkpoint F) (cs : List (Checkpoint F))
      → IsAscending lt (p ∷ cs)
      → All (IsUsable lt zero) cs
      → first_fault lt zero (some p) cs ≡ none
  unfolding first_fault
  clean_after p [] ascending usable = refl
  clean_after p (c ∷ cs) ascending usable =
      rw (none-fault lt zero (some p) c usable.0 (differs_after p c ascending.0.0), first_fault)
        (clean_after c cs ascending.1 usable.1)

  clean :
      (c : Checkpoint F) (cs : List (Checkpoint F))
      → IsAscending lt (c ∷ cs)
      → All (IsUsable lt zero) (c ∷ cs)
      → first_fault lt zero none (c ∷ cs) ≡ none
  unfolding first_fault
  clean c cs ascending usable =
      rw (none-fault lt zero none c usable.0 refl, first_fault)
        (clean_after c cs ascending usable.1)

  few_enough : (n : ℕ) → n ≤ 20 → ltb 20 n ≡ false
  few_enough n h = ground arith

  -- A ladder of one to twenty usable checkpoints in ascending order is accepted as it is; so
  -- normalising twice is normalising once.
  pub normalize_checkpoints-ascending :
      (cs : List (Checkpoint F))
      → IsAscending lt cs
      → All (IsUsable lt zero) cs
      → 0 < length cs
      → length cs ≤ 20
      → normalize_checkpoints lt zero cs ≡ ladder cs
  unfolding normalize_checkpoints
  normalize_checkpoints-ascending [] ascending usable some_rung few = absurd (omega arith)
  normalize_checkpoints-ascending (c ∷ cs) ascending usable some_rung few =
      rw
        (
          few_enough (length (c ∷ cs)) few,
          sort-ascending lt zero order (c ∷ cs) ascending,
          clean c cs ascending usable,
        )
        refl

-- ===== src/Guard.antt =====
-- The spend-checkpoint guards (internal/application/guards.go). A float64 is an element of a type
-- `F` with the comparison `<` and a zero; a stored value is never NaN, so `a >= b` is `¬ (a < b)`.
pub mod Order
pub mod Checks
pub mod Resume
pub mod Tests
pub mod Verdict
pub mod Evaluate
pub mod Ladders
use meta_posting.Prelude.{
  ℕ, suc, String, Bool, true, false, not, ◌&&◌, ◌||◌, Option, none, some, List, [], ◌∷◌, ltb,
  str_eq, if◌then◌else◌, length, leb,
}
use meta_posting.Prelude.Int.{ℤ, pos, ltb_ℤ}

-- `GuardCheckpoint`.
pub record Checkpoint (F : Type 0) : Type 0 where
  pub spend : F
  pub min_clicks : ℤ
  pub min_impressions : ℤ
  pub min_tracker_clicks : ℤ
  pub min_tracker_leads : F
  pub min_tracker_sales : F
  pub min_tracker_revenue : F

-- `GuardObservation`.
pub record Observation (F : Type 0) : Type 0 where
  pub spend : F
  pub clicks : ℤ
  pub impressions : ℤ
  pub tracker_clicks : ℤ
  pub tracker_leads : F
  pub tracker_sales : F
  pub tracker_revenue : F

-- Why `normalizeCheckpoints` refuses a ladder.
pub data LadderError : Type 0 where
  no_checkpoint too_many spend_not_positive spend_repeated threshold_negative no_threshold :
      LadderError

pub data Ladder (F : Type 0) : Type 0 where
  ladder : List (Checkpoint F) → Ladder F
  refused : LadderError → Ladder F

module _ {F : Type 0} (lt : F → F → Bool) (zero : F) where
  -- `sort.SliceStable` by spend, as insertion: equal keys keep their order.
  unfoldable pub insert : Checkpoint F → List (Checkpoint F) → List (Checkpoint F)
  insert c [] = c ∷ []
  insert c (d ∷ ds) = if lt d.spend c.spend then d ∷ insert c ds else c ∷ d ∷ ds

  unfoldable pub sort : List (Checkpoint F) → List (Checkpoint F)
  unfolding insert
  sort [] = []
  sort (c ∷ cs) = insert c (sort cs)

  abbrev pub feq : F → F → Bool
  feq a b = not (lt a b) && not (lt b a)

  -- `a == b` against the element before, if there is one.
  abbrev pub repeats : Option (Checkpoint F) → Checkpoint F → Bool
  repeats none c = false
  repeats (some p) c = feq c.spend p.spend

  abbrev pub has_negative : Checkpoint F → Bool
  has_negative c =
      ltb_ℤ c.min_clicks (pos 0)
      || (ltb_ℤ c.min_impressions (pos 0)
          || (ltb_ℤ c.min_tracker_clicks (pos 0)
              || (lt c.min_tracker_leads zero
                  || (lt c.min_tracker_sales zero || lt c.min_tracker_revenue zero))))

  abbrev is_zero : ℤ → Bool
  is_zero n = not (ltb_ℤ n (pos 0)) && not (ltb_ℤ (pos 0) n)

  abbrev pub has_no_threshold : Checkpoint F → Bool
  has_no_threshold c =
      is_zero c.min_clicks
      && (is_zero c.min_impressions
          && (is_zero c.min_tracker_clicks
              && (feq c.min_tracker_leads zero
                  && (feq c.min_tracker_sales zero && feq c.min_tracker_revenue zero))))

  -- The tests of one element, in the order of the loop.
  unfoldable pub fault : Option (Checkpoint F) → Checkpoint F → Option LadderError
  fault previous c =
      if not (lt zero c.spend)
      then some spend_not_positive
      else if repeats previous c
      then some spend_repeated
      else if has_negative c
      then some threshold_negative
      else if has_no_threshold c
      then some no_threshold
      else none

  unfoldable pub first_fault : Option (Checkpoint F) → List (Checkpoint F) → Option LadderError
  unfolding fault
  first_fault previous [] = none
  first_fault previous (c ∷ cs) =
      let rest = first_fault (some c) cs in
      elim (fault previous c) [ some e ↦ some e | none ↦ rest ]

  abbrev pub judged : List (Checkpoint F) → Option LadderError → Ladder F
  judged cs none = ladder cs
  judged cs (some e) = refused e

  unfoldable pub normalize_checkpoints : List (Checkpoint F) → Ladder F
  unfolding sort first_fault
  normalize_checkpoints [] = refused no_checkpoint
  normalize_checkpoints (c ∷ cs) =
      if ltb 20 (length (c ∷ cs))
      then refused too_many
      else judged (sort (c ∷ cs)) (first_fault none (sort (c ∷ cs)))

  -- `checkpointSatisfied`.
  abbrev pub at_least : F → F → Bool
  at_least a b = not (lt a b)

  abbrev at_least_ℤ : ℤ → ℤ → Bool
  at_least_ℤ a b = not (ltb_ℤ a b)

  unfoldable pub checkpoint_satisfied : Checkpoint F → Observation F → Bool
  checkpoint_satisfied c o =
      at_least_ℤ o.clicks c.min_clicks
      && (at_least_ℤ o.impressions c.min_impressions
          && (at_least_ℤ o.tracker_clicks c.min_tracker_clicks
              && (at_least o.tracker_leads c.min_tracker_leads
                  && (at_least o.tracker_sales c.min_tracker_sales
                      && at_least o.tracker_revenue c.min_tracker_revenue))))

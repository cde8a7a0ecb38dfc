-- ===== src/Usage.antt =====
-- Meta's rate-limit readings (internal/meta/usage.go). A float64 that is not NaN is an element of `F`
-- with the comparison `<`; `hundredth` is the division by 100. What the JSON headers hold is given.
pub mod Worst
mod Tests
use meta_posting.Prelude.{
  String, Bool, true, false, not, ◌&&◌, Option, none, some, List, [], ◌∷◌, if◌then◌else◌,
}
use meta_posting.Prelude.Int.{ℤ, pos, ltb_ℤ}

-- `Usage`; `regain` is EstimatedTimeToRegainAccess.
pub record Usage (F : Type 0) : Type 0 where
  pub call_count : F
  pub total_cpu_time : F
  pub total_time : F
  pub regain : ℤ
  pub reset_time_duration : ℤ
  pub tier : String
  pub use_case : String

module _ {F : Type 0} (lt : F → F → Bool) (zero : F) (hundredth : F → F) where
  abbrev pub fmax : F → F → F
  fmax a b = if lt a b then b else a

  unfoldable pub pressure : Usage F → F
  pressure u =
      let highest = fmax (fmax u.call_count u.total_cpu_time) u.total_time in
      if lt highest zero then zero else hundredth highest

  -- The zero value.
  abbrev pub no_usage : Usage F
  no_usage = record {
    call_count = zero;
    total_cpu_time = zero;
    total_time = zero;
    regain = pos 0;
    reset_time_duration = pos 0;
    tier = "";
    use_case = "";
  }

  abbrev pub longer : ℤ → ℤ → ℤ
  longer a b = if ltb_ℤ a b then b else a

  -- One round of the loop of `WorstUsage`.
  unfoldable pub worse : Usage F → Usage F → Usage F
  unfolding pressure
  worse worst u =
      if lt (pressure worst) (pressure u)
      then record u { regain = longer u.regain worst.regain }
      else record worst { regain = longer worst.regain u.regain }

  unfoldable pub worst_of : Usage F → List (Option (Usage F)) → Usage F
  unfolding worse
  worst_of worst [] = worst
  worst_of worst (none ∷ us) = worst_of worst us
  worst_of worst (some u ∷ us) = worst_of (worse worst u) us

  abbrev pub found : {A : Type 0} → List (Option A) → Bool
  found [] = false
  found (none ∷ us) = found us
  found (some u ∷ us) = true

  -- `WorstUsage`, given what the three parsers return.
  unfoldable pub worst_usage :
      Option (Usage F) → Option (Usage F) → Option (Usage F) → Option (Usage F)
  unfolding worst_of
  worst_usage app account business =
      let readings = app ∷ account ∷ business ∷ [] in
      if found readings then some (worst_of no_usage readings) else none

  abbrev pub is_blocked : Usage F → Bool
  is_blocked u = ltb_ℤ (pos 0) u.regain

  -- One round of the loops of `ParseBusinessUsage`.
  unfoldable pub worse_business : Usage F → Usage F → Usage F
  unfolding pressure
  worse_business worst u =
      if not (is_blocked worst) && is_blocked u
      then u
      else if lt (pressure worst) (pressure u)
      then record u { regain = longer u.regain worst.regain }
      else worst

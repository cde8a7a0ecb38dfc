-- ===== src/Insights/Ranges.antt =====
-- How missing days are grouped into requests (internal/application/insights_daily.go).
use meta_posting.Prelude.{
  ℕ, zero, suc, ◌+◌, ◌≤◌, max, true, false, ◌≡◌, refl, sym, ap, ◌∙◌, ◌&&◌, List, [], ◌∷◌, ◌++◌,
  ◌==◌, ltb, arith, Bool-cases, inl, inr, All,
}
use mathlib.Core.List.{append_assoc}
use meta_posting.Insights.{days_from, each_day}

-- The loop: the open range, its length, and the days still to come.
unfoldable pub ranges_from : ℕ → ℕ → ℕ → ℕ → List ℕ → List (ℕ × ℕ)
ranges_from limit start previous size [] = (start, previous) ∷ []
ranges_from limit start previous size (day ∷ days) =
    elim ((day == suc previous) && ltb size limit) [
      | true ↦ ranges_from limit start day (suc size) days
      | false ↦ (start, previous) ∷ ranges_from limit day day 1 days
    ]

-- `contiguousRanges`.
unfoldable pub contiguous_ranges : List ℕ → ℕ → List (ℕ × ℕ)
unfolding ranges_from
contiguous_ranges [] max_days = []
contiguous_ranges (day ∷ days) max_days = ranges_from (max 1 max_days) day day 1 days

-- The days of the ranges, one range after the other.
unfoldable pub days_of : List (ℕ × ℕ) → List ℕ
unfolding each_day
days_of [] = []
days_of ((since, until) ∷ ranges) = each_day since until ++ days_of ranges

days_from-suc : (day n : ℕ) → days_from day (suc n) ≡ days_from day n ++ (day + n) ∷ []
unfolding days_from
days_from-suc day zero = ap (λ d. d ∷ []) (omega arith)
days_from-suc day (suc n) =
    ap (λ ds. day ∷ ds)
      (days_from-suc (suc day) n ∙ ap (λ d. days_from (suc day) n ++ d ∷ []) (omega arith))

each_day-days_from :
    (start previous size : ℕ)
    → suc previous ≡ start + size
    → each_day start previous ≡ days_from start size
unfolding each_day
each_day-days_from start previous size h = ap (λ n. days_from start n) (omega arith)

-- A range of at least one day and at most `limit` days.
abbrev pub IsWithin : ℕ → ℕ × ℕ → Type 0
IsWithin limit (since, until) = (since ≤ until) × (suc until ≤ since + limit)

-- What the ranges of a loop that has an open range are.
abbrev pub Groups : ℕ → List (ℕ × ℕ) → List ℕ → Type 0
Groups limit ranges days = (days_of ranges ≡ days) × All (IsWithin limit) ranges

ranges_from-Groups :
    (limit start previous size : ℕ) (days : List ℕ)
    → suc previous ≡ start + size
    → 1 ≤ size
    → size ≤ limit
    → Groups limit (ranges_from limit start previous size days) (days_from start size ++ days)
unfolding ranges_from days_of
ranges_from-Groups limit start previous size [] h one fits = (
  ap (λ ds. ds ++ []) (each_day-days_from start previous size h),
  ((omega arith, omega arith), tt),
)
ranges_from-Groups limit start previous size (day ∷ days) h one fits =
    elim (Bool-cases ((day == suc previous) && ltb size limit)) [
      | inl longer ↦
          let next : day ≡ start + size = ground arith in
          let (same, within) =
            ranges_from-Groups limit start day (suc size) days (omega arith) (omega arith)
              (ground arith) in
          rw (longer, ranges_from)
            (
              same
                  ∙ ap (λ ds. ds ++ days) (days_from-suc start size)
                  ∙ append_assoc (days_from start size) ((start + size) ∷ []) days
                  ∙ ap (λ d. days_from start size ++ d ∷ days) (sym next),
              within,
            )
      | inr cut ↦
          let (same, within) =
            ranges_from-Groups limit day day 1 days (omega arith) (omega arith) (omega arith) in
          rw (cut, ranges_from)
            (
              ap (λ ds. ds ++ days_of (ranges_from limit day day 1 days))
                    (each_day-days_from start previous size h)
                  ∙ ap (λ ds. days_from start size ++ ds) same,
              ((omega arith, omega arith), within),
            )
    ]

-- The ranges hold exactly the days given, in their order and each as often, and every range has at
-- least one day and at most `max_days` (one, if that is 0).
pub contiguous_ranges-Groups :
    (days : List ℕ) (max_days : ℕ) → Groups (max 1 max_days) (contiguous_ranges days max_days) days
unfolding contiguous_ranges days_of
contiguous_ranges-Groups [] max_days = (refl, tt)
contiguous_ranges-Groups (day ∷ days) max_days =
    ranges_from-Groups (max 1 max_days) day day 1 days (omega arith) (omega arith) (omega arith)

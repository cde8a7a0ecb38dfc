-- ===== src/Insights/Marked.antt =====
-- Which days have a row of coverage (internal/platform/database/ad_insight_repository.go).
use meta_posting.Prelude.{
  ℕ, true, ◌≡◌, In, here, there, Bool-cases, inl, inr, arith, ==_iff, refl, List, [], ◌∷◌,
}
use meta_posting.Sql.{any_row}
use meta_posting.Insights.{Level, Coverage, same_level, is_for}
use meta_posting.Insights.Covered.{Covered, same_level_refl}

-- Some row of the coverage table is of this account, level and day.
abbrev pub Marked : ℕ → Level → List Coverage → ℕ → Type 0
Marked id level rows day =
    (c : Coverage) × In c rows × (c.ad_account_id ≡ id) × (c.level ≡ level) × (c.date ≡ day)

same_level-eq : (a b : Level) → same_level a b ≡ true → a ≡ b
same_level-eq Level.account Level.account h = refl
same_level-eq Level.account Level.campaign h = cc
same_level-eq Level.account Level.ad_set h = cc
same_level-eq Level.account Level.ad h = cc
same_level-eq Level.campaign Level.account h = cc
same_level-eq Level.campaign Level.campaign h = refl
same_level-eq Level.campaign Level.ad_set h = cc
same_level-eq Level.campaign Level.ad h = cc
same_level-eq Level.ad_set Level.account h = cc
same_level-eq Level.ad_set Level.campaign h = cc
same_level-eq Level.ad_set Level.ad_set h = refl
same_level-eq Level.ad_set Level.ad h = cc
same_level-eq Level.ad Level.account h = cc
same_level-eq Level.ad Level.campaign h = cc
same_level-eq Level.ad Level.ad_set h = cc
same_level-eq Level.ad Level.ad h = refl

pub Marked-Covered :
    (id : ℕ) (level : Level) (rows : List Coverage) (day : ℕ)
    → Marked id level rows day
    → Covered id level rows day
unfolding any_row
Marked-Covered id level [] day (c, m, account, same, date) = elim m [ ]
Marked-Covered id level (x ∷ rows) day (c, here e, account, same, date) =
    let known = same_level_refl level in
    let own : is_for id level day x ≡ true =
      rw (← e, account, same, date, (==_iff id id).1 refl, known, (==_iff day day).1 refl) refl in
    rw own refl
Marked-Covered id level (x ∷ rows) day (c, there m, account, same, date) =
    let rest = Marked-Covered id level rows day (c, m, account, same, date) in ground arith

pub Covered-Marked :
    (id : ℕ) (level : Level) (rows : List Coverage) (day : ℕ)
    → Covered id level rows day
    → Marked id level rows day
unfolding any_row
Covered-Marked id level [] day h = cc
Covered-Marked id level (x ∷ rows) day h = elim (Bool-cases (is_for id level day x)) [
  | inl t ↦ (
    x,
    here refl,
    ground (arith, t),
    same_level-eq x.level level (ground (arith, t)),
    ground (arith, t),
  )
  | inr n ↦
      let (c, m, account, same, date) = Covered-Marked id level rows day (rw n at h) in
      (c, there m, account, same, date)
]

-- ===== src/Insights/Covered.antt =====
-- Which days are covered after a fetch (internal/platform/database/ad_insight_repository.go).
use meta_posting.Prelude.{
  ℕ, zero, suc, ◌<◌, ◌+◌, Bool, true, false, ◌≡◌, refl, sym, ap, ◌∙◌, ◌||◌, ◌&&◌, List, [], ◌∷◌,
  ◌==◌, ==_iff, arith, Bool-cases, inl, inr, ◌⊎◌, ◌≤◌, min, leb, Option, none, some, In, here,
  there, All, if_cases,
}
use mathlib.Core.Path.{subst}
use meta_posting.Sql.{update_where, any_row}
use meta_posting.Sql.Laws.{any_row-append}
use meta_posting.Insights.{
  days_from, Level, same_level, Coverage, is_for, is_covered, upsert_coverage, mark_coverage,
  uncovered, earlier, oldest_covered,
}

any_row-update_where {ℓ} :
    {A : Type ℓ} (q p : A → Bool) (f : A → A)
    → ((x : A) → q (f x) ≡ q x)
    → (xs : List A) → any_row q (update_where p f xs) ≡ any_row q xs
unfolding any_row update_where
any_row-update_where q p f keep [] = refl
any_row-update_where q p f keep (x ∷ xs) = elim (Bool-cases (p x)) [
  | inl e ↦ rw (e, keep x, any_row-update_where q p f keep xs) refl
  | inr e ↦ rw (e, any_row-update_where q p f keep xs) refl
]

pub days_from-In : (since n day : ℕ) → since ≤ day → day < since + n → In day (days_from since n)
unfolding days_from
days_from-In since zero day low high = absurd (omega arith)
days_from-In since (suc n) day low high = elim (Bool-cases (day == since)) [
  | inl e ↦ here (ground arith)
  | inr e ↦ there (days_from-In (suc since) n day (ground arith) (omega arith))
]

pub same_level_refl : (level : Level) → same_level level level ≡ true
same_level_refl Level.account = refl
same_level_refl Level.campaign = refl
same_level_refl Level.ad_set = refl
same_level_refl Level.ad = refl

module _ (id : ℕ) (level : Level) where
  -- The day was fetched for the account at the level.
  abbrev pub Covered : List Coverage → ℕ → Type 0
  Covered rows day = is_covered id level rows day ≡ true

  -- Nothing that was covered is lost.
  abbrev pub Keeps : List Coverage → List Coverage → Type 0
  Keeps rows rows' = (day : ℕ) → Covered rows day → Covered rows' day

  Keeps-upsert_coverage :
      (c : Coverage) (rows : List Coverage) → Keeps rows (upsert_coverage c rows)
  unfolding upsert_coverage
  Keeps-upsert_coverage c rows day h =
      if_cases (λ rs. Covered rs day) (any_row (is_for c.ad_account_id c.level c.date) rows)
        (λ e.
          any_row-update_where (is_for id level day) (is_for c.ad_account_id c.level c.date) _
            (λ x. refl) rows
          ∙ h)
        (λ e. any_row-append (is_for id level day) rows (c ∷ []) ∙ rw h refl)

  is_covered-upsert_coverage :
      (day count now : ℕ) (rows : List Coverage)
      → Covered
          (upsert_coverage
            (record {
              ad_account_id = id;
              level = level;
              date = day;
              row_count = count;
              fetched_at = now;
            })
            rows)
          day
  unfolding upsert_coverage any_row
  is_covered-upsert_coverage day count now rows =
      if_cases (λ rs. Covered rs day) (any_row (is_for id level day) rows)
        (λ e.
          any_row-update_where (is_for id level day) (is_for id level day) _ (λ x. refl) rows ∙ e)
        (λ e.
          any_row-append (is_for id level day) rows _
          ∙ rw (e, (==_iff id id).1 refl, same_level_refl level, (==_iff day day).1 refl) refl)

  abbrev pub days_in : List (ℕ × ℕ) → List ℕ
  days_in [] = []
  days_in ((day, count) ∷ counts) = day ∷ days_in counts

  pub Keeps-mark_coverage :
      (counts : List (ℕ × ℕ)) (now : ℕ) (rows : List Coverage)
      → Keeps rows (mark_coverage id level counts now rows)
  unfolding mark_coverage
  Keeps-mark_coverage [] now rows day h = h
  Keeps-mark_coverage ((d, count) ∷ counts) now rows day h =
      Keeps-mark_coverage counts now _ day (Keeps-upsert_coverage _ rows day h)

  -- `MarkCoverage` covers all of its days.
  pub All-mark_coverage :
      (counts : List (ℕ × ℕ)) (now : ℕ) (rows : List Coverage)
      → All (Covered (mark_coverage id level counts now rows)) (days_in counts)
  unfolding mark_coverage
  All-mark_coverage [] now rows = tt
  All-mark_coverage ((day, count) ∷ counts) now rows = (
    Keeps-mark_coverage counts now _ day (is_covered-upsert_coverage day count now rows),
    All-mark_coverage counts now _,
  )

  pub All-kept :
      (rows rows' : List Coverage)
      → Keeps rows rows'
      → (days : List ℕ) → All (Covered rows) days
      → All (Covered rows') days
  All-kept rows rows' keeps [] h = tt
  All-kept rows rows' keeps (day ∷ days) h = (keeps day h.0, All-kept rows rows' keeps days h.1)

  -- When the days that were uncovered are covered, all are.
  pub uncovered-In :
      (rows rows' : List Coverage) (days : List ℕ) (day : ℕ)
      → Keeps rows rows'
      → All (Covered rows') (uncovered id level rows days)
      → In day days
      → Covered rows' day
  unfolding uncovered
  uncovered-In rows rows' [] day keeps h m = elim m [ ]
  uncovered-In rows rows' (d ∷ days) day keeps h m =
      elim (Bool-cases (is_covered id level rows d)) [
        | inl e ↦ elim m [
          | here same ↦ keeps day (rw same e)
          | there m' ↦ uncovered-In rows rows' days day keeps (rw e at h) m'
        ]
        | inr e ↦
            let (found, rest) = rw e at h in
            elim m [
              | here same ↦ rw same found
              | there m' ↦ uncovered-In rows rows' days day keeps rest m'
            ]
      ]

-- Where the day of the last row comes from.
or_own :
    (before level account : Bool) (date day : ℕ)
    → (before || ((account && (level && (date == day))) || false)) ≡ true
    → (day ≡ date) ⊎ (before ≡ true)
or_own true level account date day h = inr refl
or_own false level account date day h = inl (ground arith)

module _ (id : ℕ) (level : Level) where
  -- A day that an upsert covers was covered, or is its own.
  is_covered-upserted :
      (c : Coverage) (rows : List Coverage) (day : ℕ)
      → Covered id level (upsert_coverage c rows) day
      → (day ≡ c.date) ⊎ Covered id level rows day
  unfolding upsert_coverage any_row
  is_covered-upserted c rows day =
      if_cases (λ rs. Covered id level rs day → (day ≡ c.date) ⊎ Covered id level rows day)
        (any_row (is_for c.ad_account_id c.level c.date) rows)
        (λ e h. inr (
          sym (
            any_row-update_where (is_for id level day) (is_for c.ad_account_id c.level c.date) _
              (λ x. refl) rows)
          ∙ h))
        (λ e h.
          or_own (any_row (is_for id level day) rows) (same_level c.level level)
            (c.ad_account_id == id) c.date day
            (sym (any_row-append (is_for id level day) rows (c ∷ [])) ∙ h))

  pub is_covered-marked :
      (counts : List (ℕ × ℕ)) (now : ℕ) (rows : List Coverage) (day : ℕ)
      → Covered id level (mark_coverage id level counts now rows) day
      → In day (days_in id level counts) ⊎ Covered id level rows day
  unfolding mark_coverage
  is_covered-marked [] now rows day h = inr h
  is_covered-marked ((d, count) ∷ counts) now rows day h =
      elim (is_covered-marked counts now _ day h) [
        | inl m ↦ inl (there m)
        | inr k ↦ elim (is_covered-upserted _ rows day k) [
          | inl e ↦ inl (here e)
          | inr old ↦ inr old
        ]
      ]

  -- The oldest day that is covered is covered, and none before it is.
  abbrev pub IsOldest : List Coverage → ℕ → Type 0
  IsOldest rows o = Covered id level rows o × ((day : ℕ) → Covered id level rows day → o ≤ day)

  abbrev pub Bounds : List Coverage → Option ℕ → Type 0
  Bounds rows none = (day : ℕ) → is_covered id level rows day ≡ false
  Bounds rows (some o) = IsOldest rows o

  Bounds-earlier :
      (c : Coverage) (rows : List Coverage) (o : Option ℕ)
      → ((c.ad_account_id == id) && same_level c.level level) ≡ true
      → Bounds rows o
      → Bounds (c ∷ rows) (earlier c.date o)
  unfolding any_row
  Bounds-earlier c rows none h b = (ground arith, (λ day k. ground (arith, b day)))
  Bounds-earlier c rows (some o) h (covered, least) = elim (Bool-cases (leb o c.date)) [
    | inl e ↦
        let same : min c.date o ≡ o = ground arith in
        subst (IsOldest (c ∷ rows)) (sym same) (ground arith, (λ day k. ground (arith, least day)))
    | inr e ↦
        let same : min c.date o ≡ c.date = ground arith in
        subst (IsOldest (c ∷ rows)) (sym same) (ground arith, (λ day k. ground (arith, least day)))
  ]

  Bounds-other :
      (c : Coverage) (rows : List Coverage) (o : Option ℕ)
      → ((c.ad_account_id == id) && same_level c.level level) ≡ false
      → Bounds rows o
      → Bounds (c ∷ rows) o
  unfolding any_row
  Bounds-other c rows none h b = λ day. ground (arith, b day)
  Bounds-other c rows (some o) h (covered, least) =
      (ground arith, (λ day k. ground (arith, least day)))

  pub oldest_covered-Bounds : (rows : List Coverage) → Bounds rows (oldest_covered id level rows)
  unfolding oldest_covered any_row
  oldest_covered-Bounds [] = λ day. refl
  oldest_covered-Bounds (c ∷ rows) =
      if_cases (Bounds (c ∷ rows)) ((c.ad_account_id == id) && same_level c.level level)
        (λ h. Bounds-earlier c rows (oldest_covered id level rows) h (oldest_covered-Bounds rows))
        (λ h. Bounds-other c rows (oldest_covered id level rows) h (oldest_covered-Bounds rows))

  only_oldest :
      (rows : List Coverage) (o : ℕ) (found : Option ℕ)
      → Covered id level rows o
      → ((day : ℕ) → Covered id level rows day → o ≤ day)
      → Bounds rows found
      → found ≡ some o
  only_oldest rows o none covered least b = cc (b o, covered)
  only_oldest rows o (some p) covered least (covered', least') =
      let below = least p covered' in
      let above = least' o covered in let same : p ≡ o = omega arith in ap (λ n. some n) same

  -- The oldest day is the one with these bounds.
  pub oldest_covered-IsOldest :
      (rows : List Coverage) (o : ℕ) → IsOldest rows o → oldest_covered id level rows ≡ some o
  oldest_covered-IsOldest rows o (covered, least) =
      only_oldest rows o (oldest_covered id level rows) covered least (oldest_covered-Bounds rows)

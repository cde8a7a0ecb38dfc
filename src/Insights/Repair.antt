-- ===== src/Insights/Repair.antt =====
-- The repair of gaps closes them (internal/application/insights_daily.go).
use meta_posting.Prelude.{
  ℕ, suc, ◌-◌, ◌≤◌, ◌≡◌, arith, refl, sym, ap, Option, none, some, List, [], ◌∷◌, ◌++◌, String, All,
  All-append, Option-cases, inl, inr, length,
}
use mathlib.Core.Path.{subst}
use meta_posting.Errors.{Error}
use meta_posting.Publish.Model.{Answer, answered, refused}
use meta_posting.Publish.Records.{access_token_error}
use meta_posting.Publish.Backend.{AdAccount}
use meta_posting.Insights.{Level, DailyRow, each_day, missing_dates, mark_coverage, ensure_state}
use meta_posting.Insights.Ranges.{contiguous_ranges, days_of, contiguous_ranges-Groups}
use meta_posting.Insights.Covered.{
  Covered, Keeps, Keeps-mark_coverage, days_in, All-mark_coverage, All-kept, days_from-In,
  uncovered-In,
}
use meta_posting.Insights.Marked.{Marked, Marked-Covered, Covered-Marked}
use meta_posting.Insights.Collect.{
  Source, World, Request, counts_of, dates_of, store_rows, fetched, with_token, with_account,
  collect_account_insights, range_request, next_range, repair_ranges, repaired, with_sync,
  repair_insight_gaps, max_gap_repair_days,
}

pub days_in-counts_of :
    (id : ℕ) (level : Level) (rows : List DailyRow) (days : List ℕ)
    → days_in id level (counts_of rows days) ≡ days
unfolding counts_of
days_in-counts_of id level rows [] = refl
days_in-counts_of id level rows (day ∷ days) =
    ap (λ ds. day ∷ ds) (days_in-counts_of id level rows days)

All-behind {ℓ κ} : {A : Type ℓ} (P : A → Type κ) (xs ys : List A) → All P (xs ++ ys) → All P ys
All-behind P [] ys h = h
All-behind P (x ∷ xs) ys h = All-behind P xs ys h.1

-- The account that is found under an id has this id.
abbrev pub Finds : {S : Type 0} → Source S → Type 0
Finds {S} source =
    (id : ℕ) (s : S) (account : AdAccount)
    → source.get_ad_account id s ≡ answered account
    → account.id ≡ id

module _ {S : Type 0} (source : Source S) (now : ℕ) (finds : Finds source) where
  -- What a pass does to the coverage: it loses none, and without an error it covers its range.
  abbrev pub Collects : Request → World S → World S × Option Error → Type 0
  Collects request w res =
      Keeps request.ad_account_id request.level w.tables.coverage res.0.tables.coverage
      × (res.1 ≡ none
          → All (Covered request.ad_account_id request.level res.0.tables.coverage)
              (each_day request.since request.until))

  store_rows-Collects :
      (request : Request) (rows : List DailyRow) (w : World S)
      → Collects request w (store_rows source now request.ad_account_id request rows w, none)
  unfolding store_rows
  store_rows-Collects request rows w =
      let id = request.ad_account_id in
      let days = each_day request.since request.until in
      let counts = counts_of rows (dates_of rows ++ days) in
      (
        Keeps-mark_coverage id request.level counts now w.tables.coverage,
        (λ t.
            All-behind
              (Covered id request.level
                (mark_coverage id request.level counts now w.tables.coverage))
              (dates_of rows) days
              (subst
                (λ ds.
                  All
                    (Covered id request.level
                      (mark_coverage id request.level counts now w.tables.coverage))
                    ds)
                (days_in-counts_of id request.level rows (dates_of rows ++ days))
                (All-mark_coverage id request.level counts now w.tables.coverage))),
      )

  fetched-Collects :
      (request : Request) (account : AdAccount) (w : World S)
      (res : S × Answer (Answer (List DailyRow)))
      → account.id ≡ request.ad_account_id
      → Collects request w (fetched source now request account w res)
  fetched-Collects request account w (s, answered (refused e)) same = ((λ day h. h), (λ t. cc))
  fetched-Collects request account w (s, answered (answered rows)) same =
      subst
        (λ id.
          Collects request w (store_rows source now id request rows (record w { state = s }), none))
        (sym same) (store_rows-Collects request rows (record w { state = s }))
  fetched-Collects request account w (s, refused e) same =
      elim (Option-cases (access_token_error e)) [
        | inl x ↦ rw (x, fetched) ((λ day h. h), (λ t. cc))
        | inr (g, x) ↦ rw (x, fetched) ((λ day h. h), (λ t. cc))
      ]

  with_token-Collects :
      (request : Request) (account : AdAccount) (w : World S) (res : S × Answer String)
      → account.id ≡ request.ad_account_id
      → Collects request w (with_token source now request account w res)
  with_token-Collects request account w (s, refused e) same = ((λ day h. h), (λ t. cc))
  with_token-Collects request account w (s, answered token) same =
      fetched-Collects request account (record w { state = s })
        (source.fetch_daily account.account_id request.level request.since request.until s) same

  with_account-Collects :
      (request : Request) (w : World S) (res : Answer AdAccount)
      → source.get_ad_account request.ad_account_id w.state ≡ res
      → Collects request w (with_account source now request w res)
  with_account-Collects request w (refused e) found = ((λ day h. h), (λ t. cc))
  with_account-Collects request w (answered account) found =
      with_token-Collects request account
        (with_sync source now (ensure_state account.id account.connection_id none) w)
        (source.access_token account.connection_id w.state)
        (finds request.ad_account_id w.state account found)

  pub collect_account_insights-Collects :
      (request : Request) (w : World S)
      → Collects request w (collect_account_insights source now request w)
  unfolding collect_account_insights
  collect_account_insights-Collects request w =
      with_account-Collects request w (source.get_ad_account request.ad_account_id w.state) refl

  -- What a sequence of passes over ranges does.
  abbrev pub Repairs : ℕ → Level → List (ℕ × ℕ) → World S → World S × Option Error → Type 0
  Repairs id level ranges w res =
      Keeps id level w.tables.coverage res.0.tables.coverage
      × (res.1 ≡ none → All (Covered id level res.0.tables.coverage) (days_of ranges))

  next_range-Repairs :
      (id : ℕ) (level : Level) (range : ℕ × ℕ) (ranges : List (ℕ × ℕ)) (w : World S)
      (res : World S × Option Error)
      → Collects (range_request source now id level range) w res
      → ((w1 : World S) → Repairs id level ranges w1 (repair_ranges source now id level ranges w1))
      → Repairs id level
          (range ∷ ranges)
          w
          (next_range source now (repair_ranges source now id level ranges) res)
  unfolding days_of
  next_range-Repairs id level (since, until) ranges w (w1, some e) (keeps, covers) rest =
      (keeps, (λ t. cc))
  next_range-Repairs id level (since, until) ranges w (w1, none) (keeps, covers) rest =
      let (keeps', covers') = rest w1 in
      let last = repair_ranges source now id level ranges w1 in
      (
        (λ day h. keeps' day (keeps day h)),
        (λ t.
            All-append (Covered id level last.0.tables.coverage) (each_day since until)
              (days_of ranges)
              (All-kept id level w1.tables.coverage last.0.tables.coverage keeps'
                (each_day since until) (covers refl))
              (covers' t)),
      )

  repair_ranges-Repairs :
      (id : ℕ) (level : Level) (ranges : List (ℕ × ℕ)) (w : World S)
      → Repairs id level ranges w (repair_ranges source now id level ranges w)
  unfolding repair_ranges days_of
  repair_ranges-Repairs id level [] w = ((λ day h. h), (λ t. tt))
  repair_ranges-Repairs id level (range ∷ ranges) w =
      next_range-Repairs id level range ranges w
        (collect_account_insights source now (range_request source now id level range) w)
        (collect_account_insights-Collects (range_request source now id level range) w)
        (repair_ranges-Repairs id level ranges)

  -- What a repair has done that has returned.
  abbrev pub Closes : ℕ → Level → ℕ → ℕ → World S → World S × Answer ℕ → Type 0
  Closes id level since until w res =
      ((day : ℕ)
        → Marked id level w.tables.coverage day
        → Marked id level res.0.tables.coverage day)
      × ((n day : ℕ)
          → res.1 ≡ answered n
          → since ≤ day
          → day ≤ until
          → Marked id level res.0.tables.coverage day)

  repaired-Closes :
      (id : ℕ) (level : Level) (since until n : ℕ) (w : World S) (res : World S × Option Error)
      → Keeps id level w.tables.coverage res.0.tables.coverage
      → (res.1 ≡ none
          → (day : ℕ) → since ≤ day
          → day ≤ until
          → Covered id level res.0.tables.coverage day)
      → Closes id level since until w (repaired source now n res)
  repaired-Closes id level since until n w (w1, some e) keeps closed = (
    (λ day h.
        Covered-Marked id level w1.tables.coverage day
          (keeps day (Marked-Covered id level w.tables.coverage day h))),
    (λ m day t. cc),
  )
  repaired-Closes id level since until n w (w1, none) keeps closed = (
    (λ day h.
        Covered-Marked id level w1.tables.coverage day
          (keeps day (Marked-Covered id level w.tables.coverage day h))),
    (λ m day t low high. Covered-Marked id level w1.tables.coverage day (closed refl day low high)),
  )

  -- When a repair succeeds, the coverage table has a row of the account and level for each day of its
  -- range; and whether it succeeds or not, no day that had a row is without one. (The account that is
  -- found under an id has this id.)
  pub repair_insight_gaps-Closes :
      (id : ℕ) (level : Level) (since until : ℕ) (w : World S)
      → Closes id level since until w (repair_insight_gaps source now id level since until w)
  unfolding repair_insight_gaps missing_dates each_day
  repair_insight_gaps-Closes id level since until w =
      let missing = missing_dates id level since until w.tables.coverage in
      let ranges = contiguous_ranges missing (max_gap_repair_days source now) in
      let (keeps, covers) = repair_ranges-Repairs id level ranges w in
      let res = repair_ranges source now id level ranges w in
      repaired-Closes id level since until (length ranges) w res keeps (λ t day low high.
        uncovered-In id level w.tables.coverage res.0.tables.coverage (each_day since until) day
          keeps
          (subst (All (Covered id level res.0.tables.coverage))
            (contiguous_ranges-Groups missing (max_gap_repair_days source now)).0 (covers t))
          (days_from-In since (suc until - since) day low (omega arith)))

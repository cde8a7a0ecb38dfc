-- ===== src/Insights/Chunk.antt =====
-- One chunk of the backfill, when everything answers (internal/application/insights_daily.go).
use meta_posting.Prelude.{
  ℕ, zero, suc, false, ◌-◌, ◌≤◌, ◌<◌, max, true, false, ◌≡◌, refl, sym, ap, ◌∙◌, ◌⊎◌, inl, inr,
  none, some, List, [], ◌∷◌, ◌++◌, String, All, All-in, In, here, there, Bool-cases, arith, ltb,
}
use mathlib.Core.Path.{subst}
use meta_posting.Sql.{find_where, any_row, update_where}
use meta_posting.Publish.Model.{answered}
use meta_posting.Publish.Backend.{AdAccount}
use meta_posting.Insights.{
  Level, Coverage, DailyRow, SyncState, days_from, each_day, mark_coverage, ensure_state,
  is_state_of, reached_back, set_backfilled_through, oldest_covered,
}
use meta_posting.Insights.Covered.{
  days_from-In, Covered, Keeps, is_covered-marked, IsOldest, Bounds, oldest_covered-Bounds,
  oldest_covered-IsOldest,
}
use meta_posting.Insights.Collect.{
  Source, World, counts_of, dates_of, store_rows, collect_account_insights, range_request,
  backfill_chunk_days, chunk_from, chunk_for, chunk_fetched, fetched, with_token, with_account,
  backfill_chunk, backfilled, backfill_account_insights, with_sync,
}
use meta_posting.Insights.Repair.{
  Finds, Collects, collect_account_insights-Collects, days_in-counts_of,
}

module _ {S : Type 0} (source : Source S) (now : ℕ) where
  -- Meta and the other tables always answer, with rows of the days that were asked for.
  abbrev pub Answers : Level → Type 0
  Answers level =
      ((key : ℕ) (s : S)
        → (account : AdAccount) × (source.get_ad_account key s ≡ answered account)
          × (account.id ≡ key))
      × ((connection : ℕ) (s : S)
          → (s' : S) × (token : String) × (source.access_token connection s ≡ (s', answered token)))
      × ((account : String) (since until : ℕ) (s : S)
          → (s' : S) × (rows : List DailyRow) × (source.fetch_daily account level since until s
              ≡ (s', answered (answered rows)))
            × All (λ r. (since ≤ r.date) × (r.date ≤ until)) rows)
      × ((connection key minute : ℕ) (s : S)
          → (s' : S) × (source.enqueue_backfill_job connection key level minute s ≡ (s', none)))

  -- The state row of the account, with its target.
  abbrev pub HasTarget : ℕ → ℕ → List SyncState → Type 0
  HasTarget id target rows =
      (s : SyncState) × (find_where (is_state_of id) rows ≡ some s)
      × (s.backfill_target_date ≡ some target)

  any_row-HasTarget :
      (id target : ℕ) (rows : List SyncState)
      → HasTarget id target rows
      → any_row (is_state_of id) rows ≡ true
  unfolding find_where any_row
  any_row-HasTarget id target [] (s, h, t) = cc
  any_row-HasTarget id target (r ∷ rows) (s, h, t) = elim (Bool-cases (is_state_of id r)) [
    | inl e ↦ rw e refl
    | inr e ↦ rw e (any_row-HasTarget id target rows (s, rw e at h, t))
  ]

  pub HasTarget-set :
      (id target day : ℕ) (rows : List SyncState)
      → HasTarget id target rows
      → HasTarget id target (set_backfilled_through id day rows)
  unfolding set_backfilled_through find_where update_where
  HasTarget-set id target day [] (s, h, t) = cc
  HasTarget-set id target day (r ∷ rows) (s, h, t) = elim (Bool-cases (is_state_of id r)) [
    | inl e ↦
        let same : r ≡ s = ground (arith, e) in
        (reached_back day r, rw e (rw e refl), ap (λ x. x.backfill_target_date) same ∙ t)
    | inr e ↦
        let (s', h', t') = HasTarget-set id target day rows (s, rw e at h, t) in
        (s', rw e (rw e h'), t')
  ]

  days_from-above : (since n day : ℕ) → In day (days_from since n) → since ≤ day
  unfolding days_from
  days_from-above since zero day m = elim m [ ]
  days_from-above since (suc n) day (here e) = omega arith
  days_from-above since (suc n) day (there m) =
      let above = days_from-above (suc since) n day m in omega arith

  dates_of-above :
      (since until : ℕ) (rows : List DailyRow) (days : List ℕ) (day : ℕ)
      → All (λ r. (since ≤ r.date) × (r.date ≤ until)) rows
      → (In day days → since ≤ day)
      → In day (dates_of rows ++ days)
      → since ≤ day
  dates_of-above since until [] days day h f m = f m
  dates_of-above since until (r ∷ rows) days day (low, h) f (here e) = rw e low.0
  dates_of-above since until (r ∷ rows) days day (low, h) f (there m) =
      dates_of-above since until rows days day h f m

  marked-above :
      (id : ℕ) (level : Level) (since until : ℕ) (rows : List DailyRow) (old : List Coverage)
      (day : ℕ)
      → All (λ r. (since ≤ r.date) × (r.date ≤ until)) rows
      → Covered id level
          (mark_coverage id level (counts_of rows (dates_of rows ++ each_day since until)) now old)
          day
      → (since ≤ day) ⊎ Covered id level old day
  unfolding each_day
  marked-above id level since until rows old day inside h =
      let days = each_day since until in
      elim (is_covered-marked id level (counts_of rows (dates_of rows ++ days)) now old day h) [
        | inl m ↦ inl (
            dates_of-above since until rows days day inside
              (days_from-above since (suc until - since) day)
              (subst (In day) (days_in-counts_of id level rows (dates_of rows ++ days)) m))
        | inr before ↦ inr before
      ]

  ensure_state-kept :
      (id connection target : ℕ) (rows : List SyncState)
      → HasTarget id target rows
      → ensure_state id connection none rows ≡ rows
  unfolding ensure_state
  ensure_state-kept id connection target rows has =
      rw (any_row-HasTarget id target rows has, ensure_state) refl

  -- One answered pass over a range.
  collected :
      (id : ℕ) (level : Level) (target since until : ℕ) (w : World S)
      → Answers level
      → HasTarget id target w.tables.sync
      → (w' : World S) × (collect_account_insights source now
            (range_request source now id level (since, until))
            w
          ≡ (w', none))
        × HasTarget id target w'.tables.sync
        × ((day : ℕ)
            → Covered id level w'.tables.coverage day
            → (since ≤ day) ⊎ Covered id level w.tables.coverage day)
  unfolding collect_account_insights ensure_state store_rows
  collected id level target since until w (accounts, tokens, fetches, queue) has =
      let (account, found, named) = accounts id w.state in
      let (s1, token, given) = tokens account.connection_id w.state in
      let (s2, rows, answered_rows, inside) = fetches account.account_id since until s1 in
      let request = range_request source now id level (since, until) in
      let begun = with_sync source now (ensure_state account.id account.connection_id none) w in
      let counts = counts_of rows (dates_of rows ++ each_day since until) in
      let same : ensure_state account.id account.connection_id none w.tables.sync ≡ w.tables.sync =
        ap (λ i. ensure_state i account.connection_id none w.tables.sync) named
        ∙ ensure_state-kept id account.connection_id target w.tables.sync has in
      (
        store_rows source now account.id request rows (record begun { state = s2 }),
        ap (λ r. with_account source now request w r) found
            ∙ ap (λ r. with_token source now request account begun r) given
            ∙ ap (λ r. fetched source now request account (record begun { state = s1 }) r)
                answered_rows,
        subst (HasTarget id target) (sym same) has,
        (λ day h. marked-above id level since until rows w.tables.coverage day inside (
            subst (λ i. Covered id level (mark_coverage i level counts now w.tables.coverage) day)
              named h)),
      )

  -- The chunk that is due when the oldest day is known.
  pub backfill_chunk-from :
      (id : ℕ) (level : Level) (target o : ℕ) (w : World S)
      → HasTarget id target w.tables.sync
      → oldest_covered id level w.tables.coverage ≡ some o
      → backfill_chunk source now id level w ≡ answered (chunk_from source now target level (o - 1))
  unfolding backfill_chunk
  backfill_chunk-from id level target o w (s, found, aim) oldest =
      rw (found, aim, oldest, backfill_chunk, chunk_for) refl

  abbrev pub chunk_start : ℕ → Level → ℕ → ℕ
  chunk_start target level until = max target (until - (backfill_chunk_days source now level - 1))

  pub backfill_chunk_days-pos : (level : Level) → 1 ≤ backfill_chunk_days source now level
  unfolding backfill_chunk_days
  backfill_chunk_days-pos Level.account = omega arith
  backfill_chunk_days-pos Level.campaign = omega arith
  backfill_chunk_days-pos Level.ad_set = omega arith
  backfill_chunk_days-pos Level.ad = omega arith

  module _ (id : ℕ) (level : Level) (target : ℕ) (answers : Answers level) (real : 1 ≤ target) where
    finds_it : Finds source
    finds_it key s account h =
        let (other, found, named) = answers.0 key s in
        let same : other ≡ account = ground (arith, found, h) in ap (λ a. a.id) (sym same) ∙ named

    chunk_from-some :
        (o : ℕ)
        → target < o
        → chunk_from source now target level (o - 1)
          ≡ some (chunk_start target level (o - 1), o - 1)
    chunk_from-some o ahead = let later : ltb (o - 1) target ≡ false = ground arith in rw later refl

    -- What an answered pass that has ended at the oldest day leaves as the oldest.
    new_oldest :
        (o since : ℕ) (old new : List Coverage)
        → since < o
        → oldest_covered id level old ≡ some o
        → Covered id level new since
        → ((day : ℕ) → Covered id level new day → (since ≤ day) ⊎ Covered id level old day)
        → oldest_covered id level new ≡ some since
    new_oldest o since old new below oldest covered marked =
        let bounds : IsOldest id level old o =
          subst (Bounds id level old) oldest (oldest_covered-Bounds id level old) in
        oldest_covered-IsOldest id level new since (
          covered,
          (λ day h. elim (marked day h) [
            | inl above ↦ above
            | inr before ↦ let least = bounds.1 day before in omega arith
          ]),
        )

    -- One chunk of the chain.
    pub one_chunk :
        (o : ℕ) (w : World S)
        → target < o
        → HasTarget id target w.tables.sync
        → oldest_covered id level w.tables.coverage ≡ some o
        → (w' : World S) × (backfill_account_insights source now id level w ≡ (w', answered true))
          × HasTarget id target w'.tables.sync
          × (oldest_covered id level w'.tables.coverage ≡ some (chunk_start target level (o - 1)))
          × Keeps id level w.tables.coverage w'.tables.coverage
          × ((day : ℕ)
              → chunk_start target level (o - 1) ≤ day
              → day < o
              → Covered id level w'.tables.coverage day)
    unfolding backfill_account_insights each_day
    one_chunk o w ahead has oldest =
        let since = chunk_start target level (o - 1) in
        let request = range_request source now id level (since, o - 1) in
        let (w1, ran, has1, marked) = collected id level target since (o - 1) w answers has in
        let (keeps, covers) =
          subst (Collects source now finds_it request w) ran
            (collect_account_insights-Collects source now finds_it request w) in
        let some_days = backfill_chunk_days-pos level in
        let covered : (day : ℕ) → since ≤ day → day < o → Covered id level w1.tables.coverage day =
          λ day low high.
            All-in (Covered id level w1.tables.coverage) (each_day since (o - 1)) (covers refl)
              (days_from-In since (suc (o - 1) - since) day low (omega arith)) in
        (
          with_sync source now (set_backfilled_through id since) w1,
          ap (λ r. chunk_fetched source now id level w r)
                (backfill_chunk-from id level target o w has oldest
                  ∙ ap (λ c. answered c) (chunk_from-some o ahead))
              ∙ ap (λ r. backfilled source now id since r) ran,
          HasTarget-set id target since w1.tables.sync has1,
          new_oldest o since w.tables.coverage w1.tables.coverage (omega arith) oldest
              (covered since (omega arith) (omega arith)) marked,
          keeps,
          covered,
        )

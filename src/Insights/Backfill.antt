-- ===== src/Insights/Backfill.antt =====
-- The backfill's jobs reach their target (internal/application/insights_jobs.go,
-- internal/application/insights_daily.go).
use meta_posting.Prelude.{
  ℕ, zero, suc, Option, false, ◌/◌, ◌-◌, ◌≤◌, ◌<◌, true, false, ◌≡◌, refl, ap, ◌∙◌, inl, inr, none,
  some, Bool-cases, arith, ltb, ◌==◌,
}
use meta_posting.Errors.{Error}
use meta_posting.Publish.Model.{answered}
use meta_posting.Insights.{Level, oldest_covered}
use meta_posting.Insights.Covered.{Covered, Keeps}
use meta_posting.Insights.Marked.{Marked, Marked-Covered, Covered-Marked}
use meta_posting.Insights.Collect.{
  Source, World, next_range, run_backfill_insights_job, enqueue_backfill_insights, enqueue_for,
  enqueued, after_chunk, chunk_from, chunk_fetched, backfill_account_insights,
}
use meta_posting.Insights.Chunk.{
  Answers, HasTarget, chunk_start, backfill_chunk_days-pos, backfill_chunk-from, one_chunk,
}

module _ {S : Type 0} (source : Source S) (now : ℕ) where
  -- The job run again and again, as long as it reports no error.
  unfoldable pub repeated : ℕ → ℕ → Level → World S → World S × Option Error
  repeated zero id level w = (w, none)
  repeated (suc n) id level w =
      next_range source now (repeated n id level)
        (run_backfill_insights_job source now id (some level) w)

  -- At most `most` runs of the job cover the days from the target on; one more does nothing.
  abbrev pub Reaches : ℕ → Level → ℕ → ℕ → ℕ → World S → Type 0
  Reaches id level target most o w =
      (n : ℕ) × (w' : World S) × (n ≤ most)
      × (repeated n id level w ≡ (w', none))
      × (run_backfill_insights_job source now id (some level) w' ≡ (w', none))
      × ((day : ℕ) → Marked id level w.tables.coverage day → Marked id level w'.tables.coverage day)
      × ((day : ℕ) → target ≤ day → day < o → Marked id level w'.tables.coverage day)

  module _ (id : ℕ) (level : Level) (target : ℕ) (answers : Answers source now level)
      (real : 1 ≤ target) (named : 1 ≤ id) where
    -- A chunk that is fetched is followed by a job.
    one_run :
        (w w1 : World S)
        → backfill_account_insights source now id level w ≡ (w1, answered true)
        → (s : S) × (run_backfill_insights_job source now id (some level) w
            ≡ (record w1 { state = s }, none))
    unfolding run_backfill_insights_job enqueue_backfill_insights
    one_run w w1 ran =
        let (account, found, own) = answers.0 id w1.state in
        let (s, queued) = answers.3 account.connection_id id (now / 60) w1.state in
        let there_is : (id == 0) ≡ false = ground (arith, named) in
        (
          s,
          rw there_is (
              ap (λ r. after_chunk source now id level r) ran
              ∙ ap (λ r. enqueue_for source now id level w1 r) found
              ∙ ap (λ r. enqueued source now w1 r) queued),
        )

    idle_run :
        (o : ℕ) (w : World S)
        → ltb target o ≡ false
        → HasTarget source now id target w.tables.sync
        → oldest_covered id level w.tables.coverage ≡ some o
        → run_backfill_insights_job source now id (some level) w ≡ (w, none)
    unfolding run_backfill_insights_job backfill_account_insights
    idle_run o w e has oldest =
        let done : ltb (o - 1) target ≡ true = ground (arith, real, e) in
        let nothing : chunk_from source now target level (o - 1) ≡ none = rw done refl in
        let there_is : (id == 0) ≡ false = ground (arith, named) in
        rw there_is (
          ap (λ r. after_chunk source now id level (chunk_fetched source now id level w r))
            (backfill_chunk-from source now id level target o w has oldest
              ∙ ap (λ c. answered c) nothing))

    already :
        (most o : ℕ) (w : World S)
        → ltb target o ≡ false
        → HasTarget source now id target w.tables.sync
        → oldest_covered id level w.tables.coverage ≡ some o
        → Reaches id level target most o w
    unfolding repeated
    already most o w e has oldest = (
      0,
      w,
      omega arith,
      refl,
      idle_run o w e has oldest,
      (λ day h. h),
      (λ day low high. absurd (ground (arith, e))),
    )

    -- After a chunk, the rest of the runs.
    one_more :
        (most o since : ℕ) (w w1 : World S) (s : S)
        → run_backfill_insights_job source now id (some level) w ≡ (record w1 { state = s }, none)
        → Keeps id level w.tables.coverage w1.tables.coverage
        → ((day : ℕ) → since ≤ day → day < o → Covered id level w1.tables.coverage day)
        → Reaches id level target most since (record w1 { state = s })
        → Reaches id level target (suc most) o w
    unfolding repeated
    one_more most o since w w1 s ran keeps covered (n, w2, few, rest, idle, kept, reached) = (
      suc n,
      w2,
      omega arith,
      ap (λ r. next_range source now (repeated n id level) r) ran ∙ rest,
      idle,
      (λ day h. kept day (
          Covered-Marked id level w1.tables.coverage day
            (keeps day (Marked-Covered id level w.tables.coverage day h)))),
      (λ day low high. elim (Bool-cases (ltb day since)) [
        | inl before ↦ reached day low (ground arith)
        | inr behind ↦
            kept day
              (Covered-Marked id level w1.tables.coverage day (covered day (ground arith) high))
      ]),
    )

    run_backfill_insights_job-Reaches_within :
        (most o : ℕ) (w : World S)
        → o - target ≤ most
        → HasTarget source now id target w.tables.sync
        → oldest_covered id level w.tables.coverage ≡ some o
        → Reaches id level target most o w
    run_backfill_insights_job-Reaches_within zero o w enough has oldest =
        already zero o w (ground arith) has oldest
    run_backfill_insights_job-Reaches_within (suc most) o w enough has oldest =
        elim (Bool-cases (ltb target o)) [
          | inr e ↦ already (suc most) o w e has oldest
          | inl e ↦
              let ahead : target < o = ground arith in
              let some_days = backfill_chunk_days-pos source now level in
              let since = chunk_start source now target level (o - 1) in
              let (w1, ran, has1, oldest1, keeps, covered) =
                one_chunk source now id level target answers real o w ahead has oldest in
              let (s, run) = one_run w w1 ran in
              one_more most o since w w1 s run keeps covered (
                run_backfill_insights_job-Reaches_within most since (record w1 { state = s })
                  (omega arith) has1 oldest1)
        ]

    -- If Meta and the other tables answer every call, with rows of the days asked for only that can be
    -- read, and Enqueue reports no error, then at most as many runs in a row of an account's backfill job
    -- as there are days between its target and its oldest covered day end without an error and leave a
    -- row of coverage for each of these days; one run more changes nothing; and no day loses its row.
    -- The target is a day that occurs.
    pub run_backfill_insights_job-Reaches :
        (o : ℕ) (w : World S)
        → HasTarget source now id target w.tables.sync
        → oldest_covered id level w.tables.coverage ≡ some o
        → Reaches id level target (o - target) o w
    run_backfill_insights_job-Reaches o w has oldest =
        run_backfill_insights_job-Reaches_within (o - target) o w (omega arith) has oldest

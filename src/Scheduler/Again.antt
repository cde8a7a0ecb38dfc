-- ===== src/Scheduler/Again.antt =====
-- A second pass of the scheduler in the same bucket (internal/worker/scheduler.go).
use meta_posting.Prelude.{
  ℕ, String, Bool, true, false, ◌≡◌, refl, sym, ap, ◌∙◌, ◌⊎◌, inl, inr, none, some, List, [], ◌∷◌,
  ◌++◌, arith, Bool-cases, Option-cases, str_eq_iff, All,
}
use mathlib.Core.Path.{subst}
use mathlib.Core.List.{append-nil, append_assoc}
use meta_posting.Sql.{any_row, find_where}
use meta_posting.Schema.{Job, Database, Result, ok, err}
use meta_posting.Queue.Leases.{Request, same_dedupe, insert_job, enqueue, filled}
use meta_posting.Sql.Laws.{any_row-append}
use meta_posting.Scheduler.{
  is_recurring_job, is_active_recurring, first_where, active_recurring_job, standing, coalesced,
  enqueue_scheduled, schedule_bucket, Pass, scheduled_job, then_others, Failure,
  schedule_for_active_connections,
}
use meta_posting.Scheduler.Found.{
  unshared, or_true, first_where-some, any_row-first_where, find_where-some, any_row-find_where,
  coalesced-ok,
}

module _ (pass : Pass) where
  abbrev dedupe_key_of : ℕ → ℕ → String
  dedupe_key_of now id = pass.dedupe_text id (schedule_bucket now pass.interval)

  -- A connection has an active job of the recurring type, or one with the key of the bucket.
  abbrev ServesIn : ℕ → ℕ → Database → Type 0
  ServesIn bucket id db =
      ((is_recurring_job pass.job_type ≡ true)
        × (any_row (is_active_recurring id pass.job_type) db.jobs ≡ true))
      ⊎ (any_row (same_dedupe pass.job_type (pass.dedupe_text id bucket)) db.jobs ≡ true)

  abbrev Serves : ℕ → ℕ → Database → Type 0
  Serves now id db = ServesIn (schedule_bucket now pass.interval) id db

  module _ (now id : ℕ) (db : Database) where
    abbrev request : Request
    request = scheduled_job pass unshared now id db

    active-eq :
        is_recurring_job pass.job_type ≡ true
        → active_recurring_job request.row db
          ≡ first_where (is_active_recurring id pass.job_type) db.jobs
    unfolding active_recurring_job scheduled_job
    active-eq r = rw r refl

    active-none :
        is_recurring_job pass.job_type ≡ false → active_recurring_job request.row db ≡ none
    unfolding active_recurring_job scheduled_job
    active-none r = rw r refl

    active-Serves : (y : Job) → active_recurring_job request.row db ≡ some y → Serves now id db
    active-Serves y e = elim (Bool-cases (is_recurring_job pass.job_type)) [
      | inl r ↦
          let found = sym (active-eq r) ∙ e in
          inl (r, any_row-first_where (is_active_recurring id pass.job_type) db.jobs y found)
      | inr n ↦ let nothing = sym (active-none n) ∙ e in cc
    ]

    enqueue_scheduled-eq :
        enqueue_scheduled unshared now request db
        ≡ standing db
            (active_recurring_job request.row db)
            (coalesced unshared request.row db (enqueue now request db))
    unfolding enqueue_scheduled
    enqueue_scheduled-eq = refl

    enqueue-found :
        (y : Job)
        → find_where (same_dedupe pass.job_type (dedupe_key_of now id)) db.jobs ≡ some y
        → enqueue now request db ≡ ok (db, (y, false))
    unfolding enqueue scheduled_job filled
    enqueue-found y f = rw (enqueue, f) refl

    enqueue-missing :
        find_where (same_dedupe pass.job_type (dedupe_key_of now id)) db.jobs ≡ none
        → enqueue now request db ≡ insert_job (filled now request) db
    unfolding enqueue scheduled_job filled
    enqueue-missing f = rw (enqueue, f) refl

    enqueue_scheduled-standing :
        (y : Job)
        → active_recurring_job request.row db ≡ some y
        → enqueue_scheduled unshared now request db ≡ ok (db, (y, false))
    enqueue_scheduled-standing y e = enqueue_scheduled-eq ∙ rw e refl

    -- A connection that is served gets no job.
    enqueue_scheduled-served :
        Serves now id db
        → (j : Job) × (enqueue_scheduled unshared now request db ≡ ok (db, (j, false)))
    enqueue_scheduled-served s = elim (Option-cases (active_recurring_job request.row db)) [
      | inr (y, e) ↦ (y, enqueue_scheduled-standing y e)
      | inl e ↦ elim s [
        | inl (r, a) ↦
            let (y, f) = first_where-some (is_active_recurring id pass.job_type) db.jobs a in
            let nothing = sym e ∙ active-eq r ∙ f in cc
        | inr k ↦
            let (y, f) =
              find_where-some (same_dedupe pass.job_type (dedupe_key_of now id)) db.jobs k in
            (y, enqueue_scheduled-eq ∙ rw (e, enqueue-found y f) refl)
      ]
    ]

    insert_job-jobs :
        (job : Job) (db' : Database) (made : Job × Bool)
        → insert_job job db ≡ ok (db', made)
        → db'.jobs ≡ db.jobs ++ job ∷ []
    unfolding insert_job
    insert_job-jobs job db' made h = ground arith

    same_dedupe-request :
        same_dedupe pass.job_type (dedupe_key_of now id) (filled now request) ≡ true
    unfolding scheduled_job filled
    same_dedupe-request =
        rw
          (
            (str_eq_iff pass.job_type pass.job_type).1 refl,
            (str_eq_iff (dedupe_key_of now id) (dedupe_key_of now id)).1 refl,
          )
          refl

  Serves-grows :
      (now id : ℕ) (db db' : Database) (rows : List Job)
      → db'.jobs ≡ db.jobs ++ rows
      → Serves now id db
      → Serves now id db'
  Serves-grows now id db db' rows h (inl (r, s)) =
      inl (r, rw (h, any_row-append (is_active_recurring id pass.job_type) db.jobs rows, s) refl)
  Serves-grows now id db db' rows h (inr s) = inr (
      rw (h, any_row-append (same_dedupe pass.job_type (dedupe_key_of now id)) db.jobs rows, s)
        refl)

  -- An enqueued request only adds rows, and its connection is served then.
  abbrev Adds : ℕ → ℕ → Database → Database → Type 0
  Adds now id db db' = (rows : List Job) × (db'.jobs ≡ db.jobs ++ rows) × Serves now id db'

  Adds-none : (now id : ℕ) (db db' : Database) → db ≡ db' → Serves now id db → Adds now id db db'
  Adds-none now id db db' h s = subst (Adds now id db) h ([], sym (append-nil db.jobs), s)

  enqueue-Adds :
      (now id : ℕ) (db db' : Database) (made : Job × Bool)
      → enqueue now (scheduled_job pass unshared now id db) db ≡ ok (db', made)
      → Adds now id db db'
  unfolding any_row
  enqueue-Adds now id db db' made h =
      let p = same_dedupe pass.job_type (dedupe_key_of now id) in
      elim (Option-cases (find_where p db.jobs)) [
        | inr (y, f) ↦
            let same = sym (enqueue-found now id db y f) ∙ h in
            let kept : db ≡ db' = cc in
            Adds-none now id db db' kept (inr (any_row-find_where p db.jobs y f))
        | inl f ↦
            let job = filled now (scheduled_job pass unshared now id db) in
            let rows =
              insert_job-jobs now id db job db' made (sym (enqueue-missing now id db f) ∙ h) in
            (
              job ∷ [],
              rows,
              inr (
                  ap (any_row p) rows
                  ∙ any_row-append p db.jobs (job ∷ [])
                  ∙ or_true (any_row p db.jobs) (rw (same_dedupe-request now id db) refl)),
            )
      ]

  enqueue_scheduled-Adds :
      (now id : ℕ) (db db' : Database) (made : Job × Bool)
      → enqueue_scheduled unshared now (scheduled_job pass unshared now id db) db ≡ ok (db', made)
      → Adds now id db db'
  enqueue_scheduled-Adds now id db db' made h =
      let row = (scheduled_job pass unshared now id db).row in
      elim (Option-cases (active_recurring_job row db)) [
        | inr (y, e) ↦
            let same = sym (enqueue_scheduled-standing now id db y e) ∙ h in
            let kept : db ≡ db' = cc in Adds-none now id db db' kept (active-Serves now id db y e)
        | inl e ↦
            let made_new : coalesced unshared row db
                  (enqueue now (scheduled_job pass unshared now id db) db)
                ≡ ok (db', made) =
              sym (enqueue_scheduled-eq now id db ∙ rw e refl) ∙ h in
            enqueue-Adds now id db db' made (
              coalesced-ok row db (enqueue now (scheduled_job pass unshared now id db) db)
                (db', made) e made_new)
      ]

  then_others-ok :
      (id : ℕ) (next : Database → Database × List Failure) (db db' : Database)
      (res : Result (Database × (Job × Bool)))
      → then_others pass unshared id next db res ≡ (db', [])
      → (db1 : Database) × (made : Job × Bool) × (res ≡ ok (db1, made)) × (next db1 ≡ (db', []))
  then_others-ok id next db db' (ok (db1, made)) h = (db1, made, refl, h)
  then_others-ok id next db db' (err e) h =
      let some_failed = ap (λ (r : Database × List Failure). r.1) h in cc

  abbrev Served : ℕ → List ℕ → Database → Type 0
  Served bucket ids db = All (λ id. (pass.is_cancelled id ≡ false) × ServesIn bucket id db) ids

  -- A pass without failures only adds rows, and serves each of its connections.
  schedule-Served :
      (now : ℕ) (ids : List ℕ) (db db' : Database)
      → schedule_for_active_connections pass unshared now ids db ≡ (db', [])
      → (rows : List Job) × (db'.jobs ≡ db.jobs ++ rows)
        × Served (schedule_bucket now pass.interval) ids db'
  unfolding schedule_for_active_connections
  schedule-Served now [] db db' h =
      ([], ap (λ (r : Database × List Failure). r.0.jobs) (sym h) ∙ sym (append-nil db.jobs), tt)
  schedule-Served now (id ∷ ids) db db' h = elim (Bool-cases (pass.is_cancelled id)) [
    | inl c ↦ let stopped = rw c at h in cc
    | inr c ↦
        let others = schedule_for_active_connections pass unshared now ids in
        let (db1, made, ran, rest) =
          then_others-ok id others db db'
            (enqueue_scheduled unshared now (scheduled_job pass unshared now id db) db)
            (rw c at h) in
        let (rows1, added1, served1) = enqueue_scheduled-Adds now id db db1 made ran in
        let (rows2, added2, served2) = schedule-Served now ids db1 db' rest in
        (
          rows1 ++ rows2,
          added2 ∙ ap (λ xs. xs ++ rows2) added1 ∙ append_assoc db.jobs rows1 rows2,
          ((c, Serves-grows now id db1 db' rows2 added2 served1), served2),
        )
  ]

  schedule-quiet :
      (now : ℕ) (ids : List ℕ) (db : Database)
      → Served (schedule_bucket now pass.interval) ids db
      → schedule_for_active_connections pass unshared now ids db ≡ (db, [])
  unfolding schedule_for_active_connections
  schedule-quiet now [] db s = refl
  schedule-quiet now (id ∷ ids) db ((c, s), rest) =
      let (j, e) = enqueue_scheduled-served now id db s in
      rw c (
        ap
          (λ r.
            then_others pass unshared id (schedule_for_active_connections pass unshared now ids) db
              r)
          e
        ∙ schedule-quiet now ids db rest)

  -- After a pass in which no request failed, a second pass over the same connections in the same
  -- bucket, with nothing else written during or between them, leaves the database as it is and fails for
  -- no connection.
  pub schedule_for_active_connections-again :
      (now later : ℕ) (ids : List ℕ) (db db' : Database)
      → schedule_bucket now pass.interval ≡ schedule_bucket later pass.interval
      → schedule_for_active_connections pass unshared now ids db ≡ (db', [])
      → schedule_for_active_connections pass unshared later ids db' ≡ (db', [])
  schedule_for_active_connections-again now later ids db db' same ran =
      let (rows, added, served) = schedule-Served now ids db db' ran in
      schedule-quiet later ids db' (subst (λ bucket. Served bucket ids db') same served)

-- ===== src/Scheduler/Single.antt =====
-- At most one active job of a recurring type for a connection (internal/worker/scheduler.go).
use meta_posting.Prelude.{
  ◌==◌, false, ◌+◌, ◌≤◌, ◌≡◌, refl, sym, ap, ◌∙◌, inl, inr, ◌⊎◌, String, Bool, true, false, none,
  some, List, [], ◌∷◌, ◌++◌, arith, Bool-cases, Option-cases, str_eq_iff, Option, ==_iff, ◌&&◌,
  str_eq, ℕ,
}
use meta_posting.Sql.{count_where}
use meta_posting.Schema.{JobStatus, Job, Database, ok, is_active}
use meta_posting.Queue.Leases.{same_connection, Request, enqueue, filled}
use meta_posting.Queue.Order.{and_left, and_right}
use meta_posting.Queue.Invariant.{enqueue-jobs}
use meta_posting.Scheduler.{
  is_recurring_job, is_active_recurring, first_of, first_where, active_recurring_job,
  enqueue_scheduled,
}
use meta_posting.Scheduler.Found.{unshared, first_of-some, coalesced-ok}

count_where-append :
    (p : Job → Bool) (xs ys : List Job)
    → count_where p (xs ++ ys) ≡ count_where p xs + count_where p ys
unfolding count_where
count_where-append p [] ys = omega arith
count_where-append p (x ∷ xs) ys = elim (Bool-cases (p x)) [
  | inl e ↦ rw e (let rest = count_where-append p xs ys in omega arith)
  | inr e ↦ rw e (let rest = count_where-append p xs ys in omega arith)
]

-- Nothing is found only where nothing counts.
count_where-first_where :
    (p : Job → Bool) (xs : List Job) → first_where p xs ≡ none → count_where p xs ≡ 0
unfolding first_where count_where
count_where-first_where p [] h = refl
count_where-first_where p (x ∷ xs) h = elim (Bool-cases (p x)) [
  | inl e ↦
      let (y, f) = first_of-some x (first_where p xs) in
      let nothing : first_of x (first_where p xs) ≡ none = rw e at h in
      let apart = sym f ∙ nothing in cc
  | inr e ↦ rw e (let rest = count_where-first_where p xs (rw e at h) in omega arith)
]

count_where-one : (p : Job → Bool) (x : Job) → count_where p (x ∷ []) ≤ 1
unfolding count_where
count_where-one p x = elim (Bool-cases (p x)) [
  | inl e ↦ rw e (omega arith)
  | inr e ↦ rw e (omega arith)
]

count_where-none : (p : Job → Bool) (x : Job) → p x ≡ false → count_where p (x ∷ []) ≡ 0
unfolding count_where
count_where-none p x e = rw e refl

same_connection-some : (c : ℕ) (o : Option ℕ) → same_connection (some c) o ≡ true → o ≡ some c
same_connection-some c none h = cc
same_connection-some c (some d) h = ap some (sym ((==_iff c d).0 h))

-- A request adds its row only if no recurring job of its kind is active.
enqueue_scheduled-rows :
    (now : ℕ) (r : Request) (db db' : Database) (made : Job × Bool)
    → enqueue_scheduled unshared now r db ≡ ok (db', made)
    → (db'.jobs ≡ db.jobs)
      ⊎ ((db'.jobs ≡ db.jobs ++ filled now r ∷ []) × (active_recurring_job r.row db ≡ none))
unfolding enqueue_scheduled
enqueue_scheduled-rows now r db db' (j, created) h =
    elim (Option-cases (active_recurring_job r.row db)) [
      | inr (y, e) ↦
          let same : ok (db, (y, false)) ≡ ok (db', (j, created)) = rw e at h in
          let kept : db ≡ db' = cc in inl (ap (λ (d : Database). d.jobs) (sym kept))
      | inl e ↦
          let made_new =
            coalesced-ok r.row db (enqueue now r db) (db', (j, created)) e (rw e at h) in
          elim (enqueue-jobs now r db db' j created made_new) [
            | inl same ↦ inl same
            | inr more ↦ inr (more, e)
          ]
    ]

count_where-eq :
    (p q : Job → Bool)
    → ((x : Job) → p x ≡ q x)
    → (xs : List Job) → count_where p xs ≡ count_where q xs
unfolding count_where
count_where-eq p q h [] = refl
count_where-eq p q h (x ∷ xs) = rw (h x, count_where-eq p q h xs) refl

abbrev pub is_open_status : JobStatus → Bool
is_open_status JobStatus.pending = true
is_open_status JobStatus.running = true
is_open_status JobStatus.succeeded = false
is_open_status JobStatus.dead = false
is_open_status JobStatus.cancelled = false

is_open_status-eq : (s : JobStatus) → is_open_status s ≡ is_active s
is_open_status-eq JobStatus.pending = refl
is_open_status-eq JobStatus.running = refl
is_open_status-eq JobStatus.succeeded = refl
is_open_status-eq JobStatus.dead = refl
is_open_status-eq JobStatus.cancelled = refl

abbrev pub is_open_for : ℕ → String → Job → Bool
is_open_for c t x = elim x.connection_id [
  | none ↦ false
  | some d ↦ (c == d) && (str_eq x.job_type t && is_open_status x.status)
]

module _ (c : ℕ) (t : String) where
  active_recurring_job-eq :
      (now : ℕ) (r : Request) (db : Database)
      → is_recurring_job t ≡ true
      → is_active_recurring c t (filled now r) ≡ true
      → active_recurring_job r.row db ≡ first_where (is_active_recurring c t) db.jobs
  unfolding active_recurring_job filled
  active_recurring_job-eq now r db recurring h =
      let row = filled now r in
      let connection : r.row.connection_id ≡ some c = same_connection-some c row.connection_id (
        and_left (same_connection (some c) row.connection_id)
          (str_eq row.job_type t && is_active row.status) h) in
      let job_type : r.row.job_type ≡ t = (str_eq_iff row.job_type t).0 (
        and_left (str_eq row.job_type t) (is_active row.status) (
          and_right (same_connection (some c) row.connection_id)
            (str_eq row.job_type t && is_active row.status) h)) in
      rw (connection, job_type, recurring) refl

  -- At most one job with the status pending or running is of a connection and a type.
  abbrev pub AtMostOne : Database → Type 0
  AtMostOne db = count_where (is_open_for c t) db.jobs ≤ 1

  is_open_for-eq : (x : Job) → is_open_for c t x ≡ is_active_recurring c t x
  is_open_for-eq x = elim (Option-cases x.connection_id) [
    | inl e ↦ rw e refl
    | inr (d, e) ↦ rw (e, is_open_status-eq x.status) (ground arith)
  ]

  enqueue_scheduled_few :
      (now : ℕ) (r : Request) (db db' : Database) (made : Job × Bool)
      → is_recurring_job t ≡ true
      → count_where (is_active_recurring c t) db.jobs ≤ 1
      → enqueue_scheduled unshared now r db ≡ ok (db', made)
      → count_where (is_active_recurring c t) db'.jobs ≤ 1
  enqueue_scheduled_few now r db db' made recurring few h =
      let p = is_active_recurring c t in
      let row = filled now r in
      elim (enqueue_scheduled-rows now r db db' made h) [
        | inl same ↦ rw same few
        | inr (more, e) ↦
            let total = ap (count_where p) more ∙ count_where-append p db.jobs (row ∷ []) in
            elim (Bool-cases (p row)) [
              | inr n ↦ let one = count_where-none p row n in omega arith
              | inl y ↦
                  let zero_before =
                    count_where-first_where p db.jobs
                      (sym (active_recurring_job-eq now r db recurring y) ∙ e) in
                  let one = count_where-one p row in omega arith
            ]
      ]

  is_recurring : (t ≡ "collect_insights") ⊎ (t ≡ "evaluate_guards") → is_recurring_job t ≡ true
  is_recurring (inl e) = rw e refl
  is_recurring (inr e) = rw e refl

  -- A request of the scheduler, of any connection and type, that succeeds, with nothing committed between
  -- its statements, leaves at most one pending or running job that collects the insights or evaluates the
  -- guards of a connection, if there was at most one before.
  pub enqueue_scheduled_le :
      (now : ℕ) (r : Request) (db db' : Database) (made : Job × Bool)
      → (t ≡ "collect_insights") ⊎ (t ≡ "evaluate_guards")
      → AtMostOne db
      → enqueue_scheduled unshared now r db ≡ ok (db', made)
      → AtMostOne db'
  enqueue_scheduled_le now r db db' made recurring few h =
      let same = count_where-eq (is_open_for c t) (is_active_recurring c t) is_open_for-eq in
      let after =
        enqueue_scheduled_few now r db db' made (is_recurring recurring) (rw (← same db.jobs) few)
          h in
      rw (same db'.jobs) after

-- ===== src/Queue/Handouts.antt =====
-- How often the transactions of the queue hand a job out
-- (internal/platform/database/job_repository.go).
use meta_posting.Prelude.{
  ℕ, ◌+◌, String, Bool, true, false, ◌≡◌, refl, ap, ◌∙◌, Option-cases, inl, inr, some, ◌==◌, leb,
  Bool-cases, arith, if◌then◌else◌,
}
use meta_posting.Prelude.Int.{ℤ, pos_part}
use meta_posting.Sql.{update_where, find_key}
use meta_posting.Sql.Laws.{find_key-append, find_key_key}
use meta_posting.Schema.{job_key, Job, Database, Result, ok, err}
use meta_posting.Queue.{Decoder, candidate, leased, take_candidate, claim}
use meta_posting.Queue.Leases.{is_held, is_cancellable, extended, completed, failed_row, cancelled}
use meta_posting.Queue.Claims.{claim-cases, sweep-jobs, take_candidate-some}
use meta_posting.Queue.Invariant.{
  extend_lease-jobs, complete-jobs, cancel-jobs, fail-eq-ok, fail_held-jobs, failed_row-id,
  enqueue-jobs,
}
use meta_posting.Queue.Steps.{
  Step, claims, extends, completes, fails, cancels, enqueues, row_updated, Swept-row,
}

-- Whether a claim has returned the job of an id.
abbrev pub returned : ℕ → Result Job → ℕ
returned id (ok j) = if j.id == id then 1 else 0
returned id (err e) = 0

-- How often a transaction hands out the job of an id: only a claim hands jobs out.
abbrev pub hands_out :
    (id : ℕ) (decode : Decoder) {now : ℕ} {db db' : Database} → Step decode now db db' → ℕ
hands_out id decode (claims locked worker lease now db) =
    returned id (claim decode locked worker lease now db).1
hands_out id decode (extends k worker lease now h) = 0
hands_out id decode (completes k worker now h) = 0
hands_out id decode (fails k worker message delay now j h) = 0
hands_out id decode (cancels k now h) = 0
hands_out id decode (enqueues now r j created fits fresh h) = 0

-- The row of an id stays, and its attempts grow by a number.
abbrev pub Counted : ℕ → Job → ℕ → Database → Type 0
Counted id j n db =
    (k : Job) × (find_key job_key id db.jobs ≡ some k)
    × (k.attempts ≡ j.attempts + n)
    × (k.max_attempts ≡ j.max_attempts)

Counted-update :
    (p : Job → Bool) (f : Job → Job) (id : ℕ) (j : Job) (db db' : Database)
    → ((x : Job) → (f x).id ≡ x.id)
    → ((x : Job) → ((f x).attempts ≡ x.attempts) × ((f x).max_attempts ≡ x.max_attempts))
    → db'.jobs ≡ update_where p f db.jobs
    → find_key job_key id db.jobs ≡ some j
    → Counted id j 0 db'
Counted-update p f id j db db' same keeps e found = elim (Bool-cases (p j)) [
  | inl met ↦
      let (attempts, budget) = keeps j in
      (f j, rw met at (row_updated p f id j db db' same e found), omega arith, budget)
  | inr unmet ↦ (j, rw unmet at (row_updated p f id j db db' same e found), omega arith, refl)
]

failed_row-attempts :
    (message : String) (delay : ℤ) (now : ℕ) (x : Job)
    → ((failed_row message delay now x).attempts ≡ x.attempts)
      × ((failed_row message delay now x).max_attempts ≡ x.max_attempts)
failed_row-attempts message delay now x = elim (Bool-cases (leb x.max_attempts x.attempts)) [
  | inl e ↦ rw e (refl, refl)
  | inr e ↦ rw e (refl, refl)
]

-- The claim of a candidate counts as one attempt of its row.
Counted-take :
    (locked : ℕ → Bool) (worker : String) (lease now id : ℕ) (j : Job) (db : Database)
    → find_key job_key id db.jobs ≡ some j
    → Counted id j
        (returned id (take_candidate locked worker lease now db).1)
        (take_candidate locked worker lease now db).0
unfolding take_candidate
Counted-take locked worker lease now id j db found =
    elim (Option-cases (candidate locked now db.jobs)) [
      | inl e ↦ rw (e, take_candidate) (j, found, omega arith, refl)
      | inr (c, e) ↦
          let here : j.id ≡ id = find_key_key job_key id db.jobs j found in
          let row =
            row_updated (λ x. x.id == c.id) (leased worker lease now) id j db
              (take_candidate locked worker lease now db).0 (λ _. refl)
              (take_candidate-some locked worker lease now db c e) found in
          elim (Bool-cases (j.id == c.id)) [
            | inl t ↦
                let mine : (c.id == id) ≡ true = ground (arith, here, t) in
                let one : returned id (take_candidate locked worker lease now db).1 ≡ 1 =
                  rw (e, take_candidate, mine) refl in
                (leased worker lease now j, rw t at row, rw one (omega arith), refl)
            | inr n ↦
                let other : (c.id == id) ≡ false = ground (arith, here, n) in
                let none_more : returned id (take_candidate locked worker lease now db).1 ≡ 0 =
                  rw (e, take_candidate, other) refl in
                (j, rw n at row, rw none_more (omega arith), refl)
          ]
    ]

Counted-claim :
    (decode : Decoder) (locked : ℕ → Bool) (worker : String) (lease : ℤ) (now id : ℕ) (j : Job)
    (db : Database)
    → find_key job_key id db.jobs ≡ some j
    → Counted id j
        (returned id (claim decode locked worker lease now db).1)
        (claim decode locked worker lease now db).0
Counted-claim decode locked worker lease now id j db found =
    elim (claim-cases decode locked worker lease now db) [
      | inl (e, same) ↦ rw same (j, found, omega arith, refl)
      | inr (swept, named, s, same) ↦
          let (mid, there_is, how) =
            Swept-row now id j db swept (sweep-jobs decode now db swept s) found in
          let (k, at, more, budget) =
            Counted-take locked worker (pos_part lease) now id mid swept there_is in
          let kept : (mid.attempts ≡ j.attempts) × (mid.max_attempts ≡ j.max_attempts) = elim how [
            | inl e ↦ (ap (λ x. x.attempts) e, ap (λ x. x.max_attempts) e)
            | inr (spent, e) ↦ (ap (λ x. x.attempts) e, ap (λ x. x.max_attempts) e)
          ] in
          rw same (
            k,
            at,
            more
                ∙ ap
                    (λ m.
                      m + returned id (take_candidate locked worker (pos_part lease) now swept).1)
                    kept.0,
            budget ∙ kept.1,
          )
    ]

-- A transaction counts one attempt more for a job exactly if it hands the job out.
pub Step-Counted :
    (decode : Decoder) {now : ℕ} {db db' : Database} (id : ℕ) (j : Job)
    → (s : Step decode now db db') → find_key job_key id db.jobs ≡ some j
    → Counted id j (hands_out id decode s) db'
Step-Counted decode id j (claims locked worker lease now db) found =
    Counted-claim decode locked worker lease now id j db found
Step-Counted decode id j (extends {db = db} {db' = db'} k worker lease now h) found =
    Counted-update (is_held k worker now) (extended (pos_part lease) now) id j db db' (λ _. refl)
      (λ _. (refl, refl)) (extend_lease-jobs k worker lease now db db' h) found
Step-Counted decode id j (completes {db = db} {db' = db'} k worker now h) found =
    Counted-update (is_held k worker now) (completed now) id j db db' (λ _. refl)
      (λ _. (refl, refl)) (complete-jobs k worker now db db' h) found
Step-Counted decode id j (fails {db = db} {db' = db'} k worker message delay now r h) found =
    let (job, at, held, _, written) = fail-eq-ok decode k worker message delay now db db' r h in
    Counted-update (λ x. x.id == job.id) (failed_row message delay now) id j db db'
      (failed_row-id message delay now) (failed_row-attempts message delay now)
      (fail_held-jobs decode message delay now job db db' written) found
Step-Counted decode id j (cancels {db = db} {db' = db'} k now h) found =
    Counted-update (is_cancellable k) (cancelled now) id j db db' (λ _. refl) (λ _. (refl, refl))
      (cancel-jobs k now db db' h) found
Step-Counted decode id j (enqueues {db = db} {db' = db'} now r k created fits fresh h) found =
    elim (enqueue-jobs now r db db' k created h) [
      | inl same ↦ (j, rw same found, omega arith, refl)
      | inr more ↦ (j, rw more (find_key-append job_key id db.jobs _ found), omega arith, refl)
    ]

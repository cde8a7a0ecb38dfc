-- ===== src/Queue/Invariant.antt =====
-- What holds of every row of the queue between two transactions, as ck_jobs_attempts and
-- ck_jobs_lock of migrations/00001 and the repository (internal/platform/database) have it.
use meta_posting.Prelude.{
  ℕ, ◌≤◌, String, Bool, true, false, ◌≡◌, ◌≢◌, refl, sym, ◌⊎◌, [], ◌∷◌, ◌++◌, Option, none, some,
  All, All-append, arith, Bool-cases, Option-cases, inl, inr, In, str_eq, str_eq_iff, ◌==◌,
}
use mathlib.Core.Path.{subst}
use meta_posting.Prelude.Int.{ℤ, pos_part}
use meta_posting.Sql.{update_where, find_key, UniqueKeys}
use meta_posting.Sql.Laws.{
  All-update_where, All-update_key, UniqueKeys-update_where, UniqueKeys-append, All-find_key,
  find_key-In,
}
use meta_posting.Schema.{job_key, Job, JobStatus, Database, Result, ok, err}
use meta_posting.Queue.{
  Decoder, is_spent, buried, sweep, is_due, candidate, leased, take_candidate, claim,
}
use meta_posting.Queue.Order.{Chosen, candidate-Chosen, and_left}
use meta_posting.Queue.Claims.{
  claim-cases, sweep-jobs, take_candidate-none, take_candidate-some, finalize_dead-jobs,
}
use meta_posting.Queue.Leases.{
  holds, is_held, extended, extend_lease, completed, complete, failed_row, fail_held, with_row,
  fail, cancelled, is_cancellable, cancel, Request, filled, enqueue,
}

abbrev pub IsPresent : {A : Type 0} → Option A → Type 0
IsPresent none = ⊥
IsPresent (some _) = Unit

-- Lock columns and finish time, by status.
abbrev pub LockFits : JobStatus → String → Option ℕ → Option ℕ → Option ℕ → Type 0
LockFits JobStatus.running by at until finished =
    (by ≢ "") × IsPresent at × IsPresent until × (finished ≡ none)
LockFits JobStatus.pending by at until finished =
    (by ≡ "") × (at ≡ none) × (until ≡ none) × (finished ≡ none)
LockFits _ by at until finished = (by ≡ "") × (at ≡ none) × (until ≡ none) × IsPresent finished

pub record RowFits (j : Job) : Type 0 where
  pub capped : j.attempts ≤ j.max_attempts
  pub lock : LockFits j.status j.locked_by j.locked_at j.locked_until j.finished_at

pub record IsValid (db : Database) : Type 0 where
  pub rows : All RowFits db.jobs
  pub keyed : UniqueKeys job_key db.jobs

-- Each row that an operation writes fits again.
buried-RowFits : (now : ℕ) (j : Job) → RowFits j → is_spent now j ≡ true → RowFits (buried now j)
buried-RowFits now j h s = record { capped = h.capped; lock = (refl, refl, refl, tt) }

leased-RowFits :
    (worker : String) (lease now : ℕ) (c : Job)
    → worker ≢ ""
    → is_due now c ≡ true
    → RowFits (leased worker lease now c)
leased-RowFits worker lease now c named due = record {
  capped = ground arith;
  lock = (named, tt, tt, refl);
}

extended-RowFits :
    (id : ℕ) (worker : String) (lease now : ℕ) (j : Job)
    → RowFits j
    → is_held id worker now j ≡ true
    → RowFits (extended lease now j)
extended-RowFits id worker lease now j h held = ground arith

failed_row-RowFits :
    (message : String) (delay : ℤ) (now : ℕ) (j : Job)
    → RowFits j
    → RowFits (failed_row message delay now j)
failed_row-RowFits message delay now j h = ground arith

-- An update of the queue that keeps the ids and writes fitting rows keeps the tables valid.
IsValid-update :
    (p : Job → Bool) (f : Job → Job) (db db' : Database)
    → ((j : Job) → (f j).id ≡ j.id)
    → ((j : Job) → RowFits j → p j ≡ true → RowFits (f j))
    → IsValid db
    → db'.jobs ≡ update_where p f db.jobs
    → IsValid db'
IsValid-update p f db db' same fits v e = record {
  rows = subst (All RowFits) (sym e) (All-update_where RowFits p f fits db.jobs v.rows);
  keyed =
      subst (UniqueKeys job_key) (sym e) (UniqueKeys-update_where job_key p f same db.jobs v.keyed);
}

-- So does an update of one row by its id, if the new row fits.
IsValid-update_row :
    (f : Job → Job) (c : Job) (db db' : Database)
    → ((j : Job) → (f j).id ≡ j.id)
    → RowFits (f c)
    → In c db.jobs
    → IsValid db
    → db'.jobs ≡ update_where (λ j. j.id == c.id) f db.jobs
    → IsValid db'
IsValid-update_row f c db db' same fits m v e = record {
  rows =
      subst (All RowFits) (sym e)
        (All-update_key job_key RowFits f c db.jobs v.keyed m v.rows fits);
  keyed =
      subst (UniqueKeys job_key) (sym e)
        (UniqueKeys-update_where job_key (λ j. j.id == c.id) f same db.jobs v.keyed);
}

unnamed : (worker : String) → str_eq worker "" ≡ false → worker ≢ ""
unnamed worker h e = cc ((str_eq_iff worker "").1 e)

take_candidate-IsValid :
    (locked : ℕ → Bool) (worker : String) (lease now : ℕ) (db : Database)
    → worker ≢ ""
    → IsValid db
    → IsValid (take_candidate locked worker lease now db).0
take_candidate-IsValid locked worker lease now db named v =
    elim (Option-cases (candidate locked now db.jobs)) [
      | inl e ↦ rw (take_candidate-none locked worker lease now db e) v
      | inr (c, e) ↦
          let (due, m, _) =
            subst (Chosen locked now db.jobs) e (candidate-Chosen locked now db.jobs) in
          IsValid-update_row (leased worker lease now) c db _ (λ _. refl)
            (leased-RowFits worker lease now c named (and_left (is_due now c) _ due)) m v
            (take_candidate-some locked worker lease now db c e)
    ]

pub sweep-IsValid :
    (decode : Decoder) (now : ℕ) (db swept : Database)
    → IsValid db
    → sweep decode now db ≡ ok swept
    → IsValid swept
sweep-IsValid decode now db swept v s =
    IsValid-update (is_spent now) (buried now) db swept (λ _. refl) (buried-RowFits now) v
      (sweep-jobs decode now db swept s)

-- A claim keeps the tables valid, whether it hands out a job, finds none, or fails.
pub claim-IsValid :
    (decode : Decoder) (locked : ℕ → Bool) (worker : String) (lease : ℤ) (now : ℕ) (db : Database)
    → IsValid db
    → IsValid (claim decode locked worker lease now db).0
claim-IsValid decode locked worker lease now db v =
    elim (claim-cases decode locked worker lease now db) [
      | inl (e, same) ↦ rw same v
      | inr (swept, named, s, same) ↦ rw same (
          take_candidate-IsValid locked worker (pos_part lease) now swept (unnamed worker named)
            (sweep-IsValid decode now db swept v s))
    ]

pub extend_lease-jobs :
    (id : ℕ) (worker : String) (lease : ℤ) (now : ℕ) (db db' : Database)
    → extend_lease id worker lease now db ≡ ok db'
    → db'.jobs ≡ update_where (is_held id worker now) (extended (pos_part lease) now) db.jobs
unfolding extend_lease
extend_lease-jobs id worker lease now db db' h = ground arith

pub complete-jobs :
    (id : ℕ) (worker : String) (now : ℕ) (db db' : Database)
    → complete id worker now db ≡ ok db'
    → db'.jobs ≡ update_where (is_held id worker now) (completed now) db.jobs
unfolding complete
complete-jobs id worker now db db' h = ground arith

pub cancel-jobs :
    (id now : ℕ) (db db' : Database)
    → cancel id now db ≡ ok db'
    → db'.jobs ≡ update_where (is_cancellable id) (cancelled now) db.jobs
unfolding cancel
cancel-jobs id now db db' h = ground arith

pub extend_lease-IsValid :
    (id : ℕ) (worker : String) (lease : ℤ) (now : ℕ) (db db' : Database)
    → IsValid db
    → extend_lease id worker lease now db ≡ ok db'
    → IsValid db'
extend_lease-IsValid id worker lease now db db' v h =
    IsValid-update (is_held id worker now) (extended (pos_part lease) now) db db' (λ _. refl)
      (extended-RowFits id worker (pos_part lease) now) v
      (extend_lease-jobs id worker lease now db db' h)

pub complete-IsValid :
    (id : ℕ) (worker : String) (now : ℕ) (db db' : Database)
    → IsValid db
    → complete id worker now db ≡ ok db'
    → IsValid db'
complete-IsValid id worker now db db' v h =
    IsValid-update (is_held id worker now) (completed now) db db' (λ _. refl)
      (λ j fits held. record { capped = fits.capped; lock = (refl, refl, refl, tt) }) v
      (complete-jobs id worker now db db' h)

pub cancel-IsValid :
    (id now : ℕ) (db db' : Database) → IsValid db → cancel id now db ≡ ok db' → IsValid db'
cancel-IsValid id now db db' v h =
    IsValid-update (is_cancellable id) (cancelled now) db db' (λ _. refl)
      (λ j fits _. record { capped = fits.capped; lock = (refl, refl, refl, tt) }) v
      (cancel-jobs id now db db' h)

pub fail_held-jobs :
    (decode : Decoder) (message : String) (delay : ℤ) (now : ℕ) (job : Job) (db db' : Database)
    → fail_held decode message delay now job db ≡ ok db'
    → db'.jobs ≡ update_where (λ j. j.id == job.id) (failed_row message delay now) db.jobs
unfolding fail_held
fail_held-jobs decode message delay now job db db' h = grind (arith, finalize_dead-jobs)

pub failed_row-id :
    (message : String) (delay : ℤ) (now : ℕ) (j : Job) → (failed_row message delay now j).id ≡ j.id
failed_row-id message delay now j = ground arith

with_row-eq-ok :
    (j : Job) (r : Result Database) {db : Database} {k : Job}
    → with_row j r ≡ ok (db, k)
    → (r ≡ ok db) × (k ≡ j)
with_row-eq-ok j (ok d) h = (cc, cc)
with_row-eq-ok j (err e) h = cc

pub fail-eq-ok :
    (decode : Decoder) (id : ℕ) (worker message : String) (delay : ℤ) (now : ℕ) (db db' : Database)
    (j : Job)
    → fail decode id worker message delay now db ≡ ok (db', j)
    → (job : Job) × (find_key job_key id db.jobs ≡ some job)
      × (holds worker now job ≡ true)
      × (j ≡ failed_row message delay now job)
      × (fail_held decode message delay now job db ≡ ok db')
unfolding fail
fail-eq-ok decode id worker message delay now db db' j h =
    elim (Option-cases (find_key job_key id db.jobs)) [
      | inl e ↦ cc (rw (e, fail) at h)
      | inr (job, e) ↦ elim (Bool-cases (holds worker now job)) [
        | inl held ↦
            let (written, same) =
              with_row-eq-ok (failed_row message delay now job)
                (fail_held decode message delay now job db)
                (rw (held, fail) at rw (e, fail) at h) in
            (job, e, held, same, written)
        | inr lost ↦ cc (rw (lost, fail) at rw (e, fail) at h)
      ]
    ]

pub fail-IsValid :
    (decode : Decoder) (id : ℕ) (worker message : String) (delay : ℤ) (now : ℕ) (db db' : Database)
    (j : Job)
    → IsValid db
    → fail decode id worker message delay now db ≡ ok (db', j)
    → IsValid db'
fail-IsValid decode id worker message delay now db db' j v h =
    let (job, found, _, _, written) = fail-eq-ok decode id worker message delay now db db' j h in
    IsValid-update_row (failed_row message delay now) job db db' (failed_row-id message delay now)
      (failed_row-RowFits message delay now job
        (All-find_key job_key RowFits id db.jobs job v.rows found))
      (find_key-In job_key id db.jobs job found) v
      (fail_held-jobs decode message delay now job db db' written)

-- An enqueued request is a row of its own behind the others, or stands for a row that is there.
pub enqueue-jobs :
    (now : ℕ) (r : Request) (db db' : Database) (j : Job) (created : Bool)
    → enqueue now r db ≡ ok (db', (j, created))
    → (db'.jobs ≡ db.jobs) ⊎ (db'.jobs ≡ db.jobs ++ filled now r ∷ [])
unfolding enqueue
enqueue-jobs now r db db' j created h = ground arith

pub enqueue-IsValid :
    (now : ℕ) (r : Request) (db db' : Database) (j : Job) (created : Bool)
    → RowFits (filled now r)
    → All (λ x. x.id ≢ (filled now r).id) db.jobs
    → IsValid db
    → enqueue now r db ≡ ok (db', (j, created))
    → IsValid db'
enqueue-IsValid now r db db' j created fits fresh v h =
    elim (enqueue-jobs now r db db' j created h) [
      | inl e ↦ record {
        rows = subst (All RowFits) (sym e) v.rows;
        keyed = subst (UniqueKeys job_key) (sym e) v.keyed;
      }
      | inr e ↦ record {
        rows =
            subst (All RowFits) (sym e)
              (All-append RowFits db.jobs (filled now r ∷ []) v.rows (fits, tt));
        keyed =
            subst (UniqueKeys job_key) (sym e) (UniqueKeys-append job_key db.jobs _ v.keyed fresh);
      }
    ]

-- ===== src/Queue/Steps.antt =====
-- The queue as a transition system: every transaction of job_repository.go as a step of the
-- tables, and the states that one row goes through.
use meta_posting.Prelude.{
  ℕ, String, Bool, true, ◌≡◌, ◌≢◌, refl, ◌⊎◌, ==_iff, All-in, some, All, Bool-cases, Option-cases,
  inl, inr, In, ◌==◌, if◌then◌else◌,
}
use mathlib.Core.Path.{subst}
use meta_posting.Prelude.Int.{ℤ, pos_part}
use meta_posting.Sql.{update_where, find_key}
use meta_posting.Sql.Laws.{find_key-update_where, UniqueKeys-only, find_key-In, find_key-append}
use meta_posting.Schema.{job_key, Job, Database, ok, is_active}
use meta_posting.Queue.{Decoder, candidate, is_spent, buried, is_due, leased, take_candidate, claim}
use meta_posting.Queue.Leases.{
  holds, is_held, is_cancellable, extended, extend_lease, completed, complete, failed_row, fail,
  cancelled, cancel, Request, filled, enqueue,
}
use meta_posting.Queue.Claims.{claim-cases, sweep-jobs, take_candidate-none, take_candidate-some}
use meta_posting.Queue.Order.{Chosen, candidate-Chosen, and_left, and_right}
use meta_posting.Queue.Invariant.{
  IsValid, RowFits, claim-IsValid, extend_lease-IsValid, complete-IsValid, fail-IsValid,
  cancel-IsValid, sweep-IsValid, enqueue-IsValid, extend_lease-jobs, complete-jobs, cancel-jobs,
  fail-eq-ok, fail_held-jobs, failed_row-id, enqueue-jobs,
}

-- One committed transaction at time `now`. A new row has an id of its own and waits, unlocked.
pub data Step (decode : Decoder) : ℕ → Database → Database → Type 0 where
  claims :
      (locked : ℕ → Bool) (worker : String) (lease : ℤ) (now : ℕ) (db : Database)
      → Step decode now db (claim decode locked worker lease now db).0
  extends :
      {db db' : Database} (id : ℕ) (worker : String) (lease : ℤ) (now : ℕ)
      → extend_lease id worker lease now db ≡ ok db'
      → Step decode now db db'
  completes :
      {db db' : Database} (id : ℕ) (worker : String) (now : ℕ)
      → complete id worker now db ≡ ok db'
      → Step decode now db db'
  fails :
      {db db' : Database} (id : ℕ) (worker message : String) (delay : ℤ) (now : ℕ) (j : Job)
      → fail decode id worker message delay now db ≡ ok (db', j)
      → Step decode now db db'
  cancels : {db db' : Database} (id now : ℕ) → cancel id now db ≡ ok db' → Step decode now db db'
  enqueues :
      {db db' : Database} (now : ℕ) (r : Request) (j : Job) (created : Bool)
      → RowFits (filled now r)
      → All (λ x. x.id ≢ (filled now r).id) db.jobs
      → enqueue now r db ≡ ok (db', (j, created))
      → Step decode now db db'

-- The moves of one row at time `now`.
pub data Move (now : ℕ) (j : Job) : Job → Type 0 where
  stay : Move now j j
  bury : is_spent now j ≡ true → Move now j (buried now j)
  hand_out :
      (worker : String) (lease : ℕ) → is_due now j ≡ true → Move now j (leased worker lease now j)
  extend :
      (worker : String) (lease : ℕ) → holds worker now j ≡ true → Move now j (extended lease now j)
  finish : (worker : String) → holds worker now j ≡ true → Move now j (completed now j)
  give_back :
      (worker message : String) (delay : ℤ)
      → holds worker now j ≡ true
      → Move now j (failed_row message delay now j)
  drop : is_active j.status ≡ true → Move now j (cancelled now j)

-- The row with an id after a step, and the move that took it there.
abbrev pub Moved : ℕ → ℕ → Job → Database → Type 0
Moved now id j db' = (j' : Job) × (find_key job_key id db'.jobs ≡ some j') × Move now j j'

-- The row after an update.
pub row_updated :
    (p : Job → Bool) (f : Job → Job) (id : ℕ) (j : Job) (db db' : Database)
    → ((x : Job) → (f x).id ≡ x.id)
    → db'.jobs ≡ update_where p f db.jobs
    → find_key job_key id db.jobs ≡ some j
    → find_key job_key id db'.jobs ≡ some (if p j then f j else j)
row_updated p f id j db db' same e found =
    rw (e, find_key-update_where job_key id p f same db.jobs, found) refl

Moved-update :
    (now : ℕ) (p : Job → Bool) (f : Job → Job) (id : ℕ) (j : Job) (db db' : Database)
    → ((x : Job) → (f x).id ≡ x.id)
    → (p j ≡ true → Move now j (f j))
    → db'.jobs ≡ update_where p f db.jobs
    → find_key job_key id db.jobs ≡ some j
    → Moved now id j db'
Moved-update now p f id j db db' same move e found = elim (Bool-cases (p j)) [
  | inl met ↦ (f j, rw met at (row_updated p f id j db db' same e found), move met)
  | inr unmet ↦ (j, rw unmet at (row_updated p f id j db db' same e found), stay)
]

-- Under the primary key, the row that an update by id reaches is the row that was read.
same_row :
    (c j : Job) (id : ℕ) (db : Database)
    → IsValid db
    → In c db.jobs
    → find_key job_key id db.jobs ≡ some j
    → (j.id == c.id) ≡ true
    → j ≡ c
same_row c j id db v m found e =
    All-in (λ x. x.id ≡ c.id → x ≡ c) db.jobs (UniqueKeys-only job_key c db.jobs v.keyed m)
      (find_key-In job_key id db.jobs j found) ((==_iff _ _).0 e)

Moved-take :
    (locked : ℕ → Bool) (worker : String) (lease now id : ℕ) (j : Job) (db : Database)
    → IsValid db
    → find_key job_key id db.jobs ≡ some j
    → Moved now id j (take_candidate locked worker lease now db).0
Moved-take locked worker lease now id j db v found =
    elim (Option-cases (candidate locked now db.jobs)) [
      | inl e ↦ rw (take_candidate-none locked worker lease now db e) (j, found, stay)
      | inr (c, e) ↦
          let (due, m, _) =
            subst (Chosen locked now db.jobs) e (candidate-Chosen locked now db.jobs) in
          Moved-update now (λ x. x.id == c.id) (leased worker lease now) id j db
            (take_candidate locked worker lease now db).0 (λ _. refl)
            (λ t.
              hand_out worker lease
                (rw (same_row c j id db v m found t) (and_left (is_due now c) _ due)))
            (take_candidate-some locked worker lease now db c e) found
    ]

-- A row after the sweep of a claim.
pub Swept-row :
    (now id : ℕ) (j : Job) (db swept : Database)
    → swept.jobs ≡ update_where (is_spent now) (buried now) db.jobs
    → find_key job_key id db.jobs ≡ some j
    → (mid : Job) × (find_key job_key id swept.jobs ≡ some mid)
      × ((mid ≡ j) ⊎ ((is_spent now j ≡ true) × (mid ≡ buried now j)))
Swept-row now id j db swept e found = elim (Bool-cases (is_spent now j)) [
  | inl met ↦ (
    buried now j,
    rw met at (row_updated (is_spent now) (buried now) id j db swept (λ _. refl) e found),
    inr (met, refl),
  )
  | inr unmet ↦ (
    j,
    rw unmet at (row_updated (is_spent now) (buried now) id j db swept (λ _. refl) e found),
    inl refl,
  )
]

-- Nothing but `stay` moves a buried row.
buried-Move : (now : ℕ) (j k : Job) → Move now (buried now j) k → k ≡ buried now j
buried-Move now j k stay = refl
buried-Move now j k (bury h) = cc h
buried-Move now j k (hand_out worker lease h) = cc h
buried-Move now j k (extend worker lease h) = cc h
buried-Move now j k (finish worker h) = cc h
buried-Move now j k (give_back worker message delay h) = cc h
buried-Move now j k (drop h) = cc h

Moved-after :
    (now id : ℕ) (j mid : Job) (db : Database)
    → ((mid ≡ j) ⊎ ((is_spent now j ≡ true) × (mid ≡ buried now j)))
    → Moved now id mid db
    → Moved now id j db
Moved-after now id j mid db (inl e) m = subst (λ x. Moved now id x db) e m
Moved-after now id j mid db (inr (spent, e)) m =
    let (k, found, move) = subst (λ x. Moved now id x db) e m in
    (k, found, rw (buried-Move now j k move) (bury spent))

-- A move of a spent row that is then left alone, or of a row that the sweep passed over.
Moved-claim :
    (decode : Decoder) (locked : ℕ → Bool) (worker : String) (lease : ℤ) (now id : ℕ) (j : Job)
    (db : Database)
    → IsValid db
    → find_key job_key id db.jobs ≡ some j
    → Moved now id j (claim decode locked worker lease now db).0
Moved-claim decode locked worker lease now id j db v found =
    elim (claim-cases decode locked worker lease now db) [
      | inl (e, same) ↦ rw same (j, found, stay)
      | inr (swept, named, s, same) ↦
          let valid = sweep-IsValid decode now db swept v s in
          let (mid, there_is, swept_move) =
            Swept-row now id j db swept (sweep-jobs decode now db swept s) found in
          rw same (
            Moved-after now id j mid (take_candidate locked worker (pos_part lease) now swept).0
              swept_move
              (Moved-take locked worker (pos_part lease) now id mid swept valid there_is))
    ]

-- Each step moves the row of an id along the diagram, and never loses it.
pub Step-Move :
    (decode : Decoder) {now : ℕ} {db db' : Database} (id : ℕ) (j : Job)
    → IsValid db
    → Step decode now db db'
    → find_key job_key id db.jobs ≡ some j
    → Moved now id j db'
Step-Move decode id j v (claims locked worker lease now db) found =
    Moved-claim decode locked worker lease now id j db v found
Step-Move decode id j v (extends {db = db} {db' = db'} k worker lease now h) found =
    Moved-update now (is_held k worker now) (extended (pos_part lease) now) id j db db' (λ _. refl)
      (λ held. extend worker (pos_part lease) (and_right (j.id == k) _ held))
      (extend_lease-jobs k worker lease now db db' h) found
Step-Move decode id j v (completes {db = db} {db' = db'} k worker now h) found =
    Moved-update now (is_held k worker now) (completed now) id j db db' (λ _. refl)
      (λ held. finish worker (and_right (j.id == k) _ held)) (complete-jobs k worker now db db' h)
      found
Step-Move decode id j v (fails {db = db} {db' = db'} k worker message delay now r h) found =
    let (job, at, held, _, written) = fail-eq-ok decode k worker message delay now db db' r h in
    Moved-update now (λ x. x.id == job.id) (failed_row message delay now) id j db db'
      (failed_row-id message delay now)
      (λ t.
        give_back worker message delay
          (rw (same_row job j id db v (find_key-In job_key k db.jobs job at) found t) held))
      (fail_held-jobs decode message delay now job db db' written) found
Step-Move decode id j v (cancels {db = db} {db' = db'} k now h) found =
    Moved-update now (is_cancellable k) (cancelled now) id j db db' (λ _. refl)
      (λ t. drop (and_right (j.id == k) _ t)) (cancel-jobs k now db db' h) found
Step-Move decode id j v (enqueues {db = db} {db' = db'} now r k created fits fresh h) found =
    elim (enqueue-jobs now r db db' k created h) [
      | inl same ↦ (j, rw same found, stay)
      | inr more ↦ (j, rw more (find_key-append job_key id db.jobs _ found), stay)
    ]

pub Step-IsValid :
    (decode : Decoder) {now : ℕ} {db db' : Database}
    → IsValid db
    → Step decode now db db'
    → IsValid db'
Step-IsValid decode v (claims locked worker lease now db) =
    claim-IsValid decode locked worker lease now db v
Step-IsValid decode v (extends {db = db} {db' = db'} id worker lease now h) =
    extend_lease-IsValid id worker lease now db db' v h
Step-IsValid decode v (completes {db = db} {db' = db'} id worker now h) =
    complete-IsValid id worker now db db' v h
Step-IsValid decode v (fails {db = db} {db' = db'} id worker message delay now j h) =
    fail-IsValid decode id worker message delay now db db' j v h
Step-IsValid decode v (cancels {db = db} {db' = db'} id now h) = cancel-IsValid id now db db' v h
Step-IsValid decode v (enqueues {db = db} {db' = db'} now r j created fits fresh h) =
    enqueue-IsValid now r db db' j created fits fresh v h

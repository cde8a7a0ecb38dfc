-- ===== src/Queue/Claims.antt =====
-- What `Claim` hands out, and what it leaves of the table (internal/platform/database).
use meta_posting.Prelude.{
  ℕ, String, Bool, true, ◌≡◌, ◌∙◌, ◌⊎◌, List, [], ◌∷◌, none, some, arith, Bool-cases, str_eq, ◌==◌,
  inl, inr, ◌≤◌, ◌<◌, ◌+◌, suc, false,
}
use meta_posting.Prelude.Int.{ℤ, pos, pos_part, ltb_ℤ}
use meta_posting.Sql.{update_where, select_where}
use meta_posting.Schema.{
  Job, JobStatus, Database, ok, err, DbError, worker_id_required, lease_not_positive, >>=-eq-ok,
  Result-cases,
}
use meta_posting.Batch.Frame.{recalculate-jobs}
use meta_posting.Queue.{
  Decoder, close_result, finalize_dead, finalize_all, is_spent, buried, sweep, candidate, leased,
  take_candidate, claim,
}

close_result-jobs :
    (id : ℕ) (message : String) (now : ℕ) (db db' : Database)
    → close_result id message now db ≡ ok db'
    → db'.jobs ≡ db.jobs
unfolding close_result
close_result-jobs id message now db db' h = grind (arith, recalculate-jobs)

pub finalize_dead-jobs :
    (decode : Decoder) (j : Job) (message : String) (now : ℕ) (db db' : Database)
    → finalize_dead decode j message now db ≡ ok db'
    → db'.jobs ≡ db.jobs
unfolding finalize_dead
finalize_dead-jobs decode j message now db db' h = grind (arith, close_result-jobs)

pub finalize_all-jobs :
    (decode : Decoder) (js : List Job) (now : ℕ) (db db' : Database)
    → finalize_all decode js now db ≡ ok db'
    → db'.jobs ≡ db.jobs
unfolding finalize_all
finalize_all-jobs decode [] now db db' h = ground arith
finalize_all-jobs decode (j ∷ js) now db db' h =
    let (mid, first, rest) = >>=-eq-ok (finalize_dead decode j j.last_error now db) _ h in
    finalize_all-jobs decode js now mid db' rest
    ∙ finalize_dead-jobs decode j j.last_error now db mid first

-- The sweep buries the spent jobs and touches no other row of the queue.
pub sweep-jobs :
    (decode : Decoder) (now : ℕ) (db db' : Database)
    → sweep decode now db ≡ ok db'
    → db'.jobs ≡ update_where (is_spent now) (buried now) db.jobs
unfolding sweep
sweep-jobs decode now db db' h =
    finalize_all-jobs decode
      (update_where (λ _. true) (buried now) (select_where (is_spent now) db.jobs)) now _ db' h

-- A claim either changes nothing and reports an error, or takes a job from the swept tables.
pub claim-cases :
    (decode : Decoder) (locked : ℕ → Bool) (worker : String) (lease : ℤ) (now : ℕ) (db : Database)
    → ((e : DbError) × (claim decode locked worker lease now db ≡ (db, err e)))
      ⊎ ((swept : Database) × (str_eq worker "" ≡ false)
          × (sweep decode now db ≡ ok swept)
          × (claim decode locked worker lease now db
              ≡ take_candidate locked worker (pos_part lease) now swept))
unfolding claim
claim-cases decode locked worker lease now db = elim (Bool-cases (str_eq worker "")) [
  | inl e ↦ inl (worker_id_required, rw e)
  | inr e ↦ elim (Bool-cases (ltb_ℤ (pos 0) lease)) [
    | inl p ↦ elim (Result-cases (sweep decode now db)) [
      | inl (swept, s) ↦ inr (swept, e, s, rw (e, p, s))
      | inr (x, s) ↦ inl (x, rw (e, p, s))
    ]
    | inr p ↦ inl (lease_not_positive, rw (e, p))
  ]
]

module _ (locked : ℕ → Bool) (worker : String) (lease now : ℕ) where
  pub take_candidate-none :
      (db : Database)
      → candidate locked now db.jobs ≡ none
      → (take_candidate locked worker lease now db).0 ≡ db
  unfolding take_candidate
  take_candidate-none db e = rw (e, take_candidate)

  pub take_candidate-some :
      (db : Database) (c : Job)
      → candidate locked now db.jobs ≡ some c
      → (take_candidate locked worker lease now db).0.jobs
        ≡ update_where (λ x. x.id == c.id) (leased worker lease now) db.jobs
  unfolding take_candidate
  take_candidate-some db c e = rw (e, take_candidate)

-- Due for a claim: pending and available, or running on a lease that has expired; with attempts left,
-- and locked by no other transaction.
abbrev pub Claimable : (ℕ → Bool) → ℕ → Job → Type 0
Claimable locked now c =
    (((c.status ≡ JobStatus.pending) × (c.available_at ≤ now))
      ⊎ ((c.status ≡ JobStatus.running)
          × ((until : ℕ) × (c.locked_until ≡ some until) × (until ≤ now))))
    × (c.attempts < c.max_attempts)
    × (locked c.id ≡ false)

-- The row `j` is the row `c` under a lease of the worker, with one attempt more.
abbrev pub Leased : String → ℕ → ℕ → Job → Job → Type 0
Leased worker lease now c j =
    (j.id ≡ c.id)
    × (j.status ≡ JobStatus.running)
    × (j.attempts ≡ suc c.attempts)
    × (j.max_attempts ≡ c.max_attempts)
    × (j.locked_by ≡ worker)
    × (j.locked_until ≡ some (now + lease))
    × (j.job_type ≡ c.job_type)
    × (j.payload ≡ c.payload)
    × (j.connection_id ≡ c.connection_id)

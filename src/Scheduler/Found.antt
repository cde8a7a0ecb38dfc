-- ===== src/Scheduler/Found.antt =====
-- What the lookups of the scheduler find (internal/worker/scheduler.go).
use meta_posting.Prelude.{
  Bool, true, false, ◌≡◌, refl, inl, inr, ◌||◌, Option, none, some, List, [], ◌∷◌, Bool-cases,
  if_both,
}
use meta_posting.Sql.{any_row, find_where}
use meta_posting.Schema.{
  Job, Database, Result, ok, err, duplicated_key, record_not_found, lease_lost, worker_id_required,
  lease_not_positive, insert_ignored_without_dedupe_key, object_required,
}
use meta_posting.Scheduler.{
  first_of, is_created_before, first_where, active_recurring_job, coalesced,
}

-- Nothing is committed between two statements.
abbrev pub unshared : Database → Database
unshared db = db

pub or_true : (a : Bool) {b : Bool} → b ≡ true → (a || b) ≡ true
or_true true h = refl
or_true false h = h

pub first_of-some : (x : Job) (o : Option Job) → (y : Job) × (first_of x o ≡ some y)
first_of-some x none = (x, refl)
first_of-some x (some y) =
    if_both (λ o. (z : Job) × (o ≡ some z)) (is_created_before y x) (y, refl) (x, refl)

pub first_where-some :
    (p : Job → Bool) (xs : List Job) → any_row p xs ≡ true → (y : Job) × (first_where p xs ≡ some y)
unfolding first_where any_row
first_where-some p [] h = cc
first_where-some p (x ∷ xs) h = elim (Bool-cases (p x)) [
  | inl e ↦ rw e (first_of-some x (first_where p xs))
  | inr e ↦ rw e (first_where-some p xs (rw e at h))
]

pub any_row-first_where :
    (p : Job → Bool) (xs : List Job) (y : Job) → first_where p xs ≡ some y → any_row p xs ≡ true
unfolding first_where any_row
any_row-first_where p [] y h = cc
any_row-first_where p (x ∷ xs) y h = elim (Bool-cases (p x)) [
  | inl e ↦ rw e refl
  | inr e ↦ rw e (any_row-first_where p xs y (rw e at h))
]

pub find_where-some :
    (p : Job → Bool) (xs : List Job) → any_row p xs ≡ true → (y : Job) × (find_where p xs ≡ some y)
unfolding find_where any_row
find_where-some p [] h = cc
find_where-some p (x ∷ xs) h = elim (Bool-cases (p x)) [
  | inl e ↦ (x, rw e refl)
  | inr e ↦ rw e (find_where-some p xs (rw e at h))
]

pub any_row-find_where :
    (p : Job → Bool) (xs : List Job) (y : Job) → find_where p xs ≡ some y → any_row p xs ≡ true
unfolding find_where any_row
any_row-find_where p [] y h = cc
any_row-find_where p (x ∷ xs) y h = elim (Bool-cases (p x)) [
  | inl e ↦ rw e refl
  | inr e ↦ rw e (any_row-find_where p xs y (rw e at h))
]

pub coalesced-ok :
    (row : Job) (db : Database) (x : Result (Database × (Job × Bool)))
    (made : Database × (Job × Bool))
    → active_recurring_job row db ≡ none
    → coalesced unshared row db x ≡ ok made
    → x ≡ ok made
coalesced-ok row db (ok done) made e h = h
coalesced-ok row db (err duplicated_key) made e h = let refused = rw e at h in cc
coalesced-ok row db (err record_not_found) made e h = cc
coalesced-ok row db (err lease_lost) made e h = cc
coalesced-ok row db (err worker_id_required) made e h = cc
coalesced-ok row db (err lease_not_positive) made e h = cc
coalesced-ok row db (err insert_ignored_without_dedupe_key) made e h = cc
coalesced-ok row db (err object_required) made e h = cc

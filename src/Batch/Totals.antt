-- ===== src/Batch/Totals.antt =====
-- What `recalculateBatch` makes of a batch whose results are all there
-- (internal/platform/database/batch_repository.go).
use meta_posting.Prelude.{
  ℕ, ◌+◌, ◌≤◌, ◌<◌, Bool, true, false, ◌&&◌, ◌≡◌, refl, inl, inr, ◌↔◌, List, [], ◌∷◌, none, some,
  All, arith, Bool-cases, ◌==◌, ==_iff, if◌then◌else◌,
}
use meta_posting.Sql.{count_where, find_key}
use meta_posting.Sql.Laws.{find_key-update_where, find_key_key}
use meta_posting.Schema.{batch_key, AccountStatus, BatchStatus, AccountResult, Batch, Database, ok}
use meta_posting.Schema.Account
use meta_posting.Batch.Frame.{recalculate-batches, recalculate-results}
use meta_posting.Batch.{Counts, of_batch, counts, status_of, aggregated, recalculate}

-- How many results a batch has.
abbrev pub members : ℕ → List AccountResult → ℕ
members batch results = count_where (of_batch batch (λ _. true)) results

-- Every status is counted once.
pub counts-members :
    (batch : ℕ) (results : List AccountResult)
    → let c = counts batch results in
      c.succeeded + c.failed + (c.pending + c.running) ≡ members batch results
unfolding counts
counts-members batch [] = omega arith
counts-members batch (r ∷ rs) = ground (arith, counts-members batch rs)

-- No result of the batch satisfies `p`.
abbrev pub NoneOf : ℕ → (AccountStatus → Bool) → List AccountResult → Type 0
NoneOf batch p = All (λ r. r.batch_id ≡ batch → p r.status ≡ false)

head_none :
    (batch : ℕ) (p : AccountStatus → Bool) (r : AccountResult) (n : ℕ)
    → (if of_batch batch p r then 1 else 0) + n ≡ 0
    → r.batch_id ≡ batch
    → p r.status ≡ false
head_none batch p r n h e = ground arith

head_zero :
    (batch : ℕ) (p : AccountStatus → Bool) (r : AccountResult) (n : ℕ)
    → (r.batch_id ≡ batch → p r.status ≡ false)
    → n ≡ 0
    → (if of_batch batch p r then 1 else 0) + n ≡ 0
head_zero batch p r n h e = elim (Bool-cases (r.batch_id == batch)) [
  | inl t ↦ ground (arith, h ((==_iff _ _).0 t))
  | inr t ↦ ground arith
]

pub count_where-eq-zero :
    (batch : ℕ) (p : AccountStatus → Bool) (results : List AccountResult)
    → count_where (of_batch batch p) results ≡ 0 ↔ NoneOf batch p results
unfolding count_where
count_where-eq-zero batch p [] = ((λ _. tt), (λ _. refl))
count_where-eq-zero batch p (r ∷ rs) =
    let (none_left, zero_left) = count_where-eq-zero batch p rs in
    (
      (λ h. (head_none batch p r _ h, none_left (omega (arith, h)))),
      (λ (first, rest). head_zero batch p r _ first (zero_left rest)),
    )

-- What the status of a batch says of the results of its accounts.
abbrev pub Reflects : BatchStatus → ℕ → List AccountResult → Type 0
Reflects BatchStatus.running batch rs = ¬ NoneOf batch Account.is_open rs
Reflects BatchStatus.succeeded batch rs =
    NoneOf batch Account.is_open rs × NoneOf batch Account.is_failed rs
Reflects BatchStatus.failed batch rs =
    NoneOf batch Account.is_open rs
    × NoneOf batch Account.is_succeeded rs
    × (¬ NoneOf batch Account.is_failed rs)
Reflects BatchStatus.partially_succeeded batch rs =
    NoneOf batch Account.is_open rs
    × (¬ NoneOf batch Account.is_succeeded rs)
    × (¬ NoneOf batch Account.is_failed rs)
Reflects _ batch rs = ⊥

-- The same of the counts.
abbrev Tallies : BatchStatus → Counts → Type 0
Tallies BatchStatus.running c = 0 < c.pending + c.running
Tallies BatchStatus.succeeded c = (c.pending + c.running ≡ 0) × (c.failed ≡ 0)
Tallies BatchStatus.failed c = (c.pending + c.running ≡ 0) × (c.succeeded ≡ 0) × (0 < c.failed)
Tallies BatchStatus.partially_succeeded c =
    (c.pending + c.running ≡ 0) × (0 < c.succeeded) × (0 < c.failed)
Tallies _ c = ⊥

status_of-Tallies :
    (c : Counts) (total : ℕ) (current : BatchStatus)
    → c.succeeded + c.failed + (c.pending + c.running) ≡ total
    → Tallies (status_of c total current) c
unfolding status_of
status_of-Tallies c total current h = ground arith

open_count :
    (batch : ℕ) (rs : List AccountResult)
    → count_where (of_batch batch Account.is_open) rs
      ≡ (counts batch rs).pending + (counts batch rs).running
unfolding counts
open_count batch [] = omega arith
open_count batch (r ∷ rs) = ground (arith, open_count batch rs)

-- A positive count and a zero count, read off the results.
some_of :
    (batch : ℕ) (p : AccountStatus → Bool) (rs : List AccountResult)
    → 0 < count_where (of_batch batch p) rs
    → ¬ NoneOf batch p rs
some_of batch p rs h absent = omega (arith, (count_where-eq-zero batch p rs).1 absent)

none_of :
    (batch : ℕ) (p : AccountStatus → Bool) (rs : List AccountResult)
    → count_where (of_batch batch p) rs ≡ 0
    → NoneOf batch p rs
none_of batch p rs h = (count_where-eq-zero batch p rs).0 h

Tallies-Reflects :
    (s : BatchStatus) (batch : ℕ) (rs : List AccountResult)
    → Tallies s (counts batch rs)
    → Reflects s batch rs
unfolding counts
Tallies-Reflects BatchStatus.running batch rs h =
    some_of batch Account.is_open rs (omega (arith, open_count batch rs))
Tallies-Reflects BatchStatus.succeeded batch rs h = (
  none_of batch Account.is_open rs (omega (arith, open_count batch rs)),
  none_of batch Account.is_failed rs h.1,
)
Tallies-Reflects BatchStatus.failed batch rs h = (
  none_of batch Account.is_open rs (omega (arith, open_count batch rs)),
  none_of batch Account.is_succeeded rs h.1,
  some_of batch Account.is_failed rs h.2,
)
Tallies-Reflects BatchStatus.partially_succeeded batch rs h = (
  none_of batch Account.is_open rs (omega (arith, open_count batch rs)),
  some_of batch Account.is_succeeded rs h.1,
  some_of batch Account.is_failed rs h.2,
)
Tallies-Reflects BatchStatus.draft batch rs h = absurd h
Tallies-Reflects BatchStatus.queued batch rs h = absurd h
Tallies-Reflects BatchStatus.cancelled batch rs h = absurd h

completed_iff :
    (c : Counts) (now : ℕ) (P : Type 0)
    → (0 < c.pending + c.running → ¬ P)
    → (c.pending + c.running ≡ 0 → P)
    → ((if (c.pending == 0) && (c.running == 0) then some now else none) ≡ none) ↔ (¬ P)
completed_iff c now P some_open none_open =
    elim (Bool-cases ((c.pending == 0) && (c.running == 0))) [
      | inl t ↦ rw t ((λ e. cc), (λ absent. absurd (absent (none_open (ground arith)))))
      | inr t ↦ rw t ((λ e. some_open (ground arith)), (λ absent. refl))
    ]

recalculated_row :
    (batch now : ℕ) (db db' : Database) (b : Batch)
    → recalculate batch now db ≡ ok db'
    → find_key batch_key batch db.batches ≡ some b
    → find_key batch_key batch db'.batches ≡ some (aggregated (counts batch db.results) now b)
unfolding aggregated
recalculated_row batch now db db' b h found =
    rw
      (
        recalculate-batches batch now db db' h,
        find_key-update_where batch_key batch (λ x. x.id == batch)
            (aggregated (counts batch db.results) now) (λ _. refl) db.batches,
        found,
        (==_iff b.id batch).1 (find_key_key batch_key batch db.batches b found),
      )
      refl

-- After a recalculation of a batch whose `total_accounts` counts its results, its status says
-- exactly how its results stand, whatever it was before; it is complete exactly when no result is
-- pending or running; and its two counters together stay within its total.
pub recalculate-Reflects :
    (batch now : ℕ) (db db' : Database) (b : Batch)
    → find_key batch_key batch db.batches ≡ some b
    → b.total_accounts ≡ members batch db.results
    → recalculate batch now db ≡ ok db'
    → (b' : Batch) × (find_key batch_key batch db'.batches ≡ some b')
      × Reflects b'.status batch db'.results
      × ((b'.completed_at ≡ none) ↔ (¬ NoneOf batch Account.is_open db'.results))
      × (b'.succeeded_accounts + b'.failed_accounts ≤ b'.total_accounts)
unfolding aggregated
recalculate-Reflects batch now db db' b found total h =
    let c = counts batch db.results in
    let all = counts-members batch db.results in
    rw (recalculate-results batch now db db' h) (
      (
        aggregated c now b,
        recalculated_row batch now db db' b h found,
        Tallies-Reflects _ batch db.results
            (status_of-Tallies c b.total_accounts b.status (omega (arith, all, total))),
        completed_iff c now (NoneOf batch Account.is_open db.results)
            (λ some_open.
              some_of batch Account.is_open db.results
                (omega (arith, open_count batch db.results, some_open)))
            (λ all_closed.
              none_of batch Account.is_open db.results
                (omega (arith, open_count batch db.results, all_closed))),
        omega (arith, all, total),
      ))

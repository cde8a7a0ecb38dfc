-- ===== src/Batch/Frame.antt =====
-- What the recalculation of a batch leaves alone.
use meta_posting.Prelude.{ℕ, ◌≡◌, ◌==◌, arith}
use meta_posting.Schema.{Database, ok}
use meta_posting.Sql.{update_where}
use meta_posting.Batch.{counts, aggregated, recalculate}

module _ (batch now : ℕ) (db db' : Database) (done : recalculate batch now db ≡ ok db') where
  pub recalculate-jobs : db'.jobs ≡ db.jobs
  unfolding recalculate
  recalculate-jobs = ground arith

  pub recalculate-results : db'.results ≡ db.results
  unfolding recalculate
  recalculate-results = ground arith

  pub recalculate-objects : db'.objects ≡ db.objects
  unfolding recalculate
  recalculate-objects = ground arith

  pub recalculate-batches :
      db'.batches
      ≡ update_where (λ b. b.id == batch) (aggregated (counts batch db.results) now) db.batches
  unfolding recalculate
  recalculate-batches = ground arith

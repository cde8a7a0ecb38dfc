-- ===== src/Schema/Account.antt =====
-- Tests on the status of one account's result (internal/domain/types.go).
use meta_posting.Prelude.{Bool, true, false, ◌||◌}
use meta_posting.Schema.{AccountStatus}

abbrev pub is_pending : AccountStatus → Bool
is_pending AccountStatus.pending = true
is_pending _ = false

abbrev pub is_running : AccountStatus → Bool
is_running AccountStatus.running = true
is_running _ = false

abbrev pub is_succeeded : AccountStatus → Bool
is_succeeded AccountStatus.succeeded = true
is_succeeded _ = false

-- `status IN ('failed', 'skipped')`
abbrev pub is_failed : AccountStatus → Bool
is_failed AccountStatus.failed = true
is_failed AccountStatus.skipped = true
is_failed _ = false

-- Still to finish.
abbrev pub is_open : AccountStatus → Bool
is_open s = is_pending s || is_running s

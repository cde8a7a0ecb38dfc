-- ===== src/Retry.antt =====
-- The worker's capped exponential backoff (internal/domain/types.go, RetryDelay), over int64
-- nanoseconds with the wrap-around written out.
pub mod Bounds
mod Tests
use meta_posting.Prelude.{ℕ, zero, suc, ◌-◌, ◌%◌, ◌/◌, ◌^◌, ltb, leb, if◌then◌else◌}
use meta_posting.Prelude.Int.{ℤ, pos, negsuc, ltb_ℤ, pos_part, ◌*ℤ◌}

abbrev pub second : ℤ
second = pos 1000000000

abbrev pub hour : ℤ
hour = pos 3600000000000

-- The value of an int64 that received the low 64 bits of `n`.
unfoldable pub int64 : ℤ → ℤ
int64 (pos n) = let m = n % 2 ^ 64 in if ltb m (2 ^ 63) then pos m else negsuc (2 ^ 64 - 1 - m)
int64 (negsuc n) = let m = n % 2 ^ 64 in if ltb m (2 ^ 63) then negsuc m else pos (2 ^ 64 - 1 - m)

-- `maximum / 2` of Go, which rounds towards zero.
unfoldable pub halved : ℤ → ℤ
halved (pos n) = pos (n / 2)
halved (negsuc n) = if leb n 0 then pos 0 else negsuc ((n - 1) / 2)

-- The loop; `rounds` is what is left of `attempts - 1`.
unfoldable pub backoff : ℕ → ℤ → ℤ → ℤ
unfolding int64 halved ◌*ℤ◌
backoff zero delay maximum = if ltb_ℤ maximum delay then maximum else delay
backoff (suc rounds) delay maximum =
    let rest = backoff rounds (int64 (delay *ℤ pos 2)) maximum in
    if ltb_ℤ delay maximum
    then (if ltb_ℤ (halved maximum) delay then maximum else rest)
    else (if ltb_ℤ maximum delay then maximum else delay)

-- `if d <= 0 { d = fallback }`
abbrev pub positive_or : ℤ → ℤ → ℤ
positive_or fallback d = if ltb_ℤ (pos 0) d then d else fallback

unfoldable pub retry_delay : ℤ → ℤ → ℤ → ℤ
unfolding backoff
retry_delay attempts base maximum =
    let attempts' = if ltb_ℤ attempts (pos 1) then pos 1 else attempts in
    backoff (pos_part attempts' - 1) (positive_or second base) (positive_or hour maximum)

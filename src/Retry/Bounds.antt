-- ===== src/Retry/Bounds.antt =====
-- The backoff of RetryDelay against its closed form: no doubling ever wraps around.
use native.Mathlib.Nat.{pow-suc}
use meta_posting.Prelude.{ℕ, zero, suc, ◌-◌, ◌*◌, ◌^◌, ◌≤◌, min, ◌≡◌, arith}
use meta_posting.Prelude.Int.{ℤ, pos, pos_part, ◌*ℤ◌}
use meta_posting.Retry.{second, hour, int64, backoff, positive_or, retry_delay}

-- The largest int64.
abbrev pub max_int64 : ℕ
max_int64 = 9223372036854775807

one-le-pow : (r : ℕ) → 1 ≤ 2 ^ r
one-le-pow zero = omega arith
one-le-pow (suc r) = rw (pow-suc 2 r) (omega (arith, one-le-pow r))

-- Doubling a delay that is at most half of an int64 does not wrap.
int64_double : (d : ℕ) → d * 2 ≤ max_int64 → int64 (pos d *ℤ pos 2) ≡ pos (d * 2)
unfolding int64 ◌*ℤ◌
int64_double d h = ground arith

scaled_le : (d r : ℕ) → d ≤ d * 2 ^ r
scaled_le d r = grind (arith, one-le-pow r)

doubled : (d r : ℕ) → d * 2 ^ suc r ≡ d * 2 * 2 ^ r
doubled d r = rw (pow-suc 2 r) (grind arith)

backoff-eq-min : (r d m : ℕ) → m ≤ max_int64 → backoff r (pos d) (pos m) ≡ pos (min m (d * 2 ^ r))
unfolding backoff
backoff-eq-min zero d m h = ground arith
backoff-eq-min (suc r) d m h =
    ground (arith, int64_double d, backoff-eq-min r (d * 2) m h, scaled_le (d * 2) r, doubled d r)

-- The delay is exactly the base doubled once for each attempt after the first, capped at the
-- maximum, whatever int64 values are passed: a base or a maximum that is not positive is replaced
-- by one second or one hour, an attempt count below one counts as one, and no step overflows.
pub retry_delay-eq-min :
    (attempts base maximum : ℤ)
    → pos_part maximum ≤ max_int64
    → retry_delay attempts base maximum
      ≡ pos (
          min
            (pos_part (positive_or hour maximum))
            (pos_part (positive_or second base) * 2 ^ (pos_part attempts - 1)))
unfolding retry_delay
retry_delay-eq-min attempts base maximum h = ground (
  arith,
  backoff-eq-min (pos_part attempts - 1) (pos_part (positive_or second base))
      (pos_part (positive_or hour maximum)),
)

-- ===== src/Retry/Tests.antt =====
-- RetryDelay at the worker's defaults (internal/worker/runner.go): five seconds, at most 15 minutes.
use meta_posting.Prelude.{◌*◌, ◌^◌, ◌≡◌, refl, min, arith}
use meta_posting.Prelude.Int.{pos, negsuc}
use meta_posting.Retry.{retry_delay}
use meta_posting.Retry.Bounds.{retry_delay-eq-min}

fourth_attempt : retry_delay (pos 4) (pos 5000000000) (pos 900000000000) ≡ pos 40000000000
unfolding retry_delay
fourth_attempt = refl

-- A base that is not positive is one second.
no_base : retry_delay (pos 3) (negsuc 6) (pos 900000000000) ≡ pos 4000000000
unfolding retry_delay
no_base = refl

capped : retry_delay (pos 40) (pos 5000000000) (pos 900000000000) ≡ pos 900000000000
unfolding retry_delay
capped = refl

retry_delay-eq-min_example :
    retry_delay (pos 4) (pos 5000000000) (pos 900000000000)
    ≡ pos (min 900000000000 (5000000000 * 2 ^ 3))
retry_delay-eq-min_example =
    retry_delay-eq-min (pos 4) (pos 5000000000) (pos 900000000000) (omega arith)

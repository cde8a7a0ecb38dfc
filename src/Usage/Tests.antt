-- ===== src/Usage/Tests.antt =====
-- A busy app header beside a blocked account header, and the theorem at this input; whole
-- percentages stand for the numbers of the headers.
use meta_posting.Prelude.{ℕ, ◌≡◌, refl, none, some, ltb, arith}
use meta_posting.Prelude.Int.{pos}
use meta_posting.Guard.Order.{IsFloatOrder}
use meta_posting.Usage.{Usage, worst_usage, worse_business, no_usage}
use meta_posting.Usage.Worst.{CoversAll, worst_usage-Covers}

ltb-IsFloatOrder : IsFloatOrder ltb
ltb-IsFloatOrder = record {
  irrefl = λ a. ground arith;
  trans = λ a b c h k. ground arith;
  cotrans = λ a b c h k. ground arith;
}

abbrev percent : ℕ → ℕ
percent n = n

abbrev reading : ℕ → ℕ → Usage ℕ
reading calls minutes = record {
  call_count = calls;
  total_cpu_time = 0;
  total_time = 0;
  regain = pos minutes;
  reset_time_duration = pos 0;
  tier = "";
  use_case = "";
}

worst_usage-Covers_example :
    CoversAll ltb 0 percent ltb-IsFloatOrder
      (reading 80 10)
      (some (reading 80 0))
      (some (reading 20 10))
      none
unfolding worst_usage
worst_usage-Covers_example =
    worst_usage-Covers ltb 0 percent ltb-IsFloatOrder (some (reading 80 0)) (some (reading 20 10))
      none (reading 80 10) refl

-- Of two blocked use cases the first is kept, although the second is blocked for longer.
business_keeps_shorter_block :
    worse_business ltb 0 percent
      (worse_business ltb 0 percent (no_usage ltb 0 percent) (reading 50 5))
      (reading 40 10)
    ≡ reading 50 5
unfolding worse_business
business_keeps_shorter_block = refl

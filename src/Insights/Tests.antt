-- ===== src/Insights/Tests.antt =====
-- The insights of one account whose service always answers.
use meta_posting.Prelude.{ℕ, suc, ◌≡◌, refl, none, some, List, [], ◌∷◌, arith}
use meta_posting.Errors.{leaf, other}
use meta_posting.Publish.Model.{answered}
use meta_posting.Sql.{find_where}
use meta_posting.Insights.{oldest_covered, Level, Coverage, no_watermarks}
use meta_posting.Insights.Ranges.{contiguous_ranges, Groups, contiguous_ranges-Groups}
use meta_posting.Insights.Collect.{Source, World, repair_insight_gaps}
use meta_posting.Insights.Repair.{Finds, Closes, repair_insight_gaps-Closes}
use meta_posting.Insights.Chunk.{Answers}
use meta_posting.Insights.Backfill.{Reaches, run_backfill_insights_job-Reaches}
use meta_posting.Insights.Rotation.{turns, Completes, turns-Completes}

abbrev quiet : Source ℕ
quiet = record {
  get_ad_account = λ id s.
      answered
        (record { id = id; connection_id = 9; account_id = "7"; meta_ad_account_id = "act_7" });
  access_token = λ connection s. (s, answered "token");
  fetch_daily = λ account level since until s. (suc s, answered (answered []));
  enqueue_backfill_job = λ connection key level minute s. (s, none);
  mark_connection_expired = λ connection g s. (s, none);
  today = λ id s. 50;
  short_text = λ e. "error";
  not_found = leaf other;
  invalid = leaf other;
}

abbrev seen : ℕ → Coverage
seen day = record { ad_account_id = 2; level = Level.ad; date = day; row_count = 1; fetched_at = 0 }

abbrev two_days : World ℕ
two_days = record {
  state = 0;
  tables = record {
    coverage = seen 40 ∷ seen 43 ∷ [];
    daily = [];
    sync =
        record {
          ad_account_id = 2;
          connection_id = 9;
          backfill_target_date = some 30;
          backfilled_through = none;
          synced_through = no_watermarks;
          consecutive_failures = 0;
          last_error = "";
        }
        ∷ [];
  };
}

three_ranges :
    contiguous_ranges (10 ∷ 11 ∷ 12 ∷ 15 ∷ 20 ∷ 21 ∷ []) 30 ≡ (10, 12) ∷ (15, 15) ∷ (20, 21) ∷ []
unfolding contiguous_ranges
three_ranges = refl

split_ranges : contiguous_ranges (1 ∷ 2 ∷ 3 ∷ 4 ∷ 5 ∷ []) 2 ≡ (1, 2) ∷ (3, 4) ∷ (5, 5) ∷ []
unfolding contiguous_ranges
split_ranges = refl

two_requests : (repair_insight_gaps quiet 60 2 Level.ad 39 45 two_days).1 ≡ answered 3
unfolding repair_insight_gaps
two_requests = refl

contiguous_ranges-Groups_example :
    Groups 4 (contiguous_ranges (1 ∷ 2 ∷ 3 ∷ 4 ∷ 5 ∷ []) 4) (1 ∷ 2 ∷ 3 ∷ 4 ∷ 5 ∷ [])
contiguous_ranges-Groups_example = contiguous_ranges-Groups (1 ∷ 2 ∷ 3 ∷ 4 ∷ 5 ∷ []) 4

finds_quiet : Finds quiet
finds_quiet id s account h = ground arith

repair_insight_gaps-Closes_example :
    Closes quiet 60 finds_quiet 2 Level.ad 39 45 two_days
      (repair_insight_gaps quiet 60 2 Level.ad 39 45 two_days)
repair_insight_gaps-Closes_example =
    repair_insight_gaps-Closes quiet 60 finds_quiet 2 Level.ad 39 45 two_days

quiet-Answers : Answers quiet 60 Level.ad
quiet-Answers = (
  (λ key s. (_, refl, refl)),
  (λ connection s. (s, "token", refl)),
  (λ account since until s. (suc s, [], refl, tt)),
  (λ connection key minute s. (s, refl)),
)

run_backfill_insights_job-Reaches_example : Reaches quiet 60 2 Level.ad 30 10 40 two_days
unfolding find_where oldest_covered
run_backfill_insights_job-Reaches_example =
    run_backfill_insights_job-Reaches quiet 60 2 Level.ad 30 quiet-Answers (omega arith)
      (omega arith) 40 two_days (_, refl, refl) refl

abbrev three : List ℕ
three = 3 ∷ 5 ∷ 7 ∷ []

turns-Completes_example : Completes 2 three 3 1
turns-Completes_example = turns-Completes 2 three 1 (omega arith) (omega arith)

one_turn_more : turns 2 2 0 three ≡ (three, 0)
unfolding turns
one_turn_more = refl

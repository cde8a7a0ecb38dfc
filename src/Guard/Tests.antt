-- ===== src/Guard/Tests.antt =====
-- A ladder of two rungs over whole amounts of money, and the theorems at this input.
use meta_posting.Prelude.{
  ℕ, ◌≤◌, ◌<◌, String, true, ◌≡◌, refl, none, some, List, [], ◌∷◌, ◌++◌, ltb, All, arith, length,
  not, ◌&&◌, if◌then◌else◌,
}
use meta_posting.Prelude.Int.{pos}
use mathlib.Core.List.{Perm}
use meta_posting.Schema.{ObjectType, PublishedObject, DbError}
use meta_posting.Guard.{Checkpoint, Observation, ladder, normalize_checkpoints}
use meta_posting.Guard.Order.{IsFloatOrder, IsAscending}
use meta_posting.Guard.Ladders.{
  IsUsable, normalize_checkpoints-IsAscending, normalize_checkpoints-ascending,
}
use meta_posting.Guard.Evaluate.{
  CheckStatus, Check, World, save_check, same_check, decided, is_stopped, evaluate_campaign,
  override_failed,
}
use meta_posting.Guard.Checks.{kept_or, decided-save_check}
use meta_posting.Guard.Resume.{is_newly_missed, evaluate_campaign-override_failed}

ltb-IsFloatOrder : IsFloatOrder ltb
ltb-IsFloatOrder = record {
  irrefl = λ a. ground arith;
  trans = λ a b c h k. ground arith;
  cotrans = λ a b c h k. ground arith;
}

abbrev rung : ℕ → ℕ → Checkpoint ℕ
rung spend clicks = record {
  spend = spend;
  min_clicks = pos clicks;
  min_impressions = pos 0;
  min_tracker_clicks = pos 0;
  min_tracker_leads = 0;
  min_tracker_sales = 0;
  min_tracker_revenue = 0;
}

abbrev two_rungs : List (Checkpoint ℕ)
two_rungs = rung 10 5 ∷ rung 20 50 ∷ []

abbrev observed : Observation ℕ
observed = record {
  spend = 25;
  clicks = pos 9;
  impressions = pos 100;
  tracker_clicks = pos 0;
  tracker_leads = 0;
  tracker_sales = 0;
  tracker_revenue = 0;
}

abbrev live_campaign : PublishedObject
live_campaign = record {
  id = 7;
  created_at = 1;
  updated_at = 1;
  batch_id = 1;
  batch_account_result_id = 1;
  connection_id = 1;
  ad_account_id = 1;
  object_type = ObjectType.campaign;
  meta_object_id = "c-7";
  parent_meta_object_id = "";
  name = "launch";
  desired_status = "ACTIVE";
  effective_status = "ACTIVE";
  idempotency_key = "k-7";
  request_json = "{}";
  response_json = "{}";
  last_synced_at = none;
}

abbrev world : World ℕ
world = record {
  db = record { jobs = []; results = []; batches = []; objects = live_campaign ∷ [] };
  checks = [];
  pauses = [];
  audits = [];
}

abbrev message : DbError → String
message e = "db"

abbrev missed : Check ℕ
missed = record {
  guard_id = 3;
  published_object_id = 7;
  meta_object_id = "c-7";
  checkpoint_index = 1;
  checkpoint_spend = 20;
  status = CheckStatus.failed;
  observed = observed;
  thresholds = rung 20 50;
  paused = true;
  error = "";
  evaluated_at = 4;
}

abbrev after_missed : World ℕ
after_missed = record world { checks = missed ∷ [] }

pauses_once :
    (evaluate_campaign ltb 0 message 3 two_rungs live_campaign
      (some observed)
      none
      "{}"
      9
      world).0.pauses
    ≡ "c-7" ∷ []
unfolding evaluate_campaign
pauses_once = refl

stays_on_after_resume :
    (evaluate_campaign ltb 0 message 3 two_rungs live_campaign
      (some observed)
      none
      "{}"
      9
      (record after_missed { checks = override_failed 7 (missed ∷ []) })).0.pauses
    ≡ []
unfolding evaluate_campaign override_failed
stays_on_after_resume = refl

two_rungs-IsAscending : IsAscending ltb two_rungs
two_rungs-IsAscending = ((refl, tt), (tt, tt))

two_rungs-IsUsable : All (IsUsable ltb 0) two_rungs
two_rungs-IsUsable = (
  record { positive = refl; not_negative = refl; thresholded = refl },
  (record { positive = refl; not_negative = refl; thresholded = refl }, tt),
)

normalize_checkpoints-IsAscending_example :
    Perm two_rungs (rung 20 50 ∷ rung 10 5 ∷ [])
    × IsAscending ltb two_rungs
    × All (IsUsable ltb 0) two_rungs
    × (0 < length (rung 20 50 ∷ rung 10 5 ∷ []))
    × (length (rung 20 50 ∷ rung 10 5 ∷ []) ≤ 20)
unfolding normalize_checkpoints
normalize_checkpoints-IsAscending_example =
    normalize_checkpoints-IsAscending ltb 0 ltb-IsFloatOrder (rung 20 50 ∷ rung 10 5 ∷ []) two_rungs
      refl

normalize_checkpoints-ascending_example : normalize_checkpoints ltb 0 two_rungs ≡ ladder two_rungs
normalize_checkpoints-ascending_example =
    normalize_checkpoints-ascending ltb 0 ltb-IsFloatOrder two_rungs two_rungs-IsAscending
      two_rungs-IsUsable (omega arith) (omega arith)

decided-save_check_example : decided 3 7 (save_check missed (missed ∷ [])) 1 ≡ (
    if same_check 3 7 1 missed
    then some (kept_or missed.status (decided 3 7 (missed ∷ []) 1))
    else decided 3 7 (missed ∷ []) 1)
decided-save_check_example = decided-save_check missed (missed ∷ []) 3 7 1 (tt, tt)

evaluate_campaign-override_failed_example :
    (evaluate_campaign ltb 0 message 3 two_rungs live_campaign
      (some observed)
      none
      "{}"
      9
      (record after_missed { checks = override_failed 7 (missed ∷ []) })).0.pauses
    ≡ (if not (is_stopped live_campaign)
          && is_newly_missed ltb 0 (decided 3 7 (missed ∷ [])) observed 0 two_rungs
        then [] ++ "c-7" ∷ []
        else [])
evaluate_campaign-override_failed_example =
    evaluate_campaign-override_failed ltb 0 message 3 two_rungs live_campaign observed none "{}" 9
      after_missed ltb-IsFloatOrder two_rungs-IsAscending

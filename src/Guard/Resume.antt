-- ===== src/Guard/Resume.antt =====
-- The evaluation that follows a manual resume (internal/application/guards.go).
use meta_posting.Prelude.{
  ℕ, suc, String, Bool, true, false, not, ◌&&◌, ◌||◌, ◌≡◌, refl, ◌∙◌, Option, none, some, List, [],
  ◌∷◌, ◌++◌, arith, if◌then◌else◌,
}
use meta_posting.Schema.{PublishedObject, DbError}
use meta_posting.Guard.{Checkpoint, Observation, checkpoint_satisfied}
use meta_posting.Guard.Order.{IsFloatOrder, IsAscending}
use meta_posting.Guard.Evaluate.{
  CheckStatus, Check, World, is_decided, decided, is_stopped, evaluate_campaign, override_failed,
}
use meta_posting.Guard.Verdict.{is_due_to_pause, evaluate_campaign-pauses}
use meta_posting.Guard.Checks.{lifted, decided-override_failed}

abbrev is_judged : Option CheckStatus → Bool
is_judged none = false
is_judged (some _) = true

module _ {F : Type 0} (lt : F → F → Bool) (zero : F) where
  -- Some rung that the spend has reached was never judged, and is not met.
  pub is_newly_missed : (ℕ → Option CheckStatus) → Observation F → ℕ → List (Checkpoint F) → Bool
  is_newly_missed done o index [] = false
  is_newly_missed done o index (c ∷ cs) =
      not (lt o.spend c.spend)
        && (not (is_judged (done index)) && not (checkpoint_satisfied lt zero c o))
      || is_newly_missed done o (suc index) cs

  lifted_le : (s : Option CheckStatus) → is_decided (lifted s) ≡ is_judged s
  lifted_le none = refl
  lifted_le (some CheckStatus.passed) = refl
  lifted_le (some CheckStatus.failed) = refl
  lifted_le (some CheckStatus.overridden) = refl

  due-override_failed :
      (guard object : ℕ) (checks : List (Check F)) (o : Observation F) (index : ℕ)
      (cs : List (Checkpoint F))
      → is_due_to_pause lt zero (decided guard object (override_failed object checks)) o index cs
        ≡ is_newly_missed (decided guard object checks) o index cs
  unfolding is_due_to_pause is_newly_missed
  due-override_failed guard object checks o index [] = refl
  due-override_failed guard object checks o index (c ∷ cs) = ground (
    arith,
    decided-override_failed object guard object index checks,
    lifted_le (decided guard object checks index),
    due-override_failed guard object checks o (suc index) cs,
  )

  -- The first evaluation after a manual resume asks Meta to pause the campaign exactly if it is
  -- not stopped and its spend has reached a rung that no evaluation had judged and that it misses:
  -- a rung that failed before the resume cannot pause it again.
  pub evaluate_campaign-override_failed :
      (db_message : DbError → String) (guard : ℕ) (checkpoints : List (Checkpoint F))
      (campaign : PublishedObject) (o : Observation F) (pause_error : Option String)
      (paused_by : String) (now : ℕ) (w : World F)
      → IsFloatOrder lt
      → IsAscending lt checkpoints
      → (evaluate_campaign lt zero db_message guard checkpoints campaign
          (some o)
          pause_error
          paused_by
          now
          (record w { checks = override_failed campaign.id w.checks })).0.pauses
        ≡ (if not (is_stopped campaign)
              && is_newly_missed (decided guard campaign.id w.checks) o 0 checkpoints
            then w.pauses ++ campaign.meta_object_id ∷ []
            else w.pauses)
  evaluate_campaign-override_failed db_message guard checkpoints campaign o pause_error paused_by
        now w order up =
      evaluate_campaign-pauses lt zero db_message guard checkpoints campaign o pause_error paused_by
        now (record w { checks = override_failed campaign.id w.checks }) order up
      ∙ rw (due-override_failed guard campaign.id w.checks o 0 checkpoints) refl

-- ===== src/Guard/Verdict.antt =====
-- When an evaluation pauses a campaign (internal/application/guards.go): the loop with its early
-- exits against a test of every rung.
use meta_posting.Prelude.{
  ℕ, suc, String, Bool, true, false, not, ◌&&◌, ◌||◌, ◌≡◌, refl, Option, none, some, List, [], ◌∷◌,
  ◌++◌, All, arith, Bool-cases, inl, inr, if◌then◌else◌,
}
use meta_posting.Schema.{PublishedObject, DbError}
use meta_posting.Guard.{Checkpoint, Observation, checkpoint_satisfied}
use meta_posting.Guard.Order.{IsFloatOrder, IsAscending}
use meta_posting.Guard.Evaluate.{
  CheckStatus, World, is_decided, decided, record_passed, pause_campaign, climb, is_stopped,
  evaluate_campaign,
}

-- A rung that was passed, or lifted by hand.
abbrev pub is_settled : Option CheckStatus → Bool
is_settled (some CheckStatus.passed) = true
is_settled (some CheckStatus.overridden) = true
is_settled (some CheckStatus.failed) = false
is_settled none = false

is_settled-eq : (o : Option CheckStatus) → is_settled o ≡ is_decided o
is_settled-eq (some CheckStatus.passed) = refl
is_settled-eq (some CheckStatus.overridden) = refl
is_settled-eq (some CheckStatus.failed) = refl
is_settled-eq none = refl

module _ {F : Type 0} (lt : F → F → Bool) (zero : F) where
  -- Some rung that the spend has reached was neither passed nor overridden, and is not met.
  unfoldable pub is_due_to_pause :
      (ℕ → Option CheckStatus) → Observation F → ℕ → List (Checkpoint F) → Bool
  is_due_to_pause done o index [] = false
  is_due_to_pause done o index (c ∷ cs) =
      not (lt o.spend c.spend)
        && (not (is_settled (done index)) && not (checkpoint_satisfied lt zero c o))
      || is_due_to_pause done o (suc index) cs

module _ {F : Type 0} (lt : F → F → Bool) (zero : F) (order : IsFloatOrder lt)
    (done : ℕ → Option CheckStatus) (o : Observation F) where
  -- Above the spend no rung counts.
  beyond :
      (c : Checkpoint F) (index : ℕ) (cs : List (Checkpoint F))
      → lt o.spend c.spend ≡ true
      → All (λ d. lt c.spend d.spend ≡ true) cs
      → is_due_to_pause lt zero done o index cs ≡ false
  unfolding is_due_to_pause
  beyond c index [] h up = refl
  beyond c index (d ∷ cs) h up =
      rw (order.trans o.spend c.spend d.spend h up.0) (beyond c (suc index) cs h up.1)

  module _ (guard : ℕ) (campaign : PublishedObject) (db_message : DbError → String)
      (paused_by : String) (now : ℕ) (pause_error : Option String) where
    pause-pauses :
        (index : ℕ) (c : Checkpoint F) (w : World F)
        → (pause_campaign lt zero guard campaign o db_message paused_by now pause_error index c
            w).0.pauses
          ≡ w.pauses ++ campaign.meta_object_id ∷ []
    unfolding pause_campaign
    pause-pauses index c w = ground arith

    climb-pauses :
        (index : ℕ) (cs : List (Checkpoint F)) (w : World F)
        → IsAscending lt cs
        → (climb lt zero guard campaign o db_message paused_by now done pause_error index cs
            w).0.pauses
          ≡ (if is_due_to_pause lt zero done o index cs
              then w.pauses ++ campaign.meta_object_id ∷ []
              else w.pauses)
    unfolding climb is_due_to_pause
    climb-pauses index [] w up = refl
    climb-pauses index (c ∷ cs) w up = elim (Bool-cases (lt o.spend c.spend)) [
      | inl below ↦ rw (below, beyond c (suc index) cs below up.0) refl
      | inr reached ↦ elim (Bool-cases (is_settled (done index))) [
        | inl settled ↦
            rw (reached, ← is_settled-eq (done index), settled) (climb-pauses (suc index) cs w up.1)
        | inr undecided ↦ elim (Bool-cases (checkpoint_satisfied lt zero c o)) [
          | inl met ↦
              rw (reached, ← is_settled-eq (done index), undecided, met)
                (climb-pauses (suc index) cs
                  (record_passed lt zero guard campaign o db_message paused_by now index c w) up.1)
          | inr unmet ↦
              rw (reached, ← is_settled-eq (done index), undecided, unmet) (pause-pauses index c w)
        ]
      ]
    ]

pub evaluate_campaign-pauses :
    {F : Type 0} (lt : F → F → Bool) (zero : F) (db_message : DbError → String) (guard : ℕ)
    (checkpoints : List (Checkpoint F)) (campaign : PublishedObject) (o : Observation F)
    (pause_error : Option String) (paused_by : String) (now : ℕ) (w : World F)
    → IsFloatOrder lt
    → IsAscending lt checkpoints
    → (evaluate_campaign lt zero db_message guard checkpoints campaign
        (some o)
        pause_error
        paused_by
        now
        w).0.pauses
      ≡ (if not (is_stopped campaign)
            && is_due_to_pause lt zero (decided guard campaign.id w.checks) o 0 checkpoints
          then w.pauses ++ campaign.meta_object_id ∷ []
          else w.pauses)
unfolding evaluate_campaign
evaluate_campaign-pauses lt zero db_message guard checkpoints campaign o pause_error paused_by now w
      order up =
    elim (Bool-cases (is_stopped campaign)) [
      | inl stopped ↦ rw stopped
      | inr live ↦ rw live (
          climb-pauses lt zero order (decided guard campaign.id w.checks) o guard campaign
            db_message paused_by now pause_error 0 checkpoints w up)
    ]

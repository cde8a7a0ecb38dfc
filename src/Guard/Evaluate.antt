-- ===== src/Guard/Evaluate.antt =====
-- One evaluation of a guard's ladder for one campaign (internal/application/guards.go) with the
-- checks that it records (internal/platform/database/guard_repository.go). What Meta and the
-- metric tables answer is handed in; the calls of Meta and the audit events are logs.
use meta_posting.Prelude.{
  ℕ, suc, String, Bool, true, false, ◌&&◌, ◌||◌, Option, none, some, List, [], ◌∷◌, ◌++◌, ◌==◌,
  str_eq, if◌then◌else◌,
}
use meta_posting.Prelude.Int.{ℤ, pos}
use meta_posting.Sql.{update_where, find_where}
use meta_posting.Schema.{PublishedObject, Database, DbError, Result, ok, err}
use meta_posting.Batch.Outcome.{update_published_status}
use meta_posting.Guard.{Checkpoint, Observation, checkpoint_satisfied}

pub data CheckStatus : Type 0 where
  passed failed overridden : CheckStatus

-- `GuardCheck`; its unique index is (guard_id, published_object_id, checkpoint_index).
pub record Check (F : Type 0) : Type 0 where
  pub guard_id : ℕ
  pub published_object_id : ℕ
  pub meta_object_id : String
  pub checkpoint_index : ℕ
  pub checkpoint_spend : F
  pub status : CheckStatus
  pub observed : Observation F
  pub thresholds : Checkpoint F
  pub paused : Bool
  pub error : String
  pub evaluated_at : ℕ

abbrev pub same_check : ℕ → ℕ → ℕ → {F : Type 0} → Check F → Bool
same_check guard object index c =
    (c.guard_id == guard) && ((c.published_object_id == object) && (c.checkpoint_index == index))

abbrev pub is_overridden : CheckStatus → Bool
is_overridden CheckStatus.overridden = true
is_overridden _ = false

abbrev pub is_failed : CheckStatus → Bool
is_failed CheckStatus.failed = true
is_failed _ = false

-- What the tables and the outside world hold; `pauses` are the campaigns that Meta was asked to
-- pause, and `audits` the "meta.campaign.paused" events, each with its rung.
pub record World (F : Type 0) : Type 0 where
  pub db : Database
  pub checks : List (Check F)
  pub pauses : List String
  pub audits : List (String × ℕ)

module _ {F : Type 0} where
  -- The columns that an update of a check writes; `checkpoint_spend` is not among them.
  abbrev pub rewritten : Check F → Check F → Check F
  rewritten new old = record old {
    status = new.status;
    observed = new.observed;
    thresholds = new.thresholds;
    paused = new.paused;
    error = new.error;
    evaluated_at = new.evaluated_at;
  }

  abbrev pub same_row : Check F → Check F → Bool
  same_row c = same_check c.guard_id c.published_object_id c.checkpoint_index

  -- `SaveCheck`.
  unfoldable pub save_check : Check F → List (Check F) → List (Check F)
  unfolding find_where update_where
  save_check c checks = elim (find_where (same_row c) checks) [
    | none ↦ checks ++ c ∷ []
    | some old ↦
        if is_overridden old.status then checks else update_where (same_row c) (rewritten c) checks
  ]

  -- The map `decided` that the evaluation builds from `ListChecks`: the last row of an index wins.
  unfoldable pub decided : ℕ → ℕ → List (Check F) → ℕ → Option CheckStatus
  decided guard object [] index = none
  decided guard object (c ∷ cs) index =
      let later = decided guard object cs index in
      elim later [
        | some s ↦ some s
        | none ↦ if same_check guard object index c then some c.status else none
      ]

-- `status, done := decided[index]; done && status != failed`.
abbrev pub is_decided : Option CheckStatus → Bool
is_decided (some CheckStatus.failed) = false
is_decided (some _) = true
is_decided none = false

-- The newest lifetime snapshot of a campaign, and its tracker row.
pub record Snapshot (F : Type 0) : Type 0 where
  pub spend : F
  pub clicks : ℤ
  pub impressions : ℤ

pub record TrackerStat (F : Type 0) : Type 0 where
  pub clicks : ℤ
  pub leads : F
  pub sales : F
  pub revenue : F

module _ {F : Type 0} (lt : F → F → Bool) (zero : F) where
  -- `observeCampaign`; `none` is ErrRecordNotFound for the snapshot.
  unfoldable pub observe_campaign :
      Option (Snapshot F) → Option (TrackerStat F) → Option (Observation F)
  observe_campaign none tracker = none
  observe_campaign (some s) none = some (record {
    spend = s.spend;
    clicks = s.clicks;
    impressions = s.impressions;
    tracker_clicks = pos 0;
    tracker_leads = zero;
    tracker_sales = zero;
    tracker_revenue = zero;
  })
  observe_campaign (some s) (some t) = some (record {
    spend = s.spend;
    clicks = s.clicks;
    impressions = s.impressions;
    tracker_clicks = t.clicks;
    tracker_leads = t.leads;
    tracker_sales = t.sales;
    tracker_revenue = t.revenue;
  })

  module _ (guard : ℕ) (campaign : PublishedObject) (observed : Observation F)
      (db_message : DbError → String) (paused_by : String) (now : ℕ) where
    abbrev pub new_check : CheckStatus → Bool → String → ℕ → Checkpoint F → Check F
    new_check status paused error index c = record {
      guard_id = guard;
      published_object_id = campaign.id;
      meta_object_id = campaign.meta_object_id;
      checkpoint_index = index;
      checkpoint_spend = c.spend;
      status = status;
      observed = observed;
      thresholds = c;
      paused = paused;
      error = error;
      evaluated_at = now;
    }

    abbrev pub record_passed : ℕ → Checkpoint F → World F → World F
    record_passed index c w = record w {
      checks = save_check (new_check CheckStatus.passed false "" index c) w.checks;
    }

    -- The database after `UpdatePublishedStatus`, and the text of its error.
    abbrev status_written : Database → Result Database → Database × String
    status_written db (ok db') = (db', "")
    status_written db (err e) = (db, db_message e)

    -- A rung that is not met: Meta is asked to pause the campaign, and the outcome is recorded.
    unfoldable pub pause_campaign :
        Option String → ℕ → Checkpoint F → World F → World F × Option String
    unfolding save_check update_published_status
    pause_campaign (some e) index c w = (
      record w {
        checks = save_check (new_check CheckStatus.failed false e index c) w.checks;
        pauses = w.pauses ++ campaign.meta_object_id ∷ [];
      },
      some e,
    )
    pause_campaign none index c w =
        let (db, error) =
          status_written w.db (update_published_status campaign.id "PAUSED" paused_by now w.db) in
        (
          record w {
            db = db;
            checks = save_check (new_check CheckStatus.failed true error index c) w.checks;
            pauses = w.pauses ++ campaign.meta_object_id ∷ [];
            audits = w.audits ++ (campaign.meta_object_id, index) ∷ [];
          },
          none,
        )

    -- The loop over the ladder, from the rung at `index`.
    unfoldable pub climb :
        (ℕ → Option CheckStatus)
        → Option String
        → ℕ
        → List (Checkpoint F)
        → World F
        → World F × Option String
    unfolding pause_campaign checkpoint_satisfied
    climb done pause_error index [] w = (w, none)
    climb done pause_error index (c ∷ cs) w =
        let skipped = climb done pause_error (suc index) cs w in
        let passed_on = climb done pause_error (suc index) cs (record_passed index c w) in
        if lt observed.spend c.spend
        then (w, none)
        else if is_decided (done index)
        then skipped
        else if checkpoint_satisfied lt zero c observed
        then passed_on
        else pause_campaign pause_error index c w

abbrev pub is_stopped : PublishedObject → Bool
is_stopped c =
    str_eq c.effective_status "PAUSED"
    || (str_eq c.effective_status "ARCHIVED" || str_eq c.effective_status "DELETED")

module _ {F : Type 0} (lt : F → F → Bool) (zero : F) (db_message : DbError → String) where
  -- `evaluateGuardCampaign`: the world after it, and the error that it returns.
  unfoldable pub evaluate_campaign :
      ℕ
      → List (Checkpoint F)
      → PublishedObject
      → Option (Observation F)
      → Option String
      → String
      → ℕ
      → World F
      → World F × Option String
  unfolding climb decided
  evaluate_campaign guard checkpoints campaign observation pause_error paused_by now w =
      if is_stopped campaign then (w, none) else elim observation [
        | none ↦ (w, none)
        | some observed ↦
            climb lt zero guard campaign observed db_message paused_by now
              (decided guard campaign.id w.checks) pause_error 0 checkpoints w
      ]

-- `overrideFailedChecks`.
unfoldable pub override_failed : {F : Type 0} → ℕ → List (Check F) → List (Check F)
unfolding update_where
override_failed object checks =
    update_where (λ c. (c.published_object_id == object) && is_failed c.status)
      (λ c. record c { status = CheckStatus.overridden }) checks

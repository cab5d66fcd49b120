-- ===== src/Campaign/Step.antt =====
-- What may happen to the campaign tables: a rule for each operation of src/modules/campaigns that
-- writes campaigns or campaign_runs (campaign-run.repository.ts, campaign-run-lifecycle.repository.ts,
-- campaign-delivery.repository.ts, campaign.repository.ts), and for deleteCampaignRuns of src/modules/orchestration/data-retention.tick.ts.
use wa_runtime.Base.{ℕ, String, Bool, false, not, ◌&&◌, List, [], ◌≡◌}
use wa_runtime.Base.Sql.{delete_where}
use wa_runtime.Base.Keys.{has_key}
use wa_runtime.Message.Repository.{Store}
use wa_runtime.Campaign.Tables.{
  Db, Campaign, CampaignRun, PreflightStatus, Observed, run_id, is_open,
}
use wa_runtime.GroupList.Table.{Ranks, Lists}
use wa_runtime.Campaign.Drafts.{
  DraftInput, Content, ApplyInput, DeleteInput, create_draft, update_draft, replace_targets,
  apply_group_list_targets, delete_draft,
}
use wa_runtime.Campaign.Launch.{LaunchInput, create}
use wa_runtime.Campaign.Preparation.{
  claim_preparation, recover_expired_preparations, fail_preparation_attempt, apply_preflight,
  live_runs,
}
use wa_runtime.Campaign.Lifecycle.{
  activate_due, finalize, pause, record_blocked_resume, resume, cancel,
}
use wa_runtime.Campaign.Delivery.{Supply, materialize_pending, reconcile}

abbrev pub campaign_id : Campaign → ℕ
campaign_id c = c.id

-- A retention batch: the runs that it may delete are terminal, and chosen says which it takes.
abbrev pub expirable : (CampaignRun → Bool) → CampaignRun → Bool
expirable chosen r = not (is_open r.status) && chosen r

unfoldable pub delete_campaign_runs : (CampaignRun → Bool) → Db → Db
delete_campaign_runs chosen db = record db { runs = delete_where (expirable chosen) db.runs }

pub data Step (db : Db) : Db → Type 0 where
  drafted :
      (input : DraftInput) (new_id now : ℕ)
      → has_key campaign_id new_id db.campaigns ≡ false
      → live_runs new_id db.runs ≡ []
      → Step db (create_draft input new_id now db).1
  edited : (id : ℕ) (x : Content) (expected now : ℕ) → Step db (update_draft id x expected now db).1
  targets_replaced :
      (ranks : Ranks) (id : ℕ) (ids : List ℕ) (expected now : ℕ)
      → Step db (replace_targets ranks id ids expected now db).1
  list_applied :
      (ranks : Ranks) (input : ApplyInput) (lists : Lists) (now : ℕ)
      → Step db (apply_group_list_targets ranks input lists now db).1
  campaign_deleted : (input : DeleteInput) (now : ℕ) → Step db (delete_draft input now db).1
  launched :
      (input : LaunchInput) (new_id js_now now : ℕ)
      → has_key run_id new_id db.runs ≡ false
      → Step db (create input new_id js_now now db).1
  claimed : (id token now : ℕ) → Step db (claim_preparation id token now db).1
  recovered : (now : ℕ) → Step db (recover_expired_preparations now db).1
  attempt_failed :
      (id token : ℕ) (message : String) (now : ℕ)
      → Step db (fail_preparation_attempt id token message now db).1
  preflighted :
      (id token : ℕ) (report : PreflightStatus) (observed : List Observed) (js_now now : ℕ)
      → Step db (apply_preflight id token report observed js_now now db).1
  activated : (now : ℕ) → Step db (activate_due now db).1
  finalized : (limit now : ℕ) → Step db (finalize limit now db).1
  paused_by_operator : (id now : ℕ) → Step db (pause id now db).1
  blocked_again : (id : ℕ) (report : PreflightStatus) → Step db (record_blocked_resume id report db)
  resumed_by_operator :
      (id : ℕ) (report : PreflightStatus) (observed : List Observed) (js_now now : ℕ)
      → Step db (resume id report observed js_now now db).1
  cancelled_by_operator : (id : ℕ) (gone : ℕ → Bool) (now : ℕ) → Step db (cancel id gone now db).1
  reconciled : (s : Store) → Step db (reconcile s db)
  materialized_some :
      (sup : Supply) (id max_buffered : ℕ) (s : Store)
      → Step db (materialize_pending sup id max_buffered db s).1
  expired : (chosen : CampaignRun → Bool) → Step db (delete_campaign_runs chosen db)

pub data Reach (db : Db) : Db → Type 0 where
  here : Reach db db
  next : {d e : Db} → Reach db d → Step d e → Reach db e

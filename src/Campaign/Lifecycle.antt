-- ===== src/Campaign/Lifecycle.antt =====
-- src/modules/campaigns/campaign-run-lifecycle.repository.ts. Its UPDATE of message_jobs in cancel is
-- Message.Step.cancel_jobs, given the identifiers that this file computes.
use wa_runtime.Base.{
  ℕ, String, Bool, true, false, not, ◌&&◌, ◌||◌, Option, none, some, List, [], ◌∷◌, ◌==◌, leb, ltb,
  or_else, if◌then◌else◌, filter, any, map, length, take, member,
}
use wa_runtime.Base.Sql.{update_where, first_row, row_count, order_by}
use wa_runtime.Campaign.Tables.{
  Db, CampaignRun, PreflightStatus, RunStatus, running, scheduled, run_paused, blocked, completed,
  partial_failed, cancelled, active, paused, archived, is_live_run, is_running, is_held, is_open,
  is_underway, is_active, is_paused, by_run_id, set_campaigns, active_or_paused, campaign_ids,
  first_only, returning, refresh_targets, add_deliveries, capability_snapshot_changed, Observed,
  Delivery, DeliveryStatus, pending, materialized, processing, delivery_failed, unknown_outcome,
  blocked_capability_changed, delivery_cancelled, RunTarget, same_delivery, run_id,
}

abbrev pub is_scheduled_run : RunStatus → Bool
is_scheduled_run scheduled = true
is_scheduled_run _ = false

abbrev pub due_run : ℕ → CampaignRun → Bool
due_run now r = is_scheduled_run r.status && leb r.scheduled_at now

abbrev pub activate_row : ℕ → CampaignRun → CampaignRun
activate_row now r = record r {
  status = running;
  status_reason = none;
  started_at = some (or_else r.started_at now);
}

unfoldable pub activate_due : ℕ → Db → ℕ × Db
activate_due now db = (
  row_count (due_run now) db.runs,
  record db { runs = update_where (due_run now) (activate_row now) db.runs },
)

-- status NOT IN ('PENDING','MATERIALIZED','PROCESSING').
abbrev pub is_settled : DeliveryStatus → Bool
is_settled pending = false
is_settled materialized = false
is_settled processing = false
is_settled _ = true

-- status IN ('FAILED','UNKNOWN','BLOCKED_CAPABILITY_CHANGED','CANCELLED').
abbrev pub is_unsuccessful : DeliveryStatus → Bool
is_unsuccessful delivery_failed = true
is_unsuccessful unknown_outcome = true
is_unsuccessful blocked_capability_changed = true
is_unsuccessful delivery_cancelled = true
is_unsuccessful _ = false

abbrev pub of_run : ℕ → Delivery → Bool
of_run run d = d.run_id == run

-- The JOIN and HAVING clauses: the run has deliveries, and each is settled.
abbrev pub all_settled : ℕ → List Delivery → Bool
all_settled run ds =
    any (of_run run) ds && not (any (λ d. of_run run d && not (is_settled d.status)) ds)

abbrev pub has_failure : ℕ → List Delivery → Bool
has_failure run ds = any (λ d. of_run run d && is_unsuccessful d.status) ds

abbrev pub finalizable : List Delivery → CampaignRun → Bool
finalizable ds r = is_running r.status && all_settled r.id ds

-- The runs that the common table expression finalizable yields.
abbrev pub finalizable_runs : ℕ → Db → List CampaignRun
finalizable_runs limit db =
    take limit (order_by (λ r. or_else r.started_at 0) (filter (finalizable db.deliveries) db.runs))

abbrev pub chosen : List CampaignRun → CampaignRun → Bool
chosen rows r = member r.id (map run_id rows)

abbrev pub finish_row : List Delivery → ℕ → CampaignRun → CampaignRun
finish_row ds now r = record r {
  status = if has_failure r.id ds then partial_failed else completed;
  status_reason = if has_failure r.id ds then some "ONE_OR_MORE_DELIVERIES_FAILED" else none;
  completed_at = some now;
}

unfoldable pub finalize : ℕ → ℕ → Db → ℕ × Db
finalize limit now db =
    let sel = chosen (finalizable_runs limit db) in
    let rows = returning sel (finish_row db.deliveries now) db.runs in
    (
      length rows,
      record db {
        runs = update_where sel (finish_row db.deliveries now) db.runs;
        campaigns =
            set_campaigns (campaign_ids is_live_run rows) active_or_paused archived now
              db.campaigns;
      },
    )

abbrev pub pausable : ℕ → CampaignRun → Bool
pausable id r = by_run_id id r && is_underway r.status

abbrev pub pause_row : String → CampaignRun → CampaignRun
pause_row reason r = record r { status = run_paused; status_reason = some reason }

abbrev pub found_row : List CampaignRun → Option CampaignRun
found_row [] = none
found_row (r ∷ rs) = some r

unfoldable pub pause : ℕ → ℕ → Db → Option CampaignRun × Db
pause id now db =
    let rows = returning (pausable id) (pause_row "MANUAL_PAUSE") db.runs in
    (
      found_row rows,
      record db {
        runs = update_where (pausable id) (pause_row "MANUAL_PAUSE") db.runs;
        campaigns =
            set_campaigns (campaign_ids is_live_run (first_only rows)) is_active paused now
              db.campaigns;
      },
    )

abbrev pub resumable : ℕ → CampaignRun → Bool
resumable id r = by_run_id id r && is_held r.status

abbrev pub block_again : PreflightStatus → CampaignRun → CampaignRun
block_again report r = record r {
  status = blocked;
  status_reason = some "PREFLIGHT_BLOCKED";
  preflight = some report;
}

unfoldable pub record_blocked_resume : ℕ → PreflightStatus → Db → Db
record_blocked_resume id report db = record db {
  runs = update_where (resumable id) (block_again report) db.runs;
}

pub data ResumeResult : Type 0 where
  resumed stale_input not_resumable : ResumeResult

abbrev pub is_pending : DeliveryStatus → Bool
is_pending pending = true
is_pending _ = false

-- NOT EXISTS a delivery of the target that is past PENDING.
abbrev pub untouched : List Delivery → RunTarget → Bool
untouched ds t =
    not (any (λ d. same_delivery t.run_id t.group_id d && not (is_pending d.status)) ds)

abbrev pub resume_row : PreflightStatus → Bool → ℕ → CampaignRun → CampaignRun
resume_row report later now r = record r {
  status = if later then scheduled else running;
  status_reason = none;
  preflight = some report;
  started_at = if later then r.started_at else some (or_else r.started_at now);
  completed_at = none;
}

resume_run : CampaignRun → PreflightStatus → ℕ → ℕ → Db → Db
resume_run run report js_now now db =
    let ts = refresh_targets run.id (untouched db.deliveries) db.groups db.run_targets in
    record db {
      run_targets = ts;
      deliveries = add_deliveries run.id ts db.deliveries;
      runs =
          update_where (by_run_id run.id) (resume_row report (ltb js_now run.scheduled_at) now)
            db.runs;
      campaigns =
          set_campaigns (campaign_ids is_live_run (run ∷ [])) is_paused active now db.campaigns;
    }

resume_locked :
    Option CampaignRun → PreflightStatus → List Observed → ℕ → ℕ → Db → ResumeResult × Db
unfolding resume_run
resume_locked none report observed js_now now db = (not_resumable, db)
resume_locked (some run) report observed js_now now db =
    if not (is_held run.status)
    then (not_resumable, db)
    else if capability_snapshot_changed db run.id observed
    then (stale_input, db)
    else (resumed, resume_run run report js_now now db)

unfoldable pub resume : ℕ → PreflightStatus → List Observed → ℕ → ℕ → Db → ResumeResult × Db
unfolding resume_locked
resume id report observed js_now now db =
    resume_locked (first_row (by_run_id id) db.runs) report observed js_now now db

-- cancel. gone says which message jobs are CANCELLED after the statement on message_jobs.
abbrev pub attached_job : (ℕ → Bool) → Option ℕ → Bool
attached_job gone none = false
attached_job gone (some job) = gone job

abbrev pub cancel_selected : ℕ → (ℕ → Bool) → Delivery → Bool
cancel_selected run gone d =
    of_run run d && (is_pending d.status || attached_job gone d.message_job_id)

abbrev pub cancel_delivery : Delivery → Delivery
cancel_delivery d = record d {
  status = delivery_cancelled;
  failure_reason = some "Campaign run cancelled";
}

abbrev pub cancel_row : ℕ → CampaignRun → CampaignRun
cancel_row now r = record r {
  status = cancelled;
  status_reason = some "CANCELLED_BY_OPERATOR";
  completed_at = some now;
}

cancel_run : CampaignRun → (ℕ → Bool) → ℕ → Db → Db
cancel_run run gone now db = record db {
  deliveries =
      update_where (cancel_selected run.id gone) cancel_delivery
        (add_deliveries run.id db.run_targets db.deliveries);
  runs = update_where (by_run_id run.id) (cancel_row now) db.runs;
  campaigns =
      set_campaigns (campaign_ids is_live_run (run ∷ [])) active_or_paused archived now
        db.campaigns;
}

unfoldable pub cancel_locked : Option CampaignRun → (ℕ → Bool) → ℕ → Db → Bool × Db
unfolding cancel_run
cancel_locked none gone now db = (false, db)
cancel_locked (some run) gone now db =
    if is_open run.status then (true, cancel_run run gone now db) else (false, db)

unfoldable pub cancel : ℕ → (ℕ → Bool) → ℕ → Db → Bool × Db
unfolding cancel_locked
cancel id gone now db = cancel_locked (first_row (by_run_id id) db.runs) gone now db

-- ===== src/Campaign/Examples.antt =====
-- Runs of the campaign tables at concrete inputs.
use wa_runtime.Base.{◌+◌, true, false, not, ◌&&◌, none, some, [], ◌∷◌, ◌≡◌, ◌≢◌, ◌⊎◌, refl, All}
use wa_runtime.Message.Policy.{allowed, unknown}
use wa_runtime.Campaign.Tables.{Db, Campaign, live, dry_run, warn, block, pass}
use wa_runtime.Campaign.Drafts.{DraftInput, new_campaign, create_draft, create_draft_on}
use wa_runtime.Campaign.Launch.{LaunchInput, create, created}
use wa_runtime.Campaign.Preparation.{audit_lifecycle, claim_preparation, apply_preflight}
use wa_runtime.Campaign.Lifecycle.{pause, cancel}
use wa_runtime.Campaign.Step.{
  Reach, here, next, drafted, launched, claimed, preflighted, paused_by_operator,
  cancelled_by_operator,
}
use wa_runtime.Campaign.Audit.{audit-no_drift, no_drift, empty}
use wa_runtime.Base.{◌-◌, ◌≤◌, length}
use wa_runtime.Base.Sql.{first_row}
use wa_runtime.Message.Repository.{Store}
use wa_runtime.Campaign.Tables.{
  CampaignRun, by_run_id, is_live_run, is_running, capability_snapshot_changed,
}
use wa_runtime.Campaign.Delivery.{Supply, materialize_pending, buffered, can_send}
use wa_runtime.Campaign.Buffering.{materialize_pending-bounded}
use wa_runtime.Campaign.Replays.{MayLaunch, Launched, create-Outcome}
use wa_runtime.Campaign.Preflight.{PreflightInput, content_ok, session_ready, no_items, evaluate}
use wa_runtime.Campaign.Verdict.{Sendable, targets-add_up, live_report-Sendable, dry_run_report}
use wa_runtime.Base.Answer.{then_call}
use wa_runtime.Campaign.Launch.{launch_on, launch_found, launch_new}
use wa_runtime.Campaign.Lifecycle.{cancel_locked}
use wa_runtime.Campaign.Service.{Env}
use wa_runtime.Campaign.RunService.{
  cancel_run_of, check_status, get_run, cancel_answer, run_state_changed,
}
use wa_runtime.Campaign.RunRefusals.{RunRequest, cancel_request, perform, perform-kept}

abbrev first_draft : DraftInput
first_draft = record {
  session = 4;
  title = 8;
  body = 6;
  one_time = false;
  due = none;
  key = 3;
  hash = 4;
}

abbrev first_campaign : Campaign
first_campaign = new_campaign first_draft 1 0

abbrev live_launch : LaunchInput
live_launch = record {
  campaign = 1;
  key = 2;
  mode = live;
  expected_campaign_revision = some 1;
  expected_targets_revision = none;
}

abbrev with_campaign : Db
with_campaign = record empty { campaigns = first_campaign ∷ [] }

abbrev with_run : Db
with_run = (create live_launch 10 50 50 with_campaign).1

abbrev prepared : Db
prepared = (apply_preflight 10 77 pass [] 200 200 (claim_preparation 10 77 100 with_run).1).1

abbrev withdrawn : Db
withdrawn = (cancel 10 (λ r. false) 400 (pause 10 300 prepared).1).1

one_campaign : Reach empty withdrawn
unfolding create_draft create_draft_on
one_campaign =
    next
      (next
        (next
          (next
            (next (next here (drafted first_draft 1 0 refl refl))
              (launched live_launch 10 50 50 refl))
            (claimed 10 77 100))
          (preflighted 10 77 pass [] 200 200))
        (paused_by_operator 10 300))
      (cancelled_by_operator 10 (λ r. false) 400)

audit-no_drift_example : audit_lifecycle withdrawn ≡ no_drift
audit-no_drift_example = audit-no_drift one_campaign

create-Outcome_example :
    let (result, after) = create live_launch 10 50 50 with_campaign in
    (((run : CampaignRun) → result ≢ created run) × (after ≡ with_campaign))
    ⊎ ((c : Campaign) × (run : CampaignRun) × (result ≡ created run)
        × MayLaunch live_launch with_campaign c
        × Launched live_launch c 10 50 50 with_campaign after run)
create-Outcome_example = create-Outcome live_launch 10 50 50 with_campaign

abbrev live_input : PreflightInput
live_input = record {
  mode = live;
  text = 72 ∷ 105 ∷ [];
  targets =
      record { group_id = 1; capability = allowed; invalidated = false }
      ∷ record { group_id = 2; capability = unknown; invalidated = false }
      ∷ [];
  session = record { ready = true; engine_loaded = true; restricted = false };
  live_sends_enabled = true;
  campaign_revision = 1;
  targets_revision = 1;
}

abbrev dry_input : PreflightInput
dry_input = record live_input { mode = dry_run }

targets-add_up_example :
    let r = evaluate live_input in
    r.allowed_targets + r.denied_targets + r.unknown_targets ≡ r.total_targets
targets-add_up_example = targets-add_up live_input

live_report-Sendable_example :
    ((evaluate live_input).status ≢ warn)
    × ((evaluate live_input).status ≢ block
        → (content_ok live_input.text ≡ true)
          × (live_input.targets ≢ [])
          × (All Sendable live_input.targets)
          × (session_ready live_input.session ≡ true)
          × (live_input.live_sends_enabled ≡ true))
live_report-Sendable_example = live_report-Sendable live_input refl

dry_run_report_example :
    (((evaluate dry_input).status ≡ block)
      → (content_ok dry_input.text
          && not (no_items dry_input.targets)
          && session_ready dry_input.session)
        ≡ false)
    × ((content_ok dry_input.text
            && not (no_items dry_input.targets)
            && session_ready dry_input.session)
          ≡ false
        → (evaluate dry_input).status ≡ block)
dry_run_report_example = dry_run_report dry_input refl

abbrev supply : Supply
supply = record {
  now = 250;
  js_now = 250;
  locked_elsewhere = λ d. false;
  session = λ s. none;
  new_job_id = λ run group. 100 + group;
  request_hash = λ session group text dry. 1;
  scope_of = λ run. run;
}

abbrev no_messages : Store
no_messages = record { jobs = []; attempts = [] }

materialize_pending-bounded_example :
    let (n, db', s') = materialize_pending supply 10 5 prepared no_messages in
    (n ≤ 5 - buffered 10 no_messages prepared.deliveries)
    × (length s'.jobs ≤ length no_messages.jobs + n)
    × ((run : CampaignRun)
        → first_row (by_run_id 10) prepared.runs ≡ some run
        → (is_running run.status ≡ false → (n ≡ 0) × (db' ≡ prepared) × (s' ≡ no_messages))
          × (is_live_run run ≡ true
              → can_send none ≡ false
              → (n ≡ 0) × (db'.deliveries ≡ prepared.deliveries) × (s' ≡ no_messages)))
materialize_pending-bounded_example = materialize_pending-bounded supply 10 5 prepared no_messages

abbrev one_session : Env
one_session = record {
  allowed = 4 ∷ [];
  trim = λ k. k;
  is_uuid = λ k. true;
  parse_date = λ d. some d;
  print_date = λ d. d;
  digest = λ session x. x.title;
}

-- The operator saw the run in progress, and another had cancelled it before the repository looked.
abbrev late_cancel : RunRequest
late_cancel = cancel_request 10 (λ r. false) 500 prepared

late_cancel_refused :
    (perform one_session (λ t. 1) late_cancel withdrawn).0 ≡ some run_state_changed
unfolding perform cancel_run_of check_status get_run cancel_answer then_call cancel cancel_locked
    create launch_on launch_found launch_new claim_preparation apply_preflight pause create_draft
    create_draft_on capability_snapshot_changed
late_cancel_refused = refl

perform-kept_example : (perform one_session (λ t. 1) late_cancel withdrawn).1 ≡ withdrawn
perform-kept_example = perform-kept one_session (λ t. 1) late_cancel withdrawn late_cancel_refused

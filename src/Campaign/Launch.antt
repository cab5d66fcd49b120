-- ===== src/Campaign/Launch.antt =====
-- CampaignRunRepository.create: src/modules/campaigns/campaign-run.repository.ts. js_now is the time
-- that new Date() gives, now the database's.
use wa_runtime.Base.{
  ℕ, Bool, false, not, ◌&&◌, ◌||◌, Option, none, some, List, [], ◌∷◌, ◌++◌, ◌==◌, leb, is_null,
  or_else, if◌then◌else◌, any, filter, map,
}
use wa_runtime.Base.Sql.{first_row}
use wa_runtime.Campaign.Tables.{
  Db, Campaign, CampaignRun, CampaignTarget, RunTarget, GroupRow, Mode, preparing, active, is_live,
  same_mode, is_draft, set_campaigns, group_of,
}

pub record LaunchInput : Type 0 where
  pub campaign : ℕ
  pub key : ℕ
  pub mode : Mode
  pub expected_campaign_revision : Option ℕ
  pub expected_targets_revision : Option ℕ

pub data LaunchResult : Type 0 where
  campaign_not_found campaign_not_launchable schedule_expired : LaunchResult
  replayed : CampaignRun → (idempotency_conflict : Bool) → LaunchResult
  revision_conflict : (current_campaign_revision current_targets_revision : ℕ) → LaunchResult
  created : CampaignRun → LaunchResult

abbrev pub launchable_row : ℕ → Campaign → Bool
launchable_row id c = c.id == id && is_null c.deleted_at

abbrev pub run_with_key : ℕ → ℕ → CampaignRun → Bool
run_with_key campaign key r = r.campaign_id == campaign && r.idempotency_key == key

abbrev pub live_run_of : ℕ → CampaignRun → Bool
live_run_of campaign r = is_live r.mode && r.campaign_id == campaign

-- An expected revision that is given and differs.
abbrev pub differs : Option ℕ → ℕ → Bool
differs none current = false
differs (some expected) current = not (expected == current)

abbrev pub due_by : Option ℕ → ℕ → Bool
due_by none js_now = false
due_by (some t) js_now = leb t js_now

abbrev pub scheduled_for : Campaign → ℕ → ℕ
scheduled_for c js_now = if c.once then or_else c.scheduled_at js_now else js_now

abbrev pub new_run : LaunchInput → Campaign → ℕ → ℕ → ℕ → CampaignRun
new_run input c new_id js_now now = record {
  id = new_id;
  campaign_id = c.id;
  session_id = c.session_id;
  idempotency_key = input.key;
  mode = input.mode;
  text = c.text;
  status = preparing;
  status_reason = none;
  scheduled_at = scheduled_for c js_now;
  started_at = none;
  completed_at = none;
  campaign_revision = c.revision;
  targets_revision = c.targets_revision;
  target_source = c.target_source;
  preflight = none;
  attempt_count = 0;
  next_attempt_at = now;
  lease_token = none;
  lease_expires_at = none;
  error = none;
}

unfoldable pub run_target : ℕ → CampaignTarget → GroupRow → RunTarget
run_target run t g = record {
  run_id = run;
  session_id = t.session_id;
  group_id = t.group_id;
  capability = g.capability;
  revision = g.revision;
}

unfoldable pub run_targets_of : ℕ → CampaignTarget → List GroupRow → List RunTarget
unfolding run_target
run_targets_of run t groups =
    map (run_target run t) (filter (group_of t.session_id t.group_id) groups)

-- INSERT INTO campaign_run_targets … FROM campaign_targets JOIN gateway_groups.
unfoldable pub snapshot_targets : ℕ → ℕ → List GroupRow → List CampaignTarget → List RunTarget
unfolding run_targets_of
snapshot_targets run campaign groups [] = []
snapshot_targets run campaign groups (t ∷ ts) =
    let rest = snapshot_targets run campaign groups ts in
    if t.campaign_id == campaign && t.enabled then run_targets_of run t groups ++ rest else rest

abbrev pub insert_run : LaunchInput → Campaign → ℕ → ℕ → ℕ → Db → Db
insert_run input c new_id js_now now db = record db {
  runs = db.runs ++ new_run input c new_id js_now now ∷ [];
  run_targets = db.run_targets ++ snapshot_targets new_id c.id db.groups db.targets;
  campaigns =
      if is_live input.mode
      then set_campaigns (c.id ∷ []) is_draft active now db.campaigns
      else db.campaigns;
}

-- The unique indexes on (campaign_id, idempotency_key) and on the LIVE run of a campaign.
abbrev pub insert_conflicts : LaunchInput → Campaign → Db → Bool
insert_conflicts input c db =
    any (run_with_key c.id input.key) db.runs
    || (is_live input.mode && any (live_run_of c.id) db.runs)

unfoldable pub replay_on : Option CampaignRun → LaunchInput → LaunchResult
replay_on none input = campaign_not_launchable
replay_on (some r) input = replayed r (not (same_mode r.mode input.mode))

unfoldable pub launch_new : LaunchInput → Campaign → ℕ → ℕ → ℕ → Db → LaunchResult × Db
unfolding replay_on
launch_new input c new_id js_now now db =
    if any (live_run_of c.id) db.runs
    then (campaign_not_launchable, db)
    else if differs input.expected_campaign_revision c.revision
        || differs input.expected_targets_revision c.targets_revision
    then (revision_conflict c.revision c.targets_revision, db)
    else if not (is_draft c.status)
    then (campaign_not_launchable, db)
    else if is_live input.mode && c.once && due_by c.scheduled_at js_now
    then (schedule_expired, db)
    else if insert_conflicts input c db
    then (replay_on (first_row (run_with_key c.id input.key) db.runs) input, db)
    else (created (new_run input c new_id js_now now), insert_run input c new_id js_now now db)

unfoldable pub launch_found :
    LaunchInput → Campaign → Option CampaignRun → ℕ → ℕ → ℕ → Db → LaunchResult × Db
unfolding launch_new
launch_found input c (some r) new_id js_now now db =
    (replayed r (not (same_mode r.mode input.mode)), db)
launch_found input c none new_id js_now now db = launch_new input c new_id js_now now db

unfoldable pub launch_on : LaunchInput → Option Campaign → ℕ → ℕ → ℕ → Db → LaunchResult × Db
unfolding launch_found
launch_on input none new_id js_now now db = (campaign_not_found, db)
launch_on input (some c) new_id js_now now db =
    launch_found input c (first_row (run_with_key c.id input.key) db.runs) new_id js_now now db

unfoldable pub create : LaunchInput → ℕ → ℕ → ℕ → Db → LaunchResult × Db
unfolding launch_on
create input new_id js_now now db =
    launch_on input (first_row (launchable_row input.campaign) db.campaigns) new_id js_now now db

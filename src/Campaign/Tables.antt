-- ===== src/Campaign/Tables.antt =====
-- The tables that src/modules/campaigns writes: campaigns, campaign_runs, campaign_run_targets,
-- campaign_targets, campaign_deliveries, and gateway_groups as it reads it, with the statements that
-- several operations share. The four target_source columns stand as one record.
use wa_runtime.Base.{
  ℕ, String, Bool, true, false, not, ◌&&◌, ◌||◌, Option, none, some, List, [], ◌∷◌, ◌++◌, map, ◌==◌,
  if◌then◌else◌, filter, any, member,
}
use wa_runtime.Base.Sql.{update_where, first_row}
use wa_runtime.Message.Policy.{Capability}

pub data CampaignStatus : Type 0 where
  draft active paused archived : CampaignStatus

pub data RunStatus : Type 0 where
  preparing blocked scheduled running run_paused completed partial_failed cancelled failed :
      RunStatus

pub data Mode : Type 0 where
  dry_run live : Mode

pub data PreflightStatus : Type 0 where
  pass warn block : PreflightStatus

pub data DeliveryStatus : Type 0 where
  pending materialized processing dry_run_completed accepted sent delivered read : DeliveryStatus
  delivery_failed unknown_outcome blocked_capability_changed delivery_cancelled : DeliveryStatus

pub record TargetSource : Type 0 where
  pub group_list_id : ℕ
  pub group_list_name : ℕ
  pub membership_revision : ℕ
  pub applied_at : ℕ

pub record Campaign : Type 0 where
  pub id : ℕ
  pub session_id : ℕ
  pub name : ℕ
  pub text : ℕ
  pub once : Bool  -- schedule_type is ONCE
  pub scheduled_at : Option ℕ
  pub status : CampaignStatus
  pub revision : ℕ
  pub targets_revision : ℕ
  pub target_source : Option TargetSource
  pub create_idempotency_key : ℕ
  pub create_request_hash : ℕ
  pub deleted_at : Option ℕ
  pub updated_at : ℕ

pub record CampaignRun : Type 0 where
  pub id : ℕ
  pub campaign_id : ℕ
  pub session_id : ℕ
  pub idempotency_key : ℕ
  pub mode : Mode
  pub text : ℕ
  pub status : RunStatus
  pub status_reason : Option String
  pub scheduled_at : ℕ
  pub started_at : Option ℕ
  pub completed_at : Option ℕ
  pub campaign_revision : ℕ
  pub targets_revision : ℕ
  pub target_source : Option TargetSource
  pub preflight : Option PreflightStatus
  pub attempt_count : ℕ
  pub next_attempt_at : ℕ
  pub lease_token : Option ℕ
  pub lease_expires_at : Option ℕ
  pub error : Option String

pub record CampaignTarget : Type 0 where
  pub campaign_id : ℕ
  pub session_id : ℕ
  pub group_id : ℕ
  pub enabled : Bool

pub record RunTarget : Type 0 where
  pub run_id : ℕ
  pub session_id : ℕ
  pub group_id : ℕ
  pub capability : Capability
  pub revision : ℕ

pub record GroupRow : Type 0 where
  pub session_id : ℕ
  pub id : ℕ
  pub capability : Capability
  pub revision : ℕ
  pub invalidated : Bool

pub record Delivery : Type 0 where
  pub run_id : ℕ
  pub group_id : ℕ
  pub status : DeliveryStatus
  pub message_job_id : Option ℕ
  pub failure_reason : Option String

pub record Db : Type 0 where
  pub campaigns : List Campaign
  pub runs : List CampaignRun
  pub targets : List CampaignTarget
  pub run_targets : List RunTarget
  pub groups : List GroupRow
  pub deliveries : List Delivery

abbrev pub is_live : Mode → Bool
is_live live = true
is_live dry_run = false

abbrev pub same_mode : Mode → Mode → Bool
same_mode live live = true
same_mode dry_run dry_run = true
same_mode _ _ = false

abbrev pub is_draft : CampaignStatus → Bool
is_draft draft = true
is_draft _ = false

abbrev pub is_active : CampaignStatus → Bool
is_active active = true
is_active _ = false

abbrev pub is_paused : CampaignStatus → Bool
is_paused paused = true
is_paused _ = false

abbrev pub is_archived : CampaignStatus → Bool
is_archived archived = true
is_archived _ = false

abbrev pub is_preparing : RunStatus → Bool
is_preparing preparing = true
is_preparing _ = false

abbrev pub is_running : RunStatus → Bool
is_running running = true
is_running _ = false

abbrev pub is_run_failed : RunStatus → Bool
is_run_failed failed = true
is_run_failed _ = false

-- status IN ('PREPARING','BLOCKED','SCHEDULED','RUNNING','PAUSED').
abbrev pub is_open : RunStatus → Bool
is_open preparing = true
is_open blocked = true
is_open scheduled = true
is_open running = true
is_open run_paused = true
is_open _ = false

-- status IN ('PAUSED','BLOCKED').
abbrev pub is_held : RunStatus → Bool
is_held run_paused = true
is_held blocked = true
is_held _ = false

-- status IN ('SCHEDULED','RUNNING').
abbrev pub is_underway : RunStatus → Bool
is_underway scheduled = true
is_underway running = true
is_underway _ = false

abbrev pub run_id : CampaignRun → ℕ
run_id r = r.id

abbrev pub by_run_id : ℕ → CampaignRun → Bool
by_run_id id r = r.id == id

-- UPDATE campaigns SET status = to … WHERE id = ANY(ids) AND status IN from.
abbrev pub in_status : List ℕ → (CampaignStatus → Bool) → Campaign → Bool
in_status ids from c = member c.id ids && from c.status

abbrev pub with_status : CampaignStatus → ℕ → Campaign → Campaign
with_status to now c = record c { status = to; updated_at = now }

abbrev pub set_campaigns :
    List ℕ → (CampaignStatus → Bool) → CampaignStatus → ℕ → List Campaign → List Campaign
set_campaigns ids from to now cs = update_where (in_status ids from) (with_status to now) cs

abbrev pub active_or_paused : CampaignStatus → Bool
active_or_paused s = is_active s || is_paused s

-- The campaigns of the rows that RETURNING gave and that pass the filter.
abbrev pub campaign_ids : (CampaignRun → Bool) → List CampaignRun → List ℕ
campaign_ids q rows = map (λ (r : CampaignRun). r.campaign_id) (filter q rows)

abbrev pub is_live_run : CampaignRun → Bool
is_live_run r = is_live r.mode

-- rows[0], where there is one.
abbrev pub first_only : List CampaignRun → List CampaignRun
first_only [] = []
first_only (r ∷ rs) = r ∷ []

abbrev pub returning :
    (CampaignRun → Bool) → (CampaignRun → CampaignRun) → List CampaignRun → List CampaignRun
returning p f rs = map f (filter p rs)

-- INSERT INTO campaign_deliveries … SELECT … ON CONFLICT (run_id, group_id) DO NOTHING.
abbrev pub same_delivery : ℕ → ℕ → Delivery → Bool
same_delivery run group d = d.run_id == run && d.group_id == group

add_delivery : RunTarget → List Delivery → List Delivery
add_delivery t ds =
    if any (same_delivery t.run_id t.group_id) ds
    then ds
    else ds
      ++ record {
        run_id = t.run_id;
        group_id = t.group_id;
        status = pending;
        message_job_id = none;
        failure_reason = none;
      }
        ∷ []

unfoldable pub add_deliveries : ℕ → List RunTarget → List Delivery → List Delivery
unfolding add_delivery
add_deliveries run [] ds = ds
add_deliveries run (t ∷ ts) ds =
    add_deliveries run ts (if t.run_id == run then add_delivery t ds else ds)

-- The group row that a run's target names.
abbrev pub group_of : ℕ → ℕ → GroupRow → Bool
group_of session group g = g.session_id == session && g.id == group

with_group : Option GroupRow → RunTarget → RunTarget
with_group none t = t
with_group (some g) t = record t { capability = g.capability; revision = g.revision }

-- UPDATE campaign_run_targets … FROM gateway_groups, for the targets of the run that are selected.
unfoldable pub refresh_targets :
    ℕ → (RunTarget → Bool) → List GroupRow → List RunTarget → List RunTarget
unfolding with_group
refresh_targets run selected groups ts =
    update_where (λ t. t.run_id == run && selected t)
      (λ t. with_group (first_row (group_of t.session_id t.group_id) groups) t) ts

-- What a preflight observed of a target.
pub record Observed : Type 0 where
  pub group_id : ℕ
  pub revision : ℕ

group_changed : Option GroupRow → ℕ → Bool
group_changed none revision = true
group_changed (some g) revision = not (g.revision == revision)

target_changed : Option RunTarget → List GroupRow → ℕ → Bool
target_changed none groups revision = true
target_changed (some t) groups revision =
    group_changed (first_row (group_of t.session_id t.group_id) groups) revision

-- capabilitySnapshotChanged: campaign-run.persistence.ts.
unfoldable pub capability_snapshot_changed : Db → ℕ → List Observed → Bool
unfolding group_changed target_changed
capability_snapshot_changed db run observed =
    any
      (λ o.
        target_changed (first_row (λ t. t.run_id == run && t.group_id == o.group_id) db.run_targets)
          db.groups o.revision)
      observed

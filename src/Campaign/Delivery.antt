-- ===== src/Campaign/Delivery.antt =====
-- src/modules/campaigns/campaign-delivery.repository.ts. A delivery is named by its run and its group,
-- which are unique together. What the code takes from elsewhere is in Supply: the text of the
-- idempotency scope, messageRequestHash, and the identifiers of new jobs.
use wa_runtime.Base.{
  ℕ, ◌+◌, ◌-◌, Bool, true, false, not, ◌&&◌, ◌||◌, Option, none, some, List, [], ◌∷◌, ◌==◌,
  if◌then◌else◌, take,
}
use wa_runtime.Base.Sql.{update_where, first_row, row_count}
use wa_runtime.Message.Job.{MessageJob, MessageJobStatus, scheduled, queued}
use wa_runtime.Message.Job as Job
use wa_runtime.Message.Repository as Messages
use wa_runtime.Message.Repository.{Store, NewJob}
use wa_runtime.Message.Policy.{Capability, is_allowed_capability}
use wa_runtime.Campaign.Tables.{
  Db, CampaignRun, RunTarget, GroupRow, Delivery, DeliveryStatus, materialized, processing,
  dry_run_completed, accepted, sent, delivered, read, delivery_failed, unknown_outcome,
  blocked_capability_changed, delivery_cancelled, is_live, is_running, is_live_run, is_active,
  paused, by_run_id, set_campaigns, campaign_ids, same_delivery, group_of,
}
use wa_runtime.Campaign.Lifecycle.{pause_row, is_pending}

-- The CASE of reconcile on a job's status; none where the statement does not select the row.
unfoldable pub delivery_status_of : MessageJobStatus → Option DeliveryStatus
delivery_status_of Job.processing = some processing
delivery_status_of Job.dry_run_completed = some dry_run_completed
delivery_status_of Job.accepted = some accepted
delivery_status_of Job.sent = some sent
delivery_status_of Job.delivered = some delivered
delivery_status_of Job.read = some read
delivery_status_of Job.failed = some delivery_failed
delivery_status_of Job.unknown = some unknown_outcome
delivery_status_of Job.cancelled = some delivery_cancelled
delivery_status_of _ = none

-- mj.status IN ('FAILED','UNKNOWN').
abbrev pub has_error : MessageJobStatus → Bool
has_error Job.failed = true
has_error Job.unknown = true
has_error _ = false

reconcile_status : Option DeliveryStatus → MessageJob → Delivery → Delivery
reconcile_status none job d = d
reconcile_status (some st) job d = record d {
  status = st;
  failure_reason = if has_error job.status then job.last_error else d.failure_reason;
}

reconcile_job : Option MessageJob → Delivery → Delivery
unfolding reconcile_status delivery_status_of
reconcile_job none d = d
reconcile_job (some job) d = reconcile_status (delivery_status_of job.status) job d

reconcile_link : Option ℕ → Store → Delivery → Delivery
unfolding reconcile_job
reconcile_link none s d = d
reconcile_link (some id) s d = reconcile_job (first_row (λ j. j.id == id) s.jobs) d

unfoldable pub reconcile_delivery : Store → Delivery → Delivery
unfolding reconcile_link
reconcile_delivery s d = reconcile_link d.message_job_id s d

abbrev pub every {ℓ} : {A : Type ℓ} → A → Bool
every d = true

-- The rows that the last condition of the statement leaves out would be written unchanged.
unfoldable pub reconcile : Store → Db → Db
unfolding reconcile_delivery
reconcile s db = record db { deliveries = update_where every (reconcile_delivery s) db.deliveries }

pub record SessionRow : Type 0 where
  pub ready : Bool
  pub engine_loaded : Bool
  pub restricted : Bool

pub record Supply : Type 0 where
  pub scope_of : ℕ → ℕ
  pub request_hash : (session recipient text : ℕ) → (dry_run : Bool) → ℕ
  pub new_job_id : (run group : ℕ) → ℕ
  pub session : ℕ → Option SessionRow
  pub locked_elsewhere : Delivery → Bool
  pub js_now : ℕ
  pub now : ℕ

abbrev pub can_send : Option SessionRow → Bool
can_send none = false
can_send (some g) = g.ready && g.engine_loaded && not g.restricted

-- mj.status IN ('SCHEDULED','QUEUED','PROCESSING').
abbrev pub is_buffered : MessageJobStatus → Bool
is_buffered scheduled = true
is_buffered queued = true
is_buffered Job.processing = true
is_buffered _ = false

job_buffered : Option MessageJob → Bool
job_buffered none = false
job_buffered (some j) = is_buffered j.status

link_buffered : Option ℕ → Store → Bool
unfolding job_buffered
link_buffered none s = false
link_buffered (some id) s = job_buffered (first_row (λ j. j.id == id) s.jobs)

unfoldable pub buffered_delivery : ℕ → Store → Delivery → Bool
unfolding link_buffered
buffered_delivery run s d = d.run_id == run && link_buffered d.message_job_id s

unfoldable pub buffered : ℕ → Store → List Delivery → ℕ
buffered run s ds = row_count (buffered_delivery run s) ds

pub record PendingDelivery : Type 0 where
  pub group_id : ℕ
  pub snapshot_revision : ℕ
  pub current_revision : ℕ
  pub current_capability : Capability

join_group : Option GroupRow → RunTarget → Option PendingDelivery
join_group none t = none
join_group (some g) t = some (record {
  group_id = t.group_id;
  snapshot_revision = t.revision;
  current_revision = g.revision;
  current_capability = g.capability;
})

join_target : Option RunTarget → List GroupRow → Option PendingDelivery
unfolding join_group
join_target none groups = none
join_target (some t) groups = join_group (first_row (group_of t.session_id t.group_id) groups) t

push_row : Option PendingDelivery → List PendingDelivery → List PendingDelivery
push_row none rows = rows
push_row (some p) rows = p ∷ rows

-- The SELECT of the pending deliveries, before its LIMIT.
unfoldable pub pending_rows : Supply → ℕ → Db → List Delivery → List PendingDelivery
unfolding join_target push_row
pending_rows sup run db [] = []
pending_rows sup run db (d ∷ ds) =
    let rest = pending_rows sup run db ds in
    if d.run_id == run && is_pending d.status && not (sup.locked_elsewhere d)
    then push_row
        (join_target (first_row (λ t. t.run_id == run && t.group_id == d.group_id) db.run_targets)
          db.groups)
        rest
    else rest

abbrev pub capability_changed : PendingDelivery → Bool
capability_changed p =
    not (p.snapshot_revision == p.current_revision)
    || not (is_allowed_capability p.current_capability)

abbrev pub block_delivery : Delivery → Delivery
block_delivery d = record d {
  status = blocked_capability_changed;
  failure_reason = some "Group capability changed after preflight";
}

abbrev pub attach_job : ℕ → Delivery → Delivery
attach_job job d = record d { message_job_id = some job; status = materialized }

abbrev pub job_request : Supply → CampaignRun → PendingDelivery → NewJob
job_request sup run p = record {
  scope = sup.scope_of run.id;
  key = p.group_id;
  hash = sup.request_hash run.session_id p.group_id run.text (not (is_live run.mode));
  session = run.session_id;
  recipient = p.group_id;
  body = run.text;
  due_at = sup.js_now;
  dry = not (is_live run.mode);
}

-- The loop body, on the deliveries and the message tables.
unfoldable pub materialize_one :
    Supply → CampaignRun → PendingDelivery → List Delivery → Store → ℕ × List Delivery × Store
materialize_one sup run p ds s =
    if is_live_run run && capability_changed p
    then (0, update_where (same_delivery run.id p.group_id) block_delivery ds, s)
    else let (message, s') =
        Messages.create (job_request sup run p) (sup.new_job_id run.id p.group_id) sup.now s in
      (
        1,
        update_where (λ d. same_delivery run.id p.group_id d && is_pending d.status)
            (attach_job message.job.id) ds,
        s',
      )

unfoldable pub materialize_all :
    Supply → CampaignRun → List PendingDelivery → List Delivery → Store → ℕ × List Delivery × Store
materialize_all sup run [] ds s = (0, ds, s)
materialize_all sup run (p ∷ ps) ds s =
    let (one, ds1, s1) = materialize_one sup run p ds s in
    let (more, ds2, s2) = materialize_all sup run ps ds1 s1 in (one + more, ds2, s2)

abbrev pub running_row : ℕ → CampaignRun → Bool
running_row id r = by_run_id id r && is_running r.status

pause_unsendable : CampaignRun → ℕ → Db → Db
pause_unsendable run now db = record db {
  runs = update_where (running_row run.id) (pause_row "SESSION_NOT_SENDABLE") db.runs;
  campaigns = set_campaigns (campaign_ids is_live_run (run ∷ [])) is_active paused now db.campaigns;
}

fill_buffer : Supply → CampaignRun → ℕ → Db → Store → ℕ × Db × Store
fill_buffer sup run slots db s =
    let (n, ds, s') =
      materialize_all sup run (take slots (pending_rows sup run.id db db.deliveries)) db.deliveries
        s in
    (n, record db { deliveries = ds }, s')

materialize_run : Supply → CampaignRun → ℕ → Db → Store → ℕ × Db × Store
unfolding pause_unsendable fill_buffer
materialize_run sup run max_buffered db s =
    if is_live_run run && not (can_send (sup.session run.session_id))
    then (0, pause_unsendable run sup.now db, s)
    else fill_buffer sup run (max_buffered - buffered run.id s db.deliveries) db s

materialize_locked : Supply → Option CampaignRun → ℕ → Db → Store → ℕ × Db × Store
unfolding materialize_run
materialize_locked sup none max_buffered db s = (0, db, s)
materialize_locked sup (some run) max_buffered db s =
    if is_running run.status then materialize_run sup run max_buffered db s else (0, db, s)

unfoldable pub materialize_pending : Supply → ℕ → ℕ → Db → Store → ℕ × Db × Store
unfolding materialize_locked
materialize_pending sup id max_buffered db s =
    materialize_locked sup (first_row (by_run_id id) db.runs) max_buffered db s

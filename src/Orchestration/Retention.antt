-- ===== src/Orchestration/Retention.antt =====
-- src/modules/orchestration/data-retention.tick.ts: old rows are deleted in batches, within a number of
-- batches and a time budget. Each table has the columns that its statement reads.
use wa_runtime.Base.{
  ℕ, zero, suc, ◌+◌, Bool, true, false, not, ◌&&◌, ◌||◌, Option, none, some, List, leb, ltb, ◌==◌,
  before, or_else, is_null, filter, take, any, if◌then◌else◌,
}
use wa_runtime.Base.Sql.{row_count, order_by, delete_where}
use wa_runtime.Base.Keys.{has_key}
use wa_runtime.Campaign.Tables.{RunStatus, is_open}
use wa_runtime.Message.Job.{MessageJobStatus, is_scheduled, is_queued, is_processing}

pub record OldRun : Type 0 where
  pub id : ℕ
  pub status : RunStatus
  pub updated_at : ℕ

pub record OldJob : Type 0 where
  pub id : ℕ
  pub status : MessageJobStatus
  pub updated_at : ℕ

-- An inbound message or a runtime event.
pub record OldEvent : Type 0 where
  pub event_id : ℕ
  pub created_at : ℕ

pub record OldWebhook : Type 0 where
  pub id : ℕ
  pub ended : Bool  -- processing_state IN ('PROCESSED','DEAD')
  pub received_at : ℕ
  pub processed_at : Option ℕ

pub record OldSync : Type 0 where
  pub id : ℕ
  pub ended : Bool  -- status IN ('COMPLETED','FAILED')
  pub completed_at : Option ℕ

-- A delivery's run and its message job.
pub record OldDelivery : Type 0 where
  pub run_id : ℕ
  pub message_job_id : Option ℕ

pub record Observation : Type 0 where
  pub id : ℕ
  pub session_id : ℕ
  pub identity_id : ℕ
  pub from_push_name : Bool  -- observation_source = 'OPENWA_PUSH_NAME'
  pub source_generation : Option ℕ
  pub source_observed_at : ℕ
  pub source_observation_key : ℕ
  pub created_at : ℕ

pub record Tables : Type 0 where
  pub runs : List OldRun
  pub deliveries : List OldDelivery
  pub jobs : List OldJob
  pub inbound : List OldEvent
  pub message_events : List OldEvent
  pub events : List OldEvent
  pub webhooks : List OldWebhook
  pub syncs : List OldSync
  pub observations : List Observation

-- What other transactions lock, by table, and what the contact tables say: the sessions with resolution or
-- projection work that is not settled, and the observations that a resolved cluster uses.
pub record Surroundings : Type 0 where
  pub locked : ℕ → ℕ → Bool
  pub session_busy : ℕ → Bool
  pub in_cluster : ℕ → ℕ → Bool

pub record Cutoffs : Type 0 where
  pub operational : ℕ
  pub event : ℕ
  pub inbox : ℕ
  pub webhook : ℕ
  pub contact_observation : ℕ

-- ORDER BY age, key LIMIT limit FOR UPDATE SKIP LOCKED, then DELETE … USING candidates.
unfoldable pub candidates {ℓ} : {A : Type ℓ} → (A → ℕ) → (A → ℕ) → (A → Bool) → ℕ → List A → List A
candidates key age selected limit xs = take limit (order_by age (order_by key (filter selected xs)))

unfoldable pub delete_batch {ℓ} :
    {A : Type ℓ} → (A → ℕ) → (A → ℕ) → (A → Bool) → ℕ → List A → ℕ × List A
unfolding candidates
delete_batch key age selected limit xs =
    let taken = candidates key age selected limit xs in
    (
      row_count (λ x. has_key key (key x) taken) xs,
      delete_where (λ x. has_key key (key x) taken) xs,
    )

abbrev pub run_key : OldRun → ℕ
run_key r = r.id

abbrev pub job_key : OldJob → ℕ
job_key j = j.id

abbrev pub event_key : OldEvent → ℕ
event_key e = e.event_id

abbrev pub webhook_key : OldWebhook → ℕ
webhook_key w = w.id

abbrev pub sync_key : OldSync → ℕ
sync_key s = s.id

abbrev pub observation_key : Observation → ℕ
observation_key o = o.id

-- The numbers of the tables for locked.
abbrev pub old_run : Surroundings → Cutoffs → OldRun → Bool
old_run env cut r =
    not (is_open r.status) && ltb r.updated_at cut.operational && not (env.locked 0 r.id)

-- DELETE FROM campaign_runs, with ON DELETE CASCADE for the deliveries.
unfoldable pub delete_campaign_runs : Surroundings → Cutoffs → ℕ → Tables → ℕ × Tables
unfolding delete_batch
delete_campaign_runs env cut limit t =
    let (n, runs) = delete_batch run_key (λ r. r.updated_at) (old_run env cut) limit t.runs in
    (
      n,
      record t {
        runs = runs;
        deliveries = filter (λ d. has_key run_key d.run_id runs) t.deliveries;
      },
    )

abbrev pub in_flight : MessageJobStatus → Bool
in_flight s = is_scheduled s || is_queued s || is_processing s

delivers : ℕ → OldDelivery → Bool
delivers id d = delivers_on id d.message_job_id
  where
    delivers_on : ℕ → Option ℕ → Bool
    delivers_on id none = false
    delivers_on id (some job) = job == id

unfoldable pub has_delivery : ℕ → List OldDelivery → Bool
unfolding delivers
has_delivery id ds = any (delivers id) ds

abbrev pub old_job : Surroundings → Cutoffs → List OldDelivery → OldJob → Bool
old_job env cut ds j =
    not (in_flight j.status)
    && ltb j.updated_at cut.operational
    && not (has_delivery j.id ds)
    && not (env.locked 1 j.id)

unfoldable pub delete_message_jobs : Surroundings → Cutoffs → ℕ → Tables → ℕ × Tables
unfolding delete_batch
delete_message_jobs env cut limit t =
    let (n, jobs) =
      delete_batch job_key (λ j. j.updated_at) (old_job env cut t.deliveries) limit t.jobs in
    (n, record t { jobs = jobs })

abbrev pub old_inbound : Surroundings → Cutoffs → OldEvent → Bool
old_inbound env cut e = ltb e.created_at cut.inbox && not (env.locked 2 e.event_id)

unfoldable pub delete_inbound_messages : Surroundings → Cutoffs → ℕ → Tables → ℕ × Tables
unfolding delete_batch
delete_inbound_messages env cut limit t =
    let (n, inbound) =
      delete_batch event_key (λ e. e.created_at) (old_inbound env cut) limit t.inbound in
    (n, record t { inbound = inbound })

abbrev pub old_event : Surroundings → Cutoffs → OldEvent → Bool
old_event env cut e = ltb e.created_at cut.event && not (env.locked 3 e.event_id)

unfoldable pub delete_runtime_events : Surroundings → Cutoffs → ℕ → Tables → ℕ × Tables
unfolding delete_batch candidates
delete_runtime_events env cut limit t =
    let taken = candidates event_key (λ e. e.created_at) (old_event env cut) limit t.events in
    let (n, events) =
      delete_batch event_key (λ e. e.created_at) (old_event env cut) limit t.events in
    (
      n,
      record t {
        events = events;
        message_events = delete_where (λ e. has_key event_key e.event_id taken) t.message_events;
        inbound = delete_where (λ e. has_key event_key e.event_id taken) t.inbound;
      },
    )

abbrev pub old_webhook : Surroundings → Cutoffs → OldWebhook → Bool
old_webhook env cut w =
    w.ended && ltb (or_else w.processed_at w.received_at) cut.webhook && not (env.locked 4 w.id)

unfoldable pub delete_webhook_events : Surroundings → Cutoffs → ℕ → Tables → ℕ × Tables
unfolding delete_batch
delete_webhook_events env cut limit t =
    let (n, webhooks) =
      delete_batch webhook_key (λ w. or_else w.processed_at w.received_at) (old_webhook env cut)
        limit t.webhooks in
    (n, record t { webhooks = webhooks })

abbrev pub old_sync : Surroundings → Cutoffs → OldSync → Bool
old_sync env cut s = s.ended && before s.completed_at cut.operational && not (env.locked 5 s.id)

unfoldable pub delete_sync_runs : Surroundings → Cutoffs → ℕ → Tables → ℕ × Tables
unfolding delete_batch
delete_sync_runs env cut limit t =
    let (n, syncs) =
      delete_batch sync_key (λ s. or_else s.completed_at 0) (old_sync env cut) limit t.syncs in
    (n, record t { syncs = syncs })

-- (source_observed_at, source_observation_key, id) > …
abbrev pub later_than : Observation → Observation → Bool
later_than o n =
    ltb o.source_observed_at n.source_observed_at
    || (o.source_observed_at == n.source_observed_at
        && (ltb o.source_observation_key n.source_observation_key
            || (o.source_observation_key == n.source_observation_key && ltb o.id n.id)))

abbrev pub superseded_by : Observation → Observation → Bool
superseded_by o n =
    n.session_id == o.session_id
    && n.identity_id == o.identity_id
    && n.from_push_name
    && is_null n.source_generation
    && later_than o n

abbrev pub old_observation : Surroundings → Cutoffs → List Observation → Observation → Bool
old_observation env cut os o =
    is_null o.source_generation
    && o.from_push_name
    && ltb o.created_at cut.contact_observation
    && any (superseded_by o) os
    && not (env.session_busy o.session_id)
    && not (env.in_cluster o.session_id o.id)
    && not (env.locked 6 o.id)

-- The ids of observations are taken to differ between sessions.
unfoldable pub delete_redundant_contact_observations :
    Surroundings → Cutoffs → ℕ → Tables → ℕ × Tables
unfolding delete_batch
delete_redundant_contact_observations env cut limit t =
    let (n, os) =
      delete_batch observation_key (λ o. o.created_at) (old_observation env cut t.observations)
        limit t.observations in
    (n, record t { observations = os })

-- One transaction, and whether every count stayed under the limit.
pub record Batch : Type 0 where
  pub deleted : ℕ
  pub all_under : Bool
  pub after : Tables

unfoldable pub run_batch : Surroundings → Cutoffs → ℕ → Tables → Batch
run_batch env cut limit t0 =
    let (runs, t1) = delete_campaign_runs env cut limit t0 in
    let (jobs, t2) = delete_message_jobs env cut limit t1 in
    let (inbound, t3) = delete_inbound_messages env cut limit t2 in
    let (events, t4) = delete_runtime_events env cut limit t3 in
    let (webhooks, t5) = delete_webhook_events env cut limit t4 in
    let (syncs, t6) = delete_sync_runs env cut limit t5 in
    let (observations, t7) = delete_redundant_contact_observations env cut limit t6 in
    record {
      deleted = runs + jobs + inbound + events + webhooks + syncs + observations;
      all_under =
          ltb runs limit
          && ltb jobs limit
          && ltb inbound limit
          && ltb events limit
          && ltb webhooks limit
          && ltb syncs limit
          && ltb observations limit;
      after = t7;
    }

pub record RetentionResult : Type 0 where
  pub deleted : ℕ
  pub batches : ℕ
  pub drained : Bool
  pub capacity_exhausted : Bool

-- The loop over batches; clock and surroundings say what performance.now() and the other transactions are
-- before each batch.
unfoldable pub loop :
    (ℕ → ℕ) → (ℕ → Surroundings) → Cutoffs → ℕ → ℕ → ℕ → ℕ → ℕ → Tables → RetentionResult × Tables
loop clock env cut limit deadline zero batch deleted t =
    (record { deleted = deleted; batches = batch; drained = false; capacity_exhausted = false }, t)
loop clock env cut limit deadline (suc left) batch deleted t =
    let done = run_batch (env batch) cut limit t in
    let rest =
      loop clock env cut limit deadline left (batch + 1) (deleted + done.deleted) done.after in
    if leb deadline (clock batch)
    then (
      record { deleted = deleted; batches = batch; drained = false; capacity_exhausted = true },
      t,
    )
    else if done.all_under
    then (
      record {
        deleted = deleted + done.deleted;
        batches = batch + 1;
        drained = true;
        capacity_exhausted = false;
      },
      done.after,
    )
    else rest

abbrev pub finish : ℕ → RetentionResult → RetentionResult
finish max_batches r = record r {
  capacity_exhausted =
      if not r.drained && r.batches == max_batches then true else r.capacity_exhausted;
}

unfoldable pub cleanup :
    (ℕ → ℕ) → (ℕ → Surroundings) → Cutoffs → ℕ → ℕ → ℕ → Tables → RetentionResult × Tables
unfolding loop
cleanup clock env cut limit max_batches deadline t =
    let (r, after) = loop clock env cut limit deadline max_batches 0 0 t in
    (finish max_batches r, after)

-- ===== src/Orchestration/Draining.antt =====
-- cleanup of src/modules/orchestration/data-retention.tick.ts: its loop ends, and either no old row is left or
-- the result says that the capacity was exhausted.
use wa_runtime.Base.{
  ℕ, zero, suc, ◌+◌, ◌-◌, ◌≤◌, Bool, true, false, not, ◌&&◌, List, ◌≡◌, ◌⊎◌, refl, subst, inl, inr,
  arith, ==-refl, All, All-map, Bool-cases, any, leb, or_else, if_split,
}
use wa_runtime.Base.Sql.{delete_where}
use wa_runtime.Base.Keys.{Distinct}
use wa_runtime.Orchestration.Retention.{
  Tables, Surroundings, Cutoffs, RetentionResult, run_key, job_key, event_key, webhook_key,
  sync_key, observation_key, old_run, old_job, old_inbound, old_event, old_webhook, old_sync,
  old_observation, Observation, superseded_by, delete_batch, delete_campaign_runs,
  delete_message_jobs, delete_inbound_messages, delete_runtime_events, delete_webhook_events,
  delete_sync_runs, delete_redundant_contact_observations, run_batch, loop, finish, cleanup,
}
use wa_runtime.Orchestration.Batches.{
  delete_batch-drains, Distinct-deleted, All-delete_where_map, any-delete_where,
}

-- The primary keys of the tables.
pub record Unique (t : Tables) : Type 0 where
  pub runs : Distinct run_key t.runs
  pub jobs : Distinct job_key t.jobs
  pub inbound : Distinct event_key t.inbound
  pub events : Distinct event_key t.events
  pub webhooks : Distinct webhook_key t.webhooks
  pub syncs : Distinct sync_key t.syncs
  pub observations : Distinct observation_key t.observations

-- Nothing is left that retention may delete and that nobody locks.
pub record Drained (env : Surroundings) (cut : Cutoffs) (t : Tables) : Type 0 where
  pub runs : All (λ r. old_run env cut r ≡ false) t.runs
  pub jobs : All (λ j. old_job env cut t.deliveries j ≡ false) t.jobs
  pub inbound : All (λ e. old_inbound env cut e ≡ false) t.inbound
  pub events : All (λ e. old_event env cut e ≡ false) t.events
  pub webhooks : All (λ w. old_webhook env cut w ≡ false) t.webhooks
  pub syncs : All (λ s. old_sync env cut s ≡ false) t.syncs
  pub observations : All (λ o. old_observation env cut t.observations o ≡ false) t.observations

run_batch-Unique :
    (env : Surroundings) (cut : Cutoffs) (limit : ℕ) (t : Tables)
    → Unique t
    → Unique (run_batch env cut limit t).after
unfolding run_batch delete_campaign_runs delete_message_jobs delete_inbound_messages
    delete_runtime_events delete_webhook_events delete_sync_runs
    delete_redundant_contact_observations delete_batch
run_batch-Unique env cut limit t u = record {
  runs = Distinct-deleted run_key _ t.runs u.runs;
  jobs = Distinct-deleted job_key _ t.jobs u.jobs;
  inbound = Distinct-deleted event_key _ _ (Distinct-deleted event_key _ t.inbound u.inbound);
  events = Distinct-deleted event_key _ t.events u.events;
  webhooks = Distinct-deleted webhook_key _ t.webhooks u.webhooks;
  syncs = Distinct-deleted sync_key _ t.syncs u.syncs;
  observations = Distinct-deleted observation_key _ t.observations u.observations;
}

fewer_observations :
    (env : Surroundings) (cut : Cutoffs) (p : Observation → Bool) (os : List Observation)
    (o : Observation)
    → old_observation env cut os o ≡ false
    → old_observation env cut (delete_where p os) o ≡ false
fewer_observations env cut p os o h =
    elim (Bool-cases (any (superseded_by o) (delete_where p os))) [
      | inl e ↦ ground (arith, h, any-delete_where (superseded_by o) p os e)
      | inr e ↦ ground (arith, e)
    ]

all_seven :
    (a b c d e f g : Bool)
    → (a && b && c && d && e && f && g) ≡ true
    → (a ≡ true) × (b ≡ true) × (c ≡ true) × (d ≡ true) × (e ≡ true) × (f ≡ true) × (g ≡ true)
all_seven a b c d e f g h = ground (arith, h)

run_batch-Drained :
    (env : Surroundings) (cut : Cutoffs) (limit : ℕ) (t : Tables)
    → Unique t
    → (run_batch env cut limit t).all_under ≡ true
    → Drained env cut (run_batch env cut limit t).after
unfolding run_batch delete_campaign_runs delete_message_jobs delete_inbound_messages
    delete_runtime_events delete_webhook_events delete_sync_runs
    delete_redundant_contact_observations delete_batch
run_batch-Drained env cut limit t u under =
    let k = all_seven _ _ _ _ _ _ _ under in
    record {
      runs =
          delete_batch-drains run_key (λ r. r.updated_at) (old_run env cut) limit t.runs u.runs k.0;
      jobs =
          delete_batch-drains job_key (λ j. j.updated_at) (old_job env cut _) limit t.jobs u.jobs
            k.1;
      inbound =
          All-delete_where_map _ _ _ _ (λ e out h. h)
            (delete_batch-drains event_key (λ e. e.created_at) (old_inbound env cut) limit t.inbound
              u.inbound k.2);
      events =
          delete_batch-drains event_key (λ e. e.created_at) (old_event env cut) limit t.events
            u.events k.3;
      webhooks =
          delete_batch-drains webhook_key (λ w. or_else w.processed_at w.received_at)
            (old_webhook env cut) limit t.webhooks u.webhooks k.4;
      syncs =
          delete_batch-drains sync_key (λ s. or_else s.completed_at 0) (old_sync env cut) limit
            t.syncs u.syncs k.5;
      observations =
          All-map _ _ _ (λ o h. fewer_observations env cut _ t.observations o h)
            (delete_batch-drains observation_key (λ o. o.created_at)
              (old_observation env cut t.observations) limit t.observations u.observations k.6);
    }

abbrev Loop : Type 0
Loop = RetentionResult × Tables

pub record Settles (env : ℕ → Surroundings) (cut : Cutoffs) (bound : ℕ) (r : RetentionResult)
    (after : Tables) : Type 0 where
  pub bounded : r.batches ≤ bound
  pub emptied : r.drained ≡ true → Drained (env (r.batches - 1)) cut after
  pub reported : (r.drained ≡ true) ⊎ ((r.capacity_exhausted ≡ true) ⊎ (r.batches ≡ bound))
  pub silent : r.drained ≡ true → r.capacity_exhausted ≡ false

loop-Settles :
    (clock : ℕ → ℕ) (env : ℕ → Surroundings) (cut : Cutoffs) (limit deadline left batch deleted : ℕ)
    (t : Tables)
    → Unique t
    → let (r, after) = loop clock env cut limit deadline left batch deleted t in
      Settles env cut (batch + left) r after
unfolding loop
loop-Settles clock env cut limit deadline zero batch deleted t u = record {
  bounded = omega arith;
  emptied = λ h. absurd (ground (arith, h));
  reported = inr (inr (omega arith));
  silent = λ h. absurd (ground (arith, h));
}
loop-Settles clock env cut limit deadline (suc left) batch deleted t u =
    if_split Kept (leb deadline (clock batch))
      (λ late. record {
        bounded = omega arith;
        emptied = λ h. absurd (ground (arith, h));
        reported = inr (inl refl);
        silent = λ h. absurd (ground (arith, h));
      })
      (λ early.
        if_split Kept (run_batch (env batch) cut limit t).all_under
          (λ under. record {
            bounded = omega arith;
            emptied = λ h. rw (again batch) (run_batch-Drained (env batch) cut limit t u under);
            reported = inl refl;
            silent = λ h. refl;
          })
          (λ more.
            let rest =
              loop-Settles clock env cut limit deadline left (batch + 1)
                (deleted + (run_batch (env batch) cut limit t).deleted)
                (run_batch (env batch) cut limit t).after
                (run_batch-Unique (env batch) cut limit t u) in
            rw⁻¹ (shift batch left) rest))
  where
    Kept : Loop → Type 0
    Kept p = Settles env cut (batch + suc left) p.0 p.1

    again : (n : ℕ) → (n + 1) - 1 ≡ n
    again n = omega arith

    shift : (n m : ℕ) → (n + 1) + m ≡ n + suc m
    shift n m = omega arith

exhausted :
    (max_batches : ℕ) (r : RetentionResult)
    → (r.drained ≡ true) ⊎ ((r.capacity_exhausted ≡ true) ⊎ (r.batches ≡ max_batches))
    → (r.drained ≡ true → r.capacity_exhausted ≡ false)
    → (finish max_batches r).capacity_exhausted ≡ not r.drained
exhausted max_batches r reported silent = elim (Bool-cases r.drained) [
  | inl e ↦ ground (arith, e, silent e)
  | inr e ↦ ground (arith, e, reported, ==-refl max_batches)
]

-- Where the keys of the tables are unique: cleanup ends within its number of batches, and says that its
-- capacity was exhausted exactly when the last batch did not drain the tables. Where it did, no table
-- has a row left that is old enough to be deleted, fulfils the conditions of its statement, and was
-- not locked when the last batch ran.
pub cleanup-Settles :
    (clock : ℕ → ℕ) (env : ℕ → Surroundings) (cut : Cutoffs) (limit max_batches deadline : ℕ)
    (t : Tables)
    → Unique t
    → let (r, after) = cleanup clock env cut limit max_batches deadline t in
      (r.batches ≤ max_batches)
      × (r.capacity_exhausted ≡ not r.drained)
      × (r.drained ≡ true → Drained (env (r.batches - 1)) cut after)
unfolding cleanup
cleanup-Settles clock env cut limit max_batches deadline t u =
    let from_zero : 0 + max_batches ≡ max_batches = omega arith in
    let result = loop clock env cut limit deadline max_batches 0 0 t in
    let s =
      subst (λ bound. Settles env cut bound result.0 result.1) from_zero
        (loop-Settles clock env cut limit deadline max_batches 0 0 t u) in
    (s.bounded, exhausted max_batches result.0 s.reported s.silent, s.emptied)

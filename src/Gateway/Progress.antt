-- ===== src/Gateway/Progress.antt =====
-- The synchronisation of groups as a whole: src/modules/gateway/gateway-sync-run.repository.ts and
-- gateway-sync-item.repository.ts, step by step. Deletion of old runs is left out.
use wa_runtime.Base.{
  ℕ, ◌+◌, ◌≤◌, String, Bool, true, false, ◌||◌, some, List, [], ◌∷◌, ◌≡◌, ◌⊎◌, refl, inl, inr,
  arith, ltb, is_null, ◌==◌, All, All-append, All-map, Option-cases, Bool-cases,
}
use wa_runtime.Base.Sql.{update_where, row_count, first_row, first_row-selected}
use wa_runtime.Base.Keys.{Distinct, Distinct-update_where, Distinct-append_one, has_key}
use wa_runtime.Gateway.RateLimit.{Config, FailurePolicy}
use wa_runtime.Gateway.SyncRun.{
  SyncRun, SyncMode, WriteFence, run_id, active_run, create, create_on, new_run, recover_expired,
  lease_expired, give_back, claim, claim_candidate, claim_row_on, claimable, claim_row,
  current_epoch, ensure_fence, renew_lease, owned, renew_row, complete, complete_row, fail_attempt,
  fail_row,
}
use wa_runtime.Gateway.SyncRun
use wa_runtime.Gateway.Groups.{Summary}
use wa_runtime.Gateway.SyncItem.{
  SyncItem, Sync, item_id, with_status, is_outstanding, is_waiting, in_progress,
}
use wa_runtime.Gateway.SyncItem
use wa_runtime.Gateway.Discovery.{
  World, DiscoveryConfig, select, insert_items, publish_discovery, after_publish,
}
use wa_runtime.Gateway.Coherence.{Coherent, item_count, is_reconciling, update-Coherent}
use wa_runtime.Gateway.Working.{
  Movable, Sound, claim-Sound, renew-Sound, complete-Sound, skip-Sound, fail-Sound, recover-Sound,
}
use wa_runtime.Gateway.Publishing.{publish-Sound}

abbrev pub with_db : SyncRun.Db → World → World
with_db db w = record w { sync = record w.sync { db = db } }

abbrev pub with_sync : Sync → World → World
with_sync s w = record w { sync = s }

module _ (limits : Config) (cfg : DiscoveryConfig) (say : ℕ → String) where
  pub data Step (w : World) : World → Type 0 where
    requested :
        (session : ℕ) (mode : SyncMode) (new_id now : ℕ)
        → has_key run_id new_id w.sync.db.runs ≡ false
        → item_count new_id w.sync.items ≡ 0
        → Step w (with_db (create session mode new_id now w.sync.db).1 w)
    runs_recovered : (now : ℕ) → Step w (with_db (recover_expired now w.sync.db).1 w)
    run_claimed : (id token now : ℕ) → Step w (with_db (claim id token now w.sync.db).1 w)
    run_renewed : (id token now : ℕ) → Step w (with_db (renew_lease id token now w.sync.db).1 w)
    run_finished :
        (id token groups members now : ℕ)
        → Step w (with_db (complete id token groups members now w.sync.db).1 w)
    run_failed :
        (id token groups members : ℕ) (error : String) (now : ℕ)
        → Step w (with_db (fail_attempt id token groups members error now w.sync.db).1 w)
    published :
        (fence : WriteFence) (session : ℕ) (mode : SyncMode) (ms : List Summary) (new_id : ℕ → ℕ)
        (js_now now : ℕ)
        → Distinct item_id (
            insert_items fence.sync_run_id session
              (select cfg mode session ms 0 js_now w.groups)
              new_id
              now
              w.sync.items)
        → Step w (after_publish (publish_discovery cfg fence session mode ms new_id js_now now w) w)
    item_claimed :
        (id token now : ℕ) → Step w (with_sync (SyncItem.claim limits id token now w.sync).1 w)
    item_renewed :
        (id token now : ℕ) → Step w (with_sync (SyncItem.renew_lease id token now w.sync).1 w)
    item_completed :
        (id token members now : ℕ)
        → Step w (with_sync (SyncItem.complete say limits id token members now w.sync).1 w)
    item_skipped :
        (id token : ℕ) (error : String) (now : ℕ)
        → Step w (with_sync (SyncItem.skip say id token error now w.sync).1 w)
    item_failed :
        (policy : FailurePolicy) (id token : ℕ) (error : String) (jitter cool_ms now : ℕ)
        → Step w (
            with_sync
              (SyncItem.fail say limits policy id token error jitter cool_ms now w.sync).1
              w)
    items_recovered :
        (now : ℕ) → Step w (with_sync (SyncItem.recover_expired say limits now w.sync).1 w)

  pub data Reach (w : World) : World → Type 0 where
    here : Reach w w
    next : {u v : World} → Reach w u → Step u v → Reach w v

  runs-Sound :
      (p : SyncRun → Bool) (f : SyncRun → SyncRun) (fences : List SyncRun.Fence) (s : Sync)
      → ((r : SyncRun) → (f r).id ≡ r.id)
      → ((r : SyncRun) → p r ≡ true → Coherent s.items r → Coherent s.items (f r))
      → Sound limits s
      → Sound limits
          (record s { db = record { runs = update_where p f s.db.runs; fences = fences } })
  runs-Sound p f fences s same keep h = record {
    unique_runs = Distinct-update_where run_id p f s.db.runs same h.unique_runs;
    unique_items = h.unique_items;
    coherent = update-Coherent p f s.items s.db.runs keep h.coherent;
    movable = h.movable;
  }

  create-Sound :
      (session : ℕ) (mode : SyncMode) (new_id now : ℕ) (s : Sync)
      → has_key run_id new_id s.db.runs ≡ false
      → item_count new_id s.items ≡ 0
      → Sound limits s
      → Sound limits (record s { db = (create session mode new_id now s.db).1 })
  unfolding create create_on
  create-Sound session mode new_id now s fresh none_yet h =
      elim (Option-cases (active_run session s.db.runs)) [
        | inl idle ↦ rw idle record {
          unique_runs =
              Distinct-append_one run_id s.db.runs (new_run session mode new_id now) fresh
                h.unique_runs;
          unique_items = h.unique_items;
          coherent = All-append _ s.db.runs _ h.coherent (inl (refl, none_yet, refl), tt);
          movable = h.movable;
        }
        | inr (r, busy) ↦ rw busy h
      ]

  claim-Coherent :
      (id epoch token now : ℕ) (s : Sync) (r : SyncRun)
      → claimable id now s.db.runs r ≡ true
      → Coherent s.items r
      → Coherent s.items (claim_row epoch token now r)
  claim-Coherent id epoch token now s r sel (inl o) = inl (refl, o.1, refl)
  claim-Coherent id epoch token now s r sel (inr (inl w)) = absurd (ground (arith, w.1.0))
  claim-Coherent id epoch token now s r sel (inr (inr d)) = absurd (ground (arith, d.1))

  run_claim-Sound :
      (id token now : ℕ) (s : Sync)
      → Sound limits s
      → Sound limits (record s { db = (claim id token now s.db).1 })
  unfolding claim claim_candidate claim_row_on
  run_claim-Sound id token now s h =
      elim (Option-cases (first_row (λ (r : SyncRun). r.id == id) s.db.runs)) [
        | inl gone ↦ rw gone h
        | inr (c, found) ↦
            rw found (elim (Option-cases (first_row (claimable id now s.db.runs) s.db.runs)) [
              | inl late ↦ rw late record {
                unique_runs = h.unique_runs;
                unique_items = h.unique_items;
                coherent = h.coherent;
                movable = h.movable;
              }
              | inr (r, taken) ↦ rw taken (
                  runs-Sound (claimable id now s.db.runs) (claim_row (epoch_of c) token now) _ s
                    (λ r. refl) (λ r sel k. claim-Coherent id (epoch_of c) token now s r sel k) h)
            ])
      ]
    where
      epoch_of : SyncRun → ℕ
      epoch_of c = current_epoch c.session_id (ensure_fence c.session_id s.db.fences) + 1

  leased-Coherent :
      (items : List SyncItem) (r : SyncRun) (f : SyncRun → SyncRun)
      → ((f r).phase ≡ r.phase) × ((f r).id ≡ r.id)
      → (is_null (f r).lease_token || SyncRun.is_running (f r).status) ≡ true
      → is_null r.lease_expires_at ≡ false
      → SyncRun.is_running r.status ≡ true
      → Coherent items r
      → Coherent items (f r)
  leased-Coherent items r f same ok held runs (inl o) = inl (rw same.0 o.0, rw same.1 o.1, ok)
  leased-Coherent items r f same ok held runs (inr (inl w)) = absurd (ground (arith, w.1.2))
  leased-Coherent items r f same ok held runs (inr (inr d)) = absurd (ground (arith, d.1))

  Step-Sound :
      {u v : World}
      → 1 ≤ limits.item_max_attempts
      → Step u v
      → Sound limits u.sync
      → Sound limits v.sync
  unfolding recover_expired renew_lease complete fail_attempt
  Step-Sound {u} tries (requested session mode new_id now fresh none_yet) h =
      create-Sound session mode new_id now u.sync fresh none_yet h
  Step-Sound {u} tries (runs_recovered now) h =
      runs-Sound (lease_expired now) (give_back "Recovered expired sync lease" now now)
        u.sync.db.fences u.sync (λ r. refl)
        (λ r sel k.
          leased-Coherent u.sync.items r (give_back "Recovered expired sync lease" now now)
            (refl, refl) refl (ground arith) (ground arith) k)
        h
  Step-Sound {u} tries (run_claimed id token now) h = run_claim-Sound id token now u.sync h
  Step-Sound {u} tries (run_renewed id token now) h =
      runs-Sound (owned id token now) (renew_row now) u.sync.db.fences u.sync (λ r. refl)
        (λ r sel k.
          leased-Coherent u.sync.items r (renew_row now) (refl, refl) (ground arith) (ground arith)
            (ground arith) k)
        h
  Step-Sound {u} tries (run_finished id token groups members now) h =
      runs-Sound (owned id token now) (complete_row groups members now) u.sync.db.fences u.sync
        (λ r. refl)
        (λ r sel k.
          leased-Coherent u.sync.items r (complete_row groups members now) (refl, refl) refl
            (ground arith) (ground arith) k)
        h
  Step-Sound {u} tries (run_failed id token groups members error now) h =
      runs-Sound (owned id token now) (fail_row groups members error now) u.sync.db.fences u.sync
        (λ r. refl)
        (λ r sel k.
          leased-Coherent u.sync.items r (fail_row groups members error now) (refl, refl) refl
            (ground arith) (ground arith) k)
        h
  Step-Sound {u} tries (published fence session mode ms new_id js_now now fresh) h =
      publish-Sound limits cfg fence session mode ms new_id js_now now u tries fresh h
  Step-Sound {u} tries (item_claimed id token now) h = claim-Sound limits id token now u.sync h
  Step-Sound {u} tries (item_renewed id token now) h = renew-Sound limits id token now u.sync h
  Step-Sound {u} tries (item_completed id token members now) h =
      complete-Sound say limits id token members now u.sync h
  Step-Sound {u} tries (item_skipped id token error now) h =
      skip-Sound say limits id token error now u.sync h
  Step-Sound {u} tries (item_failed policy id token error jitter cool_ms now) h =
      fail-Sound say limits policy id token error jitter cool_ms now u.sync h
  Step-Sound {u} tries (items_recovered now) h = recover-Sound say limits now u.sync h

  Reach-Sound :
      {u v : World}
      → 1 ≤ limits.item_max_attempts
      → Reach u v
      → Sound limits u.sync
      → Sound limits v.sync
  Reach-Sound tries here h = h
  Reach-Sound tries (next r st) h = Step-Sound tries st (Reach-Sound tries r h)

  abbrev pub no_rows : World
  no_rows = record {
    sync = record { db = record { runs = []; fences = [] }; items = []; limits = [] };
    groups = [];
    guards = [];
  }

  -- An item of the run that may be claimed again, or whose lease will end.
  abbrev pub HasWork : List SyncItem → SyncRun → Type 0
  HasWork items r =
      (i : SyncItem) × (first_row (with_status r.id is_outstanding) items ≡ some i)
      × (((is_waiting i.status ≡ true) × (ltb i.attempt_count limits.item_max_attempts ≡ true))
          ⊎ ((in_progress i.status ≡ true) × (is_null i.lease_expires_at ≡ false)))

  find-Movable :
      (q : SyncItem → Bool) (items : List SyncItem)
      → 1 ≤ row_count q items
      → All (Movable limits) items
      → (i : SyncItem) × (first_row q items ≡ some i) × Movable limits i
  find-Movable q [] some_left h = absurd (omega (arith, some_left))
  find-Movable q (i ∷ items) some_left h = elim (Bool-cases (q i)) [
    | inl e ↦ (i, ground arith, h.0)
    | inr e ↦
        let (j, found, m) = find-Movable q items (ground arith) h.1 in (j, ground (arith, found), m)
  ]

  work :
      (items : List SyncItem) (r : SyncRun)
      → All (Movable limits) items
      → Coherent items r
      → is_reconciling r.phase ≡ true
      → HasWork items r
  work items r h (inl o) rec = absurd (ground (arith, o.0))
  work items r h (inr (inr d)) rec = absurd (ground (arith, d.0))
  work items r h (inr (inl w)) rec =
      let (i, found, m) = find-Movable (with_status r.id is_outstanding) items w.2 h in
      let sel = first_row-selected (with_status r.id is_outstanding) items found in
      (
        i,
        found,
        elim (Bool-cases (is_waiting i.status)) [
          | inl e ↦ inl (e, m.0 e)
          | inr e ↦
              let busy : in_progress i.status ≡ true = ground (arith, sel) in inr (busy, m.1 busy)
        ],
      )

  -- Where an item may be tried at least once: from empty tables, over any interleaving of the operations
  -- on runs and items, no run is stuck in reconciliation. Every run in the phase RECONCILING is
  -- RUNNING, and it has an item that is not settled: one that waits with attempts left, so that it
  -- may be claimed, or one that is RUNNING under a lease that ends, so that it may be recovered.
  pub Reach-HasWork :
      {w : World}
      → 1 ≤ limits.item_max_attempts
      → Reach no_rows w
      → All
          (λ r.
            is_reconciling r.phase ≡ true
            → (SyncRun.is_running r.status ≡ true) × HasWork w.sync.items r)
          w.sync.db.runs
  Reach-HasWork {w} tries reach =
      let h =
        Reach-Sound tries reach
          record { unique_runs = tt; unique_items = tt; coherent = tt; movable = tt } in
      All-map _ _ w.sync.db.runs
        (λ (r : SyncRun) k rec. (running r k rec, work w.sync.items r h.movable k rec)) h.coherent
    where
      running :
          (r : SyncRun)
          → Coherent w.sync.items r
          → is_reconciling r.phase ≡ true
          → SyncRun.is_running r.status ≡ true
      running r (inl o) rec = absurd (ground (arith, o.0))
      running r (inr (inl k)) rec = k.1.0
      running r (inr (inr d)) rec = absurd (ground (arith, d.0))

-- ===== src/Gateway/Coherence.antt =====
-- How the phase of a run in src/modules/gateway/gateway-sync-run.repository.ts agrees with the run's items.
use wa_runtime.Base.{ℕ, ◌≤◌, Bool, true, false, ◌||◌, none, List, ◌≡◌, ◌⊎◌, All, All-of, is_null}
use wa_runtime.Base.Sql.{update_where, row_count, All-update_where}
use wa_runtime.Gateway.SyncRun.{
  SyncRun, SyncPhase, reconciling, phase_completed, is_pending, is_running,
}
use wa_runtime.Gateway.Groups.{is_discovering}
use wa_runtime.Gateway.SyncItem.{SyncItem, of_run, with_status, is_outstanding}

abbrev pub is_reconciling : SyncPhase → Bool
is_reconciling reconciling = true
is_reconciling _ = false

abbrev pub is_over : SyncPhase → Bool
is_over phase_completed = true
is_over _ = false

abbrev pub remaining : ℕ → List SyncItem → ℕ
remaining run items = row_count (with_status run is_outstanding) items

abbrev pub item_count : ℕ → List SyncItem → ℕ
item_count run items = row_count (of_run run) items

-- Discovery has still to come, or has the lease: the run has no items.
abbrev pub Open : List SyncItem → SyncRun → Type 0
Open items r =
    (is_discovering r.phase ≡ true)
    × (item_count r.id items ≡ 0)
    × ((is_null r.lease_token || is_running r.status) ≡ true)

-- A RUNNING run that nobody leases.
abbrev pub Unleased : SyncRun → Type 0
Unleased r = (is_running r.status ≡ true) × (r.lease_token ≡ none) × (r.lease_expires_at ≡ none)

abbrev pub Working : List SyncItem → SyncRun → Type 0
Working items r = (is_reconciling r.phase ≡ true) × Unleased r × (1 ≤ remaining r.id items)

abbrev pub Ended : List SyncItem → SyncRun → Type 0
Ended items r =
    (is_over r.phase ≡ true)
    × ((is_pending r.status || is_running r.status) ≡ false)
    × (r.lease_token ≡ none)
    × (remaining r.id items ≡ 0)

abbrev pub Coherent : List SyncItem → SyncRun → Type 0
Coherent items r = Open items r ⊎ (Working items r ⊎ Ended items r)

-- An UPDATE of sync_runs that keeps each selected row coherent.
pub update-Coherent :
    (p : SyncRun → Bool) (f : SyncRun → SyncRun) (items : List SyncItem) (rs : List SyncRun)
    → ((r : SyncRun) → p r ≡ true → Coherent items r → Coherent items (f r))
    → All (Coherent items) rs
    → All (Coherent items) (update_where p f rs)
update-Coherent p f items rs keep h = All-update_where (Coherent items) p f rs (All-of _ rs keep) h

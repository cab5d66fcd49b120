-- ===== src/Gateway/Discovery.antt =====
-- publishDiscovery of src/modules/gateway/gateway-sync-item.repository.ts: a snapshot of a session's groups is
-- put off when it looks wrong, or accepted; then the groups to read become items of the run.
use wa_runtime.Base.{
  ℕ, ◌+◌, ◌*◌, Bool, true, false, not, ◌&&◌, ◌||◌, Option, none, some, List, [], ◌∷◌, ◌++◌, leb,
  ltb, ◌==◌, holds, is_null, or_else, length, any, member, if◌then◌else◌,
}
use wa_runtime.Base.Sql.{update_where, row_count, first_row, order_by}
use wa_runtime.Gateway.SyncRun.{
  SyncMode, full, incremental, WriteFence, assert_sync_write_ownership, defer_discovery,
  finish_discovery,
}
use wa_runtime.Gateway.SyncItem.{
  Sync, SyncItem, SelectReason, full_sync, missing_details, capability_invalidated,
  summary_not_reconciled, details_stale, of_run, pending,
}
use wa_runtime.Gateway.Groups.{GatewayGroup, Summary, group_of, summary_ids, replace_summaries}

-- The columns of gateway_sessions that guard against a snapshot with too few groups.
pub record SnapshotGuard : Type 0 where
  pub session_id : ℕ
  pub group_snapshot_count : Option ℕ
  pub suspicious_fingerprint : Option ℕ
  pub suspicious_count : Option ℕ
  pub confirmations : ℕ

pub record World : Type 0 where
  pub sync : Sync
  pub groups : List GatewayGroup
  pub guards : List SnapshotGuard

-- The drop ratio is a fraction; digest is the hash of the sorted ids, rank their order.
pub record DiscoveryConfig : Type 0 where
  pub min_baseline : ℕ
  pub drop_numerator : ℕ
  pub drop_denominator : ℕ
  pub needed_confirmations : ℕ
  pub stale_after_ms : ℕ
  pub pending_name : ℕ
  pub rank : ℕ → ℕ
  pub digest : List ℕ → ℕ

abbrev pub snapshot_fingerprint : DiscoveryConfig → List Summary → ℕ
snapshot_fingerprint cfg ms = cfg.digest (order_by cfg.rank (summary_ids ms))

abbrev pub guard_of : ℕ → SnapshotGuard → Bool
guard_of session g = g.session_id == session

in_session : ℕ → GatewayGroup → Bool
in_session session g = g.session_id == session

baseline_of : Option SnapshotGuard → ℕ → ℕ
baseline_of none size = size
baseline_of (some g) size = or_else g.group_snapshot_count size

unfoldable pub baseline : ℕ → World → ℕ
unfolding baseline_of in_session
baseline session w =
    baseline_of (first_row (guard_of session) w.guards) (row_count (in_session session) w.groups)

unfoldable pub is_suspicious : DiscoveryConfig → ℕ → ℕ → Bool
is_suspicious cfg base found =
    leb cfg.min_baseline base && ltb (found * cfg.drop_denominator) (base * cfg.drop_numerator)

-- How often this snapshot has now been seen.
confirmations_of : Option SnapshotGuard → ℕ → ℕ → ℕ
confirmations_of none fingerprint found = 1
confirmations_of (some g) fingerprint found =
    if holds g.suspicious_fingerprint fingerprint && holds g.suspicious_count found
    then g.confirmations + 1
    else 1

unfoldable pub confirmations : DiscoveryConfig → ℕ → List Summary → World → ℕ
unfolding confirmations_of
confirmations cfg session ms w =
    confirmations_of (first_row (guard_of session) w.guards) (snapshot_fingerprint cfg ms)
      (length ms)

abbrev pub suspect_row : ℕ → ℕ → ℕ → SnapshotGuard → SnapshotGuard
suspect_row fingerprint found seen g = record g {
  suspicious_fingerprint = some fingerprint;
  suspicious_count = some found;
  confirmations = seen;
}

abbrev pub accept_row : ℕ → SnapshotGuard → SnapshotGuard
accept_row found g = record g {
  group_snapshot_count = some found;
  suspicious_fingerprint = none;
  suspicious_count = none;
  confirmations = 0;
}

is_full : SyncMode → Bool
is_full full = true
is_full incremental = false

older_than : Option ℕ → ℕ → ℕ → Bool
older_than none stale_after js_now = false
older_than (some t) stale_after js_now = ltb (t + stale_after) js_now

reason_on : Option GatewayGroup → Summary → ℕ → ℕ → Option SelectReason
unfolding older_than
reason_on none m stale_after js_now = some missing_details
reason_on (some g) m stale_after js_now =
    if is_null g.details_synced_at
    then some missing_details
    else if not (is_null g.capability_invalidated_at)
    then some capability_invalidated
    else if not (holds g.reconciled_summary_fingerprint m.fingerprint)
    then some summary_not_reconciled
    else if older_than g.details_synced_at stale_after js_now
    then some details_stale
    else none

unfoldable pub select_reason :
    DiscoveryConfig → SyncMode → ℕ → Summary → ℕ → List GatewayGroup → Option SelectReason
unfolding reason_on is_full
select_reason cfg mode session m js_now existing =
    if is_full mode
    then some full_sync
    else reason_on (first_row (group_of session m.id) existing) m cfg.stale_after_ms js_now

pub record Selected : Type 0 where
  pub group : Summary
  pub ordinal : ℕ
  pub reason : SelectReason

keep_selected : Option SelectReason → Summary → ℕ → List Selected → List Selected
keep_selected none m ordinal rest = rest
keep_selected (some r) m ordinal rest = record { group = m; ordinal = ordinal; reason = r } ∷ rest

-- groups.flatMap with the ordinal of each group.
unfoldable pub select :
    DiscoveryConfig → SyncMode → ℕ → List Summary → ℕ → ℕ → List GatewayGroup → List Selected
unfolding keep_selected
select cfg mode session [] ordinal js_now existing = []
select cfg mode session (m ∷ ms) ordinal js_now existing =
    keep_selected (select_reason cfg mode session m js_now existing) m ordinal
      (select cfg mode session ms (ordinal + 1) js_now existing)

abbrev pub new_item : ℕ → ℕ → Selected → ℕ → ℕ → SyncItem
new_item run session x new_id now = record {
  id = new_id;
  sync_run_id = run;
  session_id = session;
  group_id = x.group.id;
  ordinal = x.ordinal;
  reason = x.reason;
  status = pending;
  attempt_count = 0;
  next_attempt_at = now;
  lease_token = none;
  lease_expires_at = none;
  members_synced = 0;
  error = none;
  observed_summary_fingerprint = some x.group.fingerprint;
  started_at = none;
  completed_at = none;
}

abbrev pub item_for : ℕ → ℕ → SyncItem → Bool
item_for run group i = of_run run i && i.group_id == group

-- INSERT … ON CONFLICT (sync_run_id, group_id) DO NOTHING; new_id gives the id of each row by its ordinal.
unfoldable pub insert_items : ℕ → ℕ → List Selected → (ℕ → ℕ) → ℕ → List SyncItem → List SyncItem
insert_items run session [] new_id now items = items
insert_items run session (x ∷ xs) new_id now items = insert_items run session xs new_id now (
    if any (item_for run x.group.id) items
    then items
    else items ++ new_item run session x (new_id x.ordinal) now ∷ [])

abbrev pub mark_row : Summary → GatewayGroup → GatewayGroup
mark_row m g = record g { summary_fingerprint = some m.fingerprint }

unfoldable pub mark_summaries : ℕ → List Summary → List GatewayGroup → List GatewayGroup
mark_summaries session [] gs = gs
mark_summaries session (m ∷ ms) gs =
    mark_summaries session ms (update_where (group_of session m.id) (mark_row m) gs)

pub record Published : Type 0 where
  pub discovered : ℕ
  pub scheduled : ℕ
  pub done : Bool
  pub deferred : Bool

abbrev pub is_empty : List Selected → Bool
is_empty [] = true
is_empty (x ∷ xs) = false

unfoldable pub put_off :
    DiscoveryConfig → WriteFence → ℕ → List Summary → ℕ → World → Published × World
put_off cfg fence session ms now w = (
  record { discovered = length ms; scheduled = 0; done = false; deferred = true },
  record w {
    sync = record w.sync { db = defer_discovery fence.sync_run_id fence.token now w.sync.db };
    guards =
        update_where (guard_of session)
          (suspect_row (snapshot_fingerprint cfg ms) (length ms) (confirmations cfg session ms w))
          w.guards;
  },
)

unfoldable pub accept :
    DiscoveryConfig
    → WriteFence
    → ℕ
    → List Summary
    → List Selected
    → (ℕ → ℕ)
    → ℕ
    → World
    → Published × World
accept cfg fence session ms selected new_id now w = (
  record {
    discovered = length ms;
    scheduled = length selected;
    done = is_empty selected;
    deferred = false;
  },
  record {
    sync = record w.sync {
      db =
          finish_discovery fence.sync_run_id fence.token (length ms) (length selected)
            (is_empty selected) now w.sync.db;
      items = insert_items fence.sync_run_id session selected new_id now w.sync.items;
    };
    groups = mark_summaries session ms (replace_summaries cfg.pending_name session ms now w.groups);
    guards = update_where (guard_of session) (accept_row (length ms)) w.guards;
  },
)

abbrev pub has_duplicate : List ℕ → Bool
has_duplicate [] = false
has_duplicate (x ∷ xs) = member x xs || has_duplicate xs

-- A transaction that throws is none: where ownership is lost, and where the snapshot has a group twice, which
-- INSERT … ON CONFLICT DO UPDATE refuses.
unfoldable pub publish_owned :
    DiscoveryConfig
    → WriteFence
    → ℕ
    → SyncMode
    → List Summary
    → (ℕ → ℕ)
    → ℕ
    → ℕ
    → World
    → Option (Published × World)
unfolding put_off accept
publish_owned cfg fence session mode ms new_id js_now now w =
    if is_suspicious cfg (baseline session w) (length ms)
      && ltb (confirmations cfg session ms w) cfg.needed_confirmations
    then some (put_off cfg fence session ms now w)
    else if has_duplicate (summary_ids ms)
    then none
    else some
        (accept cfg fence session ms (select cfg mode session ms 0 js_now w.groups) new_id now w)

unfoldable pub publish_discovery :
    DiscoveryConfig
    → WriteFence
    → ℕ
    → SyncMode
    → List Summary
    → (ℕ → ℕ)
    → ℕ
    → ℕ
    → World
    → Option (Published × World)
unfolding publish_owned
publish_discovery cfg fence session mode ms new_id js_now now w =
    if assert_sync_write_ownership session fence now w.sync.db
    then publish_owned cfg fence session mode ms new_id js_now now w
    else none

-- The tables after the transaction, committed or rolled back.
abbrev pub after_publish : Option (Published × World) → World → World
after_publish none w = w
after_publish (some r) w = r.1

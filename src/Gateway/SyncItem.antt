-- ===== src/Gateway/SyncItem.antt =====
-- src/modules/gateway/gateway-sync-item.repository.ts: the groups that a synchronisation run has to read,
-- in the table gateway_sync_items, with the run's progress and the session's rate limit.
use wa_runtime.Base.{
  ℕ, ◌+◌, ◌-◌, ◌*◌, ◌^◌, min, String, Bool, true, false, not, ◌&&◌, Option, none, some, List, [],
  ◌∷◌, leb, ltb, ◌==◌, after, before, holds, or_else, filter, map, if◌then◌else◌,
}
use wa_runtime.Base.Sql.{update_where, row_count, first_row}
use wa_runtime.Gateway.SyncRun.{Aggregate, refresh_progress, is_running}
use wa_runtime.Gateway.SyncRun
use wa_runtime.Gateway.RateLimit.{
  RateLimit, Config, FailurePolicy, ensure, ready_and_rate, acquire, renew, success, failure,
  release,
}

pub data ItemStatus : Type 0 where
  pending running retry completed failed skipped : ItemStatus

pub data SelectReason : Type 0 where
  full_sync missing_details capability_invalidated summary_not_reconciled details_stale :
      SelectReason

pub record SyncItem : Type 0 where
  pub id : ℕ
  pub sync_run_id : ℕ
  pub session_id : ℕ
  pub group_id : ℕ
  pub ordinal : ℕ
  pub reason : SelectReason
  pub status : ItemStatus
  pub attempt_count : ℕ
  pub next_attempt_at : ℕ
  pub lease_token : Option ℕ
  pub lease_expires_at : Option ℕ
  pub members_synced : ℕ
  pub error : Option String
  pub observed_summary_fingerprint : Option ℕ
  pub started_at : Option ℕ
  pub completed_at : Option ℕ

pub record Sync : Type 0 where
  pub db : SyncRun.Db
  pub items : List SyncItem
  pub limits : List RateLimit

abbrev pub item_id : SyncItem → ℕ
item_id i = i.id

abbrev pub is_waiting : ItemStatus → Bool
is_waiting pending = true
is_waiting retry = true
is_waiting _ = false

abbrev pub in_progress : ItemStatus → Bool
in_progress running = true
in_progress _ = false

-- status IN ('PENDING','RUNNING','RETRY').
abbrev pub is_outstanding : ItemStatus → Bool
is_outstanding pending = true
is_outstanding running = true
is_outstanding retry = true
is_outstanding _ = false

abbrev pub is_completed : ItemStatus → Bool
is_completed completed = true
is_completed _ = false

abbrev pub is_failed : ItemStatus → Bool
is_failed failed = true
is_failed _ = false

abbrev pub is_skipped : ItemStatus → Bool
is_skipped skipped = true
is_skipped _ = false

abbrev pub of_run : ℕ → SyncItem → Bool
of_run run i = i.sync_run_id == run

abbrev pub with_status : ℕ → (ItemStatus → Bool) → SyncItem → Bool
with_status run q i = of_run run i && q i.status

-- COALESCE(sum(members_synced) FILTER (…), 0).
members_of : ℕ → List SyncItem → ℕ
members_of run [] = 0
members_of run (i ∷ is) =
    let rest = members_of run is in
    if with_status run is_completed i then i.members_synced + rest else rest

unfoldable pub aggregate : ℕ → List SyncItem → Aggregate
unfolding members_of
aggregate run items = record {
  done = row_count (with_status run is_completed) items;
  failures = row_count (with_status run is_failed) items;
  skipped = row_count (with_status run is_skipped) items;
  members = members_of run items;
  remaining = row_count (with_status run is_outstanding) items;
}

-- say is the text of failed || ' group reconciliations failed'.
unfoldable pub refresh_parent : (ℕ → String) → ℕ → ℕ → Sync → Sync
unfolding aggregate
refresh_parent say run now s =
    let a = aggregate run s.items in
    record s { db = refresh_progress run a (say a.failures) now s.db }

-- The join of an item with its run, where the run is RUNNING.
abbrev pub running_run : ℕ → SyncRun.SyncRun → Bool
running_run run r = r.id == run && is_running r.status

abbrev pub claimable : Config → ℕ → ℕ → SyncItem → Bool
claimable cfg id now i =
    i.id == id
    && is_waiting i.status
    && leb i.next_attempt_at now
    && ltb i.attempt_count cfg.item_max_attempts

abbrev pub claim_row : ℕ → ℕ → SyncItem → SyncItem
claim_row token now i = record i {
  status = running;
  attempt_count = i.attempt_count + 1;
  lease_token = some token;
  lease_expires_at = some (now + 120000);
  started_at = some (or_else i.started_at now);
  error = none;
}

pub record ClaimedItem : Type 0 where
  pub id : ℕ
  pub run : ℕ
  pub session : ℕ
  pub group : ℕ
  pub epoch : Option ℕ
  pub token : ℕ
  pub attempt_number : ℕ
  pub observed : Option ℕ

unfoldable pub claim_at :
    Option SyncItem
    → Config
    → SyncItem
    → Option ℕ
    → ℕ
    → ℕ
    → ℕ
    → List RateLimit
    → Sync
    → Option ClaimedItem × Sync
claim_at none cfg i epoch rate token now limits s = (none, record s { limits = limits })
claim_at (some c) cfg i epoch rate token now limits s = (
  some record {
    id = i.id;
    run = i.sync_run_id;
    session = i.session_id;
    group = i.group_id;
    epoch = epoch;
    token = token;
    attempt_number = c.attempt_count + 1;
    observed = i.observed_summary_fingerprint;
  },
  record s {
    items = update_where (claimable cfg i.id now) (claim_row token now) s.items;
    limits = acquire i.session_id token rate now limits;
  },
)

unfoldable pub claim_ready :
    Option ℕ
    → Config
    → SyncItem
    → Option ℕ
    → ℕ
    → ℕ
    → List RateLimit
    → Sync
    → Option ClaimedItem × Sync
unfolding claim_at
claim_ready none cfg i epoch token now limits s = (none, record s { limits = limits })
claim_ready (some rate) cfg i epoch token now limits s =
    claim_at (first_row (claimable cfg i.id now) s.items) cfg i epoch rate token now limits s

unfoldable pub claim_joined :
    Option SyncRun.SyncRun → Config → SyncItem → ℕ → ℕ → Sync → Option ClaimedItem × Sync
unfolding claim_ready
claim_joined none cfg i token now s = (none, s)
claim_joined (some r) cfg i token now s =
    let limits = ensure cfg i.session_id now s.limits in
    claim_ready (ready_and_rate cfg i.session_id now limits) cfg i r.sync_epoch token now limits s

unfoldable pub claim_candidate : Option SyncItem → Config → ℕ → ℕ → Sync → Option ClaimedItem × Sync
unfolding claim_joined
claim_candidate none cfg token now s = (none, s)
claim_candidate (some i) cfg token now s =
    claim_joined (first_row (running_run i.sync_run_id) s.db.runs) cfg i token now s

unfoldable pub claim : Config → ℕ → ℕ → ℕ → Sync → Option ClaimedItem × Sync
unfolding claim_candidate
claim cfg id token now s = claim_candidate (first_row (λ i. i.id == id) s.items) cfg token now s

abbrev pub owned : ℕ → ℕ → ℕ → SyncItem → Bool
owned id token now i =
    i.id == id && in_progress i.status && holds i.lease_token token && after i.lease_expires_at now

abbrev pub renew_row : ℕ → SyncItem → SyncItem
renew_row now i = record i { lease_expires_at = some (now + 120000) }

unfoldable pub renew_on : Option SyncItem → ℕ → ℕ → ℕ → Sync → Bool × Sync
renew_on none id token now s = (false, s)
renew_on (some i) id token now s =
    let (held, limits) = renew i.session_id token now s.limits in
    if held
    then (
      true,
      record s {
        items = update_where (owned id token now) (renew_row now) s.items;
        limits = limits;
      },
    )
    else (false, s)

-- renewLease: where the rate limit's lease is lost, the transaction is rolled back.
unfoldable pub renew_lease : ℕ → ℕ → ℕ → Sync → Bool × Sync
unfolding renew_on
renew_lease id token now s = renew_on (first_row (owned id token now) s.items) id token now s

abbrev pub complete_row : ℕ → ℕ → SyncItem → SyncItem
complete_row members now i = record i {
  status = completed;
  members_synced = members;
  lease_token = none;
  lease_expires_at = none;
  completed_at = some now;
}

unfoldable pub complete_on :
    Option SyncItem → (ℕ → String) → Config → ℕ → ℕ → ℕ → ℕ → Sync → Bool × Sync
unfolding refresh_parent
complete_on none say cfg id token members now s = (false, s)
complete_on (some i) say cfg id token members now s = (
  true,
  refresh_parent say i.sync_run_id now (record s {
    items = update_where (owned id token now) (complete_row members now) s.items;
    limits = success cfg i.session_id token s.limits;
  }),
)

-- complete, less the fingerprint that it writes to gateway_groups.
unfoldable pub complete : (ℕ → String) → Config → ℕ → ℕ → ℕ → ℕ → Sync → Bool × Sync
unfolding complete_on
complete say cfg id token members now s =
    complete_on (first_row (owned id token now) s.items) say cfg id token members now s

abbrev pub skip_row : String → ℕ → SyncItem → SyncItem
skip_row error now i = record i {
  status = skipped;
  error = some error;
  lease_token = none;
  lease_expires_at = none;
  completed_at = some now;
}

unfoldable pub skip_on : Option SyncItem → (ℕ → String) → ℕ → ℕ → String → ℕ → Sync → Bool × Sync
unfolding refresh_parent
skip_on none say id token error now s = (false, s)
skip_on (some i) say id token error now s = (
  true,
  refresh_parent say i.sync_run_id now (record s {
    items = update_where (owned id token now) (skip_row error now) s.items;
    limits = release i.session_id token s.limits;
  }),
)

unfoldable pub skip : (ℕ → String) → ℕ → ℕ → String → ℕ → Sync → Bool × Sync
unfolding skip_on
skip say id token error now s =
    skip_on (first_row (owned id token now) s.items) say id token error now s

pub data FailResult : Type 0 where
  will_retry gave_up lost_ownership : FailResult

-- Math.min(300, 5 * 2 ** Math.max(0, attempt - 1)) seconds, times 0.8 plus at most 0.4: jitter is in thousandths.
unfoldable pub retry_ms : ℕ → ℕ → ℕ
retry_ms attempt jitter = min 300 (5 * 2 ^ (attempt - 1)) * (800 + jitter)

abbrev pub tokened : ℕ → ℕ → SyncItem → Bool
tokened id token i = i.id == id && holds i.lease_token token

abbrev pub fail_row : Bool → String → ℕ → ℕ → SyncItem → SyncItem
fail_row again error delay now i = record i {
  status = if again then retry else failed;
  error = some error;
  next_attempt_at = if again then now + delay else i.next_attempt_at;
  lease_token = none;
  lease_expires_at = none;
  completed_at = if again then none else some now;
}

abbrev pub retries : Config → FailurePolicy → SyncItem → Bool
retries cfg policy i = policy.retryable && ltb i.attempt_count cfg.item_max_attempts

-- jitter and cool_ms are what fail and the rate limit draw at random.
unfoldable pub fail_on :
    Option SyncItem
    → (ℕ → String)
    → Config
    → FailurePolicy
    → ℕ
    → ℕ
    → String
    → ℕ
    → ℕ
    → ℕ
    → Sync
    → FailResult × Sync
unfolding refresh_parent retry_ms
fail_on none say cfg policy id token error jitter cool_ms now s = (lost_ownership, s)
fail_on (some i) say cfg policy id token error jitter cool_ms now s = (
  if retries cfg policy i then will_retry else gave_up,
  refresh_parent say i.sync_run_id now (record s {
    items =
        update_where (tokened id token)
          (fail_row (retries cfg policy i) error (retry_ms i.attempt_count jitter) now) s.items;
    limits = failure cfg policy i.session_id token cool_ms now s.limits;
  }),
)

unfoldable pub fail :
    (ℕ → String) → Config → FailurePolicy → ℕ → ℕ → String → ℕ → ℕ → ℕ → Sync → FailResult × Sync
unfolding fail_on
fail say cfg policy id token error jitter cool_ms now s =
    fail_on (first_row (owned id token now) s.items) say cfg policy id token error jitter cool_ms
      now s

abbrev pub lease_expired : ℕ → SyncItem → Bool
lease_expired now i = in_progress i.status && before i.lease_expires_at now

abbrev pub recover_row : Config → ℕ → SyncItem → SyncItem
recover_row cfg now i = record i {
  status = if leb cfg.item_max_attempts i.attempt_count then failed else retry;
  next_attempt_at = now;
  lease_token = none;
  lease_expires_at = none;
  error = some "Recovered expired group reconciliation lease";
  completed_at = if leb cfg.item_max_attempts i.attempt_count then some now else none;
}

-- The distinct runs, in the order of the rows.
unfoldable pub distinct : List ℕ → List ℕ
distinct [] = []
distinct (x ∷ xs) = x ∷ filter (λ y. not (y == x)) (distinct xs)

unfoldable pub refresh_all : (ℕ → String) → List ℕ → ℕ → Sync → Sync
unfolding refresh_parent
refresh_all say [] now s = s
refresh_all say (run ∷ runs) now s = refresh_all say runs now (refresh_parent say run now s)

abbrev pub limit_expired : ℕ → RateLimit → Bool
limit_expired now l = before l.active_lease_expires_at now

abbrev pub free_limit : RateLimit → RateLimit
free_limit l = record l { active_lease_token = none; active_lease_expires_at = none }

abbrev pub runs_of : List SyncItem → List ℕ
runs_of items = map (λ (i : SyncItem). i.sync_run_id) items

unfoldable pub recover_expired : (ℕ → String) → Config → ℕ → Sync → ℕ × Sync
unfolding refresh_all distinct
recover_expired say cfg now s =
    let hit = filter (lease_expired now) s.items in
    let moved = record s {
      items = update_where (lease_expired now) (recover_row cfg now) s.items;
    } in
    let refreshed = refresh_all say (distinct (runs_of hit)) now moved in
    (
      row_count (lease_expired now) s.items,
      record refreshed { limits = update_where (limit_expired now) free_limit refreshed.limits },
    )

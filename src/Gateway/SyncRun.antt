-- ===== src/Gateway/SyncRun.antt =====
-- src/modules/gateway/gateway-sync-run.repository.ts and gateway-write-fence.repository.ts: the tables
-- sync_runs and gateway_sync_fences, with the three statements of gateway-sync-item.repository.ts
-- that write sync_runs. Ids and tokens of gen_random_uuid() enter as arguments.
use wa_runtime.Base.{
  ℕ, ◌+◌, ◌-◌, String, Bool, true, false, not, ◌&&◌, ◌||◌, Option, none, some, List, [], ◌∷◌, ◌++◌,
  leb, ltb, ◌==◌, after, before, holds, or_else, filter, take, any, if◌then◌else◌,
}
use wa_runtime.Base.Sql.{update_where, row_count, first_row, order_by}
use wa_runtime.Base.Backoff.{backoff_ms}

pub data SyncMode : Type 0 where
  full incremental : SyncMode

pub data SyncStatus : Type 0 where
  pending running completed failed : SyncStatus

pub data SyncPhase : Type 0 where
  discovering reconciling phase_completed : SyncPhase

pub record SyncRun : Type 0 where
  pub id : ℕ
  pub session_id : ℕ
  pub sync_type : SyncMode
  pub phase : SyncPhase
  pub status : SyncStatus
  pub groups_synced : ℕ
  pub groups_discovered : ℕ
  pub groups_scheduled : ℕ
  pub groups_failed : ℕ
  pub groups_skipped : ℕ
  pub members_synced : ℕ
  pub attempt_count : ℕ
  pub next_attempt_at : ℕ
  pub sync_epoch : Option ℕ
  pub lease_token : Option ℕ
  pub lease_expires_at : Option ℕ
  pub error : Option String
  pub requested_at : ℕ
  pub started_at : Option ℕ
  pub completed_at : Option ℕ

pub record Fence : Type 0 where
  pub session_id : ℕ
  pub current_epoch : ℕ

pub record Db : Type 0 where
  pub runs : List SyncRun
  pub fences : List Fence

pub record ClaimedRun : Type 0 where
  pub session : ℕ
  pub token : ℕ
  pub attempt_number : ℕ
  pub epoch : ℕ

pub data CreateResult : Type 0 where
  inserted existing : ℕ → CreateResult
  mode_conflict : ℕ → SyncMode → CreateResult

pub data AttemptResult : Type 0 where
  retried gave_up lost_ownership : AttemptResult

abbrev pub run_id : SyncRun → ℕ
run_id r = r.id

abbrev pub is_pending : SyncStatus → Bool
is_pending pending = true
is_pending _ = false

abbrev pub is_running : SyncStatus → Bool
is_running running = true
is_running _ = false

abbrev pub same_mode : SyncMode → SyncMode → Bool
same_mode full full = true
same_mode incremental incremental = true
same_mode _ _ = false

abbrev pub new_run : ℕ → SyncMode → ℕ → ℕ → SyncRun
new_run session mode new_id now = record {
  id = new_id;
  session_id = session;
  sync_type = mode;
  phase = discovering;
  status = pending;
  groups_synced = 0;
  groups_discovered = 0;
  groups_scheduled = 0;
  groups_failed = 0;
  groups_skipped = 0;
  members_synced = 0;
  attempt_count = 0;
  next_attempt_at = now;
  sync_epoch = none;
  lease_token = none;
  lease_expires_at = none;
  error = none;
  requested_at = now;
  started_at = none;
  completed_at = none;
}

-- status IN ('PENDING','RUNNING').
abbrev pub active_in : ℕ → SyncRun → Bool
active_in session r = r.session_id == session && (is_pending r.status || is_running r.status)

first_of : List SyncRun → Option SyncRun
first_of [] = none
first_of (r ∷ rs) = some r

unfoldable pub active_run : ℕ → List SyncRun → Option SyncRun
unfolding first_of
active_run session runs =
    first_of (order_by (λ r. r.requested_at) (filter (active_in session) runs))

unfoldable pub create_on : Option SyncRun → ℕ → SyncMode → ℕ → ℕ → Db → CreateResult × Db
create_on (some r) session mode new_id now db =
    (if same_mode r.sync_type mode then existing r.id else mode_conflict r.id r.sync_type, db)
create_on none session mode new_id now db =
    (inserted new_id, record db { runs = db.runs ++ new_run session mode new_id now ∷ [] })

-- create: at most one active run in a session.
unfoldable pub create : ℕ → SyncMode → ℕ → ℕ → Db → CreateResult × Db
unfolding active_run create_on
create session mode new_id now db =
    create_on (active_run session db.runs) session mode new_id now db

abbrev pub listable : ℕ → SyncRun → Bool
listable now r = is_pending r.status && ltb r.attempt_count 3 && leb r.next_attempt_at now

unfoldable pub list_pending : ℕ → ℕ → Db → List SyncRun
list_pending limit now db = take limit (
    order_by (λ r. r.next_attempt_at)
      (order_by (λ r. r.requested_at) (filter (listable now) db.runs)))

abbrev pub exhausted : SyncRun → Bool
exhausted r = leb 3 r.attempt_count

-- The columns that recoverExpired and failAttempt write alike.
abbrev pub give_back : String → ℕ → ℕ → SyncRun → SyncRun
give_back error again now r = record r {
  status = if exhausted r then failed else pending;
  sync_epoch = if exhausted r then r.sync_epoch else none;
  next_attempt_at = if exhausted r then r.next_attempt_at else again;
  lease_token = none;
  lease_expires_at = none;
  error = some error;
  completed_at = if exhausted r then some now else none;
}

abbrev pub lease_expired : ℕ → SyncRun → Bool
lease_expired now r = is_running r.status && before r.lease_expires_at now

unfoldable pub recover_expired : ℕ → Db → ℕ × Db
recover_expired now db = (
  row_count (lease_expired now) db.runs,
  record db {
    runs =
        update_where (lease_expired now) (give_back "Recovered expired sync lease" now now) db.runs;
  },
)

-- The fence of a session: INSERT … ON CONFLICT DO NOTHING, then its epoch.
abbrev pub fence_of : ℕ → Fence → Bool
fence_of session f = f.session_id == session

unfoldable pub ensure_fence : ℕ → List Fence → List Fence
ensure_fence session fs =
    if any (fence_of session) fs
    then fs
    else fs ++ record { session_id = session; current_epoch = 0 } ∷ []

epoch_on : Option Fence → ℕ
epoch_on none = 0
epoch_on (some f) = f.current_epoch

unfoldable pub current_epoch : ℕ → List Fence → ℕ
unfolding epoch_on
current_epoch session fs = epoch_on (first_row (fence_of session) fs)

abbrev pub running_in : ℕ → SyncRun → Bool
running_in session r = r.session_id == session && is_running r.status

abbrev pub claimable : ℕ → ℕ → List SyncRun → SyncRun → Bool
claimable id now runs r = r.id == id && listable now r && not (any (running_in r.session_id) runs)

abbrev pub claim_row : ℕ → ℕ → ℕ → SyncRun → SyncRun
claim_row epoch token now r = record r {
  status = running;
  attempt_count = r.attempt_count + 1;
  sync_epoch = some epoch;
  lease_token = some token;
  lease_expires_at = some (now + 120000);
  phase = discovering;
  groups_synced = 0;
  groups_discovered = 0;
  groups_scheduled = 0;
  groups_failed = 0;
  groups_skipped = 0;
  members_synced = 0;
  error = none;
  started_at = some (or_else r.started_at now);
  completed_at = none;
}

abbrev pub set_epoch : ℕ → Fence → Fence
set_epoch epoch f = record f { current_epoch = epoch }

unfoldable pub claim_row_on :
    Option SyncRun → ℕ → ℕ → ℕ → ℕ → ℕ → List Fence → Db → Option ClaimedRun × Db
claim_row_on none id session epoch token now fences db = (none, record db { fences = fences })
claim_row_on (some r) id session epoch token now fences db = (
  some (record {
    session = session;
    token = token;
    attempt_number = r.attempt_count + 1;
    epoch = epoch;
  }),
  record {
    runs = update_where (claimable id now db.runs) (claim_row epoch token now) db.runs;
    fences = update_where (fence_of session) (set_epoch epoch) fences;
  },
)

unfoldable pub claim_candidate : Option SyncRun → ℕ → ℕ → ℕ → Db → Option ClaimedRun × Db
unfolding claim_row_on ensure_fence current_epoch
claim_candidate none id token now db = (none, db)
claim_candidate (some c) id token now db =
    let fences = ensure_fence c.session_id db.fences in
    claim_row_on (first_row (claimable id now db.runs) db.runs) id c.session_id
      (current_epoch c.session_id fences + 1) token now fences db

unfoldable pub claim : ℕ → ℕ → ℕ → Db → Option ClaimedRun × Db
unfolding claim_candidate
claim id token now db = claim_candidate (first_row (λ r. r.id == id) db.runs) id token now db

abbrev pub owned : ℕ → ℕ → ℕ → SyncRun → Bool
owned id token now r =
    r.id == id && is_running r.status && holds r.lease_token token && after r.lease_expires_at now

abbrev pub renew_row : ℕ → SyncRun → SyncRun
renew_row now r = record r { lease_expires_at = some (now + 120000) }

unfoldable pub renew_lease : ℕ → ℕ → ℕ → Db → Bool × Db
renew_lease id token now db = (
  row_count (owned id token now) db.runs == 1,
  record db { runs = update_where (owned id token now) (renew_row now) db.runs },
)

abbrev pub complete_row : ℕ → ℕ → ℕ → SyncRun → SyncRun
complete_row groups members now r = record r {
  status = completed;
  groups_synced = groups;
  members_synced = members;
  error = none;
  lease_token = none;
  lease_expires_at = none;
  completed_at = some now;
}

unfoldable pub complete : ℕ → ℕ → ℕ → ℕ → ℕ → Db → Bool × Db
complete id token groups members now db = (
  row_count (owned id token now) db.runs == 1,
  record db { runs = update_where (owned id token now) (complete_row groups members now) db.runs },
)

abbrev pub fail_row : ℕ → ℕ → String → ℕ → SyncRun → SyncRun
fail_row groups members error now r =
    record (give_back error (now + backoff_ms r.attempt_count) now r) {
      groups_synced = groups;
      members_synced = members;
    }

attempt_result : Option SyncRun → AttemptResult
attempt_result none = lost_ownership
attempt_result (some r) = if exhausted r then gave_up else retried

unfoldable pub fail_attempt : ℕ → ℕ → ℕ → ℕ → String → ℕ → Db → AttemptResult × Db
unfolding attempt_result backoff_ms
fail_attempt id token groups members error now db = (
  attempt_result (first_row (owned id token now) db.runs),
  record db {
    runs = update_where (owned id token now) (fail_row groups members error now) db.runs;
  },
)

-- The statements of gateway-sync-item.repository.ts: a snapshot that looks wrong puts the run off, an
-- accepted one ends the discovery, and the items' results are gathered.
abbrev pub tokened : ℕ → ℕ → SyncRun → Bool
tokened id token r = r.id == id && holds r.lease_token token

abbrev pub defer_row : ℕ → SyncRun → SyncRun
defer_row now r = record r {
  status = pending;
  sync_epoch = none;
  attempt_count = r.attempt_count - 1;
  next_attempt_at = now + 5000;
  lease_token = none;
  lease_expires_at = none;
  error = some "SUSPICIOUS_GROUP_SNAPSHOT";
}

unfoldable pub defer_discovery : ℕ → ℕ → ℕ → Db → Db
defer_discovery id token now db = record db {
  runs = update_where (tokened id token) (defer_row now) db.runs;
}

abbrev pub discovered_row : ℕ → ℕ → Bool → ℕ → SyncRun → SyncRun
discovered_row found selected done now r = record r {
  phase = if done then phase_completed else reconciling;
  groups_discovered = found;
  groups_scheduled = selected;
  status = if done then completed else r.status;
  completed_at = if done then some now else none;
  lease_token = none;
  lease_expires_at = none;
  error = none;
}

unfoldable pub finish_discovery : ℕ → ℕ → ℕ → ℕ → Bool → ℕ → Db → Db
finish_discovery id token found selected done now db = record db {
  runs = update_where (tokened id token) (discovered_row found selected done now) db.runs;
}

-- The counts over the run's items; failures is the text of failed || ' group reconciliations failed'.
pub record Aggregate : Type 0 where
  pub done : ℕ
  pub failures : ℕ
  pub skipped : ℕ
  pub members : ℕ
  pub remaining : ℕ

abbrev pub refreshed_row : Aggregate → String → ℕ → SyncRun → SyncRun
refreshed_row a failures now r = record r {
  groups_synced = a.done;
  groups_failed = a.failures;
  groups_skipped = a.skipped;
  members_synced = a.members;
  phase = if a.remaining == 0 then phase_completed else reconciling;
  status = if ltb 0 a.remaining then r.status else if ltb 0 a.failures then failed else completed;
  error = if a.remaining == 0 && ltb 0 a.failures then some failures else r.error;
  completed_at = if a.remaining == 0 then some now else none;
}

unfoldable pub refresh_progress : ℕ → Aggregate → String → ℕ → Db → Db
refresh_progress id a failures now db = record db {
  runs = update_where (λ r. r.id == id) (refreshed_row a failures now) db.runs;
}

-- assertSyncWriteOwnership: false stands for the exception.
pub record WriteFence : Type 0 where
  pub sync_run_id : ℕ
  pub token : ℕ
  pub epoch : ℕ

abbrev pub at_epoch : ℕ → ℕ → Fence → Bool
at_epoch session epoch f = f.session_id == session && f.current_epoch == epoch

abbrev pub may_write : ℕ → WriteFence → ℕ → SyncRun → Bool
may_write session w now r =
    r.id == w.sync_run_id
    && r.session_id == session
    && is_running r.status
    && holds r.sync_epoch w.epoch
    && holds r.lease_token w.token
    && after r.lease_expires_at now

unfoldable pub assert_sync_write_ownership : ℕ → WriteFence → ℕ → Db → Bool
assert_sync_write_ownership session w now db =
    row_count (at_epoch session w.epoch) db.fences == 1
    && row_count (may_write session w now) db.runs == 1

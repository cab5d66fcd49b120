-- ===== src/Campaign/Preparation.antt =====
-- The preparation of a run: src/modules/campaigns/campaign-run.repository.ts, the statements
-- listPreparing, auditLifecycle, claimPreparation, recoverExpiredPreparations, applyPreflight and
-- failPreparationAttempt. A token is drawn by gen_random_uuid().
use wa_runtime.Base.{
  ℕ, ◌+◌, ◌-◌, String, Bool, true, false, not, ◌&&◌, ◌||◌, Option, none, some, List, [], ◌∷◌, ◌==◌,
  leb, ltb, holds, after, before, is_null, if◌then◌else◌, filter, any, length,
}
use wa_runtime.Base.Sql.{update_where, first_row, row_count}
use wa_runtime.Base.Backoff.{backoff_ms}
use wa_runtime.Campaign.Tables.{
  Db, CampaignRun, PreflightStatus, block, RunStatus, preparing, blocked, scheduled, running,
  failed, archived, is_preparing, is_run_failed, is_live_run, by_run_id, set_campaigns,
  active_or_paused, campaign_ids, first_only, returning, refresh_targets, add_deliveries,
  capability_snapshot_changed, Observed, is_open, is_held, is_draft, is_active, is_paused,
  is_archived,
}

abbrev pub preparation_lease_ms : ℕ
preparation_lease_ms = 120000

abbrev pub max_attempts : ℕ
max_attempts = 3

abbrev pub preparable : ℕ → CampaignRun → Bool
preparable now r =
    is_preparing r.status
    && leb r.next_attempt_at now
    && ltb r.attempt_count max_attempts
    && (is_null r.lease_token || before r.lease_expires_at now)

abbrev pub claimable : ℕ → ℕ → CampaignRun → Bool
claimable id now r = by_run_id id r && preparable now r

abbrev pub claim_row : ℕ → ℕ → CampaignRun → CampaignRun
claim_row token now r = record r {
  attempt_count = r.attempt_count + 1;
  lease_token = some token;
  lease_expires_at = some (now + preparation_lease_ms);
  error = none;
}

-- The number of the attempt that the caller now owns, under the token.
claimed_attempt : Option CampaignRun → Option ℕ
claimed_attempt none = none
claimed_attempt (some r) = some (r.attempt_count + 1)

unfoldable pub claim_preparation : ℕ → ℕ → ℕ → Db → Option ℕ × Db
unfolding claimed_attempt
claim_preparation id token now db = (
  claimed_attempt (first_row (claimable id now) db.runs),
  record db { runs = update_where (claimable id now) (claim_row token now) db.runs },
)

abbrev pub exhausted : CampaignRun → Bool
exhausted r = leb max_attempts r.attempt_count

abbrev pub recoverable : ℕ → CampaignRun → Bool
recoverable now r =
    is_preparing r.status
    && ((not (is_null r.lease_token) && before r.lease_expires_at now)
        || (is_null r.lease_token && exhausted r))

abbrev pub recover_row : ℕ → CampaignRun → CampaignRun
recover_row now r = record r {
  status = if exhausted r then failed else preparing;
  status_reason = if exhausted r then some "PREPARATION_FAILED" else r.status_reason;
  next_attempt_at = now;
  lease_token = none;
  lease_expires_at = none;
  error = some "Recovered expired campaign preparation lease";
  completed_at = if exhausted r then some now else r.completed_at;
}

abbrev pub failed_live : CampaignRun → Bool
failed_live r = is_live_run r && is_run_failed r.status

unfoldable pub recover_expired_preparations : ℕ → Db → ℕ × Db
recover_expired_preparations now db =
    let rows = returning (recoverable now) (recover_row now) db.runs in
    (
      length rows,
      record db {
        runs = update_where (recoverable now) (recover_row now) db.runs;
        campaigns =
            set_campaigns (campaign_ids failed_live rows) active_or_paused archived now
              db.campaigns;
      },
    )

abbrev pub owned : ℕ → ℕ → ℕ → CampaignRun → Bool
owned id token now r =
    by_run_id id r
    && is_preparing r.status
    && holds r.lease_token token
    && after r.lease_expires_at now

abbrev pub fail_row : String → ℕ → CampaignRun → CampaignRun
fail_row message now r = record r {
  status = if exhausted r then failed else preparing;
  status_reason = if exhausted r then some "PREPARATION_FAILED" else r.status_reason;
  error = some message;
  next_attempt_at = if exhausted r then r.next_attempt_at else now + backoff_ms r.attempt_count;
  lease_token = none;
  lease_expires_at = none;
  completed_at = if exhausted r then some now else r.completed_at;
}

-- The status that RETURNING gave; none stands for LOST_OWNERSHIP.
first_status : List CampaignRun → Option RunStatus
first_status [] = none
first_status (r ∷ rs) = some r.status

unfoldable pub fail_preparation_attempt : ℕ → ℕ → String → ℕ → Db → Option RunStatus × Db
unfolding first_status
fail_preparation_attempt id token message now db =
    let rows = returning (owned id token now) (fail_row message now) db.runs in
    (
      first_status rows,
      record db {
        runs = update_where (owned id token now) (fail_row message now) db.runs;
        campaigns =
            set_campaigns (campaign_ids failed_live (first_only rows)) active_or_paused archived now
              db.campaigns;
      },
    )

pub data ApplyResult : Type 0 where
  applied stale_input lost_ownership : ApplyResult

abbrev pub stale_owner : ℕ → ℕ → CampaignRun → Bool
stale_owner id token r = by_run_id id r && is_preparing r.status && holds r.lease_token token

-- A stale observation gives the attempt back.
abbrev pub requeue_row : ℕ → CampaignRun → CampaignRun
requeue_row now r = record r {
  lease_token = none;
  lease_expires_at = none;
  next_attempt_at = now;
  attempt_count = r.attempt_count - 1;
}

abbrev pub block_row : PreflightStatus → CampaignRun → CampaignRun
block_row report r = record r {
  status = blocked;
  status_reason = some "PREFLIGHT_BLOCKED";
  preflight = some report;
  lease_token = none;
  lease_expires_at = none;
}

abbrev pub start_row : PreflightStatus → Bool → ℕ → CampaignRun → CampaignRun
start_row report starts_now now r = record r {
  status = if starts_now then running else scheduled;
  status_reason = none;
  preflight = some report;
  started_at = if starts_now then some now else none;
  lease_token = none;
  lease_expires_at = none;
}

abbrev pub is_block : PreflightStatus → Bool
is_block block = true
is_block _ = false

abbrev pub every_target {ℓ} : {A : Type ℓ} → A → Bool
every_target t = true

apply_report : CampaignRun → PreflightStatus → ℕ → ℕ → Db → Db
apply_report run report js_now now db =
    if is_block report
    then record db { runs = update_where (by_run_id run.id) (block_row report) db.runs }
    else let ts = refresh_targets run.id every_target db.groups db.run_targets in
      record db {
        run_targets = ts;
        deliveries = add_deliveries run.id ts db.deliveries;
        runs =
            update_where (by_run_id run.id) (start_row report (leb run.scheduled_at js_now) now)
              db.runs;
      }

apply_locked :
    Option CampaignRun → ℕ → PreflightStatus → List Observed → ℕ → ℕ → Db → ApplyResult × Db
unfolding apply_report
apply_locked none token report observed js_now now db = (lost_ownership, db)
apply_locked (some run) token report observed js_now now db =
    if capability_snapshot_changed db run.id observed
    then (
      stale_input,
      record db { runs = update_where (stale_owner run.id token) (requeue_row now) db.runs },
    )
    else (applied, apply_report run report js_now now db)

unfoldable pub apply_preflight :
    ℕ → ℕ → PreflightStatus → List Observed → ℕ → ℕ → Db → ApplyResult × Db
unfolding apply_locked
apply_preflight id token report observed js_now now db =
    apply_locked (first_row (owned id token now) db.runs) token report observed js_now now db

-- auditLifecycle: the campaigns whose status does not fit their LIVE runs.
pub record Drift : Type 0 where
  pub draft_with_live : ℕ
  pub active_without_non_terminal_live : ℕ
  pub paused_without_paused_or_blocked_live : ℕ
  pub archived_with_non_terminal_live : ℕ
  pub multiple_live : ℕ

abbrev pub live_runs : ℕ → List CampaignRun → List CampaignRun
live_runs campaign rs = filter (λ r. is_live_run r && r.campaign_id == campaign) rs

abbrev pub has_live : List CampaignRun → Bool
has_live [] = false
has_live (r ∷ rs) = true

abbrev pub has_several : List CampaignRun → Bool
has_several [] = false
has_several (r ∷ rs) = has_live rs

abbrev pub has_open : List CampaignRun → Bool
has_open rs = any (λ (r : CampaignRun). is_open r.status) rs

abbrev pub has_held : List CampaignRun → Bool
has_held rs = any (λ (r : CampaignRun). is_held r.status) rs

unfoldable pub audit_lifecycle : Db → Drift
audit_lifecycle db = record {
  draft_with_live =
      row_count (λ c. is_draft c.status && has_live (live_runs c.id db.runs)) db.campaigns;
  active_without_non_terminal_live =
      row_count (λ c. is_active c.status && not (has_open (live_runs c.id db.runs))) db.campaigns;
  paused_without_paused_or_blocked_live =
      row_count (λ c. is_paused c.status && not (has_held (live_runs c.id db.runs))) db.campaigns;
  archived_with_non_terminal_live =
      row_count (λ c. is_archived c.status && has_open (live_runs c.id db.runs)) db.campaigns;
  multiple_live = row_count (λ c. has_several (live_runs c.id db.runs)) db.campaigns;
}

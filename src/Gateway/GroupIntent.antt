-- ===== src/Gateway/GroupIntent.antt =====
-- src/modules/gateway/gateway-group-intent.repository.ts: the intents to reconcile single groups. Reasons
-- are numbers in the order of their names. backoff is the delay that fail draws, Math.random() included.
use wa_runtime.Base.{
  ℕ, ◌+◌, min, max, Bool, true, false, ◌&&◌, Option, none, some, List, [], ◌∷◌, ◌++◌, leb, ltb,
  ◌==◌, after, before, holds, or_else, member, any, if◌then◌else◌,
}
use wa_runtime.Base.Sql.{update_where, row_count, first_row, order_by}
use wa_runtime.Gateway.RateLimit.{
  RateLimit, Config, FailurePolicy, ensure, ready_and_rate, acquire, renew, success, failure,
  release,
}

pub data IntentStatus : Type 0 where
  pending running retry completed failed : IntentStatus

pub record Intent : Type 0 where
  pub session_id : ℕ
  pub group_id : ℕ
  pub reasons : List ℕ
  pub status : IntentStatus
  pub requested_revision : ℕ
  pub claimed_revision : Option ℕ
  pub completed_revision : ℕ
  pub not_before : ℕ
  pub next_attempt_at : ℕ
  pub attempt_count : ℕ
  pub coalesced_count : ℕ
  pub first_requested_at : ℕ
  pub last_requested_at : ℕ
  pub lease_token : Option ℕ
  pub lease_expires_at : Option ℕ
  pub started_at : Option ℕ
  pub completed_at : Option ℕ
  pub last_error_code : Option ℕ

pub record Db : Type 0 where
  pub intents : List Intent
  pub limits : List RateLimit

pub record ClaimedIntent : Type 0 where
  pub session : ℕ
  pub group : ℕ
  pub revision : ℕ
  pub token : ℕ
  pub attempt_number : ℕ

pub data AttemptResult : Type 0 where
  done again retried gave_up lost_ownership : AttemptResult

abbrev pub is_running : IntentStatus → Bool
is_running running = true
is_running _ = false

-- status IN ('COMPLETED', 'FAILED').
abbrev pub is_settled : IntentStatus → Bool
is_settled completed = true
is_settled failed = true
is_settled _ = false

-- status IN ('PENDING', 'RETRY').
abbrev pub is_waiting : IntentStatus → Bool
is_waiting pending = true
is_waiting retry = true
is_waiting _ = false

abbrev pub of_group : ℕ → ℕ → Intent → Bool
of_group session group i = i.session_id == session && i.group_id == group

-- SELECT DISTINCT value … ORDER BY value.
distinct : List ℕ → List ℕ
distinct [] = []
distinct (x ∷ xs) = let rest = distinct xs in if member x rest then rest else x ∷ rest

unfoldable pub merge_reasons : List ℕ → ℕ → List ℕ
unfolding distinct
merge_reasons old reason = order_by (λ x. x) (distinct (old ++ reason ∷ []))

abbrev pub new_intent : Config → ℕ → ℕ → ℕ → ℕ → Intent
new_intent cfg session group reason now = record {
  session_id = session;
  group_id = group;
  reasons = reason ∷ [];
  status = pending;
  requested_revision = 1;
  claimed_revision = none;
  completed_revision = 0;
  not_before = now + cfg.debounce_ms;
  next_attempt_at = now + cfg.debounce_ms;
  attempt_count = 0;
  coalesced_count = 0;
  first_requested_at = now;
  last_requested_at = now;
  lease_token = none;
  lease_expires_at = none;
  started_at = none;
  completed_at = none;
  last_error_code = none;
}

-- The debounced time: at most max_wait_ms after the first request that is still open.
abbrev pub due_at : Config → ℕ → Intent → ℕ
due_at cfg now i =
    min ((if is_settled i.status then now else i.first_requested_at) + cfg.max_wait_ms)
      (now + cfg.debounce_ms)

-- ON CONFLICT (session_id, group_id) DO UPDATE.
abbrev pub request_again : Config → ℕ → ℕ → Intent → Intent
request_again cfg reason now i = record i {
  requested_revision = i.requested_revision + 1;
  reasons = if is_settled i.status then reason ∷ [] else merge_reasons i.reasons reason;
  status = if is_running i.status then running else pending;
  not_before = due_at cfg now i;
  next_attempt_at = if is_running i.status then i.next_attempt_at else due_at cfg now i;
  attempt_count = if is_running i.status then i.attempt_count else 0;
  coalesced_count = if is_settled i.status then 0 else i.coalesced_count + 1;
  first_requested_at = if is_settled i.status then now else i.first_requested_at;
  last_requested_at = now;
  started_at = if is_settled i.status then none else i.started_at;
  completed_at = none;
  last_error_code = none;
}

unfoldable pub schedule : Config → ℕ → ℕ → ℕ → ℕ → Db → Bool × Db
schedule cfg session group reason now db =
    if any (of_group session group) db.intents
    then (
      false,
      record db {
        intents = update_where (of_group session group) (request_again cfg reason now) db.intents;
      },
    )
    else (true, record db { intents = db.intents ++ new_intent cfg session group reason now ∷ [] })

abbrev pub claimable : Config → ℕ → ℕ → ℕ → Intent → Bool
claimable cfg session group now i =
    of_group session group i
    && is_waiting i.status
    && leb i.next_attempt_at now
    && leb i.not_before now
    && ltb i.attempt_count cfg.item_max_attempts

abbrev pub claim_row : ℕ → ℕ → Intent → Intent
claim_row token now i = record i {
  status = running;
  claimed_revision = some i.requested_revision;
  attempt_count = i.attempt_count + 1;
  lease_token = some token;
  lease_expires_at = some (now + 120000);
  started_at = some (or_else i.started_at now);
  last_error_code = none;
}

start_claim : Config → Option Intent → ℕ → ℕ → ℕ → ℕ → ℕ → Db → Option ClaimedIntent × Db
start_claim cfg none session group rate token now db = (none, db)
start_claim cfg (some i) session group rate token now db = (
  some (record {
    session = session;
    group = group;
    revision = i.requested_revision;
    token = token;
    attempt_number = i.attempt_count + 1;
  }),
  record {
    intents = update_where (claimable cfg session group now) (claim_row token now) db.intents;
    limits = acquire session token rate now db.limits;
  },
)

claim_at : Config → Option ℕ → ℕ → ℕ → ℕ → ℕ → Db → Option ClaimedIntent × Db
unfolding start_claim
claim_at cfg none session group token now db = (none, db)
claim_at cfg (some rate) session group token now db =
    start_claim cfg (first_row (claimable cfg session group now) db.intents) session group rate
      token now db

claim_known : Config → Option Intent → ℕ → ℕ → ℕ → ℕ → Db → Option ClaimedIntent × Db
unfolding claim_at
claim_known cfg none session group token now db = (none, db)
claim_known cfg (some i) session group token now db =
    let limits = ensure cfg session now db.limits in
    claim_at cfg (ready_and_rate cfg session now limits) session group token now
      (record db { limits = limits })

unfoldable pub claim : Config → ℕ → ℕ → ℕ → ℕ → Db → Option ClaimedIntent × Db
unfolding claim_known
claim cfg session group token now db =
    claim_known cfg (first_row (of_group session group) db.intents) session group token now db

abbrev pub leased : ℕ → ℕ → ℕ → ℕ → Intent → Bool
leased session group token now i =
    of_group session group i
    && is_running i.status
    && holds i.lease_token token
    && after i.lease_expires_at now

abbrev pub extend_row : ℕ → Intent → Intent
extend_row now i = record i { lease_expires_at = some (now + 120000) }

-- Either lease that is lost undoes the transaction.
unfoldable pub renew_lease : ℕ → ℕ → ℕ → ℕ → Db → Bool × Db
renew_lease session group token now db =
    let renewed = renew session token now db.limits in
    if row_count (leased session group token now) db.intents == 1 && renewed.0
    then (
      true,
      record {
        intents = update_where (leased session group token now) (extend_row now) db.intents;
        limits = renewed.1;
      },
    )
    else (false, db)

abbrev pub owned : ℕ → ℕ → ℕ → ℕ → ℕ → Intent → Bool
owned session group token revision now i =
    leased session group token now i && holds i.claimed_revision revision

-- A request that came while the intent was RUNNING puts it back to PENDING.
abbrev pub settle_row : Option ℕ → ℕ → ℕ → Intent → Intent
settle_row code revision now i =
    let newer = ltb revision i.requested_revision in
    record i {
      completed_revision = max i.completed_revision revision;
      status = if newer then pending else completed;
      attempt_count = if newer then 0 else i.attempt_count;
      next_attempt_at = if newer then max i.not_before now else i.next_attempt_at;
      claimed_revision = none;
      lease_token = none;
      lease_expires_at = none;
      completed_at = if i.requested_revision == revision then some now else none;
      last_error_code = code;
    }

complete_on : Option Intent → Config → ℕ → ℕ → ℕ → ℕ → ℕ → Db → AttemptResult × Db
complete_on none cfg session group token revision now db = (lost_ownership, db)
complete_on (some i) cfg session group token revision now db = (
  if ltb revision i.requested_revision then again else done,
  record {
    intents =
        update_where (owned session group token revision now) (settle_row none revision now)
          db.intents;
    limits = success cfg session token db.limits;
  },
)

unfoldable pub complete : Config → ℕ → ℕ → ℕ → ℕ → ℕ → Db → AttemptResult × Db
unfolding complete_on
complete cfg session group token revision now db =
    complete_on (first_row (owned session group token revision now) db.intents) cfg session group
      token revision now db

-- not_found is the code GROUP_NOT_FOUND.
unfoldable pub skip_missing : ℕ → ℕ → ℕ → ℕ → ℕ → ℕ → Db → Bool × Db
skip_missing not_found session group token revision now db =
    if row_count (owned session group token revision now) db.intents == 1
    then (
      true,
      record {
        intents =
            update_where (owned session group token revision now)
              (settle_row (some not_found) revision now) db.intents;
        limits = release session token db.limits;
      },
    )
    else (
      false,
      record db {
        intents =
            update_where (owned session group token revision now)
              (settle_row (some not_found) revision now) db.intents;
      },
    )

abbrev pub after_failure : Config → FailurePolicy → ℕ → Intent → IntentStatus
after_failure cfg policy revision i =
    if ltb revision i.requested_revision
    then pending
    else if policy.retryable && ltb i.attempt_count cfg.item_max_attempts
    then retry
    else failed

abbrev pub failed_next : IntentStatus → ℕ → ℕ → Intent → ℕ
failed_next pending backoff now i = max i.not_before now
failed_next retry backoff now i = now + backoff
failed_next _ backoff now i = i.next_attempt_at

abbrev pub is_pending : IntentStatus → Bool
is_pending pending = true
is_pending _ = false

abbrev pub is_failed : IntentStatus → Bool
is_failed failed = true
is_failed _ = false

abbrev pub fail_row : IntentStatus → ℕ → ℕ → ℕ → Intent → Intent
fail_row status code backoff now i = record i {
  status = status;
  attempt_count = if is_pending status then 0 else i.attempt_count;
  next_attempt_at = failed_next status backoff now i;
  claimed_revision = none;
  lease_token = none;
  lease_expires_at = none;
  last_error_code = some code;
  completed_at = if is_failed status then some now else none;
}

abbrev pub tokened : ℕ → ℕ → ℕ → ℕ → Intent → Bool
tokened session group token revision i =
    of_group session group i && holds i.lease_token token && holds i.claimed_revision revision

abbrev pub failure_result : IntentStatus → AttemptResult
failure_result pending = again
failure_result retry = retried
failure_result _ = gave_up

fail_on :
    Option Intent → Config → ℕ → ℕ → ℕ → ℕ → FailurePolicy → ℕ → ℕ → ℕ → Db → AttemptResult × Db
fail_on none cfg session group token revision policy backoff cool_ms now db = (lost_ownership, db)
fail_on (some i) cfg session group token revision policy backoff cool_ms now db =
    let status = after_failure cfg policy revision i in
    (
      failure_result status,
      record {
        intents =
            update_where (tokened session group token revision)
              (fail_row status policy.code backoff now) db.intents;
        limits = failure cfg policy session token cool_ms now db.limits;
      },
    )

unfoldable pub fail : Config → ℕ → ℕ → ℕ → ℕ → FailurePolicy → ℕ → ℕ → ℕ → Db → AttemptResult × Db
unfolding fail_on
fail cfg session group token revision policy backoff cool_ms now db =
    fail_on (first_row (owned session group token revision now) db.intents) cfg session group token
      revision policy backoff cool_ms now db

abbrev pub expired : ℕ → Intent → Bool
expired now i = is_running i.status && before i.lease_expires_at now

abbrev pub is_newer : Intent → Bool
is_newer i = ltb (or_else i.claimed_revision i.completed_revision) i.requested_revision

abbrev pub recover_row : Config → ℕ → ℕ → Intent → Intent
recover_row cfg code now i = record i {
  status =
      if is_newer i
      then pending
      else if leb cfg.item_max_attempts i.attempt_count
      then failed
      else retry;
  attempt_count = if is_newer i then 0 else i.attempt_count;
  claimed_revision = none;
  lease_token = none;
  lease_expires_at = none;
  next_attempt_at =
      if is_newer i
      then max i.not_before now
      else if leb cfg.item_max_attempts i.attempt_count
      then i.next_attempt_at
      else now;
  last_error_code = some code;
}

-- The rate limits of the recovered sessions whose lease is over.
abbrev pub freed : ℕ → List Intent → RateLimit → Bool
freed now is l =
    any (λ (i : Intent). expired now i && i.session_id == l.session_id) is
    && before l.active_lease_expires_at now

-- lease_code is the code LEASE_EXPIRED.
unfoldable pub recover_expired : Config → ℕ → ℕ → Db → ℕ × Db
recover_expired cfg lease_code now db = (
  row_count (expired now) db.intents,
  record {
    intents = update_where (expired now) (recover_row cfg lease_code now) db.intents;
    limits =
        update_where (freed now db.intents)
          (λ l. record l { active_lease_token = none; active_lease_expires_at = none }) db.limits;
  },
)

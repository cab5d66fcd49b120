-- ===== src/Message/Repository.antt =====
-- src/modules/messages/message-job.repository.ts. A statement acts on the two tables message_jobs and
-- message_attempts; now is the database's clock. gen_random_uuid() enters as the argument new_id.
use wa_runtime.Base.{
  ℕ, ◌+◌, String, Bool, true, false, not, ◌&&◌, ◌||◌, Option, none, some, List, [], ◌∷◌, ◌++◌, leb,
  ltb, ◌==◌, after, before, holds, coalesce, filter, take, member, map,
}
use wa_runtime.Base.Sql.{update_where, row_count, first_row, order_by}
use wa_runtime.Message.Job.{
  MessageJobStatus, MessageJob, Attempt, scheduled, queued, processing, accepted, sent, delivered,
  read, failed, unknown, dry_run_completed, cancelled, is_scheduled, is_queued, is_processing,
  is_failed, processing_lease_ms,
}

pub record Store : Type 0 where
  pub jobs : List MessageJob
  pub attempts : List Attempt

pub record NewJob : Type 0 where
  pub scope : ℕ
  pub key : ℕ
  pub hash : ℕ
  pub session : ℕ
  pub recipient : ℕ
  pub body : ℕ
  pub due_at : ℕ
  pub dry : Bool

pub record CreateResult : Type 0 where
  pub job : MessageJob
  pub created : Bool
  pub idempotency_conflict : Bool

abbrev pub same_key : ℕ → ℕ → MessageJob → Bool
same_key scope key j = j.idempotency_scope == scope && j.idempotency_key == key

-- The row that the INSERT writes, with the defaults of the table.
abbrev pub inserted : NewJob → ℕ → ℕ → MessageJob
inserted input new_id now = record {
  id = new_id;
  idempotency_scope = input.scope;
  idempotency_key = input.key;
  request_hash = input.hash;
  session_id = input.session;
  recipient_id = input.recipient;
  text = input.body;
  scheduled_at = input.due_at;
  status = scheduled;
  dry_run = input.dry;
  attempt_count = 0;
  openwa_message_id = none;
  last_error = none;
  lease_expires_at = none;
  updated_at = now;
}

-- ON CONFLICT (idempotency_scope, idempotency_key) DO NOTHING, then the SELECT of the old row.
create_on : Option MessageJob → NewJob → ℕ → ℕ → Store → CreateResult × Store
create_on none input new_id now s =
    let row = inserted input new_id now in
    (
      record { job = row; created = true; idempotency_conflict = false },
      record s { jobs = s.jobs ++ row ∷ [] },
    )
create_on (some row) input new_id now s = (
  record {
    job = row;
    created = false;
    idempotency_conflict = not (row.request_hash == input.hash);
  },
  s,
)

unfoldable pub create : NewJob → ℕ → ℕ → Store → CreateResult × Store
unfolding create_on
create input new_id now s =
    create_on (first_row (same_key input.scope input.key) s.jobs) input new_id now s

unfoldable pub find : ℕ → Store → Option MessageJob
find id s = first_row (λ j. j.id == id) s.jobs

-- The rows of the SELECT … LIMIT; skipped says which rows another transaction has locked, and the
-- rows come by scheduled_at.
abbrev pub is_due : (ℕ → Bool) → ℕ → MessageJob → Bool
is_due skipped now j = is_scheduled j.status && leb j.scheduled_at now && not (skipped j.id)

abbrev pub due_rows : (ℕ → Bool) → ℕ → ℕ → List MessageJob → List MessageJob
due_rows skipped limit now js =
    take limit (order_by (λ j. j.scheduled_at) (filter (is_due skipped now) js))

abbrev pub enqueue : ℕ → MessageJob → MessageJob
enqueue now j = record j { status = queued; updated_at = now }

unfoldable pub claim_due : (ℕ → Bool) → ℕ → ℕ → Store → List MessageJob × Store
claim_due skipped limit now s =
    let rows = due_rows skipped limit now s.jobs in
    let ids = map (λ (j : MessageJob). j.id) rows in
    (
      map (λ (j : MessageJob). record j { status = queued }) rows,
      record s { jobs = update_where (λ j. member j.id ids) (enqueue now) s.jobs },
    )

abbrev pub claimable : ℕ → MessageJob → Bool
claimable id j = j.id == id && is_queued j.status

abbrev pub start_processing : ℕ → MessageJob → MessageJob
start_processing now j = record j {
  status = processing;
  attempt_count = j.attempt_count + 1;
  lease_expires_at = some (now + processing_lease_ms);
  updated_at = now;
}

return_row : (MessageJob → MessageJob) → Option MessageJob → Option MessageJob
return_row f none = none
return_row f (some j) = some (f j)

unfoldable pub mark_processing : ℕ → ℕ → Store → Option MessageJob × Store
unfolding return_row
mark_processing id now s = (
  return_row (start_processing now) (first_row (claimable id) s.jobs),
  record s { jobs = update_where (claimable id) (start_processing now) s.jobs },
)

abbrev pub lease_live : ℕ → ℕ → MessageJob → Bool
lease_live id now j = j.id == id && is_processing j.status && after j.lease_expires_at now

abbrev pub extend_lease : ℕ → MessageJob → MessageJob
extend_lease now j = record j {
  lease_expires_at = some (now + processing_lease_ms);
  updated_at = now;
}

unfoldable pub refresh_processing_lease : ℕ → ℕ → Store → Bool × Store
refresh_processing_lease id now s = (
  row_count (lease_live id now) s.jobs == 1,
  record s { jobs = update_where (lease_live id now) (extend_lease now) s.jobs },
)

abbrev pub reschedule : String → ℕ → MessageJob → MessageJob
reschedule error now j = record j { status = scheduled; last_error = some error; updated_at = now }

unfoldable pub reset_queued : ℕ → String → ℕ → Store → Store
reset_queued id error now s = record s {
  jobs = update_where (claimable id) (reschedule error now) s.jobs;
}

abbrev pub stale_queued : ℕ → MessageJob → Bool
stale_queued now j = is_queued j.status && ltb (j.updated_at + 120000) now

unfoldable pub recover_stale_queued : ℕ → Store → ℕ × Store
recover_stale_queued now s = (
  row_count (stale_queued now) s.jobs,
  record s {
    jobs = update_where (stale_queued now) (reschedule "Recovered stale queued job" now) s.jobs;
  },
)

-- INSERT INTO message_attempts … ON CONFLICT (message_job_id, attempt_number) DO NOTHING.
abbrev pub same_attempt : ℕ → ℕ → Attempt → Bool
same_attempt id n a = a.message_job_id == id && a.attempt_number == n

add_attempt_on : Option Attempt → Attempt → List Attempt → List Attempt
add_attempt_on none a log = log ++ a ∷ []
add_attempt_on (some old) a log = log

unfoldable pub add_attempt : Attempt → List Attempt → List Attempt
unfolding add_attempt_on
add_attempt a log =
    add_attempt_on (first_row (same_attempt a.message_job_id a.attempt_number) log) a log

abbrev pub lease_expired : ℕ → MessageJob → Bool
lease_expired now j = is_processing j.status && before j.lease_expires_at now

abbrev pub expired_error : String
expired_error = "Processing lease expired; delivery outcome is unknown"

unfoldable pub add_unknown_attempts : List MessageJob → List Attempt → List Attempt
add_unknown_attempts [] log = log
add_unknown_attempts (j ∷ js) log = add_unknown_attempts js (
    add_attempt
      (record {
        message_job_id = j.id;
        attempt_number = j.attempt_count;
        outcome = unknown;
        error = some expired_error;
      })
      log)

abbrev pub give_up : ℕ → MessageJob → MessageJob
give_up now j = record j {
  status = unknown;
  last_error = some expired_error;
  lease_expires_at = none;
  updated_at = now;
}

unfoldable pub mark_expired_processing_unknown : ℕ → Store → ℕ × Store
mark_expired_processing_unknown now s = (
  row_count (lease_expired now) s.jobs,
  record {
    jobs = update_where (lease_expired now) (give_up now) s.jobs;
    attempts = add_unknown_attempts (filter (lease_expired now) s.jobs) s.attempts;
  },
)

abbrev pub running_job : ℕ → MessageJob → Bool
running_job id j = j.id == id && is_processing j.status

record_attempt :
    Option MessageJob → ℕ → MessageJobStatus → Option String → List Attempt → List Attempt
record_attempt none id status error log = log
record_attempt (some j) id status error log =
    add_attempt
      (record {
        message_job_id = id;
        attempt_number = j.attempt_count;
        outcome = status;
        error = error;
      })
      log

abbrev pub finish_row : MessageJobStatus → Option ℕ → Option String → ℕ → MessageJob → MessageJob
finish_row status message_id error now j = record j {
  status = status;
  openwa_message_id = coalesce message_id j.openwa_message_id;
  last_error = error;
  lease_expires_at = none;
  updated_at = now;
}

unfoldable pub update_result : ℕ → MessageJobStatus → Option ℕ → Option String → ℕ → Store → Store
unfolding record_attempt
update_result id status message_id error now s = record {
  jobs = update_where (running_job id) (finish_row status message_id error now) s.jobs;
  attempts = record_attempt (first_row (running_job id) s.jobs) id status error s.attempts;
}

-- The two CASE expressions that rank a delivery status.
unfoldable pub ack_rank : MessageJobStatus → ℕ
ack_rank accepted = 10
ack_rank sent = 20
ack_rank delivered = 30
ack_rank read = 40
ack_rank _ = 0

-- status NOT IN ('FAILED', 'CANCELLED', 'DRY_RUN_COMPLETED').
abbrev pub can_be_acked : MessageJobStatus → Bool
can_be_acked failed = false
can_be_acked cancelled = false
can_be_acked dry_run_completed = false
can_be_acked _ = true

abbrev pub can_fail_by_ack : MessageJobStatus → Bool
can_fail_by_ack scheduled = true
can_fail_by_ack queued = true
can_fail_by_ack processing = true
can_fail_by_ack accepted = true
can_fail_by_ack unknown = true
can_fail_by_ack _ = false

unfoldable pub ack_applies : MessageJobStatus → MessageJobStatus → Bool
unfolding ack_rank
ack_applies new old =
    can_be_acked old
    && ((is_failed new && can_fail_by_ack old)
        || (not (is_failed new) && ltb (ack_rank old) (ack_rank new)))

abbrev pub acked_by : ℕ → MessageJobStatus → MessageJob → Bool
acked_by message_id status j = holds j.openwa_message_id message_id && ack_applies status j.status

abbrev pub ack_row : MessageJobStatus → ℕ → MessageJob → MessageJob
ack_row status now j = record j { status = status; updated_at = now }

unfoldable pub update_status_by_openwa_message_id : ℕ → MessageJobStatus → ℕ → Store → Store
unfolding ack_applies
update_status_by_openwa_message_id message_id status now s = record s {
  jobs = update_where (acked_by message_id status) (ack_row status now) s.jobs;
}

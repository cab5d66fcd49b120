-- ===== src/Message/Job.antt =====
-- src/modules/messages/message-job.types.ts and the row of message-job.repository.ts, with the
-- columns that only the SQL statements name. Identifiers and hashes are numbers, compared for
-- equality only; times are milliseconds.
use wa_runtime.Base.{ℕ, String, Bool, true, false, Option}

pub data MessageJobStatus : Type 0 where
  scheduled queued processing accepted sent delivered read failed unknown : MessageJobStatus
  dry_run_completed cancelled : MessageJobStatus

pub record MessageJob : Type 0 where
  pub id : ℕ
  pub idempotency_scope : ℕ
  pub idempotency_key : ℕ
  pub request_hash : ℕ
  pub session_id : ℕ
  pub recipient_id : ℕ
  pub text : ℕ
  pub scheduled_at : ℕ
  pub status : MessageJobStatus
  pub dry_run : Bool
  pub attempt_count : ℕ
  pub openwa_message_id : Option ℕ
  pub last_error : Option String
  pub lease_expires_at : Option ℕ
  pub updated_at : ℕ

-- A row of message_attempts.
pub record Attempt : Type 0 where
  pub message_job_id : ℕ
  pub attempt_number : ℕ
  pub outcome : MessageJobStatus
  pub error : Option String

abbrev pub is_scheduled : MessageJobStatus → Bool
is_scheduled scheduled = true
is_scheduled _ = false

abbrev pub is_queued : MessageJobStatus → Bool
is_queued queued = true
is_queued _ = false

abbrev pub is_processing : MessageJobStatus → Bool
is_processing processing = true
is_processing _ = false

abbrev pub is_failed : MessageJobStatus → Bool
is_failed failed = true
is_failed _ = false

-- The interval of two minutes that a processing lease lasts.
abbrev pub processing_lease_ms : ℕ
processing_lease_ms = 120000

-- ===== src/Message/Step.antt =====
-- What may happen to the message tables: one rule for each statement of
-- src/modules/messages/message-job.repository.ts, and for the statement of
-- CampaignRunLifecycleRepository.cancel (src/modules/campaigns/campaign-run-lifecycle.repository.ts)
-- that writes the same table, and for deleteMessageJobs of src/modules/orchestration/data-retention.tick.ts.
-- Any process may take the next step, at any time.
use wa_runtime.Base.{
  ℕ, String, Bool, false, not, Option, List, ◌≡◌, ◌⊎◌, ◌&&◌, ◌||◌, member, ltb, filter,
}
use wa_runtime.Base.Sql.{update_where, delete_where}
use wa_runtime.Base.Keys.{has_key}
use wa_runtime.Message.Job.{
  MessageJobStatus, MessageJob, Attempt, accepted, failed, unknown, dry_run_completed, cancelled,
  is_scheduled, is_queued, is_processing,
}
use wa_runtime.Message.Repository.{
  Store, NewJob, create, claim_due, mark_processing, refresh_processing_lease, reset_queued,
  recover_stale_queued, mark_expired_processing_unknown, update_result,
  update_status_by_openwa_message_id,
}

-- The statuses with which the worker ends a job.
pub data Outcome : Type 0 where
  dry_run_done accepted_by_gateway rejected ambiguous : Outcome

abbrev pub outcome_status : Outcome → MessageJobStatus
outcome_status dry_run_done = dry_run_completed
outcome_status accepted_by_gateway = accepted
outcome_status rejected = failed
outcome_status ambiguous = unknown

-- UPDATE message_jobs SET status = 'CANCELLED' … status IN ('SCHEDULED','QUEUED').
abbrev pub cancellable : List ℕ → MessageJob → Bool
cancellable ids j = member j.id ids && (is_scheduled j.status || is_queued j.status)

abbrev pub cancel_row : ℕ → MessageJob → MessageJob
cancel_row now j = record j { status = cancelled; updated_at = now }

unfoldable pub cancel_jobs : List ℕ → ℕ → Store → Store
cancel_jobs ids now s = record s { jobs = update_where (cancellable ids) (cancel_row now) s.jobs }

abbrev pub is_in_flight : MessageJobStatus → Bool
is_in_flight s = is_scheduled s || is_queued s || is_processing s

-- chosen says for which jobs there is no delivery and no other lock, and which the LIMIT takes.
abbrev pub retirable : (MessageJob → Bool) → ℕ → MessageJob → Bool
retirable chosen cutoff j = not (is_in_flight j.status) && ltb j.updated_at cutoff && chosen j

-- DELETE FROM message_jobs, with ON DELETE CASCADE for message_attempts.
unfoldable pub delete_message_jobs : (MessageJob → Bool) → ℕ → Store → Store
delete_message_jobs chosen cutoff s =
    let kept = delete_where (retirable chosen cutoff) s.jobs in
    record {
      jobs = kept;
      attempts =
          filter (λ (a : Attempt). has_key (λ (j : MessageJob). j.id) a.message_job_id kept)
            s.attempts;
    }

-- Identifiers are fresh, as gen_random_uuid() and the primary key make them.
pub data Step (s : Store) : Store → Type 0 where
  created :
      (input : NewJob) (new_id now : ℕ)
      → has_key (λ (j : MessageJob). j.id) new_id s.jobs ≡ false
      → Step s (create input new_id now s).1
  claimed : (skipped : ℕ → Bool) (limit now : ℕ) → Step s (claim_due skipped limit now s).1
  started : (id now : ℕ) → Step s (mark_processing id now s).1
  refreshed : (id now : ℕ) → Step s (refresh_processing_lease id now s).1
  reset : (id : ℕ) (error : String) (now : ℕ) → Step s (reset_queued id error now s)
  recovered : (now : ℕ) → Step s (recover_stale_queued now s).1
  expired : (now : ℕ) → Step s (mark_expired_processing_unknown now s).1
  finished :
      (id : ℕ) (outcome : Outcome) (message_id : Option ℕ) (error : Option String) (now : ℕ)
      → Step s (update_result id (outcome_status outcome) message_id error now s)
  acked :
      (message_id : ℕ) (status : MessageJobStatus) (now : ℕ)
      → Step s (update_status_by_openwa_message_id message_id status now s)
  withdrawn : (ids : List ℕ) (now : ℕ) → Step s (cancel_jobs ids now s)
  retired : (chosen : MessageJob → Bool) (cutoff : ℕ) → Step s (delete_message_jobs chosen cutoff s)

pub data Reach (s : Store) : Store → Type 0 where
  here : Reach s s
  next : {t u : Store} → Reach s t → Step t u → Reach s u

-- A statement of the sequence takes the tables from u to v.
abbrev pub Passes : {s t : Store} → Reach s t → Store → Store → Type 0
Passes here u v = ⊥
Passes (next {t = m} {u = t} r st) u v = ((u ≡ m) × (v ≡ t)) ⊎ Passes r u v

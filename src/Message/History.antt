-- ===== src/Message/History.antt =====
-- The message tables over any sequence of statements: src/modules/messages/message-job.repository.ts
-- with the interleavings of all processes.
use wa_runtime.Base.{
  ℕ, ◌≤◌, Bool, true, false, [], ◌≡◌, refl, inl, inr, arith, All, All-of, All-append, All-map,
  Option-cases,
}
use wa_runtime.Base.Sql.{update_where, first_row, All-update_where, All-delete_where}
use wa_runtime.Base.Keys.{
  has_key, Distinct, Distinct-update_where, Distinct-append_one, Distinct-delete_where,
}
use wa_runtime.Message.Job.{MessageJob}
use wa_runtime.Message.Repository.{
  Store, NewJob, create, inserted, claim_due, mark_processing, refresh_processing_lease,
  reset_queued, recover_stale_queued, mark_expired_processing_unknown, update_result,
  update_status_by_openwa_message_id, same_key, enqueue, start_processing, extend_lease, reschedule,
  give_up, finish_row, ack_row, claimable, lease_live, stale_queued, lease_expired, running_job,
  acked_by, is_due,
}
use wa_runtime.Message.Step.{
  Step, Reach, created, claimed, started, refreshed, reset, recovered, expired, finished, acked,
  withdrawn, here, next, cancel_jobs, outcome_status, cancellable, cancel_row, retired,
  delete_message_jobs, retirable,
}
use wa_runtime.Message.Evolution.{is_started, acked-row, claimed_id, claimed-selected}

abbrev pub job_id : MessageJob → ℕ
job_id j = j.id

abbrev pub UniqueIds : Store → Type 0
UniqueIds s = Distinct job_id s.jobs

create-UniqueIds :
    (input : NewJob) (new_id now : ℕ) (s : Store)
    → has_key job_id new_id s.jobs ≡ false
    → UniqueIds s
    → UniqueIds (create input new_id now s).1
unfolding create
create-UniqueIds input new_id now s fresh d =
    elim (Option-cases (first_row (same_key input.scope input.key) s.jobs)) [
      | inl e ↦
          rw (e, create) (Distinct-append_one job_id s.jobs (inserted input new_id now) fresh d)
      | inr (row, e) ↦ rw (e, create) d
    ]

updates-UniqueIds :
    (p : MessageJob → Bool) (f : MessageJob → MessageJob) (s : Store)
    → ((j : MessageJob) → (f j).id ≡ j.id)
    → UniqueIds s
    → Distinct job_id (update_where p f s.jobs)
updates-UniqueIds p f s same d = Distinct-update_where job_id p f s.jobs same d

Step-UniqueIds : {s t : Store} → Step s t → UniqueIds s → UniqueIds t
unfolding claim_due mark_processing refresh_processing_lease reset_queued recover_stale_queued
    mark_expired_processing_unknown update_result update_status_by_openwa_message_id cancel_jobs
    delete_message_jobs
Step-UniqueIds {s} (created input new_id now fresh) d = create-UniqueIds input new_id now s fresh d
Step-UniqueIds {s} (claimed skipped limit now) d = updates-UniqueIds _ (enqueue now) s (λ j. refl) d
Step-UniqueIds {s} (started id now) d = updates-UniqueIds _ (start_processing now) s (λ j. refl) d
Step-UniqueIds {s} (refreshed id now) d = updates-UniqueIds _ (extend_lease now) s (λ j. refl) d
Step-UniqueIds {s} (reset id error now) d =
    updates-UniqueIds _ (reschedule error now) s (λ j. refl) d
Step-UniqueIds {s} (recovered now) d = updates-UniqueIds _ (reschedule _ now) s (λ j. refl) d
Step-UniqueIds {s} (expired now) d = updates-UniqueIds _ (give_up now) s (λ j. refl) d
Step-UniqueIds {s} (finished id o message_id error now) d =
    updates-UniqueIds _ (finish_row (outcome_status o) message_id error now) s (λ j. refl) d
Step-UniqueIds {s} (acked message_id status now) d =
    updates-UniqueIds _ (ack_row status now) s (λ j. refl) d
Step-UniqueIds {s} (withdrawn ids now) d = updates-UniqueIds _ (cancel_row now) s (λ j. refl) d
Step-UniqueIds {s} (retired chosen cutoff) d =
    Distinct-delete_where job_id (retirable chosen cutoff) s.jobs d

pub Reach-UniqueIds : {s t : Store} → Reach s t → UniqueIds s → UniqueIds t
Reach-UniqueIds here d = d
Reach-UniqueIds (next r st) d = Step-UniqueIds st (Reach-UniqueIds r d)

pub record AtMostOnce (j : MessageJob) : Type 0 where
  pub not_begun : is_started j.status ≡ false → j.attempt_count ≡ 0
  pub bounded : j.attempt_count ≤ 1

abbrev AllAtMostOnce : Store → Type 0
AllAtMostOnce s = All AtMostOnce s.jobs

-- An UPDATE whose every selected row keeps the bound.
update-AtMostOnce :
    (p : MessageJob → Bool) (f : MessageJob → MessageJob) (s : Store)
    → ((j : MessageJob) → p j ≡ true → AtMostOnce j → AtMostOnce (f j))
    → AllAtMostOnce s
    → All AtMostOnce (update_where p f s.jobs)
update-AtMostOnce p f s keep h = All-update_where AtMostOnce p f s.jobs (All-of _ s.jobs keep) h

create-AtMostOnce :
    (input : NewJob) (new_id now : ℕ) (s : Store)
    → AllAtMostOnce s
    → AllAtMostOnce (create input new_id now s).1
unfolding create
create-AtMostOnce input new_id now s h =
    elim (Option-cases (first_row (same_key input.scope input.key) s.jobs)) [
      | inl e ↦ rw (e, create) (All-append AtMostOnce s.jobs _ h (ground arith, tt))
      | inr (row, e) ↦ rw (e, create) h
    ]

claim-AtMostOnce :
    (skipped : ℕ → Bool) (limit now : ℕ) (s : Store)
    → UniqueIds s
    → AllAtMostOnce s
    → AllAtMostOnce (claim_due skipped limit now s).1
unfolding claim_due
claim-AtMostOnce skipped limit now s d h =
    All-update_where AtMostOnce (claimed_id skipped limit now s) (enqueue now) s.jobs
      (All-map _ _ s.jobs (λ j due sel b. due_row j (due sel) b)
        (claimed-selected skipped limit now s d))
      h
  where
    due_row :
        (j : MessageJob) → is_due skipped now j ≡ true → AtMostOnce j → AtMostOnce (enqueue now j)
    due_row j e b = ground arith

Step-AtMostOnce : {s t : Store} → Step s t → UniqueIds s → AllAtMostOnce s → AllAtMostOnce t
unfolding mark_processing refresh_processing_lease reset_queued recover_stale_queued
    mark_expired_processing_unknown update_result update_status_by_openwa_message_id cancel_jobs
    delete_message_jobs
Step-AtMostOnce {s} (created input new_id now fresh) d h = create-AtMostOnce input new_id now s h
Step-AtMostOnce {s} (claimed skipped limit now) d h = claim-AtMostOnce skipped limit now s d h
Step-AtMostOnce {s} (started id now) d h =
    update-AtMostOnce (claimable id) (start_processing now) s (λ j e b. ground arith) h
Step-AtMostOnce {s} (refreshed id now) d h =
    update-AtMostOnce (lease_live id now) (extend_lease now) s (λ j e b. ground arith) h
Step-AtMostOnce {s} (reset id error now) d h =
    update-AtMostOnce (claimable id) (reschedule error now) s (λ j e b. ground arith) h
Step-AtMostOnce {s} (recovered now) d h =
    update-AtMostOnce (stale_queued now) (reschedule "Recovered stale queued job" now) s
      (λ j e b. ground arith) h
Step-AtMostOnce {s} (expired now) d h =
    update-AtMostOnce (lease_expired now) (give_up now) s (λ j e b. ground arith) h
Step-AtMostOnce {s} (finished id o message_id error now) d h =
    update-AtMostOnce (running_job id) (finish_row (outcome_status o) message_id error now) s
      (λ j e b. ground arith) h
Step-AtMostOnce {s} (acked message_id status now) d h =
    update-AtMostOnce (acked_by message_id status) (ack_row status now) s
      (λ j e b. ground (arith, acked-row j.status status)) h
Step-AtMostOnce {s} (withdrawn ids now) d h =
    update-AtMostOnce (cancellable ids) (cancel_row now) s (λ j e b. ground arith) h
Step-AtMostOnce {s} (retired chosen cutoff) d h =
    All-delete_where AtMostOnce (retirable chosen cutoff) s.jobs h

abbrev pub empty : Store
empty = record { jobs = []; attempts = [] }

-- From the empty tables, whatever the processes do and in whatever order, no job is ever claimed for
-- sending more than once, and a job that is SCHEDULED or QUEUED has not been claimed at all.
pub Reach-AtMostOnce : {s : Store} → Reach empty s → All AtMostOnce s.jobs
Reach-AtMostOnce here = tt
Reach-AtMostOnce (next r st) = Step-AtMostOnce st (Reach-UniqueIds r tt) (Reach-AtMostOnce r)

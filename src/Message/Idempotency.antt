-- ===== src/Message/Idempotency.antt =====
-- The idempotency key of MessageJobRepository.create, src/modules/messages/message-job.repository.ts.
use wa_runtime.Base.{
  ℕ, ◌≤◌, Bool, false, not, ◌==◌, List, [], ◌∷◌, ◌++◌, ◌≡◌, ◌⊎◌, refl, inl, inr, arith, some, none,
  Option-cases, ==-refl,
}
use wa_runtime.Base.Sql.{
  update_where, first_row, row_count, row_count-update_where, row_count-append_one,
  row_count-first_row, row_count-delete_where,
}
use wa_runtime.Message.Job.{MessageJob}
use wa_runtime.Message.Repository.{
  Store, NewJob, create, same_key, inserted, claim_due, mark_processing, refresh_processing_lease,
  reset_queued, recover_stale_queued, mark_expired_processing_unknown, update_result,
  update_status_by_openwa_message_id, enqueue, start_processing, extend_lease, reschedule, give_up,
  finish_row, ack_row,
}
use wa_runtime.Message.Step.{
  Step, Reach, created, claimed, started, refreshed, reset, recovered, expired, finished, acked,
  withdrawn, here, next, cancel_jobs, outcome_status, cancel_row, retired, retirable,
  delete_message_jobs, Passes,
}
use wa_runtime.Message.Evolution.{Evolves}
use wa_runtime.Message.History.{UniqueIds, empty}
use wa_runtime.Message.Following.{Reach-Follows, Deleted}

-- No two jobs have one idempotency key in one scope.
abbrev pub UniqueKeys : Store → Type 0
UniqueKeys s = (scope key : ℕ) → row_count (same_key scope key) s.jobs ≤ 1

update-UniqueKeys :
    (p : MessageJob → Bool) (f : MessageJob → MessageJob) (s : Store) (scope key : ℕ)
    → ((j : MessageJob) → same_key scope key (f j) ≡ same_key scope key j)
    → row_count (same_key scope key) s.jobs ≤ 1
    → row_count (same_key scope key) (update_where p f s.jobs) ≤ 1
update-UniqueKeys p f s scope key same h =
    rw (row_count-update_where (same_key scope key) p f s.jobs same) h

create-UniqueKeys :
    (input : NewJob) (new_id now : ℕ) (s : Store)
    → UniqueKeys s
    → UniqueKeys (create input new_id now s).1
unfolding create
create-UniqueKeys input new_id now s h scope key =
    elim (Option-cases (first_row (same_key input.scope input.key) s.jobs)) [
      | inl e ↦
          rw (e, create)
            (ground (
              arith,
              h scope key,
              row_count-append_one (same_key scope key) s.jobs (inserted input new_id now),
              none_in_table e,
            ))
      | inr (row, e) ↦ rw (e, create) (h scope key)
    ]
  where
    none_in_table :
        first_row (same_key input.scope input.key) s.jobs ≡ none
        → row_count (same_key input.scope input.key) s.jobs ≡ 0
    none_in_table e = row_count-first_row (same_key input.scope input.key) s.jobs e

Step-UniqueKeys : {s t : Store} → Step s t → UniqueKeys s → UniqueKeys t
unfolding claim_due mark_processing refresh_processing_lease reset_queued recover_stale_queued
    mark_expired_processing_unknown update_result update_status_by_openwa_message_id cancel_jobs
    delete_message_jobs
Step-UniqueKeys {s} (created input new_id now fresh) h scope key =
    create-UniqueKeys input new_id now s h scope key
Step-UniqueKeys {s} (claimed skipped limit now) h scope key =
    update-UniqueKeys _ (enqueue now) s scope key (λ j. refl) (h scope key)
Step-UniqueKeys {s} (started id now) h scope key =
    update-UniqueKeys _ (start_processing now) s scope key (λ j. refl) (h scope key)
Step-UniqueKeys {s} (refreshed id now) h scope key =
    update-UniqueKeys _ (extend_lease now) s scope key (λ j. refl) (h scope key)
Step-UniqueKeys {s} (reset id error now) h scope key =
    update-UniqueKeys _ (reschedule error now) s scope key (λ j. refl) (h scope key)
Step-UniqueKeys {s} (recovered now) h scope key =
    update-UniqueKeys _ (reschedule "Recovered stale queued job" now) s scope key (λ j. refl)
      (h scope key)
Step-UniqueKeys {s} (expired now) h scope key =
    update-UniqueKeys _ (give_up now) s scope key (λ j. refl) (h scope key)
Step-UniqueKeys {s} (finished id o message_id error now) h scope key =
    update-UniqueKeys _ (finish_row (outcome_status o) message_id error now) s scope key (λ j. refl)
      (h scope key)
Step-UniqueKeys {s} (acked message_id status now) h scope key =
    update-UniqueKeys _ (ack_row status now) s scope key (λ j. refl) (h scope key)
Step-UniqueKeys {s} (withdrawn ids now) h scope key =
    update-UniqueKeys _ (cancel_row now) s scope key (λ j. refl) (h scope key)
Step-UniqueKeys {s} (retired chosen cutoff) h scope key = omega (
  arith,
  row_count-delete_where (same_key scope key) (retirable chosen cutoff) s.jobs,
  h scope key,
)

-- From the empty tables, whatever the processes do, no two jobs have the same idempotency scope and
-- key.
pub Reach-UniqueKeys :
    {s : Store} → Reach empty s → (scope key : ℕ) → row_count (same_key scope key) s.jobs ≤ 1
Reach-UniqueKeys here scope key = omega arith
Reach-UniqueKeys (next r st) scope key = Step-UniqueKeys st (Reach-UniqueKeys r) scope key

Evolves-same_key :
    (scope key : ℕ) (j k : MessageJob) → Evolves j k → same_key scope key k ≡ same_key scope key j
Evolves-same_key scope key j k e = rw (e.same_scope, e.same_idempotency_key)

create-finds :
    (input : NewJob) (new_id now : ℕ) (s : Store)
    → first_row (same_key input.scope input.key) (create input new_id now s).1.jobs
      ≡ some (create input new_id now s).0.job
unfolding create
create-finds input new_id now s =
    elim (Option-cases (first_row (same_key input.scope input.key) s.jobs)) [
      | inl e ↦ rw (e, create) (at_end s.jobs e)
      | inr (row, e) ↦ rw (e, create) e
    ]
  where
    at_end :
        (js : List MessageJob)
        → first_row (same_key input.scope input.key) js ≡ none
        → first_row (same_key input.scope input.key) (js ++ inserted input new_id now ∷ [])
          ≡ some (inserted input new_id now)
    at_end [] e = ground (arith, ==-refl input.scope, ==-refl input.key)
    at_end (j ∷ js) e = ground (arith, at_end js)

create-replays :
    (input : NewJob) (new_id now : ℕ) (s : Store) {row : MessageJob}
    → first_row (same_key input.scope input.key) s.jobs ≡ some row
    → create input new_id now s ≡ (
      record {
        job = row;
        created = false;
        idempotency_conflict = not (row.request_hash == input.hash);
      },
      s,
    )
unfolding create
create-replays input new_id now s e = rw (e, create)

-- Where identifiers are unique: a request that was created, and is created again with its idempotency key at
-- a later state of the tables, is not inserted unless a deletion of the retention took the first one's job, when it was not
-- SCHEDULED, QUEUED or PROCESSING: the caller gets the job of the first request as it stands by then, the
-- tables are unchanged, and a conflict is reported exactly when the first job's request hash differs from
-- the second request's.
pub create-create :
    (input again : NewJob) (new_id now later_id later : ℕ) (s : Store) {t : Store}
    → (r : Reach (create input new_id now s).1 t) → UniqueIds (create input new_id now s).1
    → again.scope ≡ input.scope
    → again.key ≡ input.key
    → let first = (create input new_id now s).0.job in
      ((k : MessageJob) × (Evolves first k)
        × (create again later_id later t ≡ (
          record {
            job = k;
            created = false;
            idempotency_conflict = not (first.request_hash == again.hash);
          },
          t,
        )))
      ⊎ ((u : Store) × (v : Store) × Passes r u v
          × Deleted (same_key input.scope input.key) first u v)
create-create input again new_id now later_id later s {t} r d same_scope same_idempotency =
    elim (Reach-Follows (same_key input.scope input.key) r (Evolves-same_key input.scope input.key)
      d (create-finds input new_id now s)) [
        | inr gone ↦ inr gone
        | inl (k, found, moved) ↦ inl (
          k,
          moved,
          rw (← moved.same_request)
              (create-replays again later_id later t (rw (same_scope, same_idempotency) found)),
        )
      ]

-- ===== src/Message/Evolution.antt =====
-- How a message job may change: what its status and its attempt count can never do, over any
-- sequence of statements.
use wa_runtime.Base.{
  ℕ, ◌≤◌, Bool, true, false, String, Option, List, ◌≡◌, refl, arith, All, All-of, All-map, filter,
  member, map, inl, inr, Option-cases,
}
use wa_runtime.Base.Sql.{order_by, first_row, Grows, Grows-update_where, Grows-append, Grows-refl}
use wa_runtime.Base.Keys.{
  has_key, Distinct, member-keys, has_key-take, has_key-order_by, selected_by_key,
}
use wa_runtime.Message.Job.{
  MessageJobStatus, MessageJob, scheduled, queued, read, failed, dry_run_completed, cancelled,
}
use wa_runtime.Message.Repository.{
  Store, NewJob, create, claim_due, due_rows, is_due, mark_processing, refresh_processing_lease,
  reset_queued, recover_stale_queued, mark_expired_processing_unknown, update_result,
  update_status_by_openwa_message_id, ack_applies, ack_rank, same_key, enqueue, claimable,
  start_processing, lease_live, extend_lease, reschedule, stale_queued, lease_expired, give_up,
  running_job, finish_row, acked_by, ack_row,
}
use wa_runtime.Message.Step.{cancel_jobs, Outcome, outcome_status, cancellable, cancel_row}

-- A worker has begun to process the job, or a report of the gateway or an operator has ended it.
abbrev pub is_started : MessageJobStatus → Bool
is_started scheduled = false
is_started queued = false
is_started _ = true

abbrev pub is_final : MessageJobStatus → Bool
is_final read = true
is_final failed = true
is_final dry_run_completed = true
is_final cancelled = true
is_final _ = false

pub record Evolves (j k : MessageJob) : Type 0 where
  pub same_id : k.id ≡ j.id
  pub same_scope : k.idempotency_scope ≡ j.idempotency_scope
  pub same_request : k.request_hash ≡ j.request_hash
  pub same_session : k.session_id ≡ j.session_id
  pub same_recipient : k.recipient_id ≡ j.recipient_id
  pub same_text : k.text ≡ j.text
  pub same_dry_run : k.dry_run ≡ j.dry_run
  pub same_idempotency_key : k.idempotency_key ≡ j.idempotency_key
  pub stays_started : is_started j.status ≡ true → is_started k.status ≡ true
  pub no_new_attempt : is_started j.status ≡ true → k.attempt_count ≡ j.attempt_count
  pub stays_final : is_final j.status ≡ true → k.status ≡ j.status
  pub no_regress : 20 ≤ ack_rank j.status → ack_rank j.status ≤ ack_rank k.status

pub Evolves-refl : (j : MessageJob) → Evolves j j
Evolves-refl j = record {
  same_id = refl;
  same_scope = refl;
  same_request = refl;
  same_session = refl;
  same_recipient = refl;
  same_text = refl;
  same_dry_run = refl;
  same_idempotency_key = refl;
  stays_started = λ h. h;
  no_new_attempt = λ h. refl;
  stays_final = λ h. refl;
  no_regress = λ h. omega arith;
}

pub Evolves-trans : (i j k : MessageJob) → Evolves i j → Evolves j k → Evolves i k
Evolves-trans i j k h g = record {
  same_id = cc;
  same_scope = cc;
  same_request = cc;
  same_session = cc;
  same_recipient = cc;
  same_text = cc;
  same_dry_run = cc;
  same_idempotency_key = cc;
  stays_started = λ s. g.stays_started (h.stays_started s);
  no_new_attempt = λ s. cc (g.no_new_attempt (h.stays_started s), h.no_new_attempt s);
  stays_final = λ s. ground (arith, h.stays_final s, g.stays_final);
  no_regress = λ s. omega (arith, h.no_regress s, g.no_regress);
}

abbrev pub Moves : Store → Store → Type 0
Moves s t = Grows Evolves s.jobs t.jobs

-- Each statement, on one row that it selects.
pub created-Moves :
    (input : NewJob) (new_id now : ℕ) (s : Store) → Moves s (create input new_id now s).1
unfolding create
created-Moves input new_id now s =
    elim (Option-cases (first_row (same_key input.scope input.key) s.jobs)) [
      | inl e ↦ rw (e, create) (Grows-append Evolves s.jobs _ Evolves-refl)
      | inr (row, e) ↦ rw (e, create) (Grows-refl Evolves s.jobs Evolves-refl)
    ]

pub claimed-row :
    (skipped : ℕ → Bool) (now : ℕ) (j : MessageJob)
    → is_due skipped now j ≡ true
    → Evolves j (record j { status = queued; updated_at = now })
unfolding ack_rank
claimed-row skipped now j h = ground arith

abbrev pub claimed_id : (ℕ → Bool) → ℕ → ℕ → Store → MessageJob → Bool
claimed_id skipped limit now s j =
    member j.id (map (λ (k : MessageJob). k.id) (due_rows skipped limit now s.jobs))

-- The UPDATE by identifiers reaches only rows that the SELECT chose.
pub claimed-selected :
    (skipped : ℕ → Bool) (limit now : ℕ) (s : Store)
    → Distinct (λ (j : MessageJob). j.id) s.jobs
    → All (λ j. claimed_id skipped limit now s j ≡ true → is_due skipped now j ≡ true) s.jobs
claimed-selected skipped limit now s d =
    All-map _ _ s.jobs (λ j sel h. sel (in_table j h))
      (selected_by_key (λ j. j.id) (is_due skipped now) s.jobs d)
  where
    in_table :
        (j : MessageJob)
        → member j.id (map (λ (k : MessageJob). k.id) (due_rows skipped limit now s.jobs)) ≡ true
        → has_key (λ (k : MessageJob). k.id) j.id (filter (is_due skipped now) s.jobs) ≡ true
    in_table j h = ground (
      arith,
      member-keys (λ (k : MessageJob). k.id) j.id (due_rows skipped limit now s.jobs),
      has_key-take (λ (k : MessageJob). k.id) j.id limit
          (order_by (λ k. k.scheduled_at) (filter (is_due skipped now) s.jobs)),
      has_key-order_by (λ (k : MessageJob). k.id) j.id (λ k. k.scheduled_at)
          (filter (is_due skipped now) s.jobs),
    )

pub claimed-Moves :
    (skipped : ℕ → Bool) (limit now : ℕ) (s : Store)
    → Distinct (λ (j : MessageJob). j.id) s.jobs
    → Moves s (claim_due skipped limit now s).1
unfolding claim_due
claimed-Moves skipped limit now s d =
    Grows-update_where Evolves (claimed_id skipped limit now s) (enqueue now) s.jobs Evolves-refl (
      All-map _ _ s.jobs (λ j due h. claimed-row skipped now j (due h))
        (claimed-selected skipped limit now s d))

pub started-Moves : (id now : ℕ) (s : Store) → Moves s (mark_processing id now s).1
unfolding mark_processing ack_rank
started-Moves id now s =
    Grows-update_where Evolves (claimable id) (start_processing now) s.jobs Evolves-refl
      (All-of _ s.jobs (λ j h. ground arith))

pub refreshed-Moves : (id now : ℕ) (s : Store) → Moves s (refresh_processing_lease id now s).1
unfolding refresh_processing_lease ack_rank
refreshed-Moves id now s =
    Grows-update_where Evolves (lease_live id now) (extend_lease now) s.jobs Evolves-refl
      (All-of _ s.jobs (λ j h. ground arith))

pub reset-Moves :
    (id : ℕ) (error : String) (now : ℕ) (s : Store) → Moves s (reset_queued id error now s)
unfolding reset_queued ack_rank
reset-Moves id error now s =
    Grows-update_where Evolves (claimable id) (reschedule error now) s.jobs Evolves-refl
      (All-of _ s.jobs (λ j h. ground arith))

pub recovered-Moves : (now : ℕ) (s : Store) → Moves s (recover_stale_queued now s).1
unfolding recover_stale_queued ack_rank
recovered-Moves now s =
    Grows-update_where Evolves (stale_queued now) (reschedule "Recovered stale queued job" now)
      s.jobs Evolves-refl (All-of _ s.jobs (λ j h. ground arith))

pub expired-Moves : (now : ℕ) (s : Store) → Moves s (mark_expired_processing_unknown now s).1
unfolding mark_expired_processing_unknown ack_rank
expired-Moves now s =
    Grows-update_where Evolves (lease_expired now) (give_up now) s.jobs Evolves-refl
      (All-of _ s.jobs (λ j h. ground arith))

pub finished-Moves :
    (id : ℕ) (o : Outcome) (message_id : Option ℕ) (error : Option String) (now : ℕ) (s : Store)
    → Moves s (update_result id (outcome_status o) message_id error now s)
unfolding update_result ack_rank
finished-Moves id o message_id error now s =
    Grows-update_where Evolves (running_job id) (finish_row (outcome_status o) message_id error now)
      s.jobs Evolves-refl (All-of _ s.jobs (λ j h. ground arith))

pub acked-row :
    (old new : MessageJobStatus)
    → ack_applies new old ≡ true
    → (is_started new ≡ true)
      × (is_final old ≡ false)
      × (20 ≤ ack_rank old → ack_rank old ≤ ack_rank new)
unfolding ack_applies ack_rank
acked-row scheduled new h = ground arith
acked-row _ new h = ground arith

pub acked-Moves :
    (message_id : ℕ) (status : MessageJobStatus) (now : ℕ) (s : Store)
    → Moves s (update_status_by_openwa_message_id message_id status now s)
unfolding update_status_by_openwa_message_id
acked-Moves message_id status now s =
    Grows-update_where Evolves (acked_by message_id status) (ack_row status now) s.jobs Evolves-refl
      (All-of _ s.jobs (λ j h. ground (arith, acked-row j.status status)))

pub withdrawn-Moves : (ids : List ℕ) (now : ℕ) (s : Store) → Moves s (cancel_jobs ids now s)
unfolding cancel_jobs ack_rank
withdrawn-Moves ids now s =
    Grows-update_where Evolves (cancellable ids) (cancel_row now) s.jobs Evolves-refl
      (All-of _ s.jobs (λ j h. ground arith))

-- ===== src/Message/Following.antt =====
-- What becomes of a message job over any sequence of statements: src/modules/messages/message-job.repository.ts with
-- deleteMessageJobs of src/modules/orchestration/data-retention.tick.ts.
use wa_runtime.Base.{ℕ, Bool, true, false, ◌≡◌, refl, inl, inr, arith, Bool-cases, some, ◌⊎◌, ◌==◌}
use wa_runtime.Base.Sql.{first_row, first_row-Grows, first_row-delete_spared, delete_where}
use wa_runtime.Message.Job.{MessageJob}
use wa_runtime.Message.Repository.{Store}
use wa_runtime.Message.Step.{
  Step, Reach, created, claimed, started, refreshed, reset, recovered, expired, finished, acked,
  withdrawn, here, next, retired, delete_message_jobs, retirable, is_in_flight, Passes,
}
use wa_runtime.Message.Evolution.{
  Evolves, Evolves-refl, Evolves-trans, Moves, created-Moves, claimed-Moves, started-Moves,
  refreshed-Moves, reset-Moves, recovered-Moves, expired-Moves, finished-Moves, acked-Moves,
  withdrawn-Moves,
}
use wa_runtime.Message.History.{UniqueIds, Reach-UniqueIds}

-- Every statement but the deletion keeps each row in its place; the deletion takes no job in flight.
Deletes : Store → Store → Type 0
Deletes s t =
    (chosen : MessageJob → Bool) × (cutoff : ℕ) × (t ≡ delete_message_jobs chosen cutoff s)

Step-Moves : {s t : Store} → Step s t → UniqueIds s → Moves s t ⊎ Deletes s t
unfolding Deletes
Step-Moves {s} (created input new_id now fresh) d = inl (created-Moves input new_id now s)
Step-Moves {s} (claimed skipped limit now) d = inl (claimed-Moves skipped limit now s d)
Step-Moves {s} (started id now) d = inl (started-Moves id now s)
Step-Moves {s} (refreshed id now) d = inl (refreshed-Moves id now s)
Step-Moves {s} (reset id error now) d = inl (reset-Moves id error now s)
Step-Moves {s} (recovered now) d = inl (recovered-Moves now s)
Step-Moves {s} (expired now) d = inl (expired-Moves now s)
Step-Moves {s} (finished id o message_id error now) d =
    inl (finished-Moves id o message_id error now s)
Step-Moves {s} (acked message_id status now) d = inl (acked-Moves message_id status now s)
Step-Moves {s} (withdrawn ids now) d = inl (withdrawn-Moves ids now s)
Step-Moves {s} (retired chosen cutoff) d = inr (chosen, cutoff, refl)

-- The statement from u to v is the retention's, and it deletes what the job has become, which is not in flight.
abbrev pub Deleted : (MessageJob → Bool) → MessageJob → Store → Store → Type 0
Deleted q j u v =
    (k : MessageJob) × (first_row q u.jobs ≡ some k)
    × Evolves j k
    × (is_in_flight k.status ≡ false)
    × ((chosen : MessageJob → Bool) × (cutoff : ℕ) × (v ≡ delete_message_jobs chosen cutoff u)
        × (retirable chosen cutoff k ≡ true))

-- What has become of the job that a selection found in the first state.
abbrev pub Follows : {s t : Store} → (MessageJob → Bool) → MessageJob → Reach s t → Type 0
Follows {s} {t} q j r =
    ((k : MessageJob) × (first_row q t.jobs ≡ some k) × Evolves j k)
    ⊎ ((u : Store) × (v : Store) × Passes r u v × Deleted q j u v)

-- The last statement, on the row that the selection found before it.
Step-Follows :
    {s t u : Store} (q : MessageJob → Bool) {j k : MessageJob} (r : Reach s t) (st : Step t u)
    → ((a b : MessageJob) → Evolves a b → q b ≡ q a)
    → UniqueIds t
    → first_row q t.jobs ≡ some k
    → Evolves j k
    → Follows q j (next r st)
unfolding Deletes delete_message_jobs
Step-Follows {t} {u} q {j} {k} r st same d found e = elim (Step-Moves st d) [
  | inl moves ↦
      let (l, later, moved) = first_row-Grows Evolves q t.jobs u.jobs same moves found in
      inl (l, later, Evolves-trans j k l e moved)
  | inr (chosen, cutoff, deletion) ↦ elim (Bool-cases (retirable chosen cutoff k)) [
    | inl gone ↦
        inr (t, u, inl (refl, refl), (k, found, e, ground arith, (chosen, cutoff, deletion, gone)))
    | inr spared ↦ inl (
      k,
      stays chosen cutoff deletion
          (first_row-delete_spared q (retirable chosen cutoff) t.jobs spared found),
      e,
    )
  ]
]
  where
    stays :
        (chosen : MessageJob → Bool) (cutoff : ℕ)
        → u ≡ delete_message_jobs chosen cutoff t
        → first_row q (delete_where (retirable chosen cutoff) t.jobs) ≡ some k
        → first_row q u.jobs ≡ some k
    stays chosen cutoff deletion h = rw deletion h

pub Reach-Follows :
    {s t : Store} (q : MessageJob → Bool) {j : MessageJob} (r : Reach s t)
    → ((a b : MessageJob) → Evolves a b → q b ≡ q a)
    → UniqueIds s
    → first_row q s.jobs ≡ some j
    → Follows q j r
Reach-Follows q {j} here same d h = inl (j, h, Evolves-refl j)
Reach-Follows {s} {t} q {j} (next {t = m} r st) same d h = elim (Reach-Follows q r same d h) [
  | inr (u, v, passed, gone) ↦ inr (u, v, inr passed, gone)
  | inl (k, found, e) ↦ Step-Follows q r st same (Reach-UniqueIds r d) found e
]

-- Where identifiers are unique: over any sequence of statements of any processes, retention's deletion
-- included, each job that is in the table evolves: its identity, request and idempotency key are unchanged;
-- once a worker has begun it, it never goes back to SCHEDULED or QUEUED and counts no further attempt; READ,
-- FAILED, DRY_RUN_COMPLETED and CANCELLED are never left; SENT, DELIVERED and READ never regress. It is
-- still in the table, or a deletion of the retention took it, when it was not SCHEDULED, QUEUED or PROCESSING.
pub Reach-Evolves :
    {s t : Store} (id : ℕ) {j : MessageJob} (r : Reach s t)
    → UniqueIds s
    → first_row (λ k. k.id == id) s.jobs ≡ some j
    → ((k : MessageJob) × (first_row (λ k. k.id == id) t.jobs ≡ some k) × Evolves j k)
      ⊎ ((u : Store) × (v : Store) × Passes r u v × Deleted (λ k. k.id == id) j u v)
Reach-Evolves id r d h = Reach-Follows (λ k. k.id == id) r (λ a b e. rw e.same_id refl) d h

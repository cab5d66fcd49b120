-- ===== src/Campaign/Buffering.antt =====
-- How many jobs CampaignDeliveryRepository.materializePending
-- (src/modules/campaigns/campaign-delivery.repository.ts) may add for a run.
use wa_runtime.Base.{
  ℕ, ◌-◌, ◌≤◌, ◌+◌, ◌++◌, true, false, not, ◌&&◌, some, List, [], ◌∷◌, ◌≡◌, refl, inl, inr, arith,
  length, take, length-take, Option-cases, sym, if_split,
}
use wa_runtime.Base.Sql.{first_row}
use wa_runtime.Message.Job.{MessageJob}
use wa_runtime.Message.Repository as Messages
use wa_runtime.Message.Repository.{Store, NewJob}
use wa_runtime.Campaign.Tables.{Db, CampaignRun, Delivery, by_run_id, is_running, is_live_run}
use wa_runtime.Campaign.Delivery.{
  Supply, PendingDelivery, materialize_one, materialize_all, materialize_pending, pending_rows,
  buffered, can_send, capability_changed, job_request,
}
use wa_runtime.Campaign.Coupling.{first_row-id}

-- Beside the number that it answers, no step adds a job.
abbrev Adds : ℕ → Store → ℕ × List Delivery × Store → Type 0
Adds most s r = (r.0 ≤ most) × (length r.2.jobs ≤ length s.jobs + r.0)

create-length :
    (input : NewJob) (new_id now : ℕ) (s : Store)
    → length (Messages.create input new_id now s).1.jobs ≤ length s.jobs + 1
unfolding Messages.create
create-length input new_id now s =
    elim (Option-cases (first_row (Messages.same_key input.scope input.key) s.jobs)) [
      | inl e ↦
          rw (e, Messages.create) (length-append_one s.jobs (Messages.inserted input new_id now))
      | inr (row, e) ↦ rw (e, Messages.create) (omega arith)
    ]
  where
    length-append_one :
        (js : List MessageJob) (j : MessageJob) → length (js ++ j ∷ []) ≤ length js + 1
    length-append_one [] j = omega arith
    length-append_one (k ∷ js) j = omega (arith, length-append_one js j)

one_at_most :
    (sup : Supply) (run : CampaignRun) (p : PendingDelivery) (ds : List Delivery) (s : Store)
    → Adds 1 s (materialize_one sup run p ds s)
unfolding materialize_one
one_at_most sup run p ds s =
    if_split (Adds 1 s) (is_live_run run && capability_changed p) (λ b. (omega arith, omega arith))
      (λ b. (
        omega arith,
        create-length (job_request sup run p) (sup.new_job_id run.id p.group_id) sup.now s,
      ))

all_at_most :
    (sup : Supply) (run : CampaignRun) (ps : List PendingDelivery) (ds : List Delivery) (s : Store)
    → Adds (length ps) s (materialize_all sup run ps ds s)
unfolding materialize_all
all_at_most sup run [] ds s = (omega arith, omega arith)
all_at_most sup run (p ∷ ps) ds s =
    let next = materialize_one sup run p ds s in
    let one = one_at_most sup run p ds s in
    let more = all_at_most sup run ps next.1 next.2 in
    (omega (arith, one.0, more.0), omega (arith, one.1, more.1))

-- A pass over a run answers at most the room that the buffer has beside the run's jobs that are still to
-- be sent, and adds at most as many rows to message_jobs as it answers. Where the run is not RUNNING it
-- changes nothing; for a LIVE run whose session cannot send it answers 0 and writes neither message_jobs
-- nor a delivery.
pub materialize_pending-bounded :
    (sup : Supply) (id max_buffered : ℕ) (db : Db) (s : Store)
    → let (n, db', s') = materialize_pending sup id max_buffered db s in
      (n ≤ max_buffered - buffered id s db.deliveries)
      × (length s'.jobs ≤ length s.jobs + n)
      × ((run : CampaignRun)
          → first_row (by_run_id id) db.runs ≡ some run
          → (is_running run.status ≡ false → (n ≡ 0) × (db' ≡ db) × (s' ≡ s))
            × (is_live_run run ≡ true
                → can_send (sup.session run.session_id) ≡ false
                → (n ≡ 0) × (db'.deliveries ≡ db.deliveries) × (s' ≡ s)))
unfolding materialize_pending
materialize_pending-bounded sup id max_buffered db s = (bound.0, bound.1, unsent)
  where
    Fits : ℕ × Db × Store → Type 0
    Fits r =
        (r.0 ≤ max_buffered - buffered id s db.deliveries) × (length r.2.jobs ≤ length s.jobs + r.0)

    filled :
        (run : CampaignRun)
        → first_row (by_run_id id) db.runs ≡ some run
        → Adds (max_buffered - buffered id s db.deliveries) s (
            materialize_all sup run
              (take
                (max_buffered - buffered run.id s db.deliveries)
                (pending_rows sup run.id db db.deliveries))
              db.deliveries
              s)
    filled run e =
        let room = max_buffered - buffered run.id s db.deliveries in
        let rows = pending_rows sup run.id db db.deliveries in
        let all = all_at_most sup run (take room rows) db.deliveries s in
        rw (sym (first_row-id id db.runs e)) (omega (arith, all.0, length-take room rows), all.1)

    bound : Fits (materialize_pending sup id max_buffered db s)
    bound = elim (Option-cases (first_row (by_run_id id) db.runs)) [
      | inl e ↦ rw (e, materialize_pending) (omega arith, omega arith)
      | inr (run, e) ↦
          rw (e, materialize_pending)
            (if_split Fits (is_running run.status)
              (λ b.
                if_split Fits (is_live_run run && not (can_send (sup.session run.session_id)))
                  (λ c. (omega arith, omega arith)) (λ c. filled run e))
              (λ b. (omega arith, omega arith)))
    ]

    unsent :
        (run : CampaignRun)
        → first_row (by_run_id id) db.runs ≡ some run
        → let (n, db', s') = materialize_pending sup id max_buffered db s in
          (is_running run.status ≡ false → (n ≡ 0) × (db' ≡ db) × (s' ≡ s))
          × (is_live_run run ≡ true
              → can_send (sup.session run.session_id) ≡ false
              → (n ≡ 0) × (db'.deliveries ≡ db.deliveries) × (s' ≡ s))
    unsent run e =
        rw (e, materialize_pending)
          (
            (λ stopped. rw stopped (refl, refl, refl)),
            (λ live mute.
                if_split
                  (λ (r : ℕ × Db × Store). (r.0 ≡ 0) × (r.1.deliveries ≡ db.deliveries) × (r.2 ≡ s))
                  (is_running run.status) (λ c. rw (live, mute) (refl, refl, refl))
                  (λ c. (refl, refl, refl))),
          )

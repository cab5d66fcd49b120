-- ===== src/Message/Sending.antt =====
-- What the worker of src/modules/messages/message-job-processor.service.ts does, whatever the other
-- processes do between its awaits and whatever OpenWA replies.
use wa_runtime.Base.{
  ℕ, true, false, Option, none, some, List, [], ◌∷◌, ◌≡◌, refl, inl, inr, ◌⊎◌, arith, if◌then◌else◌,
  leb, ltb, ◌==◌, Option-cases,
}
use wa_runtime.Message.Job.{
  MessageJob, MessageJobStatus, accepted, failed, unknown, dry_run_completed,
}
use wa_runtime.Message.Repository.{mark_processing}
use wa_runtime.Message.Policy.{BlockReason, live_block_reason}
use wa_runtime.Message.Processor.{
  World, Env, SendConfig, Reply, message, http_error, other_error, Effect, wrote, took_lease,
  released_lease, posted, invalidated, process, with_lease, Acquisition, acquired,
  no_longer_processing, still_waiting, acquire, after_acquire, live, dispatch,
}

abbrev pub posts : List Effect → List Effect
posts [] = []
posts (posted session recipient text ∷ es) = posted session recipient text ∷ posts es
posts (wrote status ∷ es) = posts es
posts (took_lease ∷ es) = posts es
posts (released_lease ∷ es) = posts es
posts (invalidated session recipient reason ∷ es) = posts es

abbrev pub writes : List Effect → List MessageJobStatus
writes [] = []
writes (posted session recipient text ∷ es) = writes es
writes (wrote status ∷ es) = status ∷ writes es
writes (took_lease ∷ es) = writes es
writes (released_lease ∷ es) = writes es
writes (invalidated session recipient reason ∷ es) = writes es

-- What a reply to the POST proves of the delivery: 408 and every answer outside 400 to 499 leave it
-- open.
unfoldable pub settled : Reply → MessageJobStatus
settled (message id) = accepted
settled (http_error status) =
    if leb 400 status
    then (if ltb status 500 then (if status == 408 then unknown else failed) else unknown)
    else unknown
settled other_error = unknown

abbrev pub Quiet : List MessageJobStatus → Type 0
Quiet ss = (ss ≡ []) ⊎ (ss ≡ failed ∷ []) ⊎ (ss ≡ dry_run_completed ∷ [])

-- Either no POST is made, and the job ends as FAILED or DRY_RUN_COMPLETED or is not written; or one
-- POST is made, of this job, and the one status written is what the reply proves.
abbrev pub SendsOnce : MessageJob → Reply → List Effect → Type 0
SendsOnce job reply es =
    ((posts es ≡ []) × Quiet (writes es))
    ⊎ ((posts es ≡ posted job.session_id job.recipient_id job.text ∷ [])
        × (writes es ≡ settled reply ∷ []))

with_lease-SendsOnce :
    (env : Env) (job : MessageJob) (token n : ℕ) (reply : Reply) (w : World)
    → SendsOnce job reply (with_lease env job token n reply w).trace
unfolding with_lease settled
with_lease-SendsOnce env job token n (message id) w = ground arith
with_lease-SendsOnce env job token n (http_error status) w = ground arith
with_lease-SendsOnce env job token n other_error w = ground arith

acquire-then-SendsOnce :
    (env : Env) (job : MessageJob) (token : ℕ) (reply : Reply) (a : Acquisition)
    → SendsOnce job reply (after_acquire env job token reply a).trace
unfolding after_acquire
acquire-then-SendsOnce env job token reply (still_waiting w) = ground arith
acquire-then-SendsOnce env job token reply (no_longer_processing n w) = ground arith
acquire-then-SendsOnce env job token reply (acquired n w) =
    with_lease-SendsOnce env job token n reply w

-- What must hold for a POST of the job to be made.
pub record MaySend (env : Env) (cfg : SendConfig) (job : MessageJob) : Type 0 where
  pub not_dry_run : job.dry_run ≡ false
  pub sends_allowed : cfg.allow_live_sends ≡ true
  pub not_blocked : live_block_reason (env.gateway 1) job.session_id job.recipient_id ≡ none

live-Quiet :
    (env : Env) (cfg : SendConfig) (job : MessageJob) (token turns : ℕ) (reply : Reply)
    (reason : BlockReason) (w : World)
    → (posts (live env cfg job token turns reply (some reason) w).trace ≡ [])
      × Quiet (writes (live env cfg job token turns reply (some reason) w).trace)
unfolding live
live-Quiet env cfg job token turns reply reason w = ground arith

live-SendsOnce :
    (env : Env) (cfg : SendConfig) (job : MessageJob) (token turns : ℕ) (reply : Reply) (w : World)
    → SendsOnce job reply (live env cfg job token turns reply none w).trace
unfolding live
live-SendsOnce env cfg job token turns reply w =
    acquire-then-SendsOnce env job token reply (acquire env cfg job token turns 2 (env.clock 1) w)

nothing_claimed :
    (env : Env) (cfg : SendConfig) (token turns : ℕ) (reply : Reply) (w : World)
    → (posts (dispatch env cfg token turns reply none w).trace ≡ [])
      × Quiet (writes (dispatch env cfg token turns reply none w).trace)
unfolding dispatch
nothing_claimed env cfg token turns reply w = ground arith

dispatch-SendsOnce :
    (env : Env) (cfg : SendConfig) (job : MessageJob) (token turns : ℕ) (reply : Reply) (w : World)
    → let es = (dispatch env cfg token turns reply (some job) w).trace in
      ((posts es ≡ []) × Quiet (writes es))
      ⊎ ((posts es ≡ posted job.session_id job.recipient_id job.text ∷ [])
          × (writes es ≡ settled reply ∷ [])
          × MaySend env cfg job)
unfolding dispatch
dispatch-SendsOnce env cfg job token turns reply w =
    elim (Option-cases (live_block_reason (env.gateway 1) job.session_id job.recipient_id)) [
      | inl e ↦ rw (e, dispatch) (ground (arith, live-SendsOnce env cfg job token turns reply w))
      | inr (reason, e) ↦
          rw (e, dispatch) (ground (arith, live-Quiet env cfg job token turns reply reason w))
    ]

-- Whatever other processes do between the worker's awaits and however long it waits for the session:
-- either it makes no POST, and then it writes no status or FAILED or DRY_RUN_COMPLETED; or it makes
-- exactly one POST, of a job that it claimed itself in this run, that is no dry run, with live sends
-- enabled and the policy raising no objection, and then the one status that it writes is what the
-- reply proves: ACCEPTED for a message id, FAILED for a status from 400 to 499 other than 408, and
-- UNKNOWN for anything else.
pub process-SendsOnce :
    (env : Env) (cfg : SendConfig) (token turns id : ℕ) (reply : Reply) (w : World)
    → let es = (process env cfg token turns id reply w).trace in
      ((posts es ≡ []) × Quiet (writes es))
      ⊎ ((job : MessageJob) × ((mark_processing id (env.clock 0) (env.others 0 w).store).0
            ≡ some job)
          × (posts es ≡ posted job.session_id job.recipient_id job.text ∷ [])
          × (writes es ≡ settled reply ∷ [])
          × MaySend env cfg job)
unfolding process
process-SendsOnce env cfg token turns id reply w =
    claimed (mark_processing id (env.clock 0) (env.others 0 w).store).0 refl
  where
    w0 : World
    w0 = record (env.others 0 w) {
      store = (mark_processing id (env.clock 0) (env.others 0 w).store).1;
    }

    claimed :
        (o : Option MessageJob)
        → (mark_processing id (env.clock 0) (env.others 0 w).store).0 ≡ o
        → ((posts (dispatch env cfg token turns reply o w0).trace ≡ [])
            × Quiet (writes (dispatch env cfg token turns reply o w0).trace))
          ⊎ ((job : MessageJob) × ((mark_processing id (env.clock 0) (env.others 0 w).store).0
                ≡ some job)
              × (posts (dispatch env cfg token turns reply o w0).trace
                  ≡ posted job.session_id job.recipient_id job.text ∷ [])
              × (writes (dispatch env cfg token turns reply o w0).trace ≡ settled reply ∷ [])
              × MaySend env cfg job)
    claimed none e = inl (nothing_claimed env cfg token turns reply w0)
    claimed (some job) e = elim (dispatch-SendsOnce env cfg job token turns reply w0) [
      | inl quiet ↦ inl quiet
      | inr (p, s, m) ↦ inr (job, e, p, s, m)
    ]

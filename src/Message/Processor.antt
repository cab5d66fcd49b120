-- ===== src/Message/Processor.antt =====
-- src/modules/messages/message-job-processor.service.ts and
-- src/modules/messages/outbound-session-lease.service.ts. Between two awaits other processes run: the
-- environment says what they do to the tables before the n-th await and what time it is then. The
-- reply of OpenWA is an argument, as is the random lease token. The trace lists the worker's effects
-- in their order. The calls to the database are taken to return.
use wa_runtime.Base.{
  ℕ, zero, suc, ◌+◌, Bool, true, false, not, ◌&&◌, ◌||◌, Option, none, some, List, [], ◌∷◌, String,
  if◌then◌else◌, leb, ltb, ◌==◌,
}
use wa_runtime.Message.Job.{
  MessageJob, MessageJobStatus, accepted, failed, unknown, dry_run_completed,
}
use wa_runtime.Message.Repository.{Store, mark_processing, refresh_processing_lease, update_result}
use wa_runtime.Message.Lease.{Lease, try_acquire, renew, release}
use wa_runtime.Message.Policy.{Gateway, BlockReason, live_block_reason}

pub record World : Type 0 where
  pub store : Store
  pub leases : List Lease

pub record SendConfig : Type 0 where
  pub allow_live_sends : Bool
  pub outbound_max_delay_ms : ℕ

-- What the POST to OpenWA comes to: a message id, an HTTP error, or any other failure (a timeout, a
-- malformed body).
pub data Reply : Type 0 where
  message : ℕ → Reply
  http_error : ℕ → Reply
  other_error : Reply

pub record Env : Type 0 where
  pub others : ℕ → World → World
  pub clock : ℕ → ℕ
  pub gateway : ℕ → Gateway
  pub describe : Reply → String  -- error.message
  pub describe_block : BlockReason → String

pub data InvalidationReason : Type 0 where
  gateway_permission_denied group_changed : InvalidationReason

pub data Effect : Type 0 where
  wrote : MessageJobStatus → Effect
  took_lease released_lease : Effect
  posted : (session recipient text : ℕ) → Effect
  invalidated : (session recipient : ℕ) → InvalidationReason → Effect

pub data Result : Type 0 where
  skipped dry_run sent waiting : Result
  threw : Result

pub record Run : Type 0 where
  pub result : Result
  pub trace : List Effect
  pub world : World

-- Other processes run, then the statement.
abbrev pub enter : Env → ℕ → World → World
enter env n w = env.others n w

abbrev pub write : Env → ℕ → ℕ → MessageJobStatus → Option ℕ → Option String → World → World
write env n id status message_id error w =
    let w' = enter env n w in
    record w' { store = update_result id status message_id error (env.clock n) w'.store }

pub data Acquisition : Type 0 where
  acquired : ℕ → World → Acquisition
  no_longer_processing : ℕ → World → Acquisition
  still_waiting : World → Acquisition

-- The loop of withLease, for at most the given number of turns. Date.now() is read at the clock of
-- the turn.
unfoldable pub acquire : Env → SendConfig → MessageJob → ℕ → ℕ → ℕ → ℕ → World → Acquisition
acquire env cfg job token zero n refreshed_at w = still_waiting w
acquire env cfg job token (suc turns) n refreshed_at w =
    let w1 = enter env n w in
    let (ok, ls) =
      try_acquire job.session_id job.id token (cfg.outbound_max_delay_ms + 45000) (env.clock n)
        w1.leases in
    let w2 = record w1 { leases = ls } in
    let w3 = enter env (n + 1) w2 in
    let (alive, st) = refresh_processing_lease job.id (env.clock (n + 1)) w3.store in
    let w4 = record w3 { store = st } in
    let after_refresh = acquire env cfg job token turns (n + 2) (env.clock (n + 1)) w4 in
    let again = acquire env cfg job token turns (n + 1) refreshed_at w2 in
    if ok
    then acquired (n + 1) w2
    else if leb (refreshed_at + 30000) (env.clock n)
    then (if alive then after_refresh else no_longer_processing (n + 2) w4)
    else again

abbrev pub let_go : Env → MessageJob → ℕ → ℕ → World → World
let_go env job token n w =
    let w' = enter env n w in
    record w' { leases = (release job.session_id job.id token w'.leases).1 }

-- isDefinitiveUpstreamRejection.
unfoldable pub is_definitive_rejection : Reply → Bool
is_definitive_rejection (http_error status) =
    leb 400 status && ltb status 500 && not (status == 408)
is_definitive_rejection _ = false

abbrev pub failure_status : Bool → Reply → MessageJobStatus
failure_status upstream_started reply =
    if not upstream_started || is_definitive_rejection reply then failed else unknown

invalidation : Bool → Reply → MessageJob → List Effect
invalidation is_group (http_error status) job =
    if is_group && status == 403
    then invalidated job.session_id job.recipient_id gateway_permission_denied ∷ []
    else if is_group && status == 404
    then invalidated job.session_id job.recipient_id group_changed ∷ []
    else []
invalidation is_group _ job = []

-- After the POST: the success path of the operation, or the catch clause behind the finally.
after_post : Env → MessageJob → ℕ → ℕ → Reply → World → Run
unfolding invalidation is_definitive_rejection
after_post env job token n (message id) w =
    let w1 = write env n job.id accepted (some id) none w in
    record {
      result = sent;
      trace = wrote accepted ∷ released_lease ∷ [];
      world = let_go env job token (n + 1) w1;
    }
after_post env job token n reply w =
    let w1 = let_go env job token n w in
    let status = failure_status true reply in
    record {
      result = threw;
      trace =
          released_lease
          ∷ wrote status
          ∷ invalidation ((env.gateway (n + 2)).is_group_jid job.recipient_id) reply job;
      world = write env (n + 1) job.id status none (some (env.describe reply)) w1;
    }

abbrev pub prefix : List Effect → Run → Run
prefix [] r = r
prefix (e ∷ es) r = let r' = prefix es r in record r' { trace = e ∷ r'.trace }

abbrev pub give_back : Env → MessageJob → ℕ → ℕ → World → Run
give_back env job token n w = record {
  result = skipped;
  trace = released_lease ∷ [];
  world = let_go env job token n w;
}

-- withLease after the loop: assertMessageProcessing, the delay, verifyForSend, the POST.
unfoldable pub with_lease : Env → MessageJob → ℕ → ℕ → Reply → World → Run
unfolding after_post
with_lease env job token n reply w =
    let w1 = enter env n w in
    let (alive, st1) = refresh_processing_lease job.id (env.clock n) w1.store in
    let w2 = record w1 { store = st1 } in
    let w3 = enter env (n + 1) w2 in
    let (renewed, ls) = renew job.session_id job.id token 45000 (env.clock (n + 1)) w3.leases in
    let w4 = record w3 { leases = ls } in
    let lost = let_go env job token (n + 2) w4 in
    let w5 = enter env (n + 2) w4 in
    let (still, st2) = refresh_processing_lease job.id (env.clock (n + 2)) w5.store in
    let w6 = record w5 { store = st2 } in
    if not alive
    then give_back env job token (n + 1) w2
    else if not renewed
    then record {
      result = threw;
      trace = released_lease ∷ wrote failed ∷ [];
      world =
          write env (n + 3) job.id failed none (some "Outbound session lease lost before send")
            lost;
    }
    else if not still
    then give_back env job token (n + 3) w6
    else prefix (posted job.session_id job.recipient_id job.text ∷ [])
        (after_post env job token (n + 3) reply w6)

unfoldable pub after_acquire : Env → MessageJob → ℕ → Reply → Acquisition → Run
after_acquire env job token reply (still_waiting w) = record {
  result = waiting;
  trace = [];
  world = w;
}
after_acquire env job token reply (no_longer_processing n w) = give_back env job token n w
after_acquire env job token reply (acquired n w) =
    prefix (took_lease ∷ []) (with_lease env job token n reply w)

unfoldable pub live :
    Env → SendConfig → MessageJob → ℕ → ℕ → Reply → Option BlockReason → World → Run
live env cfg job token turns reply (some reason) w = record {
  result = threw;
  trace = wrote failed ∷ [];
  world = write env 2 job.id failed none (some (env.describe_block reason)) w;
}
live env cfg job token turns reply none w =
    after_acquire env job token reply (acquire env cfg job token turns 2 (env.clock 1) w)

unfoldable pub dispatch : Env → SendConfig → ℕ → ℕ → Reply → Option MessageJob → World → Run
dispatch env cfg token turns reply none w = record { result = skipped; trace = []; world = w }
dispatch env cfg token turns reply (some job) w =
    if job.dry_run
    then record {
      result = dry_run;
      trace = wrote dry_run_completed ∷ [];
      world = write env 1 job.id dry_run_completed none none w;
    }
    else if not cfg.allow_live_sends
    then record {
      result = threw;
      trace = wrote failed ∷ [];
      world = write env 1 job.id failed none (some "Live send blocked: ALLOW_LIVE_SENDS=false") w;
    }
    else live env cfg job token turns reply
        (live_block_reason (env.gateway 1) job.session_id job.recipient_id) w

unfoldable pub process : Env → SendConfig → ℕ → ℕ → ℕ → Reply → World → Run
process env cfg token turns id reply w =
    let w0 = enter env 0 w in
    let (job, st) = mark_processing id (env.clock 0) w0.store in
    dispatch env cfg token turns reply job (record w0 { store = st })

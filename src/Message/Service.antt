-- ===== src/Message/Service.antt =====
-- src/modules/messages/message-job.service.ts: the guards of MessageJobService.create and get. The
-- length of the key is in UTF-16 code units, the hash that of messageRequestHash.
use wa_runtime.Base.{ℕ, ◌+◌, Option, none, some, if◌then◌else◌, ltb}
use wa_runtime.Message.Job.{MessageJob}
use wa_runtime.Message.Repository.{Store, NewJob, CreateResult, create, find}
use wa_runtime.Message.Policy.{Gateway, BlockReason, assert_creatable}

pub data ServiceError : Type 0 where
  key_too_long scheduled_in_the_past conflict not_found not_visible : ServiceError
  not_creatable : BlockReason → ServiceError

pub data Answer {ℓ} (A : Type ℓ) : Type ℓ where
  ok : A → Answer A
  refused : ServiceError → Answer A

check_conflict : CreateResult → Answer CreateResult
check_conflict r = if r.idempotency_conflict then refused conflict else ok r

insert_job : NewJob → ℕ → ℕ → Store → Answer CreateResult × Store
unfolding check_conflict
insert_job input new_id now s = let (r, s') = create input new_id now s in (check_conflict r, s')

check_schedule : NewJob → ℕ → ℕ → Store → Answer CreateResult × Store
unfolding insert_job
check_schedule input new_id now s =
    if ltb (input.due_at + 60000) now
    then (refused scheduled_in_the_past, s)
    else insert_job input new_id now s

check_policy : Option BlockReason → NewJob → ℕ → ℕ → Store → Answer CreateResult × Store
unfolding check_schedule
check_policy (some reason) input new_id now s = (refused (not_creatable reason), s)
check_policy none input new_id now s = check_schedule input new_id now s

unfoldable pub create_job : Gateway → ℕ → NewJob → ℕ → ℕ → Store → Answer CreateResult × Store
unfolding check_policy
create_job gw key_length input new_id now s =
    if ltb 200 key_length
    then (refused key_too_long, s)
    else check_policy (assert_creatable gw input.session input.recipient input.dry) input new_id now
        s

visible : Gateway → Option MessageJob → Answer MessageJob
visible gw none = refused not_found
visible gw (some job) = if gw.is_allowed job.session_id then ok job else refused not_visible

unfoldable pub get_job : Gateway → ℕ → Store → Answer MessageJob
unfolding visible
get_job gw id s = visible gw (find id s)

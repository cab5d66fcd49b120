-- ===== src/Gateway/Examples.antt =====
-- Runs of the gateway's tables at concrete inputs.
use wa_runtime.Base.{ℕ, ◌≤◌, true, false, none, some, [], ◌∷◌, ◌≡◌, refl, arith, All}
use wa_runtime.Base.Sql.{row_count, order_by}
use wa_runtime.Gateway.SyncRun.{
  Db, full, ClaimedRun, WriteFence, create, claim, recover_expired, running_in,
  assert_sync_write_ownership, active_run, ensure_fence, current_epoch,
}
use wa_runtime.Gateway.Fencing.{Reach, here, next, created, claimed, recovered, Fenced}
use wa_runtime.Gateway.Exclusive.{empty, Reach-single, granted-fences_off}
use wa_runtime.Gateway.RateLimit.{
  Config, FailurePolicy, do_failure, apply, InBounds, new_limit, apply-InBounds,
}
use wa_runtime.Gateway.GroupIntent
use wa_runtime.Message.Policy.{allowed, denied}
use wa_runtime.Base.{◌↔◌}
use wa_runtime.Gateway.Capability.{
  CapabilityInput, evaluate_group_capability, evaluate_group_capability_lem,
}
use wa_runtime.Gateway.Pending
use wa_runtime.Gateway.NoLoss

-- A run is claimed, loses its lease, and is claimed again.
abbrev requested_run : Db
requested_run = (create 1 full 10 0 empty).1

abbrev first_claimed : Db
first_claimed = (claim 10 77 100 requested_run).1

abbrev lease_lost : Db
lease_lost = (recover_expired 200000 first_claimed).1

abbrev second_claim : ClaimedRun
second_claim = record { session = 1; token = 78; attempt_number = 2; epoch = 2 }

abbrev second_claimed : Db
second_claimed = (claim 10 78 200000 lease_lost).1

two_claims : Reach empty second_claimed
two_claims =
    next (next (next (next here (created 1 full 10 0 refl)) (claimed 10 77 100)) (recovered 200000))
      (claimed 10 78 200000)

second_granted : (claim 10 78 200000 lease_lost).0 ≡ some second_claim
unfolding claim create recover_expired active_run ensure_fence current_epoch order_by
second_granted = refl

Reach-single_example :
    All (Fenced second_claimed.fences) second_claimed.runs
    × ((session : ℕ) → row_count (running_in session) second_claimed.runs ≤ 1)
Reach-single_example = Reach-single two_claims

abbrev old_writer : WriteFence
old_writer = record { sync_run_id = 10; token = 77; epoch = 1 }

granted-fences_off_example : assert_sync_write_ownership 1 old_writer 200100 second_claimed ≡ false
granted-fences_off_example =
    granted-fences_off 10 78 200000 lease_lost second_claim {e = second_claimed} second_granted here
      old_writer 200100 (omega arith)

abbrev paced : Config
paced = record {
  groups_per_minute = 30;
  min_groups_per_minute = 5;
  adaptive_pacing = true;
  recovery_successes = 10;
  item_max_attempts = 5;
  debounce_ms = 5000;
  max_wait_ms = 30000;
}

abbrev too_many : FailurePolicy
too_many = record {
  rate_pressure = true;
  reduce_rate = true;
  retry_after_ms = none;
  retryable = true;
  code = 429;
}

apply-InBounds_example :
    All (InBounds paced) (apply paced (do_failure too_many 1 77 5000 0) (new_limit paced 1 0 ∷ []))
apply-InBounds_example =
    apply-InBounds paced (do_failure too_many 1 77 5000 0) (new_limit paced 1 0 ∷ []) (omega arith)
      ((omega arith, omega arith), tt)

abbrev requested_intent : GroupIntent.Db
requested_intent = (GroupIntent.schedule paced 1 2 3 0 NoLoss.empty).1

abbrev claimed_intent : GroupIntent.Db
claimed_intent = (GroupIntent.claim paced 1 2 77 6000 requested_intent).1

abbrev requested_again : GroupIntent.Db
requested_again = (GroupIntent.schedule paced 1 2 4 7000 claimed_intent).1

request_while_running : Pending.Reach paced NoLoss.empty requested_again
request_while_running =
    Pending.next
      (Pending.next (Pending.next Pending.here (Pending.requested 1 2 3 0))
        (Pending.claimed 1 2 77 6000))
      (Pending.requested 1 2 4 7000)

Reach-Tracks_example : All (Pending.Tracks 5) requested_again.intents
Reach-Tracks_example = NoLoss.Reach-Tracks request_while_running

-- An admin of an announce-only group.
abbrev admin_of_announce_group : CapabilityInput
admin_of_announce_group = record {
  is_active = true;
  is_read_only = some false;
  is_announce = some true;
  is_admin = some true;
  has_details = true;
}

evaluate_group_capability_lem_example :
    (((evaluate_group_capability admin_of_announce_group).status ≡ allowed) ↔ (false ≡ true))
    × (((evaluate_group_capability admin_of_announce_group).status ≡ denied) ↔ (false ≡ true))
evaluate_group_capability_lem_example = evaluate_group_capability_lem admin_of_announce_group

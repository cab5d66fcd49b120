-- ===== src/Gateway/SyncExamples.antt =====
-- Runs of the reconciliation of groups at concrete inputs.
use wa_runtime.Base.{ℕ, String, List, true, none, [], ◌∷◌, ◌≡◌, refl, arith, All, length}
use wa_runtime.Base.Sql.{first_row}
use wa_runtime.Message.Policy.{allowed}
use wa_runtime.Gateway.Capability.{send_allowed, manual_refresh}
use wa_runtime.Gateway.RateLimit.{Config}
use wa_runtime.Gateway.SyncRun.{full, is_running, WriteFence, create, claim}
use wa_runtime.Gateway.Groups.{
  GatewayGroup, Summary, group_of, summary_ids, replace_summaries, new_group,
}
use wa_runtime.Gateway.Permissions.{do_invalidate, apply, Later, apply-Later}
use wa_runtime.Gateway.Mirror.{Mirrors, replace_summaries-Mirrors}
use wa_runtime.Gateway.Discovery.{
  World, DiscoveryConfig, select, select_reason, insert_items, publish_discovery, after_publish,
}
use wa_runtime.Gateway.Coherence.{is_reconciling}
use wa_runtime.Gateway.Progress.{
  Reach, here, next, requested, run_claimed, published, with_db, no_rows, HasWork, Reach-HasWork,
}

abbrev summary : ℕ → Summary
summary id = record {
  id = id;
  name = 3;
  participants_count = none;
  is_admin = none;
  linked_parent_id = none;
  fingerprint = 11;
}

abbrev sendable : GatewayGroup
sendable = record (new_group 1 (summary 7) 0) {
  send_capability = allowed;
  send_capability_reason = send_allowed;
}

abbrev stale : GatewayGroup
stale = record sendable { id = 8 }

apply-Later_example :
    Later (first_row (group_of 1 7) (sendable ∷ stale ∷ [])) (
      first_row
        (group_of 1 7)
        (apply (do_invalidate 1 7 manual_refresh 50) (sendable ∷ stale ∷ [])))
apply-Later_example = apply-Later (do_invalidate 1 7 manual_refresh 50) (sendable ∷ stale ∷ []) 1 7

replace_summaries-Mirrors_example :
    All
      (Mirrors 1 (summary_ids (summary 7 ∷ [])))
      (replace_summaries 0 1 (summary 7 ∷ []) 50 (sendable ∷ stale ∷ []))
replace_summaries-Mirrors_example =
    replace_summaries-Mirrors 1 0 (summary 7 ∷ []) 50 (sendable ∷ stale ∷ [])

abbrev limits : Config
limits = record {
  groups_per_minute = 30;
  min_groups_per_minute = 5;
  adaptive_pacing = true;
  recovery_successes = 3;
  item_max_attempts = 3;
  debounce_ms = 100;
  max_wait_ms = 1000;
}

abbrev guard : DiscoveryConfig
guard = record {
  min_baseline = 20;
  drop_numerator = 1;
  drop_denominator = 4;
  needed_confirmations = 2;
  stale_after_ms = 1000;
  pending_name = 0;
  rank = λ n. n;
  digest = λ ids. length ids;
}

abbrev say : ℕ → String
say n = "group reconciliations failed"

abbrev asked : World
asked = with_db (create 1 full 10 0 (no_rows limits guard say).sync.db).1 (no_rows limits guard say)

abbrev leased : World
leased = with_db (claim 10 77 100 asked.sync.db).1 asked

abbrev fence : WriteFence
fence = record { sync_run_id = 10; token = 77; epoch = 1 }

abbrev snapshot : List Summary
snapshot = summary 7 ∷ summary 9 ∷ []

abbrev item_ids : ℕ → ℕ
item_ids n = n

abbrev reconciled : World
reconciled =
    after_publish (publish_discovery guard fence 1 full snapshot item_ids 200 200 leased) leased

one_snapshot : Reach limits guard say (no_rows limits guard say) reconciled
unfolding create claim insert_items select select_reason
one_snapshot =
    next (next (next here (requested 1 full 10 0 refl refl)) (run_claimed 10 77 100))
      (published fence 1 full snapshot item_ids 200 200 (refl, (refl, tt)))

Reach-HasWork_example :
    All
      (λ r.
        is_reconciling r.phase ≡ true
        → (is_running r.status ≡ true) × HasWork limits guard say reconciled.sync.items r)
      reconciled.sync.db.runs
Reach-HasWork_example = Reach-HasWork limits guard say (omega arith) one_snapshot

-- ===== src/Orchestration/Examples.antt =====
-- A run of the retention at concrete inputs.
use wa_runtime.Base.{arith, ◌+◌, ◌↔◌, ℕ, ◌≤◌, ◌-◌, ◌*◌, false, true, not, some, [], ◌∷◌, ◌≡◌, refl}
use wa_runtime.Campaign.Tables.{completed, running}
use wa_runtime.Message.Job.{sent, queued}
use wa_runtime.Orchestration.Retention.{Tables, Surroundings, Cutoffs, cleanup}
use wa_runtime.Orchestration.Tick.{
  Options, fresh, begin, time_out, Tick, Reach, here, next, began, launch, launched, timeout_fired,
  Reach-exclusive, next_delay_ms, next_delay_ms-bounds,
}
use wa_runtime.Orchestration.Draining.{Unique, Drained, cleanup-Settles}

abbrev tables : Tables
tables = record {
  runs =
      record { id = 1; status = completed; updated_at = 5 }
      ∷ record { id = 2; status = running; updated_at = 5 }
      ∷ [];
  deliveries = record { run_id = 1; message_job_id = some 3 } ∷ [];
  jobs =
      record { id = 3; status = sent; updated_at = 6 }
      ∷ record { id = 4; status = queued; updated_at = 6 }
      ∷ [];
  inbound = [];
  message_events = [];
  events = [];
  webhooks = [];
  syncs = [];
  observations = [];
}

keys : Unique tables
keys = record {
  runs = (refl, (refl, tt));
  jobs = (refl, (refl, tt));
  inbound = tt;
  events = tt;
  webhooks = tt;
  syncs = tt;
  observations = tt;
}

abbrev unlocked : ℕ → Surroundings
unlocked batch = record {
  locked = λ table id. false;
  session_busy = λ s. false;
  in_cluster = λ s id. false;
}

abbrev cutoffs : Cutoffs
cutoffs = record {
  operational = 100;
  event = 100;
  inbox = 100;
  webhook = 100;
  contact_observation = 100;
}

abbrev clock : ℕ → ℕ
clock batch = batch * 10

cleanup-Settles_example :
    let (r, after) = cleanup clock unlocked cutoffs 2 5 1000 tables in
    (r.batches ≤ 5)
    × (r.capacity_exhausted ≡ not r.drained)
    × (r.drained ≡ true → Drained (unlocked (r.batches - 1)) cutoffs after)
cleanup-Settles_example = cleanup-Settles clock unlocked cutoffs 2 5 1000 tables keys

abbrev options : Options
options = record { interval_ms = 1000; max_backoff_ms = 60000 }

abbrev overdue : Tick
overdue = time_out (launch (begin 5 fresh).1)

abbrev called_again : Tick
called_again = (begin 9 overdue).1

overlapping : Reach options fresh called_again
unfolding begin launch
overlapping =
    next (next (next (next here (began 5)) (launched (omega arith))) (timeout_fired (omega arith)))
      (began 9)

Reach-exclusive_example :
    (called_again.operations ≤ 1)
    × (1 ≤ called_again.reports → called_again.operations ≡ 0)
    × ((called_again.running ≡ true) ↔ (1 ≤ called_again.reports + called_again.operations))
Reach-exclusive_example = Reach-exclusive overlapping

next_delay_ms-bounds_example :
    (1000 ≤ next_delay_ms options 3)
    × (next_delay_ms options 3 ≤ 60000)
    × (next_delay_ms options 0 ≡ 1000)
next_delay_ms-bounds_example = next_delay_ms-bounds options 3 (omega arith)

-- ===== src/Message/Examples.antt =====
-- Runs of the message tables at concrete inputs.
use wa_runtime.Base.{
  ℕ, ◌≤◌, true, false, not, some, List, [], ◌∷◌, ◌≡◌, ◌⊎◌, refl, arith, All, ◌==◌,
}
use wa_runtime.Base.Sql.{row_count, first_row}
use wa_runtime.Message.Job.{MessageJob}
use wa_runtime.Message.Repository.{Store, NewJob, create, claim_due, mark_processing, same_key}
use wa_runtime.Message.Step.{Reach, here, next, created, claimed, started, Passes}
use wa_runtime.Message.Evolution.{Evolves}
use wa_runtime.Message.History.{AtMostOnce, UniqueIds, Reach-AtMostOnce, empty}
use wa_runtime.Message.Following.{Reach-Evolves, Deleted}
use wa_runtime.Message.Idempotency.{create-create, Reach-UniqueKeys}
use wa_runtime.Message.Lease.{Lease, try_acquire, new_lease}
use wa_runtime.Message.Exclusion.{
  Current, Call, try_acquire_call, renew_call, perform_all, perform_all-refused,
}
use wa_runtime.Message.Holding.{Refines, perform-Refines}
use wa_runtime.Message.Policy.{Gateway, allowed}
use wa_runtime.Message.Service.{create_job}
use wa_runtime.Message.Guards.{LiveTarget, create_job-guarded}
use wa_runtime.Message.Processor.{World, Env, SendConfig, message, process, posted}
use wa_runtime.Message.Sending.{process-SendsOnce, posts, writes, settled, Quiet, MaySend}

abbrev request : NewJob
request = record {
  scope = 1;
  key = 2;
  hash = 3;
  session = 4;
  recipient = 5;
  body = 6;
  due_at = 0;
  dry = false;
}

abbrev after_create : Store
after_create = (create request 10 0 empty).1

abbrev after_claim : Store
after_claim = (claim_due (λ id. false) 5 100 after_create).1

abbrev after_start : Store
after_start = (mark_processing 10 200 after_claim).1

claim_and_start : Reach after_create after_start
claim_and_start = next (next here (claimed (λ id. false) 5 100)) (started 10 200)

one_job : Reach empty after_start
one_job =
    next (next (next here (created request 10 0 refl)) (claimed (λ id. false) 5 100))
      (started 10 200)

unique : UniqueIds after_create
unfolding create
unique = (refl, tt)

first_job : first_row (λ j. j.id == 10) after_create.jobs ≡ some (create request 10 0 empty).0.job
unfolding create
first_job = refl

Reach-AtMostOnce_example : All AtMostOnce after_start.jobs
Reach-AtMostOnce_example = Reach-AtMostOnce one_job

Reach-Evolves_example :
    ((k : MessageJob) × (first_row (λ j. j.id == 10) after_start.jobs ≡ some k)
      × Evolves (create request 10 0 empty).0.job k)
    ⊎ ((u : Store) × (v : Store) × Passes claim_and_start u v
        × Deleted (λ j. j.id == 10) (create request 10 0 empty).0.job u v)
Reach-Evolves_example = Reach-Evolves 10 claim_and_start unique first_job

create-create_example :
    ((k : MessageJob) × (Evolves (create request 10 0 empty).0.job k)
      × (create request 11 300 after_start ≡ (
        record {
          job = k;
          created = false;
          idempotency_conflict = not ((create request 10 0 empty).0.job.request_hash == 3);
        },
        after_start,
      )))
    ⊎ ((u : Store) × (v : Store) × Passes claim_and_start u v
        × Deleted (same_key 1 2) (create request 10 0 empty).0.job u v)
create-create_example =
    create-create request request 10 0 11 300 empty claim_and_start unique refl refl

Reach-UniqueKeys_example : row_count (same_key 1 2) after_start.jobs ≤ 1
Reach-UniqueKeys_example = Reach-UniqueKeys one_job 1 2

abbrev lease : Lease
lease = new_lease 4 10 77 5000

abbrev foreign_calls : List (Call × ℕ)
foreign_calls = (try_acquire_call 4 11 78 1000, 100) ∷ []

perform_all-refused_example :
    (Current lease (perform_all foreign_calls (lease ∷ [])))
    × (try_acquire 4 12 79 1000 4000 (perform_all foreign_calls (lease ∷ []))
        ≡ (false, perform_all foreign_calls (lease ∷ [])))
perform_all-refused_example =
    perform_all-refused lease foreign_calls 12 79 1000 4000 (lease ∷ []) refl
      (((λ e. absurd (omega (arith, e))), omega arith), tt) (λ e. absurd (omega (arith, e)))
      (omega arith)

perform-Refines_example : Refines (renew_call 4 10 77 1000) 4000 (lease ∷ [])
perform-Refines_example = perform-Refines (renew_call 4 10 77 1000) 4000 (lease ∷ []) (refl, tt)

abbrev open_gateway : Gateway
open_gateway = record {
  is_allowed = λ s. true;
  is_session_sendable = λ s. true;
  is_group_jid = λ r. true;
  find_group = λ s g. some (record { capability = allowed; reason = 0 });
}

abbrev alone : Env
alone = record {
  others = λ n w. w;
  clock = λ n. 300;
  gateway = λ n. open_gateway;
  describe = λ r. "error";
  describe_block = λ b. "blocked";
}

abbrev sends_on : SendConfig
sends_on = record { allow_live_sends = true; outbound_max_delay_ms = 1000 }

abbrev claimed_world : World
claimed_world = record { store = after_claim; leases = [] }

process-SendsOnce_example :
    let es = (process alone sends_on 77 3 10 (message 9) claimed_world).trace in
    ((posts es ≡ []) × Quiet (writes es))
    ⊎ ((job : MessageJob) × ((mark_processing 10 300 after_claim).0 ≡ some job)
        × (posts es ≡ posted job.session_id job.recipient_id job.text ∷ [])
        × (writes es ≡ settled (message 9) ∷ [])
        × MaySend alone sends_on job)
process-SendsOnce_example = process-SendsOnce alone sends_on 77 3 10 (message 9) claimed_world

create_job-guarded_example :
    ((create_job open_gateway 36 request 10 0 empty).1 ≡ empty)
    ⊎ ((36 ≤ 200)
        × (0 ≤ 60000)
        × (true ≡ true)
        × ((false ≡ true) ⊎ LiveTarget open_gateway 4 5)
        × ((create_job open_gateway 36 request 10 0 empty).1 ≡ (create request 10 0 empty).1))
create_job-guarded_example = create_job-guarded open_gateway 36 request 10 0 empty

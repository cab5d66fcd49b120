-- ===== src/Lib.antt =====
-- A verification library of WA Runtime, the durable control plane between WA Studio and the OpenWA
-- gateway. All of the program's lasting state is in PostgreSQL; API, scheduler and workers are
-- processes that run single statements and short transactions on it. The models therefore are
-- tables (lists of rows, in the order of insertion) with one function for each repository
-- operation, and relations Step and Reach in which any process may take the next step at any time.
--
-- How the files correspond to the code:
--   Base            what the other modules share; Base/Sql holds UPDATE, DELETE and ORDER BY on lists
--                   of rows, Base/Keys primary keys, Base/Backoff the retry delay of the repositories, Base/Answer what
--                   a service answers, Base/Order sorted lists.
--   Message         src/modules/messages. Job and Repository: message-job.types.ts and
--                   message-job.repository.ts (create, claimDue, markProcessing, refreshProcessingLease,
--                   resetQueued, recoverStaleQueued, markExpiredProcessingUnknown, updateResult,
--                   updateStatusByOpenWAMessageIdWithClient). Lease: outbound-session-lease.repository.ts.
--                   Policy and Service: message-send-policy.service.ts, message-job.service.ts.
--                   Processor: message-job-processor.service.ts with outbound-session-lease.service.ts.
--                   Step also takes the deletion of jobs of
--                   src/modules/orchestration/data-retention.tick.ts. Evolution, History,
--                   Following, Idempotency, Exclusion, Holding, Sending, Guards: the proofs.
--   Campaign        src/modules/campaigns. Launch and Preparation: campaign-run.repository.ts.
--                   Lifecycle: campaign-run-lifecycle.repository.ts. Delivery:
--                   campaign-delivery.repository.ts, which creates message jobs through
--                   Message.Repository.create. Preflight: campaign-preflight.ts. Drafts:
--                   campaign.repository.ts, which takes snapshots of GroupList. Service:
--                   campaign.service.ts with its error codes. RunService: create, get, pause and
--                   cancel of campaign-run.service.ts. Step also takes the deletion of runs
--                   of src/modules/orchestration/data-retention.tick.ts. Coupling, Transitions,
--                   Launching, Preflighting, Finalizing, Materializing, Drafting, Audit, Snapshots,
--                   Replays, Buffering, Verdict, Targets, Deleting, Keeping, RunKeeping, Keyed,
--                   Refusals, RunRefusals: the proofs.
--   GroupList       src/modules/group-lists. Table: group-list.repository.ts. Service:
--                   group-list.service.ts with its error codes. Membership, Revision, Failing: the
--                   proofs.
--   Orchestration   src/modules/orchestration. Retention: data-retention.tick.ts, over tables of its own
--                   with the columns that its statements read. Tick: isolated-scheduler-tick.ts
--                   from the call of execute to its return, with its theorems. Batches, Draining:
--                   the proofs.
--   Webhook         src/modules/webhooks. Event: webhook.repository.ts. Processing:
--                   webhook-processor.service.ts, which writes delivery statuses through
--                   Message.Repository. Inbox and Once: the proofs.
--   Gateway         src/modules/gateway. SyncRun: gateway-sync-run.repository.ts,
--                   gateway-write-fence.repository.ts, and the statements of
--                   gateway-sync-item.repository.ts on sync_runs. SyncItem and Discovery: the other
--                   operations of gateway-sync-item.repository.ts. Groups: the table gateway_groups
--                   with gateway-capability.repository.ts and replaceSummaries. RateLimit and GroupIntent:
--                   gateway-sync-rate-limit.repository.ts and gateway-group-intent.repository.ts.
--                   Capability: evaluateGroupCapability of group-capability.ts, with its theorem.
--                   Running, Fencing, Exclusive, Pending, NoLoss, Permissions, Mirror, Coherence,
--                   Refreshing, Working, Publishing, Progress: the proofs.
--   The modules named Examples, DraftExamples and SyncExamples run the models at concrete inputs.
--
-- Conventions. Identifiers, hashes, tokens and texts are natural numbers that are only compared;
-- times are milliseconds. now is the database's clock, js_now the one of the process. What
-- gen_random_uuid() and Math.random() draw is an argument; new primary keys are fresh. SKIP LOCKED
-- is an argument that says which rows are locked. A statement is atomic, as is a transaction whose
-- rows are locked. Calls of the database are taken to return. updated_at is kept only where code
-- reads it.
--
-- Bounds: the loop of cleanup in Orchestration.Retention recurses on its maximal number of
-- batches, as the code does. Fuel: only acquire in Message.Processor, the waiting loop of
-- withLease, has a number of turns. The loop has no bound in the code, so running out is a result
-- of its own (still_waiting), and what is shown of the worker holds for every number of turns.
--
-- Not modelled: contacts, the read model's group snapshots and queries, the timers, leadership and
-- dispatch ticks of the schedulers, the OpenWA client (its replies are arguments), controllers,
-- configuration and logging. Retention of webhook events and of synchronisation runs is not among
-- the steps. The order that ORDER BY gives group ids and that of sort() in
-- JavaScript are two arguments of the models; where a theorem needs them to be one, it says so. Of
-- runtime-event.repository.ts only the insertion of an event and its collision check are modelled;
-- whether the calls behind it throw is an argument.
pub mod Base
pub mod Message
pub mod Campaign
pub mod Webhook
pub mod Gateway
pub mod GroupList
pub mod Orchestration

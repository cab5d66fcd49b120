-- ===== src/Webhook/Processing.antt =====
-- src/modules/webhooks/webhook-processor.service.ts, with the row that runtime-event.repository.ts
-- writes for an event. occurred_at stands for the normalizer's reading of the date. What else the
-- transaction calls (group intents, contact observations) may throw: the argument throws says so.
use wa_runtime.Base.{
  ℕ, String, Bool, true, false, not, ◌&&◌, ◌||◌, Option, none, some, List, [], ◌∷◌, ◌++◌, ◌==◌,
  coalesce, is_null, if◌then◌else◌,
}
use wa_runtime.Base.Sql.{first_row}
use wa_runtime.Message.Job.{MessageJobStatus, sent, delivered, read, failed}
use wa_runtime.Message.Repository.{Store, update_status_by_openwa_message_id}
use wa_runtime.Webhook.Event.{
  EventName, message_sent, message_failed, message_ack, message_received, other_event, StatusText,
  sent_text, delivered_text, read_text, failed_text, EventData, Envelope, WebhookEvent,
  ClaimedWebhook, claim_for_processing, lock_processing_lease, mark_processed_in_transaction,
  mark_failed,
}

pub record RuntimeEvent : Type 0 where
  pub event_id : ℕ
  pub source_event_type : EventName
  pub session_id : ℕ
  pub occurred_at : ℕ

pub record Tables : Type 0 where
  pub events : List WebhookEvent
  pub runtime_events : List RuntimeEvent
  pub messages : Store

abbrev pub runtime_event_id : RuntimeEvent → ℕ
runtime_event_id r = r.event_id

status_of_text : Option StatusText → Option MessageJobStatus
status_of_text (some sent_text) = some sent
status_of_text (some delivered_text) = some delivered
status_of_text (some read_text) = some read
status_of_text (some failed_text) = some failed
status_of_text _ = none

unfoldable pub webhook_status : EventName → EventData → Option MessageJobStatus
unfolding status_of_text
webhook_status message_sent d = some sent
webhook_status message_failed d = some failed
webhook_status message_ack d = status_of_text d.status
webhook_status _ d = none

abbrev pub same_name : EventName → EventName → Bool
same_name message_sent message_sent = true
same_name message_failed message_failed = true
same_name message_ack message_ack = true
same_name message_received message_received = true
same_name (other_event a) (other_event b) = a == b
same_name _ _ = false

abbrev pub same_event : RuntimeEvent → RuntimeEvent → Bool
same_event a b =
    same_name a.source_event_type b.source_event_type
    && a.session_id == b.session_id
    && a.occurred_at == b.occurred_at

-- ON CONFLICT (event_id) DO NOTHING, then the comparison with the stored row; none is the exception.
store_on : Option RuntimeEvent → RuntimeEvent → List RuntimeEvent → Option (List RuntimeEvent)
store_on none r rs = some (rs ++ r ∷ [])
store_on (some old) r rs = if same_event old r then some rs else none

unfoldable pub store_in_transaction : RuntimeEvent → List RuntimeEvent → Option (List RuntimeEvent)
unfolding store_on
store_in_transaction r rs = store_on (first_row (λ o. o.event_id == r.event_id) rs) r rs

-- if (status && messageId).
update_message : Option MessageJobStatus → Option ℕ → ℕ → Store → Store
update_message (some status) (some id) now s = update_status_by_openwa_message_id id status now s
update_message _ _ now s = s

pub data Delivered : Type 0 where
  done lost threw : Delivered

-- Everything after the INSERT of the runtime event; a throw undoes the whole transaction.
finish_delivery :
    Option (List RuntimeEvent) → Bool → Bool → Envelope → ℕ → ℕ → Tables → Delivered × Tables
unfolding update_message
finish_delivery none throws compact envelope token now t = (threw, t)
finish_delivery (some stored) throws compact envelope token now t =
    let messages =
      update_message (webhook_status envelope.event envelope.data_fields)
        (coalesce envelope.data_fields.message_id envelope.data_fields.id) now t.messages in
    let marked =
      mark_processed_in_transaction compact envelope.idempotency_key token none now t.events in
    if throws || not marked.0
    then (threw, t)
    else (done, record { events = marked.1; runtime_events = stored; messages = messages })

-- What normalizeOpenWAWebhook gives every event, whatever its name.
abbrev pub normalize : (Envelope → ℕ) → Envelope → RuntimeEvent
normalize occurred_at envelope = record {
  event_id = envelope.idempotency_key;
  source_event_type = envelope.event;
  session_id = envelope.session_id;
  occurred_at = occurred_at envelope;
}

-- The callback that process gives to the transaction.
unfoldable pub deliver :
    (Envelope → ℕ) → Bool → Bool → ClaimedWebhook → ℕ → Tables → Delivered × Tables
unfolding finish_delivery
deliver occurred_at throws compact claim now t =
    if lock_processing_lease claim.envelope.idempotency_key claim.token now t.events
    then finish_delivery
        (store_in_transaction (normalize occurred_at claim.envelope) t.runtime_events) throws
        compact claim.envelope claim.token now t
    else (lost, t)

-- The answers of process: skipped, skipped for lost ownership, processed, or the rethrown error.
pub data Processed : Type 0 where
  skipped skipped_lost rethrown : Processed
  status_updated : Bool → Processed

conclude : ClaimedWebhook → String → ℕ → Delivered × Tables → Processed × Tables
conclude claim error now (done, t) =
    let fields = claim.envelope.data_fields in
    (
      status_updated (
          not (is_null (webhook_status claim.envelope.event fields))
          && not (is_null (coalesce fields.message_id fields.id))),
      t,
    )
conclude claim error now (lost, t) = (skipped_lost, t)
conclude claim error now (threw, t) = (
  rethrown,
  record t {
    events = (mark_failed claim.envelope.idempotency_key claim.token error now t.events).1;
  },
)

-- others is what the rest of the system does between the claim and the transaction.
process_claim :
    (Envelope → ℕ) → Bool → Bool → String → ℕ → Option ClaimedWebhook → Tables → Processed × Tables
unfolding conclude
process_claim occurred_at throws compact error now none t = (skipped, t)
process_claim occurred_at throws compact error now (some claim) t =
    conclude claim error now (deliver occurred_at throws compact claim now t)

unfoldable pub process :
    (Envelope → ℕ)
    → Bool
    → Bool
    → String
    → ℕ
    → ℕ
    → (Tables → Tables)
    → ℕ
    → ℕ
    → Tables
    → Processed × Tables
unfolding process_claim
process occurred_at throws compact error key token others claimed_at now t =
    let claim = claim_for_processing key token claimed_at t.events in
    process_claim occurred_at throws compact error now claim.0
      (others (record t { events = claim.1 }))

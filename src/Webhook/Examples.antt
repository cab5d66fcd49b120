-- ===== src/Webhook/Examples.antt =====
-- Runs of the inbox at concrete inputs.
use wa_runtime.Base.{ℕ, false, none, some, [], ◌≡◌, All}
use wa_runtime.Base.Keys.{has_key}
use wa_runtime.Message.Repository.{Store}
use wa_runtime.Webhook.Event.{
  Envelope, message_sent, WebhookEvent, ClaimedWebhook, insert, claim_for_processing, is_processed,
}
use wa_runtime.Webhook.Processing.{Tables, runtime_event_id, deliver}
use wa_runtime.Webhook.Inbox.{Reach, here, next, received, claimed, delivered, Sound}
use wa_runtime.Webhook.Once.{empty, Reach-recorded, Reach-Sound}

abbrev sent_envelope : Envelope
sent_envelope = record {
  event = message_sent;
  timestamp = 5;
  session_id = 4;
  idempotency_key = 1;
  delivery_id = 2;
  data_fields = record { message_id = some 9; id = none; status = none };
}

abbrev no_messages : Store
no_messages = record { jobs = []; attempts = [] }

abbrev occurred_at : Envelope → ℕ
occurred_at envelope = envelope.timestamp

abbrev received_tables : Tables
received_tables = record (empty no_messages) { events = (insert sent_envelope 0 []).1 }

abbrev claimed_tables : Tables
claimed_tables = record received_tables {
  events = (claim_for_processing 1 77 100 received_tables.events).1;
}

abbrev the_claim : ClaimedWebhook
the_claim = record { envelope = sent_envelope; token = 77; attempt_number = 1 }

abbrev delivered_tables : Tables
delivered_tables = (deliver occurred_at false false the_claim 200 claimed_tables).1

one_event : Reach occurred_at (empty no_messages) delivered_tables
one_event =
    next (next (next here (received sent_envelope 0)) (claimed 1 77 100))
      (delivered false false the_claim 200)

Reach-recorded_example :
    All
      (λ (e : WebhookEvent).
        has_key runtime_event_id e.idempotency_key delivered_tables.runtime_events
        ≡ is_processed e.state)
      delivered_tables.events
Reach-recorded_example = Reach-recorded one_event

Reach-Sound_example : All Sound delivered_tables.events
Reach-Sound_example = Reach-Sound one_event

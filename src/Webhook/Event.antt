-- ===== src/Webhook/Event.antt =====
-- src/modules/webhooks/webhook.repository.ts: the table webhook_events. gen_random_uuid() enters as
-- the argument token, and now is the database's clock.
use wa_runtime.Base.{
  ℕ, ◌+◌, String, Bool, true, false, ◌&&◌, Option, none, some, List, [], ◌∷◌, ◌++◌, leb, ltb, ◌==◌,
  after, before, holds, filter, take, map, any, if◌then◌else◌,
}
use wa_runtime.Base.Sql.{update_where, row_count, first_row, order_by}
use wa_runtime.Base.Backoff.{backoff_ms}

-- The event names that the processor reads; the others carry a number for their name.
pub data EventName : Type 0 where
  message_sent message_failed message_ack message_received : EventName
  other_event : ℕ → EventName

-- data.status in lower case.
pub data StatusText : Type 0 where
  sent_text delivered_text read_text failed_text other_text : StatusText

pub record EventData : Type 0 where
  pub message_id : Option ℕ
  pub id : Option ℕ
  pub status : Option StatusText

pub record Envelope : Type 0 where
  pub event : EventName
  pub timestamp : ℕ
  pub session_id : ℕ
  pub idempotency_key : ℕ
  pub delivery_id : ℕ
  pub data_fields : EventData

pub data ProcessingState : Type 0 where
  pending processing processed retry dead : ProcessingState

pub record WebhookEvent : Type 0 where
  pub idempotency_key : ℕ
  pub delivery_id : ℕ
  pub event_type : EventName
  pub session_id : ℕ
  pub payload : Envelope
  pub state : ProcessingState
  pub attempt_count : ℕ
  pub next_attempt_at : ℕ
  pub last_attempt_at : Option ℕ
  pub received_at : ℕ
  pub lease_token : Option ℕ
  pub lease_expires_at : Option ℕ
  pub processed_at : Option ℕ
  pub dead_at : Option ℕ
  pub processing_error : Option String

pub record ClaimedWebhook : Type 0 where
  pub envelope : Envelope
  pub token : ℕ
  pub attempt_number : ℕ

pub data AttemptResult : Type 0 where
  retried gave_up lost_ownership : AttemptResult

abbrev pub event_key : WebhookEvent → ℕ
event_key e = e.idempotency_key

abbrev pub is_processing : ProcessingState → Bool
is_processing processing = true
is_processing _ = false

abbrev pub is_processed : ProcessingState → Bool
is_processed processed = true
is_processed _ = false

-- processing_state IN ('PENDING', 'RETRY').
abbrev pub is_waiting : ProcessingState → Bool
is_waiting pending = true
is_waiting retry = true
is_waiting _ = false

abbrev pub inserted : Envelope → ℕ → WebhookEvent
inserted envelope now = record {
  idempotency_key = envelope.idempotency_key;
  delivery_id = envelope.delivery_id;
  event_type = envelope.event;
  session_id = envelope.session_id;
  payload = envelope;
  state = pending;
  attempt_count = 0;
  next_attempt_at = now;
  last_attempt_at = none;
  received_at = now;
  lease_token = none;
  lease_expires_at = none;
  processed_at = none;
  dead_at = none;
  processing_error = none;
}

unfoldable pub insert : Envelope → ℕ → List WebhookEvent → Bool × List WebhookEvent
insert envelope now es =
    if any (λ e. e.idempotency_key == envelope.idempotency_key) es
    then (false, es)
    else (true, es ++ inserted envelope now ∷ [])

abbrev pub dispatchable : ℕ → WebhookEvent → Bool
dispatchable now e = is_waiting e.state && ltb e.attempt_count 5 && leb e.next_attempt_at now

-- ORDER BY next_attempt_at, received_at.
unfoldable pub list_dispatchable : ℕ → ℕ → List WebhookEvent → List ℕ
list_dispatchable limit now es = map event_key (
    take limit (
      order_by (λ e. e.next_attempt_at)
        (order_by (λ e. e.received_at) (filter (dispatchable now) es))))

abbrev pub claimable : ℕ → ℕ → WebhookEvent → Bool
claimable key now e = e.idempotency_key == key && dispatchable now e

abbrev pub claim_row : ℕ → ℕ → WebhookEvent → WebhookEvent
claim_row token now e = record e {
  state = processing;
  attempt_count = e.attempt_count + 1;
  last_attempt_at = some now;
  lease_token = some token;
  lease_expires_at = some (now + 120000);
  processing_error = none;
}

claim_of : ℕ → Option WebhookEvent → Option ClaimedWebhook
claim_of token none = none
claim_of token (some e) =
    some (record { envelope = e.payload; token = token; attempt_number = e.attempt_count + 1 })

unfoldable pub claim_for_processing :
    ℕ → ℕ → ℕ → List WebhookEvent → Option ClaimedWebhook × List WebhookEvent
unfolding claim_of
claim_for_processing key token now es = (
  claim_of token (first_row (claimable key now) es),
  update_where (claimable key now) (claim_row token now) es,
)

abbrev pub exhausted : WebhookEvent → Bool
exhausted e = leb 5 e.attempt_count

-- The row after a failed attempt: DEAD when five attempts are used up, RETRY at the given time else.
abbrev pub failed_row : String → ℕ → ℕ → WebhookEvent → WebhookEvent
failed_row error again now e = record e {
  state = if exhausted e then dead else retry;
  lease_token = none;
  lease_expires_at = none;
  next_attempt_at = if exhausted e then e.next_attempt_at else again;
  dead_at = if exhausted e then some now else e.dead_at;
  processing_error = some error;
}

abbrev pub lease_expired : ℕ → WebhookEvent → Bool
lease_expired now e = is_processing e.state && before e.lease_expires_at now

unfoldable pub recover_expired_processing : ℕ → List WebhookEvent → ℕ × List WebhookEvent
recover_expired_processing now es = (
  row_count (lease_expired now) es,
  update_where (lease_expired now) (failed_row "Recovered expired processing lease" now now) es,
)

abbrev pub lease_held : ℕ → ℕ → ℕ → WebhookEvent → Bool
lease_held key token now e =
    e.idempotency_key == key
    && is_processing e.state
    && holds e.lease_token token
    && after e.lease_expires_at now

unfoldable pub lock_processing_lease : ℕ → ℕ → ℕ → List WebhookEvent → Bool
lock_processing_lease key token now es = row_count (lease_held key token now) es == 1

-- jsonb_build_object(… 'data', '{}'), where the payload is compacted.
abbrev pub compacted : WebhookEvent → Envelope
compacted e = record {
  event = e.event_type;
  timestamp = e.payload.timestamp;
  session_id = e.session_id;
  idempotency_key = e.idempotency_key;
  delivery_id = e.delivery_id;
  data_fields = record { message_id = none; id = none; status = none };
}

abbrev pub processed_row : Bool → Option String → ℕ → WebhookEvent → WebhookEvent
processed_row compact error now e = record e {
  state = processed;
  processed_at = some now;
  processing_error = error;
  lease_token = none;
  lease_expires_at = none;
  payload = if compact then compacted e else e.payload;
}

unfoldable pub mark_processed_in_transaction :
    Bool → ℕ → ℕ → Option String → ℕ → List WebhookEvent → Bool × List WebhookEvent
mark_processed_in_transaction compact key token error now es = (
  row_count (lease_held key token now) es == 1,
  update_where (lease_held key token now) (processed_row compact error now) es,
)

unfoldable pub mark_processed :
    Bool → ℕ → ℕ → Option String → ℕ → List WebhookEvent → Bool × List WebhookEvent
unfolding lock_processing_lease mark_processed_in_transaction
mark_processed compact key token error now es =
    if lock_processing_lease key token now es
    then mark_processed_in_transaction compact key token error now es
    else (false, es)

attempt_result : Option WebhookEvent → AttemptResult
attempt_result none = lost_ownership
attempt_result (some e) = if exhausted e then gave_up else retried

unfoldable pub mark_failed :
    ℕ → ℕ → String → ℕ → List WebhookEvent → AttemptResult × List WebhookEvent
unfolding attempt_result backoff_ms
mark_failed key token error now es = (
  attempt_result (first_row (lease_held key token now) es),
  update_where (lease_held key token now)
      (λ e. failed_row error (now + backoff_ms e.attempt_count) now e) es,
)

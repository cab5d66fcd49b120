-- ===== src/Webhook/Once.antt =====
-- What src/modules/webhooks promises of every event that was received: its effects are committed once
-- or not at all, and its attempts are bounded.
use wa_runtime.Base.{
  ℕ, ◌+◌, true, false, List, [], ◌∷◌, ◌++◌, ◌≡◌, refl, inl, inr, arith, ◌==◌, All, All-append, any,
  Bool-cases,
}
use wa_runtime.Base.Backoff.{backoff_ms}
use wa_runtime.Base.Keys.{has_key, Distinct-append_one}
use wa_runtime.Message.Repository.{Store}
use wa_runtime.Webhook.Event.{
  Envelope, WebhookEvent, event_key, is_processed, insert, inserted, claim_for_processing,
  claimable, claim_row, recover_expired_processing, lease_expired, failed_row, lease_held,
  mark_failed,
}
use wa_runtime.Webhook.Processing.{Tables, runtime_event_id}
use wa_runtime.Webhook.Inbox.{
  Step, Reach, received, claimed, recovered, delivered, attempt_failed, others, here, next, Sound,
  IsSound, Recorded, claim-Sound, failed-Sound, held-processing, update-IsSound, deliver-IsSound,
}

any-has_key :
    (k : ℕ) (es : List WebhookEvent) → any (λ e. e.idempotency_key == k) es ≡ has_key event_key k es
any-has_key k [] = refl
any-has_key k (e ∷ es) = ground (arith, any-has_key k es)

has_key-append :
    (k : ℕ) (es ys : List WebhookEvent)
    → has_key event_key k es ≡ true
    → has_key event_key k (es ++ ys) ≡ true
has_key-append k [] ys h = absurd (ground arith)
has_key-append k (e ∷ es) ys h = ground (arith, has_key-append k es ys)

insert-IsSound :
    (envelope : Envelope) (now : ℕ) (t : Tables)
    → IsSound t
    → IsSound (record t { events = (insert envelope now t.events).1 })
unfolding insert
insert-IsSound envelope now t h =
    elim (Bool-cases (any (λ e. e.idempotency_key == envelope.idempotency_key) t.events)) [
      | inl b ↦ rw (b, insert) h
      | inr b ↦ rw (b, insert) (added b)
    ]
  where
    fresh :
        any (λ e. e.idempotency_key == envelope.idempotency_key) t.events ≡ false
        → has_key event_key envelope.idempotency_key t.events ≡ false
    fresh b = ground (arith, any-has_key envelope.idempotency_key t.events)

    not_stored :
        has_key event_key envelope.idempotency_key t.events ≡ false
        → has_key runtime_event_id envelope.idempotency_key t.runtime_events ≡ false
    not_stored b = ground (arith, h.known envelope.idempotency_key)

    added :
        any (λ e. e.idempotency_key == envelope.idempotency_key) t.events ≡ false
        → IsSound (record t { events = t.events ++ inserted envelope now ∷ [] })
    added b = record {
      rows = All-append Sound t.events _ h.rows (record { attempts = (refl, refl) }, tt);
      unique = Distinct-append_one event_key t.events (inserted envelope now) (fresh b) h.unique;
      recorded =
          All-append (Recorded t.runtime_events) t.events _ h.recorded (not_stored (fresh b), tt);
      known = λ k stored. has_key-append k t.events _ (h.known k stored);
    }

Step-IsSound :
    {occurred_at : Envelope → ℕ} {t u : Tables} → Step occurred_at t u → IsSound t → IsSound u
unfolding claim_for_processing recover_expired_processing mark_failed
Step-IsSound {t = t} (received envelope now) h = insert-IsSound envelope now t h
Step-IsSound {t = t} (claimed key token now) h =
    update-IsSound (claimable key now) (claim_row token now) t (λ e. refl)
      (claim-Sound key token now) (λ e sel. ground arith) h
Step-IsSound {t = t} (recovered now) h =
    update-IsSound (lease_expired now) (failed_row _ now now) t (λ e. refl)
      (λ e sel. failed-Sound "Recovered expired processing lease" now now e (ground arith))
      (λ e sel. ground arith) h
Step-IsSound {occurred_at} {t} (delivered throws compact claim now) h =
    deliver-IsSound occurred_at throws compact claim now t h
Step-IsSound {t = t} (attempt_failed key token error now) h =
    update-IsSound (lease_held key token now)
      (λ e. failed_row error (now + backoff_ms e.attempt_count) now e) t (λ e. refl)
      (λ e sel. failed-Sound error _ now e (held-processing key token now e sel))
      (λ e sel. ground arith) h
Step-IsSound (others messages) h = record {
  rows = h.rows;
  unique = h.unique;
  recorded = h.recorded;
  known = h.known;
}

abbrev pub empty : Store → Tables
empty messages = record { events = []; runtime_events = []; messages = messages }

Reach-IsSound :
    {occurred_at : Envelope → ℕ} {s t : Tables} → Reach occurred_at s t → IsSound s → IsSound t
Reach-IsSound here h = h
Reach-IsSound (next r st) h = Step-IsSound st (Reach-IsSound r h)

from_empty :
    {occurred_at : Envelope → ℕ} {messages : Store} {t : Tables}
    → Reach occurred_at (empty messages) t
    → IsSound t
from_empty r =
    Reach-IsSound r
      (record { rows = tt; unique = tt; recorded = tt; known = λ k b. absurd (ground arith) })

-- From an empty inbox, over any interleaving of receptions, claims, recoveries, deliveries and failed
-- attempts, an event's runtime event is stored exactly when the event is PROCESSED.
pub Reach-recorded :
    {occurred_at : Envelope → ℕ} {messages : Store} {t : Tables}
    → Reach occurred_at (empty messages) t
    → All
        (λ (e : WebhookEvent).
          has_key runtime_event_id e.idempotency_key t.runtime_events ≡ is_processed e.state)
        t.events
Reach-recorded r = (from_empty r).recorded

-- From an empty inbox, over any interleaving, every event is counted at most five attempts, an event
-- that waits (PENDING or RETRY) has fewer than five and so may still be claimed, DEAD means that all
-- five were used, and exactly the events in PROCESSING carry a lease token.
pub Reach-Sound :
    {occurred_at : Envelope → ℕ} {messages : Store} {t : Tables}
    → Reach occurred_at (empty messages) t
    → All Sound t.events
Reach-Sound r = (from_empty r).rows

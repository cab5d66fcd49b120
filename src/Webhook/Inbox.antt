-- ===== src/Webhook/Inbox.antt =====
-- The inbox over any interleaving of the webhook workers: src/modules/webhooks/webhook.repository.ts
-- and the transaction of webhook-processor.service.ts.
use wa_runtime.Base.{
  ℕ, ◌≤◌, ◌<◌, String, Bool, true, false, not, ◌||◌, Option, none, some, List, [], ◌∷◌, ◌++◌, ◌≡◌,
  refl, inl, inr, arith, ◌==◌, ==-eq, All, All-of, All-map, All-append, any, filter, Bool-cases,
  Option-cases, if_split, is_null,
}
use wa_runtime.Base.Sql.{update_where, row_count, first_row, All-update_where}
use wa_runtime.Base.Keys.{
  has_key, has_key-update_where, has_key-filter, Distinct, Distinct-update_where, selected_by_key,
}
use wa_runtime.Message.Repository.{Store}
use wa_runtime.Webhook.Event.{
  Envelope, WebhookEvent, ClaimedWebhook, event_key, is_processing, is_processed, ProcessingState,
  pending, processing, processed, retry, dead, insert, claim_for_processing, claimable, claim_row,
  recover_expired_processing, failed_row, lease_held, lock_processing_lease,
  mark_processed_in_transaction, processed_row, mark_failed,
}
use wa_runtime.Webhook.Processing.{
  RuntimeEvent, Tables, normalize, runtime_event_id, deliver, Delivered, store_in_transaction,
}

-- occurred_at is how the processor reads the date of an envelope.
module _ (occurred_at : Envelope → ℕ) where
  -- A worker's claim carries the payload of a row, whose key is the row's.
  pub data Step (t : Tables) : Tables → Type 0 where
    received :
        (envelope : Envelope) (now : ℕ)
        → Step t (record t { events = (insert envelope now t.events).1 })
    claimed :
        (key token now : ℕ)
        → Step t (record t { events = (claim_for_processing key token now t.events).1 })
    recovered :
        (now : ℕ) → Step t (record t { events = (recover_expired_processing now t.events).1 })
    delivered :
        (throws compact : Bool) (claim : ClaimedWebhook) (now : ℕ)
        → Step t (deliver occurred_at throws compact claim now t).1
    attempt_failed :
        (key token : ℕ) (error : String) (now : ℕ)
        → Step t (record t { events = (mark_failed key token error now t.events).1 })
    others : (messages : Store) → Step t (record t { messages = messages })

  pub data Reach (s : Tables) : Tables → Type 0 where
    here : Reach s s
    next : {t u : Tables} → Reach s t → Step t u → Reach s u

-- What holds of each row: a waiting event has an attempt left, and only a running one has a lease.
abbrev WithinAttempts : ProcessingState → ℕ → Bool → Type 0
WithinAttempts pending n free = (n ≡ 0) × (free ≡ true)
WithinAttempts processing n free = (1 ≤ n) × (n ≤ 5) × (free ≡ false)
WithinAttempts processed n free = (1 ≤ n) × (n ≤ 5) × (free ≡ true)
WithinAttempts retry n free = (1 ≤ n) × (n < 5) × (free ≡ true)
WithinAttempts dead n free = (n ≡ 5) × (free ≡ true)

pub record Sound (e : WebhookEvent) : Type 0 where
  pub attempts : WithinAttempts e.state e.attempt_count (is_null e.lease_token)

pub insert-Sound :
    (envelope : Envelope) (now : ℕ) (es : List WebhookEvent)
    → All Sound es
    → All Sound (insert envelope now es).1
unfolding insert
insert-Sound envelope now es h =
    elim (Bool-cases (any (λ e. e.idempotency_key == envelope.idempotency_key) es)) [
      | inl b ↦ rw (b, insert) h
      | inr b ↦ rw (b, insert) (All-append Sound es _ h (record { attempts = (refl, refl) }, tt))
    ]

update-Sound :
    (p : WebhookEvent → Bool) (f : WebhookEvent → WebhookEvent) (es : List WebhookEvent)
    → ((e : WebhookEvent) → p e ≡ true → Sound e → Sound (f e))
    → All Sound es
    → All Sound (update_where p f es)
update-Sound p f es keep h = All-update_where Sound p f es (All-of _ es keep) h

pub claim-Sound :
    (key token now : ℕ) (e : WebhookEvent)
    → claimable key now e ≡ true
    → Sound e
    → Sound (claim_row token now e)
claim-Sound key token now e sel h = ground arith

pub failed-Sound :
    (error : String) (again now : ℕ) (e : WebhookEvent)
    → is_processing e.state ≡ true
    → Sound e
    → Sound (failed_row error again now e)
failed-Sound error again now e run h = ground arith

pub held-processing :
    (key token now : ℕ) (e : WebhookEvent)
    → lease_held key token now e ≡ true
    → is_processing e.state ≡ true
held-processing key token now e sel = ground arith

processed-Sound :
    (compact : Bool) (error : Option String) (now : ℕ) (e : WebhookEvent)
    → is_processing e.state ≡ true
    → Sound e
    → Sound (processed_row compact error now e)
processed-Sound compact error now e run h = ground arith

-- The events that are PROCESSED are those whose runtime event is stored.
abbrev pub Recorded : List RuntimeEvent → WebhookEvent → Type 0
Recorded rs e = has_key runtime_event_id e.idempotency_key rs ≡ is_processed e.state

update-Recorded :
    (rs : List RuntimeEvent) (p : WebhookEvent → Bool) (f : WebhookEvent → WebhookEvent)
    (es : List WebhookEvent)
    → ((e : WebhookEvent) → p e ≡ true → Recorded rs e → Recorded rs (f e))
    → All (Recorded rs) es
    → All (Recorded rs) (update_where p f es)
update-Recorded rs p f es keep h = All-update_where (Recorded rs) p f es (All-of _ es keep) h

-- A lock that is held selects the one row of its key.
has_key-held :
    (key token now : ℕ) (es : List WebhookEvent)
    → (row_count (lease_held key token now) es == 1) ≡ true
    → has_key event_key key (filter (lease_held key token now) es) ≡ true
has_key-held key token now [] h = absurd (ground arith)
has_key-held key token now (e ∷ es) h = elim (Bool-cases (lease_held key token now e)) [
  | inl b ↦ ground arith
  | inr b ↦ ground (arith, has_key-held key token now es)
]

has_key-append :
    (k : ℕ) (rs : List RuntimeEvent) (r : RuntimeEvent)
    → has_key runtime_event_id k (rs ++ r ∷ []) ≡ (has_key runtime_event_id k rs || r.event_id == k)
has_key-append k [] r = ground arith
has_key-append k (x ∷ rs) r = ground (arith, has_key-append k rs r)

pub record IsSound (t : Tables) : Type 0 where
  pub rows : All Sound t.events
  pub unique : Distinct event_key t.events
  pub recorded : All (Recorded t.runtime_events) t.events
  pub known :
      (k : ℕ)
      → has_key runtime_event_id k t.runtime_events ≡ true
      → has_key event_key k t.events ≡ true

-- What the transaction stores: the event of the claim and what was there.
Stores : ℕ → List RuntimeEvent → List RuntimeEvent → Type 0
Stores k rs stored =
    (j : ℕ) → has_key runtime_event_id j stored ≡ (has_key runtime_event_id j rs || k == j)

first_row-has_key :
    (k : ℕ) (rs : List RuntimeEvent) {r : RuntimeEvent}
    → first_row (λ o. o.event_id == k) rs ≡ some r
    → has_key runtime_event_id k rs ≡ true
first_row-has_key k [] h = absurd (ground arith)
first_row-has_key k (x ∷ rs) {r} h = elim (Bool-cases (x.event_id == k)) [
  | inl b ↦ ground arith
  | inr b ↦ ground (arith, first_row-has_key k rs {r = r} (ground arith))
]

store-Stores :
    (r : RuntimeEvent) (rs : List RuntimeEvent) {stored : List RuntimeEvent}
    → store_in_transaction r rs ≡ some stored
    → Stores r.event_id rs stored
unfolding store_in_transaction Stores
store-Stores r rs {stored} h j =
    elim (Option-cases (first_row (λ o. o.event_id == r.event_id) rs)) [
      | inl e ↦ ground (arith, has_key-append j rs r)
      | inr (old, e) ↦ ground (arith, first_row-has_key r.event_id rs e, ==-eq r.event_id j)
    ]

delivered_rows :
    (compact : Bool) (k token now : ℕ) (rs stored : List RuntimeEvent) (es : List WebhookEvent)
    → Stores k rs stored
    → All (Recorded rs) es
    → All (λ e. (e.idempotency_key == k) ≡ true → lease_held k token now e ≡ true) es
    → All
        (Recorded stored)
        (update_where (lease_held k token now) (processed_row compact none now) es)
unfolding Stores
delivered_rows compact k token now rs stored [] st h held = tt
delivered_rows compact k token now rs stored (e ∷ es) st h held = (
  if_split (Recorded stored) (lease_held k token now e) (λ b. ground (arith, st e.idempotency_key))
      (λ b. ground (arith, st e.idempotency_key, held.0)),
  delivered_rows compact k token now rs stored es st h.1 held.1,
)

has_key-updated :
    (p : WebhookEvent → Bool) (f : WebhookEvent → WebhookEvent) (es : List WebhookEvent)
    (rs : List RuntimeEvent)
    → ((e : WebhookEvent) → (f e).idempotency_key ≡ e.idempotency_key)
    → ((k : ℕ) → has_key runtime_event_id k rs ≡ true → has_key event_key k es ≡ true)
    → (k : ℕ) → has_key runtime_event_id k rs ≡ true
    → has_key event_key k (update_where p f es) ≡ true
has_key-updated p f es rs same known k h =
    ground (arith, has_key-update_where event_key k p f es same, known k h)

-- An UPDATE of webhook_events that changes neither keys nor which rows are PROCESSED.
pub update-IsSound :
    (p : WebhookEvent → Bool) (f : WebhookEvent → WebhookEvent) (t : Tables)
    → ((e : WebhookEvent) → (f e).idempotency_key ≡ e.idempotency_key)
    → ((e : WebhookEvent) → p e ≡ true → Sound e → Sound (f e))
    → ((e : WebhookEvent) → p e ≡ true → is_processed (f e).state ≡ is_processed e.state)
    → IsSound t
    → IsSound (record t { events = update_where p f t.events })
update-IsSound p f t same keep final h = record {
  rows = update-Sound p f t.events keep h.rows;
  unique = Distinct-update_where event_key p f t.events same h.unique;
  recorded =
      update-Recorded t.runtime_events p f t.events (λ e sel k. ground (arith, same e, final e sel))
        h.recorded;
  known = has_key-updated p f t.events t.runtime_events same h.known;
}

pub deliver-IsSound :
    (occurred_at : Envelope → ℕ) (throws compact : Bool) (claim : ClaimedWebhook) (now : ℕ)
    (t : Tables)
    → IsSound t
    → IsSound (deliver occurred_at throws compact claim now t).1
unfolding deliver lock_processing_lease mark_processed_in_transaction Stores
deliver-IsSound occurred_at throws compact claim now t h =
    if_split Kept (lock_processing_lease k claim.token now t.events)
      (λ locked. elim (Option-cases (store_in_transaction r t.runtime_events)) [
        | inl e ↦ rw (e, deliver) h
        | inr (stored, e) ↦
            rw (e, deliver)
              (if_split Kept
                (throws || not (row_count (lease_held k claim.token now) t.events == 1)) (λ b. h)
                (λ b. committed stored e locked))
      ])
      (λ b. h)
  where
    k : ℕ
    k = claim.envelope.idempotency_key

    r : RuntimeEvent
    r = normalize occurred_at claim.envelope

    Kept : Delivered × Tables → Type 0
    Kept d = IsSound d.1

    committed :
        {messages : Store} (stored : List RuntimeEvent)
        → store_in_transaction r t.runtime_events ≡ some stored
        → (row_count (lease_held k claim.token now) t.events == 1) ≡ true
        → IsSound (record {
          events =
              update_where (lease_held k claim.token now) (processed_row compact none now) t.events;
          runtime_events = stored;
          messages = messages;
        })
    committed stored e locked =
        let held = has_key-held k claim.token now t.events locked in
        record {
          rows =
              update-Sound (lease_held k claim.token now) (processed_row compact none now) t.events
                (λ x sel.
                  processed-Sound compact none now x (held-processing k claim.token now x sel))
                h.rows;
          unique =
              Distinct-update_where event_key (lease_held k claim.token now)
                (processed_row compact none now) t.events (λ x. refl) h.unique;
          recorded =
              delivered_rows compact k claim.token now t.runtime_events stored t.events
                (store-Stores r t.runtime_events e) h.recorded
                (All-map _ _ t.events
                  (λ x f same. f (ground (arith, held, ==-eq x.idempotency_key k same)))
                  (selected_by_key event_key (lease_held k claim.token now) t.events h.unique));
          known = λ j b. ground (
            arith,
            store-Stores r t.runtime_events e j,
            h.known j,
            held,
            ==-eq k j,
            has_key-filter event_key k (lease_held k claim.token now) t.events held,
            has_key-update_where event_key j (lease_held k claim.token now)
                (processed_row compact none now) t.events (λ x. refl),
          );
        }

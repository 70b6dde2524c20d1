-- ===== src/UseCase/IngestWebhook.antt =====
-- `IngestWebhook` of application/use_cases/ingest_webhook.py, with the inserts of
-- infrastructure/persistence/repositories/payments.py that it uses. Verification by the provider's
-- adapter, `json.loads` and the queue are arguments.
pub mod Again
pub mod Others
use project_vpn.Common.{
  ℕ, ◌+◌, ◌==◌, Bool, true, false, not, ◌&&◌, ◌||◌, Option, none, some, List, [], ◌∷◌, ◌++◌,
  if◌then◌else◌, Text, text_eq, same_text, is_missing, codes, ℤ, Instant,
}
use project_vpn.Common.Json.{Payload, Json, object, Fields, end, field}
use project_vpn.Errors.{Error, Result, ok, err, runtime, webhook_payload, raise_if, ◌>>◌, ◌>>=◌}
use project_vpn.Payment.Status.{PaymentStatus, EventStatus}
use project_vpn.Payment.Attempt.{PaymentAttempt}
use project_vpn.Payment.Event.{PaymentEvent, normalized_currency}
use project_vpn.UseCase.Rows.{Store}

pub record InboxRow : Type 0 where
  pub webhook_inbox_id : ℕ
  pub provider : Text
  pub event_key : Text
  pub headers : List (Text × Text)
  pub payload : Payload
  pub status : Text
  pub error_message : Option Text
  pub processed_at : Option Instant

-- The database with its inbox, what new rows need, and whether the events have the unique index
-- `uq_payment_events_event_key` of tables.py: the migration 20260906_0009 drops it.
pub record Gate : Type 0 where
  pub store : Store
  pub inbox : List InboxRow
  pub next_inbox_id : ℕ
  pub next_event_id : ℕ
  pub unique_event_keys : Bool

-- `NormalizedWebhookEvent`
pub record Normalized : Type 0 where
  pub event_key : Text
  pub event_type : Text
  pub status : Option PaymentStatus
  pub occurred_at : Instant
  pub provider_payment_id : Option Text
  pub payment_order_id : Option ℕ
  pub amount_minor : Option ℤ
  pub currency : Option Text
  pub payload : Payload

pub record Delivery : Type 0 where
  pub provider : Text
  pub headers : List (Text × Text)
  pub verified : Result Normalized
  pub parsed : Option Json

abbrev pub fields : Fields → Payload
fields end = []
fields (field k v rest) = (k, v) ∷ fields rest

-- `_parse_raw_payload`; `none` stands for a body that is not JSON.
unfoldable pub parse_raw_payload : Option Json → Result Payload
parse_raw_payload none = err (webhook_payload "Webhook payload is invalid JSON")
parse_raw_payload (some (object fs)) = ok (fields fs)
parse_raw_payload (some _) = err (webhook_payload "Webhook payload must be a JSON object")

unfoldable pub inbox_by_key : Text → Text → List InboxRow → Option InboxRow
inbox_by_key provider key [] = none
inbox_by_key provider key (x ∷ xs) =
    let rest = inbox_by_key provider key xs in
    if text_eq x.provider provider && text_eq x.event_key key then some x else rest

abbrev pub inbox_row : ℕ → Text → Text → List (Text × Text) → Payload → InboxRow
inbox_row id provider key headers payload = record {
  webhook_inbox_id = id;
  provider = provider;
  event_key = key;
  headers = headers;
  payload = payload;
  status = codes "received";
  error_message = none;
  processed_at = none;
}

-- `save_webhook_inbox`: ON CONFLICT (provider, event_key) DO NOTHING, and then the row that is there
unfoldable pub save_inbox : Gate → Text → Text → List (Text × Text) → Payload → Gate × Bool × ℕ
unfolding inbox_by_key
save_inbox st provider key headers payload = elim (inbox_by_key provider key st.inbox) [
  | some row ↦ (st, false, row.webhook_inbox_id)
  | none ↦ (
    record st {
      inbox = st.inbox ++ (inbox_row st.next_inbox_id provider key headers payload ∷ []);
      next_inbox_id = st.next_inbox_id + 1;
    },
    true,
    st.next_inbox_id,
  )
]

-- `mark_webhook_inbox_status` with "processed"
unfoldable pub mark_processed : ℕ → Instant → List InboxRow → List InboxRow
mark_processed id now [] = []
mark_processed id now (x ∷ xs) =
    (if x.webhook_inbox_id == id
      then record x { status = codes "processed"; error_message = none; processed_at = some now }
      else x)
    ∷ mark_processed id now xs

-- `get_attempt_entity_by_provider_payment_id`
unfoldable pub attempt_by_reference : Text → Text → List PaymentAttempt → Option PaymentAttempt
attempt_by_reference provider reference [] = none
attempt_by_reference provider reference (a ∷ rest) =
    let others = attempt_by_reference provider reference rest in
    if text_eq a.provider provider && same_text a.provider_payment_id (some reference)
    then some a
    else others

-- The attempt that the event names, if it names one
unfoldable pub attempt_of : Text → Option Text → List PaymentAttempt → Option PaymentAttempt
unfolding attempt_by_reference
attempt_of provider none attempts = none
attempt_of provider (some reference) attempts =
    if is_missing (some reference) then none else attempt_by_reference provider reference attempts

unfoldable pub event_by_key : Text → Text → List PaymentEvent → Option PaymentEvent
event_by_key provider key [] = none
event_by_key provider key (x ∷ xs) =
    let rest = event_by_key provider key xs in
    if text_eq x.provider provider && text_eq x.event_key key then some x else rest

abbrev order_named : Option PaymentAttempt → Option ℕ
order_named none = none
order_named (some a) = some a.payment_order_id

abbrev id_named : Option PaymentAttempt → Option ℕ
id_named none = none
id_named (some a) = a.id

-- The row that `execute` hands to `create_payment_event`
unfoldable pub event_row : Gate → Text → Normalized → Instant → PaymentEvent
unfolding attempt_of normalized_currency
event_row st provider n received_at =
    let attempt = attempt_of provider n.provider_payment_id st.store.attempts in
    record {
      id = some st.next_event_id;
      payment_order_id = order_named attempt;
      payment_attempt_id = id_named attempt;
      provider = provider;
      event_type = n.event_type;
      event_key = n.event_key;
      status = EventStatus.received;
      payload = n.payload;
      occurred_at = n.occurred_at;
      provider_payment_id = n.provider_payment_id;
      reported_payment_order_id = n.payment_order_id;
      payment_status = n.status;
      amount_minor = n.amount_minor;
      currency = normalized_currency n.currency;
      received_at = some received_at;
      processed_at = none;
      error_message = none;
    }

unfoldable pub is_key_used : Text → List PaymentEvent → Bool
is_key_used key [] = false
is_key_used key (x ∷ xs) = text_eq x.event_key key || is_key_used key xs

-- `create_payment_event`: ON CONFLICT (provider, event_key) DO NOTHING, and then the row that is
-- there. A key that another provider uses breaks the index on the key alone, where it is there: that
-- conflict is not the one named, so that the insert raises and nothing is looked up by the key.
unfoldable pub create_event : Gate → PaymentEvent → Result (Gate × PaymentEvent)
unfolding event_by_key is_key_used
create_event st event = elim (event_by_key event.provider event.event_key st.store.events) [
  | some existing ↦ ok (st, existing)
  | none ↦ do
    raise_if (st.unique_event_keys && is_key_used event.event_key st.store.events)
        (runtime "uq_payment_events_event_key")
    ok (
      record st {
        store = record st.store { events = st.store.events ++ (event ∷ []) };
        next_event_id = st.next_event_id + 1;
      },
      event,
    )
]

pub record Answer : Type 0 where
  pub duplicate : Bool
  pub event_key : Text
  pub payment_event_id : ℕ

-- The transaction of `execute`
unfoldable pub record_event :
    Gate → Text → List (Text × Text) → Normalized → Payload → Instant → Result (Gate × Answer)
unfolding save_inbox event_row create_event mark_processed
record_event st provider headers n payload now =
    let (noted, inserted, inbox_id) = save_inbox st provider n.event_key headers payload in
    create_event noted (event_row noted provider n now) >>= λ made. elim made.1.id [
      | none ↦ err (runtime "payment_event_id")
      | some id ↦ ok (
        record made.0 { inbox = mark_processed inbox_id now made.0.inbox },
        record { duplicate = not inserted; event_key = n.event_key; payment_event_id = id },
      )
    ]

-- `enqueue` and the answer, once the transaction has committed
unfoldable pub enqueued :
    Gate → (ℕ → Result (Unit {0})) → Result (Gate × Answer) → Gate × Result Answer
enqueued st queue (err e) = (st, err e)
enqueued st queue (ok (st', a)) = (st', queue a.payment_event_id >>= λ done. ok a)

-- `execute`
unfoldable pub ingest : Gate → (ℕ → Result (Unit {0})) → Delivery → Instant → Gate × Result Answer
unfolding parse_raw_payload record_event enqueued
ingest st queue d now = enqueued st queue (do
  n ← d.verified
  payload ← parse_raw_payload d.parsed
  record_event st d.provider d.headers n payload now)

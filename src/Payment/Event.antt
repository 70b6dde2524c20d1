-- ===== src/Payment/Event.antt =====
-- `PaymentEvent` of domain/entities/payment.py, and the status that its payload and type suggest.
pub mod Inference
use project_vpn.Common.{
  ℕ, ◌≡◌, Bool, true, false, ◌||◌, Option, none, some, List, [], ◌∷◌, if◌then◌else◌, Text, codes,
  strip, upper, lower, is_blank, contains, text_eq, is_some, or_else, ℤ, Instant,
}
use project_vpn.Common.Json.{Payload, Json, str, get, or_get}
use project_vpn.Payment.Status.{PaymentStatus, EventStatus}

pub record PaymentEvent : Type 0 where
  pub id : Option ℕ
  pub payment_order_id : Option ℕ
  pub payment_attempt_id : Option ℕ
  pub provider : Text
  pub event_type : Text
  pub event_key : Text
  pub status : EventStatus
  pub payload : Payload
  pub occurred_at : Instant
  pub provider_payment_id : Option Text
  pub reported_payment_order_id : Option ℕ
  pub payment_status : Option PaymentStatus
  pub amount_minor : Option ℤ
  pub currency : Option Text
  pub received_at : Option Instant
  pub processed_at : Option Instant
  pub error_message : Option Text

-- The currency of an event: stripped, in upper case, and absent if that is blank.
unfoldable pub normalized_currency : Option Text → Option Text
normalized_currency none = none
normalized_currency (some c) =
    let normalized = upper (strip c) in if is_blank normalized then none else some normalized

-- `__post_init__`
unfoldable pub post_init : PaymentEvent → PaymentEvent
unfolding normalized_currency
post_init self = record self { currency = normalized_currency self.currency }

unfoldable pub lookup : Text → List (Text × PaymentStatus) → Option PaymentStatus
lookup key [] = none
lookup key ((k, s) ∷ rest) = if text_eq k key then some s else lookup key rest

abbrev pub aliases : List (Text × PaymentStatus)
aliases =
    (codes "paid", PaymentStatus.paid)
    ∷ (codes "succeeded", PaymentStatus.paid)
    ∷ (codes "success", PaymentStatus.paid)
    ∷ (codes "completed", PaymentStatus.paid)
    ∷ (codes "failed", PaymentStatus.failed)
    ∷ (codes "error", PaymentStatus.failed)
    ∷ (codes "expired", PaymentStatus.expired)
    ∷ (codes "cancelled", PaymentStatus.cancelled)
    ∷ (codes "canceled", PaymentStatus.cancelled)
    ∷ []

-- The alias that the payload's status names, if that is a text.
unfoldable pub status_alias : Option Json → Option PaymentStatus
unfolding lookup
status_alias (some (str raw)) = lookup (lower raw) aliases
status_alias _ = none

-- What the event's type suggests.
pub status_of_type : Text → PaymentStatus
status_of_type event_type =
    let lowered_type = lower event_type in
    if contains (codes "paid") lowered_type
      || contains (codes "succeeded") lowered_type
      || contains (codes "completed") lowered_type
    then PaymentStatus.paid
    else if contains (codes "cancel") lowered_type
    then PaymentStatus.cancelled
    else if contains (codes "expire") lowered_type
    then PaymentStatus.expired
    else if contains (codes "fail") lowered_type || contains (codes "error") lowered_type
    then PaymentStatus.failed
    else PaymentStatus.pending

abbrev pub raw_status : Payload → Option Json
raw_status payload =
    or_get (or_get (get (codes "status") payload) (get (codes "payment_status") payload))
      (get (codes "state") payload)

-- The alias, if there is one, goes before the type.
abbrev pub or_type : Option PaymentStatus → Text → PaymentStatus
or_type (some s) event_type = s
or_type none event_type = status_of_type event_type

unfoldable pub infer_payment_status : Text → Payload → PaymentStatus
unfolding status_alias status_of_type
infer_payment_status event_type payload = or_type (status_alias (raw_status payload)) event_type

unfoldable pub normalized_payment_status : PaymentEvent → PaymentStatus
unfolding infer_payment_status
normalized_payment_status self = elim self.payment_status [
  | some s ↦ s
  | none ↦ infer_payment_status self.event_type self.payload
]

unfoldable pub mark_processed : PaymentEvent → Instant → PaymentEvent
mark_processed self now = record self {
  status = EventStatus.processed;
  processed_at = some now;
  error_message = none;
}

unfoldable pub ignore : PaymentEvent → Instant → Option Text → PaymentEvent
ignore self now error = record self {
  status = EventStatus.ignored;
  processed_at = some now;
  error_message = or_else error self.error_message;
}

unfoldable pub fail : PaymentEvent → Instant → Text → PaymentEvent
fail self now error = record self {
  status = EventStatus.failed;
  processed_at = some now;
  error_message = some error;
}

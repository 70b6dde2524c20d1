-- ===== src/Tests/Payments.antt =====
-- An order, an attempt and events of domain/entities/payment.py.
use project_vpn.Common.{
  ◌≤◌, ◌≡◌, refl, true, none, some, List, [], ◌∷◌, ◌++◌, ◌↔◌, pos, codes, Instant,
}
use project_vpn.Common.Json.{Payload}
use project_vpn.Errors.{ok}
use project_vpn.Payment.Status.{PaymentStatus, EventStatus, is_paid, rank}
use project_vpn.Payment.Money.{Money}
use project_vpn.Payment.Order.{PaymentOrder}
use project_vpn.Payment.Order.Lifecycle.{receive, grants, grants_exact}
use project_vpn.Payment.Attempt.{PaymentAttempt, claim_creation}
use project_vpn.Payment.Attempt.Delivery.{deliver, final_of, deliver_outcome}
use project_vpn.Payment.Event.{PaymentEvent, infer_payment_status, raw_status, status_alias}
use project_vpn.Payment.Event.Inference.{unpaid_means_paid}
use project_vpn.Payment.Settlement.{Settles, validate_paid_settlement, settlement_exact}

abbrev pub price : Money
price = record { minor = 49900; currency = codes "RUB" }

abbrev pub open_order : PaymentOrder
open_order = record {
  id = some 7;
  user_id = 1;
  tariff_id = 2;
  provider = codes "yookassa";
  status = PaymentStatus.pending;
  amount = price;
  requested_period_days = 30;
  idempotency_key = codes "order-7";
  metadata = [];
  created_at = some 1000;
  updated_at = none;
  paid_at = none;
}

abbrev pub paid_order : PaymentOrder
paid_order = record open_order {
  status = PaymentStatus.paid;
  paid_at = some 2000;
  updated_at = some 2000;
}

abbrev pub open_attempt : PaymentAttempt
open_attempt = record {
  id = some 70;
  payment_order_id = 7;
  provider = codes "yookassa";
  status = PaymentStatus.pending;
  provider_payment_id = some (codes "pay-1");
  payment_url = none;
  payload = [];
  created_at = some 1000;
  updated_at = none;
  creation_claimed_at = none;
  creation_lease_expires_at = none;
  creation_lease_token = none;
}

abbrev pub fresh_attempt : PaymentAttempt
fresh_attempt = record open_attempt { status = PaymentStatus.created; provider_payment_id = none }

abbrev pub paid_event : PaymentEvent
paid_event = record {
  id = some 5;
  payment_order_id = some 7;
  payment_attempt_id = some 70;
  provider = codes "yookassa";
  event_type = codes "payment.succeeded";
  event_key = codes "evt-5";
  status = EventStatus.received;
  payload = [];
  occurred_at = 1500;
  provider_payment_id = some (codes "pay-1");
  reported_payment_order_id = none;
  payment_status = some PaymentStatus.paid;
  amount_minor = some (pos 49900);
  currency = some (codes "RUB");
  received_at = none;
  processed_at = none;
  error_message = none;
}

-- A status that is too early, one that fails the order, a payment that repeats, and a late failure.
abbrev arrivals : List (PaymentStatus × Instant)
arrivals =
    (PaymentStatus.authorized, 1100)
    ∷ (PaymentStatus.failed, 1200)
    ∷ (PaymentStatus.paid, 1300)
    ∷ (PaymentStatus.paid, 1400)
    ∷ (PaymentStatus.expired, 1500)
    ∷ []

grants_exact_example :
    (grants open_order arrivals ≡ 1) × (is_paid (receive open_order arrivals).status ≡ true)
grants_exact_example = grants_exact open_order arrivals

settlement_exact_example :
    (validate_paid_settlement paid_event (some open_attempt) open_order ≡ ok tt)
    ↔ ((a : PaymentAttempt) × (some open_attempt ≡ some a) × Settles paid_event a open_order)
settlement_exact_example = settlement_exact paid_event (some open_attempt) open_order

claimed :
    claim_creation fresh_attempt 1000 6000 42
    ≡ ok (record fresh_attempt {
      creation_claimed_at = some 1000;
      creation_lease_expires_at = some 6000;
      creation_lease_token = some 42;
      updated_at = some 1000;
    })
unfolding claim_creation
claimed = refl

abbrev updates : List (PaymentStatus × Payload)
updates =
    (PaymentStatus.authorized, [])
    ∷ (PaymentStatus.pending, [])
    ∷ (PaymentStatus.paid, [])
    ∷ (PaymentStatus.failed, [])
    ∷ []

deliver_outcome_example :
    (final_of (deliver open_attempt updates).status ≡ some PaymentStatus.paid)
    × (rank PaymentStatus.pending ≤ rank (deliver open_attempt updates).status)
deliver_outcome_example = deliver_outcome open_attempt updates refl

no_status : status_alias (raw_status []) ≡ none
unfolding status_alias
no_status = refl

unpaid_means_paid_example :
    infer_payment_status (codes "invoice_" ++ (codes "unpaid" ++ [])) [] ≡ PaymentStatus.paid
unpaid_means_paid_example = unpaid_means_paid (codes "invoice_") [] [] no_status

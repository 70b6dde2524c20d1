-- ===== src/Tests/Checkout.antt =====
-- A payment that is requested twice, with application/use_cases/create_payment.py.
use project_vpn.Common.{
  List, map, Text, ◌≡◌, refl, true, false, none, some, [], ◌∷◌, arith, codes, strip,
}
use project_vpn.Errors.{Result, ok, err, runtime}
use project_vpn.UseCase.Rows.{by_id, is_reference_used}
use project_vpn.UseCase.Catalog.{Tariff}
use project_vpn.UseCase.CreatePayment.{
  Shop, Request, PreparedOrder, existing_attempt, prepare_order,
}
use project_vpn.UseCase.CreatePayment.Retry.{payment_requested_again}
use project_vpn.Common.Json.{object, end}
use project_vpn.Payment.Status.{PaymentStatus, EventStatus}
use project_vpn.Payment.Attempt.{PaymentAttempt}
use project_vpn.Payment.Event.{PaymentEvent}
use project_vpn.UseCase.CreatePayment.Invoice.{Intent, Provider, response_of, create_payment}
use project_vpn.UseCase.CreatePayment.Outcome.{referenced, invoice_made, invoice_refused}
use project_vpn.UseCase.IngestWebhook.{
  Gate, Normalized, Delivery, Answer, event_by_key, record_event, ingest,
}
use project_vpn.UseCase.IngestWebhook.Others.{ingest-KeepsRows}
use project_vpn.UseCase.IngestWebhook.Again.{KeepsRows, IsRecorded, webhook_again}
use project_vpn.Tests.Payments.{open_order, open_attempt}
use project_vpn.Tests.Settlements.{before}

abbrev monthly : Tariff
monthly = record {
  id = some 2;
  name = codes "Month";
  price = record { minor = 49900; currency = codes "RUB" };
  period_days = 30;
  description = none;
  is_enabled = true;
}

-- Another order has an attempt already.
abbrev shop : Shop
shop = record { store = before; tariffs = monthly ∷ []; next_order_id = 8; next_attempt_id = 71 }

abbrev request : Request
request = record {
  user_id = 1;
  tariff_id = 2;
  provider = codes "yookassa";
  idempotency_key = codes "click-2";
  metadata = [];
}

abbrev fallback : Shop × PreparedOrder
fallback = (
  shop,
  record {
    order = open_order;
    tariff_name = [];
    attempt = open_attempt;
    owns_creation_claim = true;
    creation_lease_token = none;
  },
)

abbrev outcome_of : Result (Shop × PreparedOrder) → Shop × PreparedOrder
outcome_of (ok r) = r
outcome_of (err e) = fallback

abbrev first : Shop × PreparedOrder
unfolding prepare_order strip
first = outcome_of (prepare_order shop request 30 5000 42)

first_claims : prepare_order shop request 30 5000 42 ≡ ok first
unfolding prepare_order strip
first_claims = refl

first_owns : first.1.owns_creation_claim ≡ true
unfolding prepare_order strip
first_owns = refl

payment_requested_again_example :
    prepare_order first.0 request 30 9000 43
    ≡ ok (first.0, existing_attempt first.1.order first.1.tariff_name first.1.attempt)
payment_requested_again_example =
    payment_requested_again shop first.0 request 30 5000 42 9000 43 first.1
      (record { made = omega arith; numbered = omega arith }, tt) first_claims first_owns
      (omega arith)

abbrev link : Intent
link = record {
  status = PaymentStatus.pending;
  status_text = codes "pending";
  provider_payment_id = codes "pay-2";
  payment_url = some (codes "https://pay");
  payload = [];
}

abbrev answering : Provider
answering = record {
  prepared_at = 5000;
  finalized_at = 6000;
  token = 42;
  gateway = λ name. ok (λ order. ok link);
  meanwhile = λ st. st;
}

first_row : by_id (λ (x : PaymentAttempt). x.id) 71 first.0.store.attempts ≡ some first.1.attempt
unfolding prepare_order strip by_id
first_row = refl

first_free : is_reference_used (referenced first.1.attempt link) first.0.store.attempts ≡ false
unfolding prepare_order strip is_reference_used
first_free = refl

invoice_made_example :
    let after = create_payment answering shop request 30 in
    (a : PaymentAttempt) × (by_id (λ (x : PaymentAttempt). x.id) 71 after.0.store.attempts ≡ some a)
    × (after.1 ≡ ok (response_of first.1.order first.1.tariff_name a))
    × (a.status ≡ PaymentStatus.pending)
    × (a.provider_payment_id ≡ some (codes "pay-2"))
    × (a.payment_url ≡ some (codes "https://pay"))
    × (a.creation_lease_token ≡ none)
invoice_made_example =
    invoice_made answering shop first.0 request 30 71 first.1 (λ order. ok link) link
      (record { made = omega arith; numbered = omega arith }, tt) first_claims first_owns first_row
      refl refl refl first_free

abbrev raising : Provider
raising = record answering { gateway = λ name. ok (λ order. err (runtime "provider is down")) }

invoice_refused_example :
    let after = create_payment raising shop request 30 in
    (after.1 ≡ err (runtime "provider is down"))
    × ((a : PaymentAttempt) × (by_id (λ (x : PaymentAttempt). x.id) 71 after.0.store.attempts
          ≡ some a)
        × (a.status ≡ PaymentStatus.failed)
        × (a.creation_lease_token ≡ none)
        × (a.provider_payment_id ≡ first.1.attempt.provider_payment_id))
invoice_refused_example =
    invoice_refused raising shop first.0 request 30 71 first.1
      (λ order. err (runtime "provider is down")) (runtime "provider is down")
      (record { made = omega arith; numbered = omega arith }, tt) first_claims first_owns first_row
      refl refl

abbrev gate : Gate
gate = record {
  store = before;
  inbox = [];
  next_inbox_id = 1;
  next_event_id = 6;
  unique_event_keys = false;
}

abbrev reported : Normalized
reported = record {
  event_key = codes "evt-9";
  event_type = codes "payment.succeeded";
  status = none;
  occurred_at = 1500;
  provider_payment_id = some (codes "pay-1");
  payment_order_id = none;
  amount_minor = none;
  currency = some (codes "rub");
  payload = [];
}

abbrev delivery : Delivery
delivery = record {
  provider = codes "yookassa";
  headers = [];
  verified = ok reported;
  parsed = some (object end);
}

abbrev gate_after : Gate
unfolding ingest
gate_after = (ingest gate (λ id. err (runtime "queue is down")) delivery 2000).0

abbrev first_answer : Answer
first_answer = record { duplicate = false; event_key = codes "evt-9"; payment_event_id = 6 }

gate_records :
    record_event gate (codes "yookassa") [] reported [] 2000 ≡ ok (gate_after, first_answer)
unfolding ingest
gate_records = refl

-- The worker has processed every event meanwhile.
abbrev settled_event : PaymentEvent → PaymentEvent
settled_event e = record e { status = EventStatus.processed; processed_at = some 2500 }

abbrev settled : Gate → Gate
settled g = record g { store = record g.store { events = map settled_event g.store.events } }

settled_found :
    (p k : Text) (e : PaymentEvent) (l : List PaymentEvent)
    → event_by_key p k l ≡ some e
    → event_by_key p k (map settled_event l) ≡ some (settled_event e)
unfolding event_by_key
settled_found p k e [] h = absurd (ground arith)
settled_found p k e (x ∷ l) h = ground (arith, settled_found p k e l)

-- Another event of the provider, whose delivery comes in between.
abbrev refund : Delivery
refund = record delivery { verified = ok (record reported { event_key = codes "evt-10" }) }

abbrev meanwhile : Gate → Gate
meanwhile g = settled (ingest g (λ id. ok tt) refund 2200).0

settled_keeps : KeepsRows settled
settled_keeps g p k id v = record {
  row = v.row;
  event = settled_event v.event;
  in_inbox = v.in_inbox;
  in_events = settled_found p k v.event g.store.events v.in_events;
  event_id = v.event_id;
}

meanwhile_keeps : KeepsRows meanwhile
meanwhile_keeps g p k id v =
    settled_keeps (ingest g (λ id. ok tt) refund 2200).0 p k id
      (ingest-KeepsRows (λ id. ok tt) refund 2200 g p k id v)

webhook_again_example :
    let first = ingest gate (λ id. err (runtime "queue is down")) delivery 2000 in
    let again = ingest (meanwhile first.0) (λ id. ok tt) delivery 3000 in
    (again.0.store ≡ (meanwhile first.0).store)
    × (again.1 ≡ ok (record { duplicate = true; event_key = codes "evt-9"; payment_event_id = 6 }))
    × IsRecorded again.0 (codes "yookassa") (codes "evt-9") 6
webhook_again_example =
    webhook_again gate gate_after meanwhile (λ id. err (runtime "queue is down")) (λ id. ok tt)
      delivery delivery 2000 3000 reported reported end end first_answer refl refl gate_records
      meanwhile_keeps refl refl refl refl

-- ===== src/UseCase/Reply.antt =====
-- What a run of `ProcessPayment` answers, and the helpers of its paths
-- (application/use_cases/process_payment.py).
use project_vpn.Common.{ℕ, Option, none, some, Text, codes, strip, upper, ℤ, Instant}
use project_vpn.Errors.{runtime, Result, ok, err, ◌>>=◌}
use project_vpn.Payment.Status.{PaymentStatus, EventStatus}
use project_vpn.Payment.Order.{PaymentOrder}
use project_vpn.Payment.Attempt.{PaymentAttempt}
use project_vpn.Payment.Event
use project_vpn.Payment.Event.{PaymentEvent, normalized_payment_status, mark_processed, ignore}
use project_vpn.UseCase.Rows.{Store, Transaction, save_event}

pub data Outcome : Type 0 where
  missing rejected ignored : Outcome
  settled : EventStatus → Outcome
  processed : Option ℕ → Outcome

pub data Job : Type 0 where
  no_job : Job
  provision_subscription revoke_configuration : ℕ → Job

-- What a run leaves, answers and enqueues.
pub record Reply : Type 0 where
  pub store : Store
  pub outcome : Outcome
  pub job : Job

abbrev pub reply : Outcome → Job → Store → Result Reply
reply outcome job st = ok (record { store = st; outcome = outcome; job = job })

-- `str(status)`
abbrev pub status_text : PaymentStatus → Text
status_text PaymentStatus.created = codes "created"
status_text PaymentStatus.pending = codes "pending"
status_text PaymentStatus.authorized = codes "authorized"
status_text PaymentStatus.paid = codes "paid"
status_text PaymentStatus.failed = codes "failed"
status_text PaymentStatus.expired = codes "expired"
status_text PaymentStatus.cancelled = codes "cancelled"

unfoldable pub ignore_event : Store → PaymentEvent → Instant → Result Reply
unfolding save_event ignore
ignore_event st event now = save_event st (ignore event now none) >>= reply ignored no_job

unfoldable pub reject_paid_event : Store → PaymentEvent → Instant → Text → Result Reply
unfolding save_event Event.fail
reject_paid_event st event now reason =
    save_event st (Event.fail event now reason) >>= reply rejected no_job

-- A stale status: the event is ignored with that message.
unfoldable pub ignore_stale : Store → PaymentEvent → Instant → Text → Result Store
unfolding save_event ignore
ignore_stale st event now message = save_event st (ignore event now (some message))

-- `int(order.id)`
abbrev pub order_number : PaymentOrder → Result ℕ
order_number order = elim order.id [
  | none ↦ err (runtime "int() argument must be a number, not 'NoneType'")
  | some id ↦ ok id
]

abbrev pub transaction_of : PaymentEvent → ℕ → PaymentAttempt → ℤ → Text → Text → Text → Transaction
transaction_of event order_id attempt amount currency kind status = record {
  payment_order_id = order_id;
  payment_attempt_id = attempt.id;
  provider = event.provider;
  transaction_type = kind;
  provider_transaction_key = event.event_key;
  transaction_status = status;
  amount_minor = amount;
  currency = upper (strip currency);
  payload = event.payload;
}

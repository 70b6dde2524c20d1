-- ===== src/UseCase/ProcessPayment.antt =====
-- `ProcessPayment` of application/use_cases/process_payment.py. A run is one transaction of the
-- database: what raises writes nothing. The jobs are those enqueued after the commit.
pub mod Paths
use project_vpn.Common.{
  ℕ, Bool, true, false, ◌||◌, Option, none, some, if◌then◌else◌, codes, text_eq, Instant,
}
use project_vpn.Errors.{Result, ◌>>=◌}
use project_vpn.Payment.Status.{PaymentStatus, EventStatus, is, is_paid}
use project_vpn.Payment.Order.{PaymentOrder}
use project_vpn.Payment.Attempt.{PaymentAttempt}
use project_vpn.Payment.Event.{PaymentEvent, normalized_payment_status, ignore}
use project_vpn.UseCase.Rows.{Store, by_id, save_event, latest_attempt}
use project_vpn.UseCase.Reply.{
  ignore_event, reject_paid_event, reply, Reply, no_job, missing, settled, processed,
}
use project_vpn.UseCase.Paid.{process_paid}
use project_vpn.UseCase.Unsuccessful.{process_unsuccessful}
use project_vpn.UseCase.Refund.{process_refund}

-- `_resolve_paid_context` and what follows it; the second read of the attempt, under the order's
-- lock, sees the same transaction.
unfoldable pub run_paid : Store → PaymentEvent → Instant → Result Reply
unfolding reject_paid_event by_id process_paid
run_paid st event now = elim event.payment_attempt_id [
  | none ↦ reject_paid_event st event now (codes "paid event has no exact payment attempt")
  | some attempt_id ↦ elim (by_id (λ x. x.id) attempt_id st.attempts) [
    | none ↦ reject_paid_event st event now (codes "exact payment attempt is missing")
    | some attempt ↦ elim (by_id (λ x. x.id) attempt.payment_order_id st.orders) [
      | none ↦ reject_paid_event st event now (codes "payment order is missing")
      | some order ↦ process_paid st event order (some attempt) now
    ]
  ]
]

-- The attempt that an event names
abbrev pub named_attempt : Store → PaymentEvent → Option PaymentAttempt
named_attempt st event = elim event.payment_attempt_id [
  | none ↦ none
  | some id ↦ by_id (λ x. x.id) id st.attempts
]

abbrev pub order_of_attempt : Option PaymentAttempt → Option ℕ
order_of_attempt none = none
order_of_attempt (some attempt) = some attempt.payment_order_id

-- `_resolve_order_reference`
abbrev pub resolve_order_reference : Store → PaymentEvent → Option ℕ
resolve_order_reference st event = elim event.payment_order_id [
  | none ↦ order_of_attempt (named_attempt st event)
  | some id ↦ some id
]

abbrev pub attempt_or_latest : Store → ℕ → Option PaymentAttempt → Option PaymentAttempt
attempt_or_latest st order_id none = latest_attempt order_id st.attempts
attempt_or_latest st order_id (some attempt) = some attempt

-- The three branches of `execute` on a status that is not PAID
unfoldable pub run_status :
    Store
    → PaymentEvent
    → PaymentOrder
    → Option PaymentAttempt
    → PaymentStatus
    → Instant
    → Result Reply
unfolding process_unsuccessful save_event ignore
run_status st event order attempt status now =
    if is status PaymentStatus.failed
      || is status PaymentStatus.expired
      || is status PaymentStatus.cancelled
    then process_unsuccessful st event order attempt status now
    else (save_event st (ignore event now none) >>= reply (processed none) no_job)

-- The rest of `_resolve_context`, for a status that is not PAID
unfoldable pub run_unpaid : Store → PaymentEvent → PaymentStatus → Instant → Result Reply
unfolding ignore_event by_id latest_attempt run_status
run_unpaid st event status now = elim (resolve_order_reference st event) [
  | none ↦ ignore_event st event now
  | some order_id ↦ elim (by_id (λ x. x.id) order_id st.orders) [
    | none ↦ ignore_event st event now
    | some order ↦
        run_status st event order (attempt_or_latest st order_id (named_attempt st event)) status
          now
  ]
]

-- `status in {PROCESSED, IGNORED}`
abbrev pub is_settled : EventStatus → Bool
is_settled EventStatus.processed = true
is_settled EventStatus.ignored = true
is_settled _ = false

-- `execute` for the event that was found
unfoldable pub run_event : Store → PaymentEvent → Instant → Result Reply
unfolding process_refund run_paid run_unpaid normalized_payment_status
run_event st event now =
    if is_settled event.status
    then reply (settled event.status) no_job st
    else if text_eq event.event_type (codes "refund.succeeded")
    then process_refund st event now
    else if is_paid (normalized_payment_status event)
    then run_paid st event now
    else run_unpaid st event (normalized_payment_status event) now

unfoldable pub execute : Store → ℕ → Instant → Result Reply
unfolding by_id run_event
execute st payment_event_id now = elim (by_id (λ x. x.id) payment_event_id st.events) [
  | none ↦ reply missing no_job st
  | some event ↦ run_event st event now
]

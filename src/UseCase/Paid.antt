-- ===== src/UseCase/Paid.antt =====
-- `_process_paid` of application/use_cases/process_payment.py.
pub mod Grants
use project_vpn.Common.{ℕ, Bool, true, false, Option, none, some, ◌++◌, Text, codes, ℤ, Instant}
use project_vpn.Errors.{Error, payment_invariant_violation, runtime, Result, ok, err, ◌>>=◌}
use project_vpn.Payment.Status.{PaymentStatus, TransitionResult}
use project_vpn.Payment.Order.{PaymentOrder, mark_paid}
use project_vpn.Payment.Attempt.{PaymentAttempt, apply_provider_status}
use project_vpn.Payment.Event.{PaymentEvent, mark_processed}
use project_vpn.Payment.Settlement.{validate_paid_settlement}
use project_vpn.UseCase.Rows.{
  Store, subscription_activated, save_event, save_attempt, save_order, create_provider_transaction,
  append_audit,
}
use project_vpn.UseCase.Activate.{activate_paid}
use project_vpn.UseCase.Reply.{
  ignore_stale, order_number, reject_paid_event, reply, status_text, transaction_of, Job, Reply,
  no_job, provision_subscription, ignored, processed,
}

-- `if order.mark_paid(now): ...` with the order as it leaves it
unfoldable pub grant :
    Store → PaymentOrder → Instant → PaymentOrder × Bool → Result (Store × Option ℕ)
unfolding save_order activate_paid append_audit
grant st order now (paid, false) = ok (st, none)
grant st order now (paid, true) = do
  saved ← save_order st paid
  order_id ← order_number paid
  (active, a) ←
      activate_paid saved paid.user_id paid.tariff_id paid.requested_period_days now order_id
  ok (
    append_audit active (
        subscription_activated a.subscription.id a.period.id a.period.starts_at
          a.period.expires_at),
    a.subscription.id,
  )

abbrev job_of : Option ℕ → Job
job_of none = no_job
job_of (some id) = provision_subscription id

-- `_process_paid` once the settlement is valid and the attempt has taken the status.
unfoldable pub settle :
    Store
    → PaymentEvent
    → PaymentOrder
    → Instant
    → ℤ
    → Text
    → PaymentAttempt × TransitionResult
    → Result Reply
unfolding ignore_stale save_attempt mark_paid grant create_provider_transaction save_event
    mark_processed
settle st event order now amount currency (attempt, TransitionResult.stale) =
    ignore_stale st event now
      (codes "stale paid event for attempt already " ++ status_text attempt.status)
    >>= reply ignored no_job
settle st event order now amount currency (attempt, _) = do
  saved ← save_attempt st attempt
  paid ← mark_paid order now
  (granted, subscription_id) ← grant saved order now paid
  order_id ← order_number order
  done ←
      save_event
        (create_provider_transaction granted (
          transaction_of event order_id attempt amount currency (codes "payment_paid")
            (codes "paid")))
        (mark_processed event now)
  reply (processed subscription_id) (job_of subscription_id) done

-- The text of a settlement's exception; any other is raised again.
unfoldable pub settlement_failed : Store → PaymentEvent → Instant → Error → Result Reply
unfolding reject_paid_event
settlement_failed st event now (payment_invariant_violation message) =
    reject_paid_event st event now (codes "payment settlement rejected: " ++ codes message)
settlement_failed st event now e = err e

-- The fields that a valid settlement has.
unfoldable pub settle_valid :
    Store
    → PaymentEvent
    → PaymentOrder
    → Instant
    → Option PaymentAttempt
    → Option ℤ
    → Option Text
    → Result Reply
unfolding settle apply_provider_status
settle_valid st event order now (some attempt) (some amount) (some currency) =
    settle st event order now amount currency
      (apply_provider_status attempt PaymentStatus.paid none none (some event.payload))
settle_valid st event order now _ _ _ = err (runtime "AssertionError")

unfoldable pub after_validation :
    Store
    → PaymentEvent
    → PaymentOrder
    → Option PaymentAttempt
    → Instant
    → Result (Unit {0})
    → Result Reply
unfolding settlement_failed settle_valid
after_validation st event order attempt now (err e) = settlement_failed st event now e
after_validation st event order attempt now (ok _) =
    settle_valid st event order now attempt event.amount_minor event.currency

-- `_process_paid`
unfoldable pub process_paid :
    Store → PaymentEvent → PaymentOrder → Option PaymentAttempt → Instant → Result Reply
unfolding after_validation
process_paid st event order attempt now =
    after_validation st event order attempt now (validate_paid_settlement event attempt order)

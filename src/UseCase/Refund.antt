-- ===== src/UseCase/Refund.antt =====
-- `_process_refund` of application/use_cases/process_payment.py.
use project_vpn.Common.{
  ℕ, false, not, ◌||◌, Option, none, some, if◌then◌else◌, Text, codes, strip, upper, text_eq, leb_ℤ,
  ltb_ℤ, ℤ, pos, Instant,
}
use project_vpn.Errors.{runtime, Result, ok, err, ◌>>=◌}
use project_vpn.Payment.Order.{PaymentOrder}
use project_vpn.Payment.Attempt.{PaymentAttempt}
use project_vpn.Payment.Event.{PaymentEvent, mark_processed}
use project_vpn.Subscription.{Subscription, SubscriptionPeriod, expire}
use project_vpn.Vpn.{VpnConfiguration}
use project_vpn.UseCase.Rows.{
  Store, refund_reconciliation_required, by_id, save_event, save_subscription, save_period,
  create_provider_transaction, append_audit, period_of_order, has_current_period,
  has_funded_period_after, sum_refunds, active_vpn,
}
use project_vpn.UseCase.Reply.{
  order_number, reject_paid_event, reply, transaction_of, Job, Reply, no_job, revoke_configuration,
  processed,
}

abbrev job_for : Option VpnConfiguration → Job
job_for none = no_job
job_for (some c) = elim c.id [ none ↦ no_job | some id ↦ revoke_configuration id ]

-- `int(period.subscription_id)`
abbrev number_of : Option ℕ → Result ℕ
number_of none = err (runtime "int() argument must be a number, not 'NoneType'")
number_of (some n) = ok n

-- The job of a refund: the active configuration, if no paid period covers the moment.
abbrev revoke_job : Store → ℕ → Instant → Job
revoke_job st subscription_id now =
    if has_current_period subscription_id now st.periods
    then no_job
    else job_for (active_vpn subscription_id st.vpn)

-- A refunded subscription ends unless a later period is paid for.
unfoldable pub end_unfunded : Store → ℕ → Instant → Option Subscription → Result Store
unfolding has_funded_period_after expire save_subscription
end_unfunded st subscription_id now none = ok st
end_unfunded st subscription_id now (some s) =
    if has_funded_period_after subscription_id now st.periods
    then ok st
    else save_subscription st (expire s now)

-- What a full refund does to the period of the order.
unfoldable pub withdraw :
    Store → ℕ → PaymentEvent → Instant → Option SubscriptionPeriod → Result (Store × Job)
unfolding append_audit save_period by_id end_unfunded has_current_period active_vpn
withdraw st order_id event now none =
    ok (append_audit st (refund_reconciliation_required order_id event.event_key), no_job)
withdraw st order_id event now (some period) = do
  saved ← save_period st (record period { is_paid = false })
  subscription_id ← number_of period.subscription_id
  done ←
      end_unfunded saved subscription_id now (by_id (λ x. x.id) subscription_id saved.subscriptions)
  ok (done, revoke_job saved subscription_id now)

-- The refund once it is recorded: only when all refunds of the order reach its amount does the
-- period lose its effect.
unfoldable pub reconcile : Store → ℕ → PaymentEvent → PaymentOrder → Instant → Result (Store × Job)
unfolding sum_refunds period_of_order withdraw
reconcile st order_id event order now =
    if ltb_ℤ (sum_refunds order_id event.provider st.transactions) (pos order.amount.minor)
    then ok (st, no_job)
    else withdraw st order_id event now (period_of_order order_id st.periods)

-- A refund with an amount and a currency that fit the order
unfoldable pub record_refund :
    Store → PaymentEvent → PaymentOrder → PaymentAttempt → ℤ → Text → Instant → Result Reply
unfolding create_provider_transaction reconcile save_event mark_processed
record_refund st event order attempt amount currency now = do
  order_id ← order_number order
  (done, job) ←
      reconcile
        (create_provider_transaction st (
          transaction_of event order_id attempt amount currency (codes "refund_succeeded")
            (codes "succeeded")))
        order_id event order now
  saved ← save_event done (mark_processed event now)
  reply (processed none) job saved

-- The tests on the amount and the currency of a refund
unfoldable pub refund_order :
    Store
    → PaymentEvent
    → PaymentAttempt
    → PaymentOrder
    → Instant
    → Option ℤ
    → Option Text
    → Result Reply
unfolding reject_paid_event record_refund
refund_order st event attempt order now (some amount) (some currency) =
    if leb_ℤ amount (pos 0)
    then reject_paid_event st event now (codes "refund amount/currency is missing")
    else if not (text_eq (upper (strip currency)) order.amount.currency)
        || ltb_ℤ (pos order.amount.minor) amount
    then reject_paid_event st event now (codes "refund amount/currency does not match order")
    else record_refund st event order attempt amount currency now
refund_order st event attempt order now _ _ =
    reject_paid_event st event now (codes "refund amount/currency is missing")

-- `_process_refund`
unfoldable pub process_refund : Store → PaymentEvent → Instant → Result Reply
unfolding reject_paid_event by_id refund_order
process_refund st event now = elim event.payment_attempt_id [
  | none ↦ reject_paid_event st event now (codes "refund has no original payment attempt")
  | some attempt_id ↦ elim (by_id (λ x. x.id) attempt_id st.attempts) [
    | none ↦ reject_paid_event st event now (codes "refund original payment attempt is missing")
    | some attempt ↦ elim (by_id (λ x. x.id) attempt.payment_order_id st.orders) [
      | none ↦ reject_paid_event st event now (codes "refund payment order is missing")
      | some order ↦ refund_order st event attempt order now event.amount_minor event.currency
    ]
  ]
]

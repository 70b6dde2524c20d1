-- ===== src/UseCase/Redelivery/Frame.antt =====
-- The parts of a run that do not touch the rows of the events.
use project_vpn.Common.{
  ℕ, ◌≡◌, ap, ◌∙◌, Bool, true, false, Option, none, some, arith, Bool-cases, Option-cases, inl, inr,
  pos, ltb_ℤ, Instant,
}
use project_vpn.Errors.{ok, Result-cases}
use project_vpn.Payment.Order.{PaymentOrder}
use project_vpn.Payment.Attempt.{PaymentAttempt}
use project_vpn.Payment.Event.{PaymentEvent}
use project_vpn.Subscription.{Subscription, SubscriptionPeriod}
use project_vpn.Subscription.Policy.{SubscriptionActivation, apply_paid_period}
use project_vpn.UseCase.Rows.{
  Store, by_id, replace, active_for_user, save_attempt, save_order, save_subscription, save_period,
  append_audit, sum_refunds, period_of_order,
}
use project_vpn.UseCase.Activate.{
  activate_paid, last_period, persist, save_replaced, store_subscription, add_period,
}
use project_vpn.UseCase.Reply.{Job}
use project_vpn.UseCase.Paid.{grant}
use project_vpn.UseCase.Refund.{end_unfunded, withdraw, reconcile}

pub save_attempt-events :
    (s t : Store) (a : PaymentAttempt) → save_attempt s a ≡ ok t → t.events ≡ s.events
unfolding save_attempt
save_attempt-events s t a h = ground arith

pub persist-events :
    (s t : Store) (a b : SubscriptionActivation) (n : ℕ)
    → persist s a n ≡ ok (t, b)
    → t.events ≡ s.events
unfolding persist save_replaced store_subscription save_subscription add_period
persist-events s t a b n h = ground arith

pub activate_paid-events :
    (s t : Store) (user tariff length : ℕ) (now : Instant) (n : ℕ) (b : SubscriptionActivation)
    → activate_paid s user tariff length now n ≡ ok (t, b)
    → t.events ≡ s.events
unfolding activate_paid
activate_paid-events s t user tariff length now n b h =
    let active = active_for_user user s.subscriptions in
    elim (Result-cases (
      apply_paid_period active (last_period s active tariff) (pos user) (pos tariff) (pos length)
        now)) [
          | inl (a, e) ↦ persist-events s t a b n (ground (arith, e))
          | inr (x, e) ↦ absurd (ground (arith, e))
        ]

pub grant-events :
    (s t : Store) (order paid : PaymentOrder) (now : Instant) (moved : Bool) (id : Option ℕ)
    → grant s order now (paid, moved) ≡ ok (t, id)
    → t.events ≡ s.events
unfolding grant save_order append_audit
grant-events s t order paid now false id h = ground arith
grant-events s t order paid now true id h =
    let saved = record s { orders = replace (λ x. x.id) paid s.orders } in
    elim (Option-cases paid.id) [
      | inl e ↦ absurd (ground (arith, e))
      | inr (n, e) ↦
          elim (Result-cases
            (activate_paid saved paid.user_id paid.tariff_id paid.requested_period_days now n)) [
              | inr (x, f) ↦ absurd (ground (arith, e, f))
              | inl ((u, b), f) ↦ ground (
                arith,
                e,
                f,
                activate_paid-events saved u paid.user_id paid.tariff_id paid.requested_period_days
                    now n b f,
              )
            ]
    ]

pub end_unfunded-events :
    (s t : Store) (n : ℕ) (now : Instant) (x : Option Subscription)
    → end_unfunded s n now x ≡ ok t
    → t.events ≡ s.events
unfolding end_unfunded save_subscription
end_unfunded-events s t n now x h = ground arith

pub withdraw-events :
    (s t : Store) (order_id : ℕ) (event : PaymentEvent) (now : Instant)
    (x : Option SubscriptionPeriod) (job : Job)
    → withdraw s order_id event now x ≡ ok (t, job)
    → t.events ≡ s.events
unfolding withdraw append_audit save_period
withdraw-events s t order_id event now none job h = ground arith
withdraw-events s t order_id event now (some p) job h =
    let saved = record s {
      periods = replace (λ x. x.id) (record p { is_paid = false }) s.periods;
    } in
    elim (Option-cases p.id) [
      | inl e ↦ absurd (ground (arith, e))
      | inr (k, e) ↦ elim (Option-cases p.subscription_id) [
        | inl f ↦ absurd (ground (arith, e, f))
        | inr (n, f) ↦
            elim (Result-cases
              (end_unfunded saved n now (by_id (λ x. x.id) n saved.subscriptions))) [
                | inr (x, g) ↦ absurd (ground (arith, e, f, g))
                | inl (u, g) ↦
                    let same : t ≡ u = ground (arith, e, f, g) in
                    ap (λ x. x.events) same
                    ∙ end_unfunded-events saved u n now (by_id (λ x. x.id) n saved.subscriptions) g
              ]
      ]
    ]

pub reconcile-events :
    (s t : Store) (order_id : ℕ) (event : PaymentEvent) (order : PaymentOrder) (now : Instant)
    (job : Job)
    → reconcile s order_id event order now ≡ ok (t, job)
    → t.events ≡ s.events
unfolding reconcile
reconcile-events s t order_id event order now job h =
    elim (Bool-cases
      (ltb_ℤ (sum_refunds order_id event.provider s.transactions) (pos order.amount.minor))) [
        | inl part ↦ ground arith
        | inr whole ↦
            withdraw-events s t order_id event now (period_of_order order_id s.periods) job
              (ground arith)
      ]

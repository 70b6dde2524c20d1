-- ===== src/UseCase/Entitlement/Refunds.antt =====
-- A refund as a step on entitlements.
use project_vpn.Common.{
  ℕ, ◌≡◌, codes, ap, ◌∙◌, refl, false, Option, none, some, arith, Bool-cases, Option-cases, inl,
  inr, Text, ltb_ℤ, pos, ℤ, Instant,
}
use project_vpn.Errors.{ok, Result-cases}
use project_vpn.Payment.Order.{PaymentOrder}
use project_vpn.Payment.Attempt.{PaymentAttempt}
use project_vpn.Payment.Event.{PaymentEvent}
use project_vpn.Subscription.{Subscription, SubscriptionPeriod}
use project_vpn.UseCase.Rows.{
  Store, replace, by_id, save_event, save_period, save_subscription, append_audit,
  create_provider_transaction, sum_refunds, period_of_order,
}
use project_vpn.UseCase.Reply.{Reply, Job, transaction_of, reject_paid_event}
use project_vpn.UseCase.Refund.{end_unfunded, withdraw, reconcile, record_refund}
use project_vpn.UseCase.Entitlement.{Step, withdrawn, SameRights, Step-frame, SameRights-Step}

end_unfunded-SameRights :
    (s t : Store) (n : ℕ) (now : Instant) (x : Option Subscription)
    → end_unfunded s n now x ≡ ok t
    → SameRights s t
unfolding end_unfunded save_subscription
end_unfunded-SameRights s t n now x h = ground arith

withdraw-Step :
    (s t : Store) (order_id : ℕ) (event : PaymentEvent) (now : Instant)
    (x : Option SubscriptionPeriod) (job : Job)
    → period_of_order order_id s.periods ≡ x
    → withdraw s order_id event now x ≡ ok (t, job)
    → Step s t
unfolding withdraw append_audit save_period
withdraw-Step s t order_id event now none job found h =
    SameRights-Step (record { periods = ground arith; next = ground arith; orders = ground arith })
withdraw-Step s t order_id event now (some p) job found h =
    let saved = record s {
      periods = replace (λ x. x.id) (record p { is_paid = false }) s.periods;
    } in
    elim (Option-cases p.id) [
      | inl e ↦ absurd (ground (arith, e))
      | inr (k, e) ↦ elim (Option-cases p.subscription_id) [
        | inl f ↦ absurd (ground (arith, e, f))
        | inr (n, f) ↦
            elim (Result-cases
              (end_unfunded saved n now (by_id (λ x. x.id) n saved.subscriptions))) [
                | inr (x, g) ↦ absurd (ground (arith, e, f, g))
                | inl (u, g) ↦
                    let same : t ≡ u = ground (arith, e, f, g) in
                    let like =
                      end_unfunded-SameRights saved u n now
                        (by_id (λ x. x.id) n saved.subscriptions) g in
                    withdrawn order_id p found (ap (λ x. x.periods) same ∙ like.periods)
                      (ap (λ x. x.next_period_id) same ∙ like.next)
                      (ap (λ x. x.orders) same ∙ like.orders)
              ]
      ]
    ]

reconcile-Step :
    (s t : Store) (order_id : ℕ) (event : PaymentEvent) (order : PaymentOrder) (now : Instant)
    (job : Job)
    → reconcile s order_id event order now ≡ ok (t, job)
    → Step s t
unfolding reconcile
reconcile-Step s t order_id event order now job h =
    elim (Bool-cases
      (ltb_ℤ (sum_refunds order_id event.provider s.transactions) (pos order.amount.minor))) [
        | inl part ↦
            SameRights-Step
              (record { periods = ground arith; next = ground arith; orders = ground arith })
        | inr whole ↦
            withdraw-Step s t order_id event now (period_of_order order_id s.periods) job refl
              (ground arith)
      ]

pub record_refund-Step :
    (s : Store) (event : PaymentEvent) (order : PaymentOrder) (attempt : PaymentAttempt)
    (amount : ℤ) (currency : Text) (now : Instant) (r : Reply)
    → record_refund s event order attempt amount currency now ≡ ok r
    → Step s r.store
unfolding record_refund create_provider_transaction save_event
record_refund-Step s event order attempt amount currency now r h = elim (Option-cases order.id) [
  | inl e ↦ absurd (ground (arith, e))
  | inr (n, e) ↦
      let noted = create_provider_transaction s (
        transaction_of event n attempt amount currency (codes "refund_succeeded")
          (codes "succeeded")) in
      elim (Result-cases (reconcile noted n event order now)) [
        | inr (x, f) ↦ absurd (ground (arith, e, f))
        | inl ((t, job), f) ↦
            Step-frame
              (record { periods = ground arith; next = ground arith; orders = ground arith })
              (reconcile-Step noted t n event order now job f)
              (record {
                periods = ground (arith, e, f);
                next = ground (arith, e, f);
                orders = ground (arith, e, f);
              })
      ]
]

pub rejected-SameRights :
    (s : Store) (event : PaymentEvent) (now : Instant) (reason : Text) (r : Reply)
    → reject_paid_event s event now reason ≡ ok r
    → SameRights s r.store
unfolding reject_paid_event save_event
rejected-SameRights s event now reason r h = ground arith

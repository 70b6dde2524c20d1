-- ===== src/UseCase/Paid/Grants.antt =====
-- What a paid event grants: application/use_cases/process_payment.py.
use project_vpn.Common.{
  ℕ, ◌≡◌, ◌≢◌, sym, ◌∙◌, Option-cases, true, false, Option, none, some, [], ◌∷◌, ◌++◌, inl, inr,
  Bool, arith, Text, pos, ℤ, Instant,
}
use project_vpn.Errors.{Error, ok, Result-cases}
use project_vpn.Payment.Status.{PaymentStatus, is_paid, TransitionResult, applied, duplicate, stale}
use project_vpn.Payment.Order.{PaymentOrder, mark_paid}
use project_vpn.Payment.Attempt.{PaymentAttempt, apply_provider_status}
use project_vpn.Payment.Event.{PaymentEvent}
use project_vpn.Payment.Settlement.{validate_paid_settlement}
use project_vpn.Subscription.{SubscriptionPeriod}
use project_vpn.UseCase.Activate.{
  activate_paid, last_period, persist, save_replaced, store_subscription, add_period,
}
use project_vpn.UseCase.Rows.{
  Store, active_for_user, save_order, replace, append_audit, save_subscription, save_event,
  save_attempt, create_provider_transaction,
}
use project_vpn.Subscription.Policy.{SubscriptionActivation, apply_paid_period}
use project_vpn.UseCase.Reply.{Reply, processed, no_job, ignore_stale, reject_paid_event}
use project_vpn.UseCase.Paid.{
  grant, settle, settle_valid, settlement_failed, after_validation, process_paid,
}

-- The subscriptions and their periods are as before.
pub record SameAccess (st st' : Store) : Type 0 where
  pub periods : st'.periods ≡ st.periods
  pub subscriptions : st'.subscriptions ≡ st.subscriptions

settle-SameAccess :
    (st : Store) (event : PaymentEvent) (order : PaymentOrder) (now : Instant) (amount : ℤ)
    (currency : Text) (a : PaymentAttempt) (t : TransitionResult) (r : Reply)
    → is_paid order.status ≡ true
    → settle st event order now amount currency (a, t) ≡ ok r
    → SameAccess st r.store × (r.job ≡ no_job)
unfolding settle ignore_stale save_event save_attempt mark_paid grant create_provider_transaction
settle-SameAccess st event order now amount currency a applied r paid h = ground arith
settle-SameAccess st event order now amount currency a duplicate r paid h = ground arith
settle-SameAccess st event order now amount currency a stale r paid h = ground arith

valid-SameAccess :
    (st : Store) (event : PaymentEvent) (order : PaymentOrder) (now : Instant)
    (attempt : Option PaymentAttempt) (amount : Option ℤ) (currency : Option Text) (r : Reply)
    → is_paid order.status ≡ true
    → settle_valid st event order now attempt amount currency ≡ ok r
    → SameAccess st r.store × (r.job ≡ no_job)
unfolding settle_valid
valid-SameAccess st event order now (some a) (some n) (some c) r paid h =
    let moved = apply_provider_status a PaymentStatus.paid none none (some event.payload) in
    settle-SameAccess st event order now n c moved.0 moved.1 r paid h
valid-SameAccess st event order now none n c r paid h = cc
valid-SameAccess st event order now (some a) none c r paid h = cc
valid-SameAccess st event order now (some a) (some n) none r paid h = cc

failed-SameAccess :
    (st : Store) (event : PaymentEvent) (now : Instant) (e : Error) (r : Reply)
    → settlement_failed st event now e ≡ ok r
    → SameAccess st r.store × (r.job ≡ no_job)
unfolding settlement_failed reject_paid_event save_event
failed-SameAccess st event now e r h = ground arith

-- A PAID event for an order that is paid already, however it is answered, adds no period, changes no
-- subscription and enqueues nothing.
pub paid_again :
    (st : Store) (event : PaymentEvent) (order : PaymentOrder) (attempt : Option PaymentAttempt)
    (now : Instant) (r : Reply)
    → is_paid order.status ≡ true
    → process_paid st event order attempt now ≡ ok r
    → SameAccess st r.store × (r.job ≡ no_job)
unfolding process_paid after_validation
paid_again st event order attempt now r paid h =
    elim (Result-cases (validate_paid_settlement event attempt order)) [
      | inl (u, e) ↦
          valid-SameAccess st event order now attempt event.amount_minor event.currency r paid
            (ground (arith, e))
      | inr (x, e) ↦ failed-SameAccess st event now x r (ground (arith, e))
    ]

-- One more period, for this order.
pub record IsExtended (order_id : Option ℕ) (st st' : Store) : Type 0 where
  pub period : SubscriptionPeriod
  pub added : st'.periods ≡ st.periods ++ (period ∷ [])
  pub order : period.payment_order_id ≡ order_id

persist-IsExtended :
    (st st' : Store) (a b : SubscriptionActivation) (order_id : ℕ)
    → persist st a order_id ≡ ok (st', b)
    → IsExtended (some order_id) st st'
unfolding persist save_replaced store_subscription save_subscription add_period
persist-IsExtended st st' a b order_id h = record {
  period = b.period;
  added = ground arith;
  order = ground arith;
}

activate_paid-IsExtended :
    (st st' : Store) (user tariff length : ℕ) (now : Instant) (order_id : ℕ)
    (b : SubscriptionActivation)
    → activate_paid st user tariff length now order_id ≡ ok (st', b)
    → IsExtended (some order_id) st st'
unfolding activate_paid
activate_paid-IsExtended st st' user tariff length now order_id b h =
    let active = active_for_user user st.subscriptions in
    elim (Result-cases (
      apply_paid_period active (last_period st active tariff) (pos user) (pos tariff) (pos length)
        now)) [
          | inl (a, e) ↦ persist-IsExtended st st' a b order_id (ground (arith, e))
          | inr (x, e) ↦ absurd (ground (arith, e))
        ]

grant-IsExtended :
    (st st' : Store) (order paid : PaymentOrder) (now : Instant) (id : Option ℕ)
    → grant st order now (paid, true) ≡ ok (st', id)
    → IsExtended paid.id st st'
unfolding grant save_order append_audit
grant-IsExtended st st' order paid now id h =
    let saved = record st { orders = replace (λ x. x.id) paid st.orders } in
    elim (Option-cases paid.id) [
      | inl e ↦ absurd (ground (arith, e))
      | inr (n, e) ↦
          elim (Result-cases
            (activate_paid saved paid.user_id paid.tariff_id paid.requested_period_days now n)) [
              | inl ((st1, b), f) ↦
                  let more =
                    activate_paid-IsExtended saved st1 paid.user_id paid.tariff_id
                      paid.requested_period_days now n b f in
                  record {
                    period = more.period;
                    added = ground (arith, e, f, more.added);
                    order = more.order ∙ sym e;
                  }
              | inr (x, f) ↦ absurd (ground (arith, e, f))
            ]
    ]

save_attempt-periods :
    (st st' : Store) (a : PaymentAttempt) → save_attempt st a ≡ ok st' → st'.periods ≡ st.periods
unfolding save_attempt
save_attempt-periods st st' a h = ground arith

mark_paid_first :
    (order paid : PaymentOrder) (now : Instant) (moved : Bool)
    → is_paid order.status ≡ false
    → mark_paid order now ≡ ok (paid, moved)
    → (moved ≡ true) × (paid.id ≡ order.id)
unfolding mark_paid
mark_paid_first order paid now moved unpaid h = ground arith

applied-IsExtended :
    (st : Store) (event : PaymentEvent) (order : PaymentOrder) (now : Instant) (amount : ℤ)
    (currency : Text) (a : PaymentAttempt) (r : Reply)
    → is_paid order.status ≡ false
    → settle st event order now amount currency (a, applied) ≡ ok r
    → IsExtended order.id st r.store
unfolding settle save_event create_provider_transaction
applied-IsExtended st event order now amount currency a r unpaid h =
    elim (Result-cases (save_attempt st a)) [
      | inr (x, e) ↦ absurd (ground (arith, e))
      | inl (saved, e) ↦ elim (Result-cases (mark_paid order now)) [
        | inr (x, f) ↦ absurd (ground (arith, e, f))
        | inl ((paid, moved), f) ↦
            let (first, same) = mark_paid_first order paid now moved unpaid f in
            elim (Result-cases (grant saved order now (paid, true))) [
              | inr (x, g) ↦ absurd (ground (arith, e, f, g, first))
              | inl ((granted, id), g) ↦
                  let more = grant-IsExtended saved granted order paid now id g in
                  let kept = save_attempt-periods st saved a e in
                  record {
                    period = more.period;
                    added = ground (arith, more.added);
                    order = more.order ∙ same;
                  }
            ]
      ]
    ]

settle-IsExtended :
    (st : Store) (event : PaymentEvent) (order : PaymentOrder) (now : Instant) (amount : ℤ)
    (currency : Text) (a : PaymentAttempt) (t : TransitionResult) (id : Option ℕ) (r : Reply)
    → is_paid order.status ≡ false
    → settle st event order now amount currency (a, t) ≡ ok r
    → r.outcome ≡ processed id
    → IsExtended order.id st r.store
unfolding settle ignore_stale save_event
settle-IsExtended st event order now amount currency a applied id r unpaid h done =
    applied-IsExtended st event order now amount currency a r unpaid h
settle-IsExtended st event order now amount currency a duplicate id r unpaid h done =
    applied-IsExtended st event order now amount currency a r unpaid h
settle-IsExtended st event order now amount currency a stale id r unpaid h done =
    absurd (ground arith)

valid-IsExtended :
    (st : Store) (event : PaymentEvent) (order : PaymentOrder) (now : Instant)
    (attempt : Option PaymentAttempt) (amount : Option ℤ) (currency : Option Text) (id : Option ℕ)
    (r : Reply)
    → is_paid order.status ≡ false
    → settle_valid st event order now attempt amount currency ≡ ok r
    → r.outcome ≡ processed id
    → IsExtended order.id st r.store
unfolding settle_valid
valid-IsExtended st event order now (some a) (some n) (some c) id r unpaid h done =
    let moved = apply_provider_status a PaymentStatus.paid none none (some event.payload) in
    settle-IsExtended st event order now n c moved.0 moved.1 id r unpaid h done
valid-IsExtended st event order now none n c id r unpaid h done = absurd (ground arith)
valid-IsExtended st event order now (some a) none c id r unpaid h done = absurd (ground arith)
valid-IsExtended st event order now (some a) (some n) none id r unpaid h done =
    absurd (ground arith)

rejected_only :
    (st : Store) (event : PaymentEvent) (now : Instant) (e : Error) (id : Option ℕ) (r : Reply)
    → settlement_failed st event now e ≡ ok r
    → r.outcome ≢ processed id
unfolding settlement_failed reject_paid_event save_event
rejected_only st event now e id r h = ground arith

-- A PAID event that is processed for an order not paid before adds exactly one period, and it is the
-- order's.
pub paid_first-IsExtended :
    (st : Store) (event : PaymentEvent) (order : PaymentOrder) (attempt : Option PaymentAttempt)
    (now : Instant) (id : Option ℕ) (r : Reply)
    → is_paid order.status ≡ false
    → process_paid st event order attempt now ≡ ok r
    → r.outcome ≡ processed id
    → IsExtended order.id st r.store
unfolding process_paid after_validation
paid_first-IsExtended st event order attempt now id r unpaid h done =
    elim (Result-cases (validate_paid_settlement event attempt order)) [
      | inl (u, e) ↦
          valid-IsExtended st event order now attempt event.amount_minor event.currency id r unpaid
            (ground (arith, e)) done
      | inr (x, e) ↦ absurd (rejected_only st event now x id r (ground (arith, e)) done)
    ]

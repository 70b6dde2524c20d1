-- ===== src/UseCase/Entitlement/Grants.antt =====
-- A paid event as a step on entitlements.
use project_vpn.Common.{
  ℕ, ◌+◌, ◌≡◌, ◌∙◌, Bool, true, false, not, Option, none, some, [], ◌∷◌, ◌++◌, arith, if◌then◌else◌,
  ◌==◌, Bool-cases, inl, inr, Text, pos, ℤ, Instant,
}
use project_vpn.Errors.{Error, ok, Result-cases}
use project_vpn.Payment.Status.{PaymentStatus, is_paid, TransitionResult, applied, duplicate, stale}
use project_vpn.Payment.Order.{PaymentOrder, mark_paid}
use project_vpn.Payment.Attempt.{PaymentAttempt, apply_provider_status}
use project_vpn.Payment.Event.{PaymentEvent}
use project_vpn.Payment.Settlement.{validate_paid_settlement}
use project_vpn.Subscription.{SubscriptionPeriod}
use project_vpn.Subscription.Policy.{SubscriptionActivation, apply_paid_period}
use project_vpn.UseCase.Rows.{
  Store, by_id, active_for_user, save_order, replace, append_audit, save_subscription, save_event,
  save_attempt, create_provider_transaction,
}
use project_vpn.UseCase.Rows.Laws.{by_id-id, by_id-replace}
use project_vpn.UseCase.Activate.{
  activate_paid, last_period, persist, save_replaced, store_subscription, add_period,
}
use project_vpn.UseCase.Reply.{Reply, ignore_stale, reject_paid_event}
use project_vpn.UseCase.Paid.{
  grant, settle, settle_valid, settlement_failed, after_validation, process_paid,
}
use project_vpn.UseCase.Entitlement.{
  order_paid, Step, kept, granted, SameRights, Step-frame, SameRights-Step,
}

-- What an activation adds: one period, numbered and named for its order; orders stay.
record Activated (n : ℕ) (s t : Store) (p : SubscriptionPeriod) : Type 0 where
  periods : t.periods ≡ s.periods ++ (p ∷ [])
  id : p.id ≡ some s.next_period_id
  order : p.payment_order_id ≡ some n
  next : t.next_period_id ≡ s.next_period_id + 1
  orders : t.orders ≡ s.orders

persist-Activated :
    (s t : Store) (a b : SubscriptionActivation) (n : ℕ)
    → persist s a n ≡ ok (t, b)
    → Activated n s t b.period
unfolding persist save_replaced store_subscription save_subscription add_period
persist-Activated s t a b n h = ground arith

activate_paid-Activated :
    (s t : Store) (user tariff length : ℕ) (now : Instant) (n : ℕ) (b : SubscriptionActivation)
    → activate_paid s user tariff length now n ≡ ok (t, b)
    → Activated n s t b.period
unfolding activate_paid
activate_paid-Activated s t user tariff length now n b h =
    let active = active_for_user user s.subscriptions in
    elim (Result-cases (
      apply_paid_period active (last_period s active tariff) (pos user) (pos tariff) (pos length)
        now)) [
          | inl (a, e) ↦ persist-Activated s t a b n (ground (arith, e))
          | inr (x, e) ↦ absurd (ground (arith, e))
        ]

-- An order that was found is paid once its row is replaced by a paid one.
pay_found :
    (k m : ℕ) (s : Store) (order paid : PaymentOrder)
    → by_id (λ x. x.id) k s.orders ≡ some order
    → paid.id ≡ some k
    → is_paid paid.status ≡ true
    → order_paid m (replace (λ x. x.id) paid s.orders)
      ≡ (if k == m then true else order_paid m s.orders)
pay_found k m s order paid found id done = elim (Bool-cases (k == m)) [
  | inl e ↦
      let same : k ≡ m = ground arith in
      ground (arith, by_id-replace (λ (x : PaymentOrder). x.id) paid k m s.orders id, found, same)
  | inr e ↦ ground (arith, by_id-replace (λ (x : PaymentOrder). x.id) paid k m s.orders id)
]

grant-Step :
    (k : ℕ) (s t : Store) (order paid : PaymentOrder) (now : Instant) (id : Option ℕ)
    → by_id (λ x. x.id) k s.orders ≡ some order
    → is_paid order.status ≡ false
    → paid.id ≡ some k
    → is_paid paid.status ≡ true
    → grant s order now (paid, true) ≡ ok (t, id)
    → Step s t
unfolding grant save_order append_audit
grant-Step k s t order paid now id found before named done h =
    let saved = record s { orders = replace (λ x. x.id) paid s.orders } in
    elim (Result-cases
      (activate_paid saved paid.user_id paid.tariff_id paid.requested_period_days now k)) [
        | inl ((u, b), f) ↦
            let more =
              activate_paid-Activated saved u paid.user_id paid.tariff_id paid.requested_period_days
                now k b f in
            granted k b.period (ground (arith, found))
              (λ m. ground (arith, f, more.orders, pay_found k m s order paid found named done))
              (ground (arith, f, more.periods)) more.id more.order (ground (arith, f, more.next))
        | inr (x, f) ↦ absurd (ground (arith, f))
      ]

paid_as_before :
    (s t : Store) (order paid : PaymentOrder) (now : Instant) (id : Option ℕ)
    → grant s order now (paid, false) ≡ ok (t, id)
    → Step s t
unfolding grant
paid_as_before s t order paid now id h = kept (ground arith) (ground arith) (λ m. ground arith)

pub save_attempt-SameRights :
    (s t : Store) (a : PaymentAttempt) → save_attempt s a ≡ ok t → SameRights s t
unfolding save_attempt
save_attempt-SameRights s t a h = ground arith

pub found_after :
    (s t : Store) (a : PaymentAttempt)
    → save_attempt s a ≡ ok t
    → (k : ℕ) (order : PaymentOrder) → by_id (λ x. x.id) k s.orders ≡ some order
    → by_id (λ x. x.id) k t.orders ≡ some order
found_after s t a h k order found = rw (save_attempt-SameRights s t a h).orders found

mark_paid_cases :
    (order paid : PaymentOrder) (now : Instant) (moved : Bool)
    → mark_paid order now ≡ ok (paid, moved)
    → (moved ≡ not (is_paid order.status)) × (paid.id ≡ order.id) × (is_paid paid.status ≡ true)
unfolding mark_paid
mark_paid_cases order paid now moved h = ground arith

paid-Step :
    (k : ℕ) (s t : Store) (order paid : PaymentOrder) (now : Instant) (moved : Bool) (id : Option ℕ)
    → by_id (λ x. x.id) k s.orders ≡ some order
    → mark_paid order now ≡ ok (paid, moved)
    → grant s order now (paid, moved) ≡ ok (t, id)
    → Step s t
paid-Step k s t order paid now true id found f h =
    let (first, named, done) = mark_paid_cases order paid now true f in
    grant-Step k s t order paid now id found (ground arith)
      (named ∙ by_id-id (λ (x : PaymentOrder). x.id) k s.orders order found) done h
paid-Step k s t order paid now false id found f h = paid_as_before s t order paid now id h

settle-Step :
    (k : ℕ) (st : Store) (event : PaymentEvent) (order : PaymentOrder) (now : Instant) (amount : ℤ)
    (currency : Text) (a : PaymentAttempt) (r : Reply)
    → by_id (λ x. x.id) k st.orders ≡ some order
    → settle st event order now amount currency (a, applied) ≡ ok r
    → Step st r.store
unfolding settle save_event create_provider_transaction
settle-Step k st event order now amount currency a r found h =
    elim (Result-cases (save_attempt st a)) [
      | inr (x, e) ↦ absurd (ground (arith, e))
      | inl (saved, e) ↦ elim (Result-cases (mark_paid order now)) [
        | inr (x, f) ↦ absurd (ground (arith, e, f))
        | inl ((paid, moved), f) ↦ elim (Result-cases (grant saved order now (paid, moved))) [
          | inr (x, g) ↦ absurd (ground (arith, e, f, g))
          | inl ((done, id), g) ↦
              Step-frame (save_attempt-SameRights st saved a e)
                (paid-Step k saved done order paid now moved id
                  (found_after st saved a e k order found) f g)
                (record {
                  periods = ground (arith, e, f, g);
                  next = ground (arith, e, f, g);
                  orders = ground (arith, e, f, g);
                })
        ]
      ]
    ]

settle_any-Step :
    (k : ℕ) (st : Store) (event : PaymentEvent) (order : PaymentOrder) (now : Instant) (amount : ℤ)
    (currency : Text) (a : PaymentAttempt) (t : TransitionResult) (r : Reply)
    → by_id (λ x. x.id) k st.orders ≡ some order
    → settle st event order now amount currency (a, t) ≡ ok r
    → Step st r.store
unfolding settle ignore_stale save_event
settle_any-Step k st event order now amount currency a applied r found h =
    settle-Step k st event order now amount currency a r found h
settle_any-Step k st event order now amount currency a duplicate r found h =
    settle-Step k st event order now amount currency a r found h
settle_any-Step k st event order now amount currency a stale r found h =
    SameRights-Step (record { periods = ground arith; next = ground arith; orders = ground arith })

valid-Step :
    (k : ℕ) (st : Store) (event : PaymentEvent) (order : PaymentOrder) (now : Instant)
    (attempt : Option PaymentAttempt) (amount : Option ℤ) (currency : Option Text) (r : Reply)
    → by_id (λ x. x.id) k st.orders ≡ some order
    → settle_valid st event order now attempt amount currency ≡ ok r
    → Step st r.store
unfolding settle_valid
valid-Step k st event order now (some a) (some n) (some c) r found h =
    let moved = apply_provider_status a PaymentStatus.paid none none (some event.payload) in
    settle_any-Step k st event order now n c moved.0 moved.1 r found h
valid-Step k st event order now none n c r found h = absurd (ground arith)
valid-Step k st event order now (some a) none c r found h = absurd (ground arith)
valid-Step k st event order now (some a) (some n) none r found h = absurd (ground arith)

failed-SameRights :
    (st : Store) (event : PaymentEvent) (now : Instant) (e : Error) (r : Reply)
    → settlement_failed st event now e ≡ ok r
    → SameRights st r.store
unfolding settlement_failed reject_paid_event save_event
failed-SameRights st event now e r h = ground arith

-- A paid event as a step.
pub process_paid-Step :
    (k : ℕ) (st : Store) (event : PaymentEvent) (order : PaymentOrder)
    (attempt : Option PaymentAttempt) (now : Instant) (r : Reply)
    → by_id (λ x. x.id) k st.orders ≡ some order
    → process_paid st event order attempt now ≡ ok r
    → Step st r.store
unfolding process_paid after_validation
process_paid-Step k st event order attempt now r found h =
    elim (Result-cases (validate_paid_settlement event attempt order)) [
      | inl (u, e) ↦
          valid-Step k st event order now attempt event.amount_minor event.currency r found
            (ground (arith, e))
      | inr (x, e) ↦ SameRights-Step (failed-SameRights st event now x r (ground (arith, e)))
    ]

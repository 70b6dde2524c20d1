-- ===== src/UseCase/Entitlement/Failures.antt =====
-- An unsuccessful payment as a step on entitlements.
use project_vpn.Common.{
  ℕ, ◌≡◌, ◌==◌, ◌∙◌, refl, Bool, false, Option, none, some, arith, Bool-cases, inl, inr, Instant,
}
use project_vpn.Errors.{ok, Result-cases}
use project_vpn.Payment.Status.{PaymentStatus, is_paid, TransitionResult, stale}
use project_vpn.Payment.Order.{PaymentOrder, apply_external_status}
use project_vpn.Payment.Attempt.{PaymentAttempt, apply_provider_status}
use project_vpn.Payment.Event.{PaymentEvent}
use project_vpn.UseCase.Rows.{
  Store, by_id, replace, save_event, save_order, save_attempt, append_audit,
}
use project_vpn.UseCase.Rows.Laws.{by_id-id, by_id-replace}
use project_vpn.UseCase.Reply.{Reply, ignore_event, ignore_stale}
use project_vpn.UseCase.Unsuccessful.{finish_unsuccessful, apply_unsuccessful, process_unsuccessful}
use project_vpn.UseCase.Entitlement.{
  order_paid, Step, kept, SameRights, Step-frame, SameRights-Step,
}
use project_vpn.UseCase.Entitlement.Grants.{save_attempt-SameRights, found_after}

-- A status that is not PAID leaves an order paid or unpaid as it was.
external_status_paid :
    (o o' : PaymentOrder) (s : PaymentStatus) (now : Instant) (moved : Bool)
    → is_paid s ≡ false
    → apply_external_status o s now ≡ ok (o', moved)
    → (is_paid o'.status ≡ is_paid o.status) × (o'.id ≡ o.id)
unfolding apply_external_status
external_status_paid o o' s now moved other h = ground arith

order_paid-replace :
    (k m : ℕ) (s : Store) (o o' : PaymentOrder)
    → by_id (λ x. x.id) k s.orders ≡ some o
    → o'.id ≡ some k
    → is_paid o'.status ≡ is_paid o.status
    → order_paid m (replace (λ x. x.id) o' s.orders) ≡ order_paid m s.orders
order_paid-replace k m s o o' found id same = elim (Bool-cases (k == m)) [
  | inl e ↦
      let equal : k ≡ m = ground arith in
      ground (arith, by_id-replace (λ (x : PaymentOrder). x.id) o' k m s.orders id, found, equal)
  | inr e ↦ ground (arith, by_id-replace (λ (x : PaymentOrder). x.id) o' k m s.orders id)
]

finish_unsuccessful-Step :
    (k : ℕ) (st : Store) (event : PaymentEvent) (order : PaymentOrder) (status : PaymentStatus)
    (now : Instant) (r : Reply)
    → by_id (λ x. x.id) k st.orders ≡ some order
    → is_paid status ≡ false
    → finish_unsuccessful st event order status now ≡ ok r
    → Step st r.store
unfolding finish_unsuccessful save_order append_audit save_event
finish_unsuccessful-Step k st event order status now r found other h =
    elim (Result-cases (apply_external_status order status now)) [
      | inr (x, e) ↦ absurd (ground (arith, e))
      | inl ((o', moved), e) ↦
          let (same, like) = external_status_paid order o' status now moved other e in
          let id : o'.id ≡ some k =
            like ∙ by_id-id (λ (x : PaymentOrder). x.id) k st.orders order found in
          elim (Bool-cases moved) [
            | inl b ↦
                kept (ground (arith, e)) (ground (arith, e))
                  (λ m. ground (arith, e, order_paid-replace k m st order o' found id same))
            | inr b ↦ kept (ground (arith, e)) (ground (arith, e)) (λ m. ground (arith, e))
          ]
    ]

apply_unsuccessful-Step :
    (k : ℕ) (st : Store) (event : PaymentEvent) (order : PaymentOrder) (status : PaymentStatus)
    (now : Instant) (a : PaymentAttempt) (t : TransitionResult) (r : Reply)
    → by_id (λ x. x.id) k st.orders ≡ some order
    → is_paid status ≡ false
    → apply_unsuccessful st event order status now (a, t) ≡ ok r
    → Step st r.store
unfolding apply_unsuccessful ignore_stale save_event
apply_unsuccessful-Step k st event order status now a stale r found other h =
    SameRights-Step (record { periods = ground arith; next = ground arith; orders = ground arith })
apply_unsuccessful-Step k st event order status now a t r found other h =
    elim (Result-cases (save_attempt st a)) [
      | inr (x, e) ↦ absurd (ground (arith, e))
      | inl (saved, e) ↦
          Step-frame (save_attempt-SameRights st saved a e)
            (finish_unsuccessful-Step k saved event order status now r
              (found_after st saved a e k order found) other (ground (arith, e)))
            (record { periods = refl; next = refl; orders = refl })
    ]

pub process_unsuccessful-Step :
    (k : ℕ) (st : Store) (event : PaymentEvent) (order : PaymentOrder)
    (attempt : Option PaymentAttempt) (status : PaymentStatus) (now : Instant) (r : Reply)
    → by_id (λ x. x.id) k st.orders ≡ some order
    → is_paid status ≡ false
    → process_unsuccessful st event order attempt status now ≡ ok r
    → Step st r.store
unfolding process_unsuccessful
process_unsuccessful-Step k st event order none status now r found other h =
    finish_unsuccessful-Step k st event order status now r found other h
process_unsuccessful-Step k st event order (some a) status now r found other h =
    let moved = apply_provider_status a status none none (some event.payload) in
    apply_unsuccessful-Step k st event order status now moved.0 moved.1 r found other h

pub ignored-SameRights :
    (s : Store) (event : PaymentEvent) (now : Instant) (r : Reply)
    → ignore_event s event now ≡ ok r
    → SameRights s r.store
unfolding ignore_event save_event
ignored-SameRights s event now r h = ground arith

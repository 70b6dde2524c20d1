-- ===== src/UseCase/ProcessPayment/Paths.antt =====
-- What holds of each way to answer an event holds of every run: the case split of
-- application/use_cases/process_payment.py, done once.
use project_vpn.Common.{
  ℕ, ◌≡◌, false, not, ◌||◌, Option, none, some, arith, Bool-cases, Option-cases, inl, inr, Text,
  text_eq, codes, pos, leb_ℤ, ltb_ℤ, upper, strip, ℤ, Instant,
}
use project_vpn.Errors.{ok, ◌>>=◌}
use project_vpn.Payment.Status.{PaymentStatus, is, is_paid}
use project_vpn.Payment.Order.{PaymentOrder}
use project_vpn.Payment.Attempt.{PaymentAttempt}
use project_vpn.Payment.Event.{PaymentEvent, normalized_payment_status}
use project_vpn.Payment.Event
use project_vpn.UseCase.Rows.{Store, by_id, save_event}
use project_vpn.UseCase.Reply.{Reply, processed, no_job, reply, ignore_event, reject_paid_event}
use project_vpn.UseCase.Paid.{process_paid}
use project_vpn.UseCase.Unsuccessful.{process_unsuccessful}
use project_vpn.UseCase.Refund.{record_refund, refund_order, process_refund}
use project_vpn.UseCase.ProcessPayment.{
  is_settled, run_paid, run_unpaid, run_status, run_event, resolve_order_reference,
  attempt_or_latest, named_attempt,
}

-- A property of a store, an event and the answer, with a proof for each way to answer.
pub record Rule (P : Store → PaymentEvent → Reply → Type 0) : Type 0 where
  pub reject :
      (st : Store) (event : PaymentEvent) (now : Instant) (reason : Text) (r : Reply)
      → reject_paid_event st event now reason ≡ ok r
      → P st event r
  pub ignore :
      (st : Store) (event : PaymentEvent) (now : Instant) (r : Reply)
      → ignore_event st event now ≡ ok r
      → P st event r
  pub skip :
      (st : Store) (event : PaymentEvent) (now : Instant) (r : Reply)
      → (save_event st (Event.ignore event now none) >>= reply (processed none) no_job) ≡ ok r
      → P st event r
  pub pay :
      (k : ℕ) (st : Store) (event : PaymentEvent) (order : PaymentOrder)
      (attempt : Option PaymentAttempt) (now : Instant) (r : Reply)
      → by_id (λ x. x.id) k st.orders ≡ some order
      → process_paid st event order attempt now ≡ ok r
      → P st event r
  pub fail :
      (k : ℕ) (st : Store) (event : PaymentEvent) (order : PaymentOrder)
      (attempt : Option PaymentAttempt) (status : PaymentStatus) (now : Instant) (r : Reply)
      → by_id (λ x. x.id) k st.orders ≡ some order
      → is_paid status ≡ false
      → process_unsuccessful st event order attempt status now ≡ ok r
      → P st event r
  pub refund :
      (st : Store) (event : PaymentEvent) (order : PaymentOrder) (attempt : PaymentAttempt)
      (amount : ℤ) (currency : Text) (now : Instant) (r : Reply)
      → record_refund st event order attempt amount currency now ≡ ok r
      → P st event r

module _ {P : Store → PaymentEvent → Reply → Type 0} (rule : Rule P) where
  refund_order_path :
      (s : Store) (event : PaymentEvent) (attempt : PaymentAttempt) (order : PaymentOrder)
      (now : Instant) (amount : Option ℤ) (currency : Option Text) (r : Reply)
      → refund_order s event attempt order now amount currency ≡ ok r
      → P s event r
  unfolding refund_order
  refund_order_path s event attempt order now (some amount) (some currency) r h =
      elim (Bool-cases (leb_ℤ amount (pos 0))) [
        | inl e ↦
            (rule.reject s event now (codes "refund amount/currency is missing") r
              (ground (arith, e)))
        | inr e ↦
            elim (Bool-cases (
              not (text_eq (upper (strip currency)) order.amount.currency)
              || ltb_ℤ (pos order.amount.minor) amount)) [
                | inl f ↦
                    (rule.reject s event now (codes "refund amount/currency does not match order") r
                      (ground (arith, e, f)))
                | inr f ↦
                    rule.refund s event order attempt amount currency now r (ground (arith, e, f))
              ]
      ]
  refund_order_path s event attempt order now none currency r h =
      (rule.reject s event now (codes "refund amount/currency is missing") r h)
  refund_order_path s event attempt order now (some amount) none r h =
      (rule.reject s event now (codes "refund amount/currency is missing") r h)

  process_refund_path :
      (s : Store) (event : PaymentEvent) (now : Instant) (r : Reply)
      → process_refund s event now ≡ ok r
      → P s event r
  unfolding process_refund
  process_refund_path s event now r h = elim (Option-cases event.payment_attempt_id) [
    | inl e ↦
        (rule.reject s event now (codes "refund has no original payment attempt") r
          (ground (arith, e)))
    | inr (i, e) ↦ elim (Option-cases (by_id (λ (x : PaymentAttempt). x.id) i s.attempts)) [
      | inl f ↦
          (rule.reject s event now (codes "refund original payment attempt is missing") r
            (ground (arith, e, f)))
      | inr (a, f) ↦
          elim (Option-cases (by_id (λ (x : PaymentOrder). x.id) a.payment_order_id s.orders)) [
            | inl g ↦
                (rule.reject s event now (codes "refund payment order is missing") r
                  (ground (arith, e, f, g)))
            | inr (o, g) ↦
                refund_order_path s event a o now event.amount_minor event.currency r
                  (ground (arith, e, f, g))
          ]
    ]
  ]

  run_status_path :
      (k : ℕ) (st : Store) (event : PaymentEvent) (order : PaymentOrder)
      (attempt : Option PaymentAttempt) (status : PaymentStatus) (now : Instant) (r : Reply)
      → by_id (λ x. x.id) k st.orders ≡ some order
      → is_paid status ≡ false
      → run_status st event order attempt status now ≡ ok r
      → P st event r
  unfolding run_status save_event
  run_status_path k st event order attempt status now r found other h =
      elim (Bool-cases (
        is status PaymentStatus.failed
        || is status PaymentStatus.expired
        || is status PaymentStatus.cancelled)) [
          | inl e ↦ rule.fail k st event order attempt status now r found other (ground (arith, e))
          | inr e ↦ rule.skip st event now r (ground (arith, e))
        ]

  run_unpaid_path :
      (st : Store) (event : PaymentEvent) (status : PaymentStatus) (now : Instant) (r : Reply)
      → is_paid status ≡ false
      → run_unpaid st event status now ≡ ok r
      → P st event r
  unfolding run_unpaid
  run_unpaid_path st event status now r other h =
      elim (Option-cases (resolve_order_reference st event)) [
        | inl e ↦ rule.ignore st event now r (ground (arith, e))
        | inr (k, e) ↦ elim (Option-cases (by_id (λ (x : PaymentOrder). x.id) k st.orders)) [
          | inl f ↦ rule.ignore st event now r (ground (arith, e, f))
          | inr (o, f) ↦
              run_status_path k st event o (attempt_or_latest st k (named_attempt st event)) status
                now r f other (ground (arith, e, f))
        ]
      ]

  run_paid_path :
      (st : Store) (event : PaymentEvent) (now : Instant) (r : Reply)
      → run_paid st event now ≡ ok r
      → P st event r
  unfolding run_paid
  run_paid_path st event now r h = elim (Option-cases event.payment_attempt_id) [
    | inl e ↦
        (rule.reject st event now (codes "paid event has no exact payment attempt") r
          (ground (arith, e)))
    | inr (i, e) ↦ elim (Option-cases (by_id (λ (x : PaymentAttempt). x.id) i st.attempts)) [
      | inl f ↦
          (rule.reject st event now (codes "exact payment attempt is missing") r
            (ground (arith, e, f)))
      | inr (a, f) ↦
          elim (Option-cases (by_id (λ (x : PaymentOrder). x.id) a.payment_order_id st.orders)) [
            | inl g ↦
                (rule.reject st event now (codes "payment order is missing") r
                  (ground (arith, e, f, g)))
            | inr (o, g) ↦
                rule.pay a.payment_order_id st event o (some a) now r g (ground (arith, e, f, g))
          ]
    ]
  ]

  pub run_event_path :
      (st : Store) (event : PaymentEvent) (now : Instant) (r : Reply)
      → is_settled event.status ≡ false
      → run_event st event now ≡ ok r
      → P st event r
  unfolding run_event
  run_event_path st event now r fresh h =
      elim (Bool-cases (text_eq event.event_type (codes "refund.succeeded"))) [
        | inl f ↦ process_refund_path st event now r (ground (arith, f))
        | inr f ↦ elim (Bool-cases (is_paid (normalized_payment_status event))) [
          | inl g ↦ run_paid_path st event now r (ground (arith, f, g))
          | inr g ↦
              run_unpaid_path st event (normalized_payment_status event) now r g
                (ground (arith, f, g))
        ]
      ]

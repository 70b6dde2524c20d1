-- ===== src/UseCase/Redelivery/Answers.antt =====
-- What each path of a run writes to the event's row.
use project_vpn.Common.{
  ℕ, ◌≡◌, ◌++◌, refl, ap, ◌∙◌, Bool, true, false, not, Option, none, some, arith, Option-cases, inl,
  inr, Text, codes, ℤ, Instant,
}
use project_vpn.Errors.{Error, ◌>>=◌, payment_invariant_violation, ok, Result-cases}
use project_vpn.Payment.Status.{PaymentStatus, is_paid, TransitionResult, applied, duplicate, stale}
use project_vpn.Payment.Order.{PaymentOrder, mark_paid, apply_external_status}
use project_vpn.Payment.Attempt.{PaymentAttempt, apply_provider_status}
use project_vpn.Payment.Event
use project_vpn.Payment.Event.{PaymentEvent, mark_processed, ignore, normalized_payment_status}
use project_vpn.Payment.Settlement.{validate_paid_settlement}
use project_vpn.UseCase.Rows.{
  Store, by_id, replace, save_event, save_attempt, save_order, append_audit,
  create_provider_transaction,
}
use project_vpn.UseCase.Reply.{
  no_job, reply, Outcome, Reply, rejected, ignored, processed, transaction_of, ignore_event,
  reject_paid_event, ignore_stale,
}
use project_vpn.UseCase.Paid.{
  grant, settle, settle_valid, settlement_failed, after_validation, process_paid,
}
use project_vpn.UseCase.Unsuccessful.{finish_unsuccessful, apply_unsuccessful, process_unsuccessful}
use project_vpn.UseCase.Refund.{reconcile, record_refund}
use project_vpn.UseCase.ProcessPayment.Paths.{Rule}
use project_vpn.UseCase.ProcessPayment.{is_settled}
use project_vpn.UseCase.Redelivery.Frame.{save_attempt-events, grant-events, reconcile-events}

abbrev pub is_rejected : Outcome → Bool
is_rejected rejected = true
is_rejected _ = false

-- The run has updated the event's row, to a settled status unless it rejected the event.
pub record Answered (st : Store) (event : PaymentEvent) (r : Reply) : Type 0 where
  pub answer : PaymentEvent
  pub events : r.store.events ≡ replace (λ x. x.id) answer st.events
  pub id : answer.id ≡ event.id
  pub status : is_settled answer.status ≡ not (is_rejected r.outcome)

module _ (st : Store) (event : PaymentEvent) (now : Instant) (r : Reply) where
  ignored-Answered : ignore_event st event now ≡ ok r → Answered st event r
  unfolding ignore_event save_event ignore
  ignored-Answered h = record {
    answer = ignore event now none;
    events = ground arith;
    id = refl;
    status = ground arith;
  }

  rejected-Answered :
      (reason : Text) → reject_paid_event st event now reason ≡ ok r → Answered st event r
  unfolding reject_paid_event save_event Event.fail
  rejected-Answered reason h = record {
    answer = Event.fail event now reason;
    events = ground arith;
    id = refl;
    status = ground arith;
  }

  failed-Answered : (e : Error) → settlement_failed st event now e ≡ ok r → Answered st event r
  unfolding settlement_failed
  failed-Answered (payment_invariant_violation m) h =
      rejected-Answered (codes "payment settlement rejected: " ++ codes m) h
  failed-Answered _ h = absurd (ground arith)

ignored_with :
    (st : Store) (event : PaymentEvent) (now : Instant) (r : Reply) (message : Text)
    (outcome : Outcome)
    → is_rejected outcome ≡ false
    → (ignore_stale st event now message >>= reply outcome no_job) ≡ ok r
    → Answered st event r
unfolding ignore_stale save_event ignore
ignored_with st event now r message outcome kept h = record {
  answer = ignore event now (some message);
  events = ground arith;
  id = refl;
  status = ground arith;
}

record_refund-Answered :
    (s : Store) (event : PaymentEvent) (order : PaymentOrder) (attempt : PaymentAttempt)
    (amount : ℤ) (currency : Text) (now : Instant) (r : Reply)
    → record_refund s event order attempt amount currency now ≡ ok r
    → Answered s event r
unfolding record_refund create_provider_transaction save_event mark_processed
record_refund-Answered s event order attempt amount currency now r h =
    elim (Option-cases order.id) [
      | inl e ↦ absurd (ground (arith, e))
      | inr (n, e) ↦
          let noted = create_provider_transaction s (
            transaction_of event n attempt amount currency (codes "refund_succeeded")
              (codes "succeeded")) in
          elim (Result-cases (reconcile noted n event order now)) [
            | inr (x, f) ↦ absurd (ground (arith, e, f))
            | inl ((t, job), f) ↦ record {
              answer = mark_processed event now;
              events = ground (arith, e, f, reconcile-events noted t n event order now job f);
              id = refl;
              status = ground (arith, e, f);
            }
          ]
    ]

settle-Answered :
    (st : Store) (event : PaymentEvent) (order : PaymentOrder) (now : Instant) (amount : ℤ)
    (currency : Text) (a : PaymentAttempt) (r : Reply)
    → settle st event order now amount currency (a, applied) ≡ ok r
    → Answered st event r
unfolding settle save_event create_provider_transaction mark_processed
settle-Answered st event order now amount currency a r h = elim (Result-cases (save_attempt st a)) [
  | inr (x, e) ↦ absurd (ground (arith, e))
  | inl (saved, e) ↦ elim (Result-cases (mark_paid order now)) [
    | inr (x, f) ↦ absurd (ground (arith, e, f))
    | inl ((paid, moved), f) ↦ elim (Result-cases (grant saved order now (paid, moved))) [
      | inr (x, g) ↦ absurd (ground (arith, e, f, g))
      | inl ((done, id), g) ↦
          let kept = save_attempt-events st saved a e in
          let like = grant-events saved done order paid now moved id g in
          record {
            answer = mark_processed event now;
            events = ground (arith, e, f, g);
            id = refl;
            status = ground (arith, e, f, g);
          }
    ]
  ]
]

finish_unsuccessful-Answered :
    (st : Store) (event : PaymentEvent) (order : PaymentOrder) (status : PaymentStatus)
    (now : Instant) (r : Reply)
    → finish_unsuccessful st event order status now ≡ ok r
    → Answered st event r
unfolding finish_unsuccessful save_order append_audit save_event mark_processed
finish_unsuccessful-Answered st event order status now r h =
    elim (Result-cases (apply_external_status order status now)) [
      | inr (x, e) ↦ absurd (ground (arith, e))
      | inl ((o', moved), e) ↦ record {
        answer = mark_processed event now;
        events = ground (arith, e);
        id = refl;
        status = ground (arith, e);
      }
    ]

settle_any-Answered :
    (st : Store) (event : PaymentEvent) (order : PaymentOrder) (now : Instant) (amount : ℤ)
    (currency : Text) (a : PaymentAttempt) (t : TransitionResult) (r : Reply)
    → settle st event order now amount currency (a, t) ≡ ok r
    → Answered st event r
unfolding settle ignore_stale save_event
settle_any-Answered st event order now amount currency a applied r h =
    settle-Answered st event order now amount currency a r h
settle_any-Answered st event order now amount currency a duplicate r h =
    settle-Answered st event order now amount currency a r h
settle_any-Answered st event order now amount currency a stale r h =
    ignored_with st event now r _ ignored refl h

valid-Answered :
    (st : Store) (event : PaymentEvent) (order : PaymentOrder) (now : Instant)
    (attempt : Option PaymentAttempt) (amount : Option ℤ) (currency : Option Text) (r : Reply)
    → settle_valid st event order now attempt amount currency ≡ ok r
    → Answered st event r
unfolding settle_valid
valid-Answered st event order now (some a) (some n) (some c) r h =
    let moved = apply_provider_status a PaymentStatus.paid none none (some event.payload) in
    settle_any-Answered st event order now n c moved.0 moved.1 r h
valid-Answered st event order now none n c r h = absurd (ground arith)
valid-Answered st event order now (some a) none c r h = absurd (ground arith)
valid-Answered st event order now (some a) (some n) none r h = absurd (ground arith)

process_paid-Answered :
    (k : ℕ) (st : Store) (event : PaymentEvent) (order : PaymentOrder)
    (attempt : Option PaymentAttempt) (now : Instant) (r : Reply)
    → by_id (λ x. x.id) k st.orders ≡ some order
    → process_paid st event order attempt now ≡ ok r
    → Answered st event r
unfolding process_paid after_validation
process_paid-Answered k st event order attempt now r found h =
    elim (Result-cases (validate_paid_settlement event attempt order)) [
      | inl (u, e) ↦
          valid-Answered st event order now attempt event.amount_minor event.currency r
            (ground (arith, e))
      | inr (x, e) ↦ failed-Answered st event now r x (ground (arith, e))
    ]

apply_unsuccessful-Answered :
    (st : Store) (event : PaymentEvent) (order : PaymentOrder) (status : PaymentStatus)
    (now : Instant) (a : PaymentAttempt) (t : TransitionResult) (r : Reply)
    → apply_unsuccessful st event order status now (a, t) ≡ ok r
    → Answered st event r
unfolding apply_unsuccessful
apply_unsuccessful-Answered st event order status now a stale r h =
    ignored_with st event now r _ (processed none) refl h
apply_unsuccessful-Answered st event order status now a t r h =
    elim (Result-cases (save_attempt st a)) [
      | inr (x, e) ↦ absurd (ground (arith, e))
      | inl (saved, e) ↦
          let more =
            finish_unsuccessful-Answered saved event order status now r (ground (arith, e)) in
          record {
            answer = more.answer;
            events =
                more.events
                ∙ ap (replace (λ x. x.id) more.answer) (save_attempt-events st saved a e);
            id = more.id;
            status = more.status;
          }
    ]

process_unsuccessful-Answered :
    (k : ℕ) (st : Store) (event : PaymentEvent) (order : PaymentOrder)
    (attempt : Option PaymentAttempt) (status : PaymentStatus) (now : Instant) (r : Reply)
    → by_id (λ x. x.id) k st.orders ≡ some order
    → is_paid status ≡ false
    → process_unsuccessful st event order attempt status now ≡ ok r
    → Answered st event r
unfolding process_unsuccessful
process_unsuccessful-Answered k st event order none status now r found other h =
    finish_unsuccessful-Answered st event order status now r h
process_unsuccessful-Answered k st event order (some a) status now r found other h =
    let moved = apply_provider_status a status none none (some event.payload) in
    apply_unsuccessful-Answered st event order status now moved.0 moved.1 r h

skipped-Answered :
    (st : Store) (event : PaymentEvent) (now : Instant) (r : Reply)
    → (save_event st (ignore event now none) >>= reply (processed none) no_job) ≡ ok r
    → Answered st event r
unfolding save_event ignore
skipped-Answered st event now r h = record {
  answer = ignore event now none;
  events = ground arith;
  id = refl;
  status = ground arith;
}

pub Answered-Rule : Rule Answered
Answered-Rule = record {
  reject = λ st event now reason r h. rejected-Answered st event now r reason h;
  ignore = λ st event now r h. ignored-Answered st event now r h;
  skip = skipped-Answered;
  pay = process_paid-Answered;
  fail = process_unsuccessful-Answered;
  refund = record_refund-Answered;
}

-- ===== src/UseCase/Entitlement/Runs.antt =====
-- Whole runs of application/use_cases/process_payment.py as steps on entitlements.
use project_vpn.Common.{
  ℕ, ◌≡◌, sym, List, [], ◌∷◌, true, none, arith, Bool-cases, Option-cases, inl, inr, Instant,
}
use mathlib.Core.Path.{subst}
use project_vpn.Errors.{Result, ◌>>=◌, ok, err, Result-cases}
use project_vpn.Payment.Event.{PaymentEvent, normalized_payment_status}
use project_vpn.UseCase.Rows.{Store, by_id, save_event}
use project_vpn.UseCase.Reply.{processed, no_job, reply, Reply}
use project_vpn.UseCase.ProcessPayment.{is_settled, run_event, execute}
use project_vpn.Payment.Event
use project_vpn.UseCase.ProcessPayment.Paths.{Rule, run_event_path}
use project_vpn.UseCase.Entitlement.{IsEntitled, Step, SameRights, SameRights-Step}
use project_vpn.UseCase.Entitlement.Grants.{process_paid-Step}
use project_vpn.UseCase.Entitlement.Failures.{process_unsuccessful-Step, ignored-SameRights}
use project_vpn.UseCase.Entitlement.Preserves.{Step-IsEntitled}
use project_vpn.UseCase.Entitlement.Refunds.{record_refund-Step, rejected-SameRights}

skipped-SameRights :
    (st : Store) (event : PaymentEvent) (now : Instant) (r : Reply)
    → (save_event st (Event.ignore event now none) >>= reply (processed none) no_job) ≡ ok r
    → SameRights st r.store
unfolding save_event
skipped-SameRights st event now r h = ground arith

settled-SameRights :
    (st : Store) (event : PaymentEvent) (now : Instant) (r : Reply)
    → is_settled event.status ≡ true
    → run_event st event now ≡ ok r
    → SameRights st r.store
unfolding run_event
settled-SameRights st event now r e h = ground arith

-- Each way to answer an event is a step.
Step-Rule : Rule (λ st event r. Step st r.store)
Step-Rule = record {
  reject = λ st event now reason r h. SameRights-Step (rejected-SameRights st event now reason r h);
  ignore = λ st event now r h. SameRights-Step (ignored-SameRights st event now r h);
  skip = λ st event now r h. SameRights-Step (skipped-SameRights st event now r h);
  pay = process_paid-Step;
  fail = process_unsuccessful-Step;
  refund = record_refund-Step;
}

run_event-Step :
    (st : Store) (event : PaymentEvent) (now : Instant) (r : Reply)
    → run_event st event now ≡ ok r
    → Step st r.store
run_event-Step st event now r h = elim (Bool-cases (is_settled event.status)) [
  | inl e ↦ SameRights-Step (settled-SameRights st event now r e h)
  | inr e ↦ run_event_path Step-Rule st event now r e h
]

-- Every run that succeeds does one of three things to entitlements: nothing; it turns one order that
-- was not paid into a paid one and adds one period, numbered next and named for that order; or it
-- marks the period of one order as not paid.
pub execute-Step :
    (st : Store) (id : ℕ) (now : Instant) (r : Reply) → execute st id now ≡ ok r → Step st r.store
unfolding execute
execute-Step st id now r h = elim (Option-cases (by_id (λ (x : PaymentEvent). x.id) id st.events)) [
  | inl e ↦
      SameRights-Step (record {
        periods = ground (arith, e);
        next = ground (arith, e);
        orders = ground (arith, e);
      })
  | inr (event, e) ↦ run_event-Step st event now r (ground (arith, e))
]

-- The store after a run; one that raises writes nothing.
abbrev pub store_after : Store → Result Reply → Store
store_after st (ok r) = r.store
store_after st (err e) = st

-- The runs of a queue of events, each with its time.
pub run_queue : Store → List (ℕ × Instant) → Store
run_queue st [] = st
run_queue st ((id, now) ∷ rest) = run_queue (store_after st (execute st id now)) rest

-- Whatever events are processed, however often and in whatever order, an order has at most one
-- period, and none unless it is paid.
pub run_queue-IsEntitled :
    (st : Store) (queue : List (ℕ × Instant)) → IsEntitled st → IsEntitled (run_queue st queue)
unfolding run_queue
run_queue-IsEntitled st [] v = v
run_queue-IsEntitled st ((id, now) ∷ rest) v = elim (Result-cases (execute st id now)) [
  | inl (r, e) ↦
      subst (λ x. IsEntitled (run_queue (store_after st x) rest)) (sym e)
        (run_queue-IsEntitled r.store rest (Step-IsEntitled (execute-Step st id now r e) v))
  | inr (x, e) ↦
      subst (λ x. IsEntitled (run_queue (store_after st x) rest)) (sym e)
        (run_queue-IsEntitled st rest v)
]

-- ===== src/UseCase/Redelivery/Twice.antt =====
-- What a second run for one event does.
use project_vpn.Common.{
  ℕ, ◌≡◌, refl, ap, ◌∙◌, true, false, not, none, some, arith, Bool-cases, Option-cases, inl, inr,
  Instant,
}
use project_vpn.Errors.{ok}
use project_vpn.Payment.Event.{PaymentEvent}
use project_vpn.UseCase.Rows.{Store, by_id}
use project_vpn.UseCase.Rows.Laws.{by_id-id, by_id-replace}
use project_vpn.UseCase.Reply.{Reply, missing, settled, no_job}
use project_vpn.UseCase.ProcessPayment.{is_settled, run_event, execute}
use project_vpn.UseCase.ProcessPayment.Paths.{run_event_path}
use project_vpn.UseCase.Redelivery.Answers.{is_rejected, Answered, Answered-Rule}

-- A run that finds nothing to do.
pub record IsIdle (st : Store) (id : ℕ) (now : Instant) : Type 0 where
  pub answer : Reply
  pub succeeds : execute st id now ≡ ok answer
  pub store : answer.store ≡ st
  pub job : answer.job ≡ no_job

found_settled :
    (st : Store) (id : ℕ) (event : PaymentEvent) (now : Instant)
    → by_id (λ x. x.id) id st.events ≡ some event
    → is_settled event.status ≡ true
    → IsIdle st id now
unfolding execute run_event
found_settled st id event now found done = record {
  answer = record { store = st; outcome = settled event.status; job = no_job };
  succeeds = ground arith;
  store = refl;
  job = refl;
}

not_found :
    (st : Store) (id : ℕ) (now : Instant)
    → by_id (λ (x : PaymentEvent). x.id) id st.events ≡ none
    → IsIdle st id now
unfolding execute
not_found st id now gone = record {
  answer = record { store = st; outcome = missing; job = no_job };
  succeeds = ground arith;
  store = refl;
  job = refl;
}

found_after :
    (st : Store) (id : ℕ) (event : PaymentEvent) (r : Reply)
    → by_id (λ x. x.id) id st.events ≡ some event
    → (a : Answered st event r) → by_id (λ x. x.id) id r.store.events ≡ some a.answer
found_after st id event r found a = ground (
  arith,
  a.events,
  by_id-replace (λ (x : PaymentEvent). x.id) a.answer id id st.events
      (a.id ∙ by_id-id (λ (x : PaymentEvent). x.id) id st.events event found),
)

settled_found :
    (st : Store) (id : ℕ) (event : PaymentEvent) (now : Instant) (r : Reply)
    → by_id (λ x. x.id) id st.events ≡ some event
    → is_settled event.status ≡ true
    → execute st id now ≡ ok r
    → by_id (λ x. x.id) id r.store.events ≡ some event
unfolding execute run_event
settled_found st id event now r found done h = ground arith

-- Once a run has answered an event other than by rejecting it, a second run for that event, at any
-- time, succeeds, writes nothing and enqueues nothing.
pub execute_twice :
    (st : Store) (id : ℕ) (now later : Instant) (r : Reply)
    → execute st id now ≡ ok r
    → is_rejected r.outcome ≡ false
    → IsIdle r.store id later
unfolding execute
execute_twice st id now later r h kept =
    elim (Option-cases (by_id (λ (x : PaymentEvent). x.id) id st.events)) [
      | inl e ↦ not_found r.store id later (ground (arith, e))
      | inr (event, e) ↦ elim (Bool-cases (is_settled event.status)) [
        | inl f ↦ found_settled r.store id event later (settled_found st id event now r e f h) f
        | inr f ↦
            let a = run_event_path Answered-Rule st event now r f (ground (arith, e)) in
            found_settled r.store id a.answer later (found_after st id event r e a)
              (a.status ∙ ap not kept)
      ]
    ]

-- ===== src/Tests/Settlements.antt =====
-- A payment that reaches application/use_cases/process_payment.py twice.
use project_vpn.Common.{
  ℕ, ◌≤◌, false, ap, arith, if◌then◌else◌, ◌≡◌, refl, none, some, [], ◌∷◌, strip, upper,
}
use project_vpn.Errors.{Result, ok, err}
use project_vpn.Payment.Status.{PaymentStatus}
use project_vpn.Payment.Attempt.{PaymentAttempt}
use project_vpn.Payment.Settlement.{validate_paid_settlement}
use project_vpn.UseCase.Rows.{replace, Store, by_id}
use project_vpn.UseCase.Reply.{Reply, no_job, processed}
use project_vpn.UseCase.Paid.{process_paid}
use project_vpn.UseCase.Paid.Grants.{SameAccess, IsExtended, paid_again, paid_first-IsExtended}
use project_vpn.UseCase.ProcessPayment.{execute}
use project_vpn.UseCase.Entitlement.{IsEntitled, Step, periods_of, order_paid}
use project_vpn.UseCase.Entitlement.Runs.{execute-Step, run_queue, run_queue-IsEntitled}
use project_vpn.UseCase.Redelivery.Answers.{is_rejected}
use project_vpn.UseCase.Redelivery.Twice.{IsIdle, execute_twice}
use project_vpn.Tests.Payments.{open_order, paid_order, open_attempt, paid_event}

abbrev pub before : Store
before = record {
  events = paid_event ∷ [];
  orders = open_order ∷ [];
  attempts = open_attempt ∷ [];
  transactions = [];
  subscriptions = [];
  periods = [];
  next_subscription_id = 1;
  next_period_id = 1;
  audit = [];
  vpn = [];
}

-- The reply of a run that succeeds.
abbrev reply_of : Result Reply → Reply
reply_of (ok r) = r
reply_of (err e) = record { store = before; outcome = processed none; job = no_job }

abbrev first : Reply
unfolding process_paid validate_paid_settlement strip upper
first = reply_of (process_paid before paid_event open_order (some open_attempt) 2000)

first_succeeds : process_paid before paid_event open_order (some open_attempt) 2000 ≡ ok first
unfolding process_paid validate_paid_settlement strip upper
first_succeeds = refl

first_processed : first.outcome ≡ processed (some 1)
unfolding process_paid validate_paid_settlement strip upper
first_processed = refl

paid_first-IsExtended_example : IsExtended (some 7) before first.store
paid_first-IsExtended_example =
    paid_first-IsExtended before paid_event open_order (some open_attempt) 2000 (some 1) first refl
      first_succeeds first_processed

abbrev settled_attempt : PaymentAttempt
settled_attempt = record open_attempt { status = PaymentStatus.paid }

abbrev second : Reply
unfolding process_paid validate_paid_settlement strip upper
second = reply_of (process_paid first.store paid_event paid_order (some settled_attempt) 3000)

second_succeeds :
    process_paid first.store paid_event paid_order (some settled_attempt) 3000 ≡ ok second
unfolding process_paid validate_paid_settlement strip upper replace
second_succeeds = refl

paid_again_example : SameAccess first.store second.store × (second.job ≡ no_job)
paid_again_example =
    paid_again first.store paid_event paid_order (some settled_attempt) 3000 second refl
      second_succeeds

-- The whole run for the event, from its row on
abbrev whole : Reply
unfolding execute validate_paid_settlement strip upper
whole = reply_of (execute before 5 2000)

whole_succeeds : execute before 5 2000 ≡ ok whole
unfolding execute validate_paid_settlement strip upper
whole_succeeds = refl

whole_processed : whole.outcome ≡ processed (some 1)
unfolding execute validate_paid_settlement strip upper
whole_processed = refl

execute-Step_example : Step before whole.store
execute-Step_example = execute-Step before 5 2000 whole whole_succeeds

no_periods : (n : ℕ) → periods_of n [] ≤ (if order_paid n (open_order ∷ []) then 1 else 0)
unfolding by_id
no_periods n = ground arith

run_queue-IsEntitled_example :
    IsEntitled (run_queue before ((5, 2000) ∷ (5, 3000) ∷ (6, 3500) ∷ []))
run_queue-IsEntitled_example =
    run_queue-IsEntitled before ((5, 2000) ∷ (5, 3000) ∷ (6, 3500) ∷ [])
      (record { numbered = omega arith; entitled = no_periods })

whole_kept : is_rejected whole.outcome ≡ false
whole_kept = ap is_rejected whole_processed

execute_twice_example : IsIdle whole.store 5 3000
execute_twice_example = execute_twice before 5 2000 3000 whole whole_succeeds whole_kept

-- ===== src/Task/Node/Fencing.antt =====
-- Ownership of a node task: an attempt that was given up never owns the task again.
use project_vpn.Common.{
  ℕ, ◌+◌, ◌≤◌, ◌<◌, ◌≡◌, ◌↔◌, ◌⊎◌, true, false, Option, is_some, List, [], ◌∷◌, arith, Text,
  Instant, ℤ,
}
use project_vpn.Common.Json.{Payload}
use project_vpn.Errors.{Result, ok, err}
use project_vpn.Task.Lease.{TaskStatus, is}
use project_vpn.Task.Node.{
  NodeTask, start_attempt, owns_active_lease, lease_is_expired, complete, fail, retry,
  recover_expired_lease, defer_without_attempt,
}

-- One call that changes a task.
pub data Call : Type 0 where
  call_start : Instant → Instant → ℕ → Call
  call_complete : Payload → Instant → Call
  call_fail : Text → Option Payload → Instant → Call
  call_recover : Instant → Text → ℕ → Call
  call_retry : Text → Option Payload → Instant → ℕ → Call
  call_defer : Instant → ℤ → Text → Call

abbrev or_same : NodeTask → Result NodeTask → NodeTask
or_same t (ok t') = t'
or_same t (err e) = t

-- The task after a call; a call that raises leaves it as it was.
unfoldable pub after : NodeTask → Call → NodeTask
unfolding start_attempt complete fail recover_expired_lease retry defer_without_attempt
after t (call_start now until token) = or_same t (start_attempt t now until token)
after t (call_complete response now) = or_same t (complete t response now)
after t (call_fail e response now) = fail t e response now
after t (call_recover now e base) = or_same t (recover_expired_lease t now e base)
after t (call_retry e response now base) = retry t e response now base
after t (call_defer now delay e) = or_same t (defer_without_attempt t now delay e)

unfoldable pub run_task : NodeTask → List Call → NodeTask
run_task t [] = t
run_task t (m ∷ ms) = run_task (after t m) ms

-- The fields of a lease are there together, exactly while the task is in progress.
pub record IsValid (t : NodeTask) : Type 0 where
  pub token : is_some t.lease_token ≡ is t.status TaskStatus.in_progress
  pub lease : is_some t.lease_expires_at ≡ is t.status TaskStatus.in_progress
  pub claimed : is_some t.claimed_at ≡ is t.status TaskStatus.in_progress

-- Attempt number `n` is over.
pub record IsReleased (n : ℕ) (t : NodeTask) : Type 0 where
  pub begun : n ≤ t.attempts
  pub over : (is t.status TaskStatus.in_progress ≡ false) ⊎ (n < t.attempts)

after-IsValid : (t : NodeTask) (m : Call) → IsValid t → IsValid (after t m)
unfolding after
after-IsValid t (call_start now until token) v = ground arith
after-IsValid t _ v = ground arith

after-IsReleased : (n : ℕ) (t : NodeTask) (m : Call) → IsReleased n t → IsReleased n (after t m)
unfolding after
after-IsReleased n t (call_start now until token) v = ground arith
after-IsReleased n t _ v = ground arith

-- Whatever is called, the fields of a lease are there exactly while the task is in progress.
pub run_task-IsValid : (t : NodeTask) (ms : List Call) → IsValid t → IsValid (run_task t ms)
unfolding run_task
run_task-IsValid t [] v = v
run_task-IsValid t (m ∷ ms) v = run_task-IsValid (after t m) ms (after-IsValid t m v)

run_task-IsReleased :
    (n : ℕ) (t : NodeTask) (ms : List Call) → IsReleased n t → IsReleased n (run_task t ms)
unfolding run_task
run_task-IsReleased n t [] v = v
run_task-IsReleased n t (m ∷ ms) v = run_task-IsReleased n (after t m) ms (after-IsReleased n t m v)

released_free :
    (n token : ℕ) (now : Instant) (t : NodeTask)
    → IsReleased n t
    → owns_active_lease t token now n ≡ false
unfolding owns_active_lease
released_free n token now t v = ground arith

-- Once attempt `n` has begun and is over, no token owns the task under that number again, whatever
-- is called and at any time: a worker that comes back late is refused.
pub late_node_worker_refused :
    (n token : ℕ) (now : Instant) (t : NodeTask) (ms : List Call)
    → IsReleased n t
    → owns_active_lease (run_task t ms) token now n ≡ false
late_node_worker_refused n token now t ms v =
    released_free n token now (run_task t ms) (run_task-IsReleased n t ms v)

-- An attempt that starts is owned by its token and number alone, until the time that was asked for,
-- and its lease is expired from then on; and recovery ends it only from then on.
pub node_attempt_exclusive :
    (t : NodeTask) (now until token : ℕ) (t' : NodeTask)
    → start_attempt t now until token ≡ ok t'
    → ((other n : ℕ) (at : Instant)
        → (owns_active_lease t' other at n ≡ true)
          ↔ ((other ≡ token) × (n ≡ t.attempts + 1) × (at < until)))
      × ((at : Instant) → (lease_is_expired t' at ≡ true) ↔ (until ≤ at))
      × ((at : Instant) (e : Text) (base : ℕ) (t'' : NodeTask)
          → recover_expired_lease t' at e base ≡ ok t''
          → (until ≤ at) × IsReleased t'.attempts t'')
unfolding start_attempt owns_active_lease lease_is_expired recover_expired_lease
node_attempt_exclusive t now until token t' h = (
  (λ other n at. (λ e. ground arith, λ e. ground arith)),
  (λ at. (λ e. ground arith, λ e. ground arith)),
  (λ at e base t'' r. ground arith),
)

-- ===== src/Task/Provision/Fencing.antt =====
-- Ownership of a provision task: an attempt that was given up never owns the task again.
use project_vpn.Common.{
  ℕ, ◌+◌, ◌≤◌, ◌<◌, ◌≡◌, ◌↔◌, ◌⊎◌, Bool, true, false, is_some, List, [], ◌∷◌, arith, Text, Instant,
}
use project_vpn.Errors.{Result, ok, err}
use project_vpn.Task.Lease.{TaskStatus, is}
use project_vpn.Task.Provision.{
  PanelProvisionTask, start_attempt, owns_active_lease, owns_lease, lease_is_expired, complete,
  cancel, fail, retry, recover_expired_lease, mark_compensation_required, require_compensation,
  compensation_succeeded,
}

-- One call that changes a task.
pub data Call : Type 0 where
  call_start : Instant → Instant → ℕ → Call
  call_complete call_cancel : Instant → Call
  call_fail call_recover call_mark call_require : Instant → Text → Call
  call_retry : Instant → Text → ℕ → Call
  call_compensated : Instant → Bool → Call

abbrev or_same : PanelProvisionTask → Result PanelProvisionTask → PanelProvisionTask
or_same t (ok t') = t'
or_same t (err e) = t

-- The task after a call; a call that raises leaves it as it was.
unfoldable pub after : PanelProvisionTask → Call → PanelProvisionTask
unfolding start_attempt complete cancel fail recover_expired_lease mark_compensation_required
    require_compensation retry compensation_succeeded
after t (call_start now until token) = or_same t (start_attempt t now until token)
after t (call_complete now) = or_same t (complete t now)
after t (call_cancel now) = cancel t now
after t (call_fail now e) = fail t now e
after t (call_recover now e) = or_same t (recover_expired_lease t now e)
after t (call_mark now e) = or_same t (mark_compensation_required t now e)
after t (call_require now e) = require_compensation t now e
after t (call_retry now e base) = retry t now e base
after t (call_compensated now terminal) = compensation_succeeded t now terminal

unfoldable pub run_provision : PanelProvisionTask → List Call → PanelProvisionTask
run_provision t [] = t
run_provision t (m ∷ ms) = run_provision (after t m) ms

-- The fields of a lease are there together, exactly while the task is in progress.
pub record IsValid (t : PanelProvisionTask) : Type 0 where
  pub token : is_some t.lease_token ≡ is t.status TaskStatus.in_progress
  pub lease : is_some t.lease_expires_at ≡ is t.status TaskStatus.in_progress
  pub claimed : is_some t.claimed_at ≡ is t.status TaskStatus.in_progress

-- Attempt number `n` is over.
pub record IsReleased (n : ℕ) (t : PanelProvisionTask) : Type 0 where
  pub begun : n ≤ t.attempts
  pub over : (is t.status TaskStatus.in_progress ≡ false) ⊎ (n < t.attempts)

after-IsValid : (t : PanelProvisionTask) (m : Call) → IsValid t → IsValid (after t m)
unfolding after
after-IsValid t (call_start now until token) v = ground arith
after-IsValid t _ v = ground arith

after-IsReleased :
    (n : ℕ) (t : PanelProvisionTask) (m : Call) → IsReleased n t → IsReleased n (after t m)
unfolding after
after-IsReleased n t (call_start now until token) v = ground arith
after-IsReleased n t _ v = ground arith

-- Whatever is called, the fields of a lease are there exactly while the task is in progress.
pub run_provision-IsValid :
    (t : PanelProvisionTask) (ms : List Call) → IsValid t → IsValid (run_provision t ms)
unfolding run_provision
run_provision-IsValid t [] v = v
run_provision-IsValid t (m ∷ ms) v = run_provision-IsValid (after t m) ms (after-IsValid t m v)

run_provision-IsReleased :
    (n : ℕ) (t : PanelProvisionTask) (ms : List Call)
    → IsReleased n t
    → IsReleased n (run_provision t ms)
unfolding run_provision
run_provision-IsReleased n t [] v = v
run_provision-IsReleased n t (m ∷ ms) v =
    run_provision-IsReleased n (after t m) ms (after-IsReleased n t m v)

released_free :
    (n token : ℕ) (t : PanelProvisionTask) → IsReleased n t → owns_lease t token n ≡ false
unfolding owns_lease
released_free n token t v = ground arith

-- Once attempt `n` has begun and is over, no token owns the task under that number again, whatever
-- is called: a worker that comes back late is refused.
pub late_worker_refused :
    (n token : ℕ) (t : PanelProvisionTask) (ms : List Call)
    → IsReleased n t
    → owns_lease (run_provision t ms) token n ≡ false
late_worker_refused n token t ms v =
    released_free n token (run_provision t ms) (run_provision-IsReleased n t ms v)

-- An attempt that starts is owned by its token and number alone, with an active lease until the
-- time that was asked for and an expired one from then on; and recovery ends it only from then on.
pub attempt_exclusive :
    (t : PanelProvisionTask) (now until token : ℕ) (t' : PanelProvisionTask)
    → start_attempt t now until token ≡ ok t'
    → ((other n : ℕ) → (owns_lease t' other n ≡ true) ↔ ((other ≡ token) × (n ≡ t.attempts + 1)))
      × ((at : Instant) → (owns_active_lease t' token t'.attempts at ≡ true) ↔ (at < until))
      × ((at : Instant) → (lease_is_expired t' at ≡ true) ↔ (until ≤ at))
      × ((at : Instant) (e : Text) (t'' : PanelProvisionTask)
          → recover_expired_lease t' at e ≡ ok t''
          → (until ≤ at) × IsReleased t'.attempts t'' × (t''.compensation_required ≡ true))
unfolding start_attempt owns_lease owns_active_lease lease_is_expired recover_expired_lease
attempt_exclusive t now until token t' h = (
  (λ other n. (λ e. ground arith, λ e. ground arith)),
  (λ at. (λ e. ground arith, λ e. ground arith)),
  (λ at. (λ e. ground arith, λ e. ground arith)),
  (λ at e t'' r. ground arith),
)

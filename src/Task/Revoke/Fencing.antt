-- ===== src/Task/Revoke/Fencing.antt =====
-- Ownership of a revoke task: an attempt that was given up never owns the task again.
use project_vpn.Common.{
  ℕ, ◌+◌, ◌≤◌, ◌<◌, ◌≡◌, ◌↔◌, ◌⊎◌, true, false, is_some, List, [], ◌∷◌, arith, Text, Instant,
}
use project_vpn.Errors.{Result, ok, err}
use project_vpn.Task.Lease.{TaskStatus, is}
use project_vpn.Task.Revoke.{
  PanelRevokeTask, start_attempt, owns_active_lease, owns_lease, lease_is_expired, complete, fail,
  retry, recover_expired_lease,
}

-- One call that changes a task.
pub data Call : Type 0 where
  call_start : Instant → Instant → ℕ → Call
  call_complete : Instant → Call
  call_fail call_recover : Instant → Text → Call
  call_retry : Instant → Text → ℕ → Call

abbrev or_same : PanelRevokeTask → Result PanelRevokeTask → PanelRevokeTask
or_same t (ok t') = t'
or_same t (err e) = t

-- The task after a call; a call that raises leaves it as it was.
unfoldable pub after : PanelRevokeTask → Call → PanelRevokeTask
unfolding start_attempt complete fail recover_expired_lease retry
after t (call_start now until token) = or_same t (start_attempt t now until token)
after t (call_complete now) = or_same t (complete t now)
after t (call_fail now e) = fail t now e
after t (call_recover now e) = or_same t (recover_expired_lease t now e)
after t (call_retry now e base) = retry t now e base

unfoldable pub run_revoke : PanelRevokeTask → List Call → PanelRevokeTask
run_revoke t [] = t
run_revoke t (m ∷ ms) = run_revoke (after t m) ms

-- The fields of a lease are there together, exactly while the task is in progress.
pub record IsValid (t : PanelRevokeTask) : Type 0 where
  pub token : is_some t.lease_token ≡ is t.status TaskStatus.in_progress
  pub lease : is_some t.lease_expires_at ≡ is t.status TaskStatus.in_progress
  pub claimed : is_some t.claimed_at ≡ is t.status TaskStatus.in_progress

-- Attempt number `n` is over.
pub record IsReleased (n : ℕ) (t : PanelRevokeTask) : Type 0 where
  pub begun : n ≤ t.attempts
  pub over : (is t.status TaskStatus.in_progress ≡ false) ⊎ (n < t.attempts)

after-IsValid : (t : PanelRevokeTask) (m : Call) → IsValid t → IsValid (after t m)
unfolding after
after-IsValid t (call_start now until token) v = ground arith
after-IsValid t _ v = ground arith

after-IsReleased :
    (n : ℕ) (t : PanelRevokeTask) (m : Call) → IsReleased n t → IsReleased n (after t m)
unfolding after
after-IsReleased n t (call_start now until token) v = ground arith
after-IsReleased n t _ v = ground arith

-- Whatever is called, the fields of a lease are there exactly while the task is in progress.
pub run_revoke-IsValid :
    (t : PanelRevokeTask) (ms : List Call) → IsValid t → IsValid (run_revoke t ms)
unfolding run_revoke
run_revoke-IsValid t [] v = v
run_revoke-IsValid t (m ∷ ms) v = run_revoke-IsValid (after t m) ms (after-IsValid t m v)

run_revoke-IsReleased :
    (n : ℕ) (t : PanelRevokeTask) (ms : List Call) → IsReleased n t → IsReleased n (run_revoke t ms)
unfolding run_revoke
run_revoke-IsReleased n t [] v = v
run_revoke-IsReleased n t (m ∷ ms) v =
    run_revoke-IsReleased n (after t m) ms (after-IsReleased n t m v)

released_free : (n token : ℕ) (t : PanelRevokeTask) → IsReleased n t → owns_lease t token n ≡ false
unfolding owns_lease
released_free n token t v = ground arith

-- Once attempt `n` has begun and is over, no token owns the task under that number again, whatever
-- is called: a worker that comes back late is refused.
pub late_revoker_refused :
    (n token : ℕ) (t : PanelRevokeTask) (ms : List Call)
    → IsReleased n t
    → owns_lease (run_revoke t ms) token n ≡ false
late_revoker_refused n token t ms v =
    released_free n token (run_revoke t ms) (run_revoke-IsReleased n t ms v)

-- An attempt that starts is owned by its token and number alone, with an active lease until the
-- time that was asked for and an expired one from then on; and recovery ends it only from then on.
pub revoke_attempt_exclusive :
    (t : PanelRevokeTask) (now until token : ℕ) (t' : PanelRevokeTask)
    → start_attempt t now until token ≡ ok t'
    → ((other n : ℕ) → (owns_lease t' other n ≡ true) ↔ ((other ≡ token) × (n ≡ t.attempts + 1)))
      × ((at : Instant) → (owns_active_lease t' token t'.attempts at ≡ true) ↔ (at < until))
      × ((at : Instant) → (lease_is_expired t' at ≡ true) ↔ (until ≤ at))
      × ((at : Instant) (e : Text) (t'' : PanelRevokeTask)
          → recover_expired_lease t' at e ≡ ok t''
          → (until ≤ at) × IsReleased t'.attempts t'')
unfolding start_attempt owns_lease owns_active_lease lease_is_expired recover_expired_lease
revoke_attempt_exclusive t now until token t' h = (
  (λ other n. (λ e. ground arith, λ e. ground arith)),
  (λ at. (λ e. ground arith, λ e. ground arith)),
  (λ at. (λ e. ground arith, λ e. ground arith)),
  (λ at e t'' r. ground arith),
)

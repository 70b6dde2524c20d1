-- ===== src/Task/Provision/Retries.antt =====
-- How often a provision task is tried: errors use up its attempts, expired leases do not.
use project_vpn.Common.{
  ℕ, zero, suc, ◌+◌, ◌<◌, ◌≡◌, true, Option, none, some, arith, leb, ltb, ◌≤◌, ◌||◌, Bool-cases,
  inl, inr, Text, Instant, if◌then◌else◌,
}
use project_vpn.Errors.{Result, ok, err}
use project_vpn.Task.Lease.{TaskStatus}
use project_vpn.Task.Provision.{PanelProvisionTask, start_attempt, retry, recover_expired_lease}

abbrev or_same : PanelProvisionTask → Result PanelProvisionTask → PanelProvisionTask
or_same t (ok t') = t'
or_same t (err e) = t

-- The first moment at which a pending task may be dispatched.
abbrev ready_at : Option Instant → Instant
ready_at none = 0
ready_at (some at) = at

-- One dispatch, as soon as the task is due, whose remote call fails.
pub failed_round : ℕ → ℕ → Text → PanelProvisionTask → PanelProvisionTask
unfolding start_attempt retry
failed_round base token error t =
    let now = ready_at t.next_retry_at in
    retry (or_same t (start_attempt t now (now + 1) token)) now error base

-- One dispatch whose worker vanishes, and the recovery after its lease.
pub lost_round : ℕ → Text → PanelProvisionTask → PanelProvisionTask
unfolding start_attempt recover_expired_lease
lost_round token error t =
    let now = ready_at t.next_retry_at in
    let started = or_same t (start_attempt t now (now + 1) token) in
    or_same started (recover_expired_lease started (now + 1) error)

abbrev pub iterate :
    ℕ → (PanelProvisionTask → PanelProvisionTask) → PanelProvisionTask → PanelProvisionTask
iterate zero f t = t
iterate (suc n) f t = iterate n f (f t)

failed_round_lem :
    (base token : ℕ) (error : Text) (t : PanelProvisionTask)
    → t.status ≡ TaskStatus.pending
    → let t' = failed_round base token error t in
      (t'.attempts ≡ t.attempts + 1)
      × (t'.max_attempts ≡ t.max_attempts)
      × (t'.status
          ≡ (if leb t.max_attempts (t.attempts + 1) then TaskStatus.failed else TaskStatus.pending))
unfolding failed_round
failed_round_lem base token error t h = ground arith

still_pending :
    (base token : ℕ) (error : Text) (t : PanelProvisionTask)
    → t.status ≡ TaskStatus.pending
    → t.attempts + 1 < t.max_attempts
    → (failed_round base token error t).status ≡ TaskStatus.pending
still_pending base token error t h p = ground (arith, failed_round_lem base token error t h)

lost_round_lem :
    (token : ℕ) (error : Text) (t : PanelProvisionTask)
    → t.status ≡ TaskStatus.pending
    → let t' = lost_round token error t in
      (t'.attempts ≡ t.attempts + 1)
      × (t'.status ≡ TaskStatus.pending)
      × (t'.compensation_required ≡ true)
unfolding lost_round
lost_round_lem token error t h = ground arith

failed_rounds :
    (n base token : ℕ) (error : Text) (t : PanelProvisionTask)
    → t.status ≡ TaskStatus.pending
    → let t' = iterate n (failed_round base token error) t in
      (t.attempts + n < t.max_attempts → t'.status ≡ TaskStatus.pending)
      × (0 < n → t.attempts + n ≡ t.max_attempts → t'.status ≡ TaskStatus.failed)
failed_rounds zero base token error t h = ((λ p. h), (λ p q. absurd (omega arith)))
failed_rounds (suc zero) base token error t h =
    let one = failed_round_lem base token error t h in
    ((λ p. ground (arith, one)), (λ p q. ground (arith, one)))
failed_rounds (suc (suc n)) base token error t h =
    let t' = failed_round base token error t in
    let one = failed_round_lem base token error t h in
    (
      (λ p.
          (failed_rounds (suc n) base token error t'
              (still_pending base token error t h (omega arith))).0
            (omega (arith, one.0, one.1))),
      (λ p q.
          (failed_rounds (suc n) base token error t'
              (still_pending base token error t h (omega arith))).1
            (omega arith) (omega (arith, one.0, one.1))),
    )

-- After `n` dispatches in a row that all fail, a task that was pending with attempts to spare is
-- still pending if these `n` do not use up its attempts, and FAILED if they are exactly the rest.
pub errors_exhaust :
    (n base token : ℕ) (error : Text) (t : PanelProvisionTask)
    → t.status ≡ TaskStatus.pending
    → t.attempts < t.max_attempts
    → t.attempts + n ≤ t.max_attempts
    → (iterate n (failed_round base token error) t).status
      ≡ (if ltb (t.attempts + n) t.max_attempts then TaskStatus.pending else TaskStatus.failed)
errors_exhaust n base token error t h p q =
    let both = failed_rounds n base token error t h in
    elim (Bool-cases (ltb (t.attempts + n) t.max_attempts)) [
      | inl more ↦ rw more (both.0 (ground arith))
      | inr last ↦ rw last (both.1 (ground arith) (ground arith))
    ]

-- Expired leases have no such limit: after any number of workers that vanish the task is pending
-- again, to be compensated first, however many attempts that makes.
pub leases_never_exhaust :
    (n token : ℕ) (error : Text) (t : PanelProvisionTask)
    → t.status ≡ TaskStatus.pending
    → let t' = iterate n (lost_round token error) t in
      (t'.status ≡ TaskStatus.pending)
      × (t'.attempts ≡ t.attempts + n)
      × (t'.compensation_required ≡ (ltb 0 n || t.compensation_required))
leases_never_exhaust zero token error t h = (h, omega arith, ground arith)
leases_never_exhaust (suc n) token error t h =
    let one = lost_round_lem token error t h in
    let rest = leases_never_exhaust n token error (lost_round token error t) one.1 in
    (rest.0, omega (arith, one.0, rest.1), ground (arith, one.2, rest.2))

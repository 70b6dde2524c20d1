-- ===== src/Task/Provision.antt =====
-- `PanelProvisionTask` of domain/entities/panel_task.py.
pub mod Fencing
pub mod Retries
use project_vpn.Common.{
  ℕ, ◌+◌, ◌≡◌, Bool, true, false, not, ◌&&◌, ◌||◌, Option, none, some, ◌==◌, ltb, leb, ltb_ℤ, leb_ℤ,
  same_number, is_blank, strip, if◌then◌else◌, ℤ, pos, pos_part, Text, Instant, seconds,
}
use project_vpn.Common.Json.{Payload}
use project_vpn.Errors.{
  Result, ok, err, Error, domain_validation, invalid_state_transition, raise_if, ◌>>=◌, ◌>>◌,
}
use project_vpn.Task.Lease.{TaskStatus, is, due, is_past, is_future, retry_delay}

pub record PanelProvisionTask : Type 0 where
  pub id : Option ℕ
  pub vpn_configuration_id : ℕ
  pub subscription_id : ℕ
  pub status : TaskStatus
  pub idempotency_key : Text
  pub payload : Payload
  pub vpn_generation : ℕ
  pub attempts : ℕ
  pub max_attempts : ℕ
  pub next_retry_at : Option Instant
  pub last_error : Option Text
  pub claimed_at : Option Instant
  pub lease_expires_at : Option Instant
  pub lease_token : Option ℕ
  pub compensation_required : Bool
  pub created_at : Option Instant
  pub updated_at : Option Instant
  pub completed_at : Option Instant

-- `__post_init__`, with the numbers as the caller hands them over
unfoldable pub post_init : PanelProvisionTask → ℤ → ℤ → ℤ → Result PanelProvisionTask
post_init self attempts max_attempts vpn_generation = do
  raise_if (ltb_ℤ attempts (pos 0) || leb_ℤ max_attempts (pos 0))
      (domain_validation "Invalid panel task attempt limits")
  raise_if (leb_ℤ vpn_generation (pos 0))
      (domain_validation "Panel task VPN generation must be positive")
  raise_if (is_blank (strip self.idempotency_key))
      (domain_validation "Panel task idempotency key cannot be blank")
  ok (record self {
    attempts = pos_part attempts;
    max_attempts = pos_part max_attempts;
    vpn_generation = pos_part vpn_generation;
  })

unfoldable pub can_dispatch : PanelProvisionTask → Instant → Bool
can_dispatch self now = is self.status TaskStatus.pending && due self.next_retry_at now

-- The task as the attempt leaves it; the attempt's number is its `attempts`.
unfoldable pub start_attempt :
    PanelProvisionTask → Instant → Instant → ℕ → Result PanelProvisionTask
unfolding can_dispatch
start_attempt self now lease_expires_at lease_token = do
  raise_if (not (can_dispatch self now))
      (invalid_state_transition "Panel task is not ready for dispatch")
  raise_if (leb lease_expires_at now)
      (domain_validation "Panel task lease must expire after claim time")
  ok (record self {
    status = TaskStatus.in_progress;
    attempts = self.attempts + 1;
    claimed_at = some now;
    lease_expires_at = some lease_expires_at;
    lease_token = some lease_token;
    last_error = none;
    updated_at = some now;
  })

unfoldable pub owns_active_lease : PanelProvisionTask → ℕ → ℕ → Instant → Bool
owns_active_lease self token attempt_no now =
    is self.status TaskStatus.in_progress
    && same_number self.lease_token (some token)
    && self.attempts == attempt_no
    && is_future self.lease_expires_at now

unfoldable pub owns_lease : PanelProvisionTask → ℕ → ℕ → Bool
owns_lease self token attempt_no =
    is self.status TaskStatus.in_progress
    && same_number self.lease_token (some token)
    && self.attempts == attempt_no

unfoldable pub lease_is_expired : PanelProvisionTask → Instant → Bool
lease_is_expired self now =
    is self.status TaskStatus.in_progress && is_past self.lease_expires_at now

unfoldable pub clear_lease : PanelProvisionTask → PanelProvisionTask
clear_lease self = record self { claimed_at = none; lease_expires_at = none; lease_token = none }

unfoldable pub complete : PanelProvisionTask → Instant → Result PanelProvisionTask
unfolding clear_lease
complete self now = do
  raise_if (not (is self.status TaskStatus.in_progress))
      (invalid_state_transition "Only in-progress panel task can complete")
  ok (
      clear_lease (record self {
        status = TaskStatus.succeeded;
        completed_at = some now;
        updated_at = some now;
        last_error = none;
        compensation_required = false;
      }))

unfoldable pub cancel : PanelProvisionTask → Instant → PanelProvisionTask
unfolding clear_lease
cancel self now = clear_lease (record self {
  status = TaskStatus.cancelled;
  completed_at = some now;
  updated_at = some now;
  last_error = none;
  compensation_required = false;
})

unfoldable pub fail : PanelProvisionTask → Instant → Text → PanelProvisionTask
unfolding clear_lease
fail self now error = clear_lease (record self {
  status = TaskStatus.failed;
  last_error = some error;
  completed_at = some now;
  updated_at = some now;
})

unfoldable pub retry : PanelProvisionTask → Instant → Text → ℕ → PanelProvisionTask
unfolding fail clear_lease
retry self now error base_delay_seconds =
    if leb self.max_attempts self.attempts
    then fail self now error
    else clear_lease (record self {
      status = TaskStatus.pending;
      next_retry_at = some (now + seconds (retry_delay base_delay_seconds self.attempts));
      last_error = some error;
      updated_at = some now;
    })

unfoldable pub recover_expired_lease :
    PanelProvisionTask → Instant → Text → Result PanelProvisionTask
unfolding lease_is_expired clear_lease
recover_expired_lease self now error = do
  raise_if (not (lease_is_expired self now))
      (invalid_state_transition "Panel task lease is not expired")
  ok (
      clear_lease (record self {
        status = TaskStatus.pending;
        next_retry_at = some now;
        last_error = some error;
        compensation_required = true;
        updated_at = some now;
      }))

unfoldable pub mark_compensation_required :
    PanelProvisionTask → Instant → Text → Result PanelProvisionTask
mark_compensation_required self now error = do
  raise_if (not (is self.status TaskStatus.in_progress))
      (invalid_state_transition "Only in-progress panel task can require owned compensation")
  ok (record self { compensation_required = true; last_error = some error; updated_at = some now })

unfoldable pub require_compensation : PanelProvisionTask → Instant → Text → PanelProvisionTask
unfolding clear_lease
require_compensation self now error = clear_lease (record self {
  status = TaskStatus.pending;
  next_retry_at = some now;
  last_error = some error;
  compensation_required = true;
  updated_at = some now;
})

-- The assignments that all three branches share.
abbrev compensated : PanelProvisionTask → Instant → PanelProvisionTask
compensated self now =
    clear_lease
      (record self { compensation_required = false; last_error = none; updated_at = some now })

unfoldable pub compensation_succeeded : PanelProvisionTask → Instant → Bool → PanelProvisionTask
unfolding clear_lease
compensation_succeeded self now terminal_local_state =
    if terminal_local_state
    then record (compensated self now) { status = TaskStatus.cancelled; completed_at = some now }
    else if leb self.max_attempts self.attempts
    then record (compensated self now) { status = TaskStatus.failed; completed_at = some now }
    else record (compensated self now) {
      status = TaskStatus.pending;
      next_retry_at = some now;
      completed_at = none;
    }

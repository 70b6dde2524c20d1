-- ===== src/Task/Node.antt =====
-- `NodeTask` of domain/entities/node.py. An error of a remote call carries the response, if any.
pub mod Fencing
pub mod Limit
use project_vpn.Common.{
  ℕ, ◌+◌, ◌≡◌, Bool, true, false, not, ◌&&◌, ◌||◌, Option, none, some, ◌==◌, ltb, leb, ltb_ℤ, leb_ℤ,
  same_number, text_eq, codes, if◌then◌else◌, ℤ, pos, pos_part, Text, Instant, seconds,
}
use mathlib.Core.Option
use project_vpn.Common.Json.{Payload, Json, get}
use project_vpn.Errors.{
  Result, ok, err, Error, domain_validation, invalid_state_transition, raise_if, ◌>>=◌, ◌>>◌,
}
use project_vpn.Task.Lease.{TaskStatus, is, due, is_past, is_future, retry_delay}

-- `NodeTaskOperation`
pub data Operation : Type 0 where
  provision_client revoke_client sync_status : Operation

pub record NodeTask : Type 0 where
  pub id : Option ℕ
  pub task_uuid : ℕ
  pub node_id : ℕ
  pub operation : Operation
  pub status : TaskStatus
  pub idempotency_key : Text
  pub payload : Payload
  pub vpn_configuration_id : Option ℕ
  pub subscription_id : Option ℕ
  pub vpn_generation : Option ℕ
  pub response_payload : Option Payload
  pub remote_client_ref : Option Json
  pub attempts : ℕ
  pub max_attempts : ℕ
  pub next_retry_at : Option Instant
  pub last_error : Option Text
  pub claimed_at : Option Instant
  pub lease_expires_at : Option Instant
  pub lease_token : Option ℕ
  pub created_at : Option Instant
  pub updated_at : Option Instant
  pub completed_at : Option Instant
  pub journal_retired_at : Option Instant

-- `vpn_generation is not None and vpn_generation <= 0`
abbrev bad_generation : Option ℤ → Bool
bad_generation none = false
bad_generation (some g) = leb_ℤ g (pos 0)

-- `__post_init__`, with the numbers as the caller hands them over
unfoldable pub post_init : NodeTask → ℤ → ℤ → Option ℤ → Result NodeTask
post_init self attempts max_attempts vpn_generation = do
  raise_if (leb_ℤ max_attempts (pos 0) || ltb_ℤ attempts (pos 0))
      (domain_validation "Invalid node task attempt limits")
  raise_if (bad_generation vpn_generation)
      (domain_validation "Node task VPN generation must be positive")
  ok (record self {
    attempts = pos_part attempts;
    max_attempts = pos_part max_attempts;
    vpn_generation = Option.map pos_part vpn_generation;
  })

unfoldable pub can_dispatch : NodeTask → Instant → Bool
can_dispatch self now = is self.status TaskStatus.pending && due self.next_retry_at now

-- The task as the attempt leaves it; the attempt's number is its `attempts`.
unfoldable pub start_attempt : NodeTask → Instant → Instant → ℕ → Result NodeTask
unfolding can_dispatch
start_attempt self now lease_expires_at lease_token = do
  raise_if (not (can_dispatch self now))
      (invalid_state_transition "Node task is not ready for dispatch")
  raise_if (leb lease_expires_at now)
      (domain_validation "Node task lease must expire after claim time")
  ok (record self {
    status = TaskStatus.in_progress;
    attempts = self.attempts + 1;
    claimed_at = some now;
    lease_expires_at = some lease_expires_at;
    lease_token = some lease_token;
    last_error = none;
    updated_at = some now;
  })

unfoldable pub owns_active_lease : NodeTask → ℕ → Instant → ℕ → Bool
owns_active_lease self token now attempt_no =
    is self.status TaskStatus.in_progress
    && same_number self.lease_token (some token)
    && self.attempts == attempt_no
    && is_future self.lease_expires_at now

unfoldable pub lease_is_expired : NodeTask → Instant → Bool
lease_is_expired self now =
    is self.status TaskStatus.in_progress && is_past self.lease_expires_at now

unfoldable pub clear_lease : NodeTask → NodeTask
clear_lease self = record self { claimed_at = none; lease_expires_at = none; lease_token = none }

unfoldable pub defer_without_attempt : NodeTask → Instant → ℤ → Text → Result NodeTask
unfolding clear_lease
defer_without_attempt self now delay_seconds error = do
  raise_if (not (is self.status TaskStatus.pending))
      (invalid_state_transition "Only pending node task can be deferred")
  raise_if (leb_ℤ delay_seconds (pos 0))
      (domain_validation "Node task defer delay must be positive")
  ok (
      clear_lease (record self {
        next_retry_at = some (now + seconds (pos_part delay_seconds));
        last_error = some error;
        updated_at = some now;
      }))

-- `status in PROVISION_SUCCESS_STATUSES`
abbrev pub is_provision_success : Text → Bool
is_provision_success s = text_eq s (codes "provisioned") || text_eq s (codes "already_exists")

-- `status in REVOKE_SUCCESS_STATUSES`
abbrev pub is_revoke_success : Text → Bool
is_revoke_success s =
    text_eq s (codes "revoked") || text_eq s (codes "not_found_treated_as_success")

abbrev accepts : Operation → Text → Bool
accepts Operation.provision_client s = is_provision_success s
accepts Operation.revoke_client s = is_revoke_success s
accepts Operation.sync_status s = false

unfoldable pub accepts_remote_status : NodeTask → Text → Bool
accepts_remote_status self remote_status = accepts self.operation remote_status

unfoldable pub complete : NodeTask → Payload → Instant → Result NodeTask
unfolding clear_lease
complete self response now = do
  raise_if (not (is self.status TaskStatus.in_progress))
      (invalid_state_transition "Only in-progress node task can complete")
  ok (
      clear_lease (record self {
        status = TaskStatus.succeeded;
        response_payload = some response;
        remote_client_ref = get (codes "remote_client_ref") response;
        completed_at = some now;
        updated_at = some now;
        last_error = none;
      }))

unfoldable pub fail : NodeTask → Text → Option Payload → Instant → NodeTask
unfolding clear_lease
fail self error response now = clear_lease (record self {
  status = TaskStatus.failed;
  last_error = some error;
  response_payload = response;
  completed_at = some now;
  updated_at = some now;
})

unfoldable pub retry : NodeTask → Text → Option Payload → Instant → ℕ → NodeTask
unfolding fail clear_lease
retry self error response now base_delay_seconds =
    if leb self.max_attempts self.attempts
    then fail self error response now
    else clear_lease (record self {
      status = TaskStatus.pending;
      next_retry_at = some (now + seconds (retry_delay base_delay_seconds self.attempts));
      last_error = some error;
      response_payload = response;
      updated_at = some now;
    })

unfoldable pub recover_expired_lease : NodeTask → Instant → Text → ℕ → Result NodeTask
unfolding lease_is_expired retry
recover_expired_lease self now error base_delay_seconds = do
  raise_if (not (lease_is_expired self now))
      (invalid_state_transition "Node task lease is not expired")
  ok (retry self error none now base_delay_seconds)

-- ===== src/Vpn.antt =====
-- `VpnConfiguration` of domain/entities/vpn.py. The UUID of the client is a number.
pub mod Lifecycle
use project_vpn.Common.{
  ℕ, ◌+◌, ◌≡◌, Bool, true, false, not, ◌||◌, Option, none, some, ◌==◌, leb_ℤ, if◌then◌else◌,
  or_else, Text, is_missing, ℤ, pos, pos_part, Instant,
}
use project_vpn.Errors.{
  Result, ok, err, Error, domain_validation, invalid_state_transition, raise_if, ◌>>=◌, ◌>>◌,
}

pub data VpnStatus : Type 0 where
  provisioning active failed revoking revoke_failed revoked expired disabled : VpnStatus

pub data DesiredState : Type 0 where
  active revoked : DesiredState

abbrev number : VpnStatus → ℕ
number VpnStatus.provisioning = 0
number VpnStatus.active = 1
number VpnStatus.failed = 2
number VpnStatus.revoking = 3
number VpnStatus.revoke_failed = 4
number VpnStatus.revoked = 5
number VpnStatus.expired = 6
number VpnStatus.disabled = 7

-- `a is b`
abbrev pub is : VpnStatus → VpnStatus → Bool
is a b = number a == number b

abbrev pub wants_active : DesiredState → Bool
wants_active DesiredState.active = true
wants_active DesiredState.revoked = false

pub record VpnConfiguration : Type 0 where
  pub id : Option ℕ
  pub subscription_id : ℕ
  pub server_endpoint_id : ℕ
  pub client_uuid : ℕ
  pub display_name : Text
  pub status : VpnStatus
  pub remote_client_ref : Option Text
  pub created_at : Option Instant
  pub revoked_at : Option Instant
  pub desired_state : DesiredState
  pub generation : ℕ

-- `__post_init__`: the configuration with the generation as the caller hands it over
unfoldable pub post_init : VpnConfiguration → ℤ → Result VpnConfiguration
post_init self generation = do
  raise_if (leb_ℤ generation (pos 0))
      (domain_validation "VPN configuration generation must be positive")
  ok (record self { generation = pos_part generation })

-- `a or b` for a text or `None` before a stored one
abbrev or_text : Option Text → Option Text → Option Text
or_text a b = if is_missing a then b else a

unfoldable pub activate : VpnConfiguration → Option Text → Result VpnConfiguration
activate self remote_client_ref = do
  raise_if (not (is self.status VpnStatus.provisioning))
      (invalid_state_transition "Only provisioning VPN configuration can be activated")
  raise_if (not (wants_active self.desired_state))
      (invalid_state_transition "VPN configuration is no longer desired to be active")
  ok (record self {
    status = VpnStatus.active;
    remote_client_ref = or_text remote_client_ref self.remote_client_ref;
    revoked_at = none;
  })

unfoldable pub begin_revoke : VpnConfiguration → Result VpnConfiguration
begin_revoke self = do
  raise_if (not (is self.status VpnStatus.active))
      (invalid_state_transition "Only active VPN configuration can begin revoke")
  ok (record self {
    desired_state = DesiredState.revoked;
    generation = self.generation + 1;
    status = VpnStatus.revoking;
  })

unfoldable pub retry_revoke : VpnConfiguration → Result VpnConfiguration
retry_revoke self = do
  raise_if (not (is self.status VpnStatus.revoke_failed))
      (invalid_state_transition "Only failed revoke can be retried")
  ok (record self {
    desired_state = DesiredState.revoked;
    generation = self.generation + 1;
    status = VpnStatus.revoking;
    revoked_at = none;
  })

unfoldable pub cancel_provisioning_for_revoke : VpnConfiguration → Result VpnConfiguration
cancel_provisioning_for_revoke self = do
  raise_if (not (is self.status VpnStatus.provisioning))
      (invalid_state_transition "Only provisioning VPN can be cancelled for revoke")
  ok (record self {
    desired_state = DesiredState.revoked;
    generation = self.generation + 1;
    status = VpnStatus.revoking;
    revoked_at = none;
  })

unfoldable pub request_cleanup_from_failed : VpnConfiguration → Result VpnConfiguration
request_cleanup_from_failed self = do
  raise_if (not (is self.status VpnStatus.failed))
      (invalid_state_transition "Only failed VPN can request cleanup")
  ok (record self {
    desired_state = DesiredState.revoked;
    generation = self.generation + 1;
    status = VpnStatus.revoking;
    revoked_at = none;
  })

unfoldable pub revoke : VpnConfiguration → Instant → Result VpnConfiguration
revoke self now = do
  raise_if (not (is self.status VpnStatus.revoking))
      (invalid_state_transition "Only revoking VPN configuration can be revoked")
  raise_if (wants_active self.desired_state)
      (invalid_state_transition "VPN configuration is not desired to be revoked")
  ok (record self { status = VpnStatus.revoked; revoked_at = some now })

unfoldable pub expire : VpnConfiguration → Option Text → VpnConfiguration
expire self remote_client_ref = record self {
  status = VpnStatus.expired;
  desired_state = DesiredState.revoked;
  remote_client_ref = or_text remote_client_ref self.remote_client_ref;
}

unfoldable pub fail_provisioning : VpnConfiguration → Result VpnConfiguration
fail_provisioning self = do
  raise_if (not (is self.status VpnStatus.provisioning))
      (invalid_state_transition "Only provisioning VPN configuration can fail provisioning")
  ok (record self { status = VpnStatus.failed })

unfoldable pub fail_revoke : VpnConfiguration → Result VpnConfiguration
fail_revoke self = do
  raise_if (not (is self.status VpnStatus.revoking))
      (invalid_state_transition "Only revoking VPN configuration can fail revoke")
  ok (record self { status = VpnStatus.revoke_failed })

unfoldable pub is_terminal : VpnConfiguration → Bool
is_terminal self =
    is self.status VpnStatus.revoked
    || is self.status VpnStatus.expired
    || is self.status VpnStatus.disabled

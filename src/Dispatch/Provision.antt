-- ===== src/Dispatch/Provision.antt =====
-- `DispatchPanelProvisionTask` of application/use_cases/dispatch_panel_provision_task.py: the
-- transactions, and a run that composes them with the calls of the panel.
use project_vpn.Common.{
  ℕ, ◌+◌, ◌==◌, Bool, true, false, not, ◌&&◌, ◌||◌, Option, none, some, ◌++◌, if◌then◌else◌, Text,
  codes, Instant, seconds,
}
use project_vpn.Common.Json.{Payload}
use project_vpn.Errors.{runtime, Result, ok, err, ◌>>=◌}
use project_vpn.Vpn
use project_vpn.Vpn.{
  VpnConfiguration, VpnStatus, wants_active, cancel_provisioning_for_revoke, fail_provisioning,
}
use project_vpn.Task.Lease.{TaskStatus, is}
use project_vpn.Task.Provision.{
  PanelProvisionTask, can_dispatch, start_attempt, owns_active_lease, owns_lease, complete, retry,
  mark_compensation_required,
}
use project_vpn.UseCase.Rows.{has_current_period}
use project_vpn.Dispatch.Rows.{
  PanelStore, configuration_activated, task_by_id, configuration_by_id, save_task,
  save_configuration, append_audit,
}

pub data Action : Type 0 where
  provision compensate : Action

pub record Prepared : Type 0 where
  pub task_id : ℕ
  pub lease_token : ℕ
  pub attempt_no : ℕ
  pub action : Action
  pub payload : Payload

pub data Outcome : Type 0 where
  missing lease_lost retry_scheduled compensation_required : Outcome
  status : TaskStatus → Outcome

pub data Preparation : Type 0 where
  answered : Outcome → Preparation
  ready : Prepared → Preparation

-- `status in {SUCCEEDED, FAILED, CANCELLED}`
abbrev pub is_over : TaskStatus → Bool
is_over s = is s TaskStatus.succeeded || is s TaskStatus.failed || is s TaskStatus.cancelled

abbrev action_of : Bool → Action
action_of true = compensate
action_of false = provision

-- The attempt of `_prepare`, for a row that can be dispatched
unfoldable pub claim_found :
    PanelStore → ℕ → PanelProvisionTask → ℕ → Instant → ℕ → Result (PanelStore × Preparation)
unfolding start_attempt save_task
claim_found st id task lease_seconds now token = do
  started ← start_attempt task now (now + seconds lease_seconds) token
  saved ← save_task st started
  ok (
    saved,
    ready (record {
      task_id = id;
      lease_token = token;
      attempt_no = started.attempts;
      action = action_of started.compensation_required;
      payload = started.payload;
    }),
  )

-- `_prepare`, for the row that was found
unfoldable pub prepare_found :
    PanelStore → ℕ → PanelProvisionTask → ℕ → Instant → ℕ → Result (PanelStore × Preparation)
unfolding can_dispatch claim_found
prepare_found st id task lease_seconds now token =
    if is_over task.status
    then ok (st, answered (status task.status))
    else if not (can_dispatch task now)
    then ok (st, answered (status task.status))
    else claim_found st id task lease_seconds now token

-- `_prepare`
unfoldable pub prepare : PanelStore → ℕ → ℕ → Instant → ℕ → Result (PanelStore × Preparation)
unfolding task_by_id prepare_found
prepare st id lease_seconds now token = elim (task_by_id st id) [
  | none ↦ ok (st, answered missing)
  | some task ↦ prepare_found st id task lease_seconds now token
]

pub data Finish : Type 0 where
  activated : Finish
  lost : Finish
  to_compensate : Finish

-- `current_operation`
abbrev pub is_current : PanelProvisionTask → VpnConfiguration → Bool
is_current task c =
    task.vpn_generation == c.generation
    && wants_active c.desired_state
    && Vpn.is c.status VpnStatus.provisioning

-- The stale end of `_finalize_provision_success`
unfoldable pub mark_stale :
    PanelStore → PanelProvisionTask → Instant → Text → Result (PanelStore × Finish)
unfolding mark_compensation_required save_task
mark_stale st task now error = do
  marked ← mark_compensation_required task now error
  saved ← save_task st marked
  ok (saved, to_compensate)

-- The current operation, with access paid for
unfoldable pub activate_owned :
    PanelStore → PanelProvisionTask → VpnConfiguration → Instant → Result (PanelStore × Finish)
unfolding Vpn.activate save_configuration complete save_task append_audit
activate_owned st task c now = do
  active ← Vpn.activate c none
  saved ← save_configuration st active
  done ← complete task now
  finished ← save_task saved done
  ok (
    append_audit finished (configuration_activated task.vpn_configuration_id task.subscription_id),
    activated,
  )

-- The current operation, without it
unfoldable pub withdraw_owned :
    PanelStore → PanelProvisionTask → VpnConfiguration → Instant → Result (PanelStore × Finish)
unfolding cancel_provisioning_for_revoke save_configuration mark_stale
withdraw_owned st task c now = do
  leaving ← cancel_provisioning_for_revoke c
  saved ← save_configuration st leaving
  mark_stale saved task now (codes "subscription access expired during panel provisioning")

-- `_finalize_provision_success` under an active lease, for the configuration that was found
unfoldable pub finalize_owned :
    PanelStore → PanelProvisionTask → VpnConfiguration → Instant → Result (PanelStore × Finish)
unfolding has_current_period activate_owned withdraw_owned mark_stale
finalize_owned st task c now =
    if is_current task c && has_current_period task.subscription_id now st.periods
    then activate_owned st task c now
    else if is_current task c
    then withdraw_owned st task c now
    else mark_stale st task now (codes "stale panel provision success requires compensation")

-- `_finalize_provision_success`, for the task that was found
unfoldable pub finalize_found :
    PanelStore → Prepared → PanelProvisionTask → Instant → Result (PanelStore × Finish)
unfolding owns_active_lease owns_lease mark_stale configuration_by_id finalize_owned
finalize_found st prepared task now =
    if not (owns_active_lease task prepared.lease_token prepared.attempt_no now)
    then (if owns_lease task prepared.lease_token prepared.attempt_no
        then mark_stale st task now (codes "panel lease expired after remote success")
        else ok (st, lost))
    else elim (configuration_by_id st task.vpn_configuration_id) [
      | none ↦ err (runtime "VPN configuration for panel task was not found")
      | some c ↦ finalize_owned st task c now
    ]

-- `_finalize_provision_success`
unfoldable pub finalize_provision_success :
    PanelStore → Prepared → Instant → Result (PanelStore × Finish)
unfolding task_by_id finalize_found
finalize_provision_success st prepared now = elim (task_by_id st prepared.task_id) [
  | none ↦ err (runtime "Panel provision task disappeared during finalization")
  | some task ↦ finalize_found st prepared task now
]

-- `configuration.fail_provisioning()`, where the task is the current operation
unfoldable pub fail_configuration :
    PanelStore → PanelProvisionTask → Option VpnConfiguration → Result PanelStore
unfolding fail_provisioning save_configuration
fail_configuration st task none = ok st
fail_configuration st task (some c) =
    if is_current task c then fail_provisioning c >>= save_configuration st else ok st

-- `_finalize_remote_failure`, for a task that the worker owns
unfoldable pub fail_owned :
    PanelStore → PanelProvisionTask → ℕ → Instant → Text → Result (PanelStore × Outcome)
unfolding retry save_task configuration_by_id fail_configuration
fail_owned st task base now error =
    let tried = retry task now (codes "panel provision failed: " ++ error) base in
    save_task st tried >>= λ saved.
    (if is tried.status TaskStatus.failed
      then (fail_configuration saved tried (configuration_by_id saved tried.vpn_configuration_id)
          >>= λ done. ok (done, status TaskStatus.failed))
      else ok (saved, retry_scheduled))

-- `_finalize_remote_failure`
unfoldable pub finalize_remote_failure :
    PanelStore → Prepared → ℕ → Instant → Text → Result (PanelStore × Outcome)
unfolding task_by_id owns_lease fail_owned
finalize_remote_failure st prepared base now error = elim (task_by_id st prepared.task_id) [
  | none ↦ ok (st, lease_lost)
  | some task ↦
      if owns_lease task prepared.lease_token prepared.attempt_no
      then fail_owned st task base now error
      else ok (st, lease_lost)
]

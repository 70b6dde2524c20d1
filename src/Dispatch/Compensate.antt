-- ===== src/Dispatch/Compensate.antt =====
-- The compensation of a provision that must not stand: `_record_compensation_success`,
-- `_record_compensation_failure`, `_dispatch_compensation` and `_compensate_after_local_failure` of
-- `DispatchPanelProvisionTask` (application/use_cases/dispatch_panel_provision_task.py).
use project_vpn.Common.{
  ◌+◌, ◌==◌, Bool, true, not, ◌&&◌, ◌||◌, Option, none, some, ◌++◌, if◌then◌else◌, Text, codes,
  Instant,
}
use project_vpn.Errors.{Result, ok, err, ◌>>=◌}
use project_vpn.Vpn
use project_vpn.Vpn.{VpnConfiguration, VpnStatus, wants_active}
use project_vpn.Task.Lease.{TaskStatus, is}
use project_vpn.Task.Provision.{
  PanelProvisionTask, owns_lease, require_compensation, compensation_succeeded,
}
use project_vpn.Dispatch.Rows.{
  PanelStore, configuration_revoked, task_by_id, configuration_by_id, save_task, save_configuration,
  append_audit,
}
use project_vpn.Dispatch.Provision.{
  Prepared, Outcome, lease_lost, status, compensation_required, fail_configuration,
}

-- `completes_cancelled_provision`
abbrev pub completes_cancelled : PanelProvisionTask → VpnConfiguration → Bool
completes_cancelled task c =
    Vpn.is c.status VpnStatus.revoking
    && not (wants_active c.desired_state)
    && c.generation == task.vpn_generation + 1

-- `terminal_local_state`
abbrev pub is_terminal_locally : PanelProvisionTask → Option VpnConfiguration → Bool
is_terminal_locally task none = true
is_terminal_locally task (some c) =
    not (task.vpn_generation == c.generation)
    || not (wants_active c.desired_state)
    || Vpn.is c.status VpnStatus.expired
    || Vpn.is c.status VpnStatus.revoked
    || Vpn.is c.status VpnStatus.disabled

-- `configuration.revoke(now)` with its entry in the audit, and the configuration as it is then
unfoldable pub revoke_cancelled :
    PanelStore
    → PanelProvisionTask
    → VpnConfiguration
    → Instant
    → Result (PanelStore × VpnConfiguration)
unfolding Vpn.revoke save_configuration append_audit
revoke_cancelled st task c now = do
  gone ← Vpn.revoke c now
  saved ← save_configuration st gone
  ok (append_audit saved (configuration_revoked task.vpn_configuration_id), gone)

-- The configuration of a cancelled provision is revoked.
unfoldable pub complete_cancelled :
    PanelStore
    → PanelProvisionTask
    → VpnConfiguration
    → Instant
    → Result (PanelStore × VpnConfiguration)
unfolding revoke_cancelled
complete_cancelled st task c now =
    if completes_cancelled task c then revoke_cancelled st task c now else ok (st, c)

-- The configuration of a task that has failed for good fails with it.
abbrev pub fail_with : PanelProvisionTask → PanelStore × VpnConfiguration → Result PanelStore
fail_with task (st, c) =
    if is task.status TaskStatus.failed then fail_configuration st task (some c) else ok st

-- What happens to the configuration that was found, once the task is saved
unfoldable pub settle_configuration :
    PanelStore → PanelProvisionTask → Option VpnConfiguration → Instant → Result PanelStore
unfolding complete_cancelled fail_configuration
settle_configuration st task none now = ok st
settle_configuration st task (some c) now = complete_cancelled st task c now >>= fail_with task

-- `_record_compensation_success`, for a task that the worker owns
unfoldable pub compensation_done :
    PanelStore
    → PanelProvisionTask
    → Option VpnConfiguration
    → Instant
    → Result (PanelStore × Outcome)
unfolding compensation_succeeded save_task settle_configuration
compensation_done st task found now =
    let finished = compensation_succeeded task now (is_terminal_locally task found) in
    save_task st finished >>= λ saved.
    (settle_configuration saved finished found now >>= λ settled.
    ok (settled, status finished.status))

-- `_record_compensation_success`
unfoldable pub record_compensation_success :
    PanelStore → Prepared → Instant → Result (PanelStore × Outcome)
unfolding task_by_id owns_lease configuration_by_id compensation_done
record_compensation_success st prepared now = elim (task_by_id st prepared.task_id) [
  | none ↦ ok (st, lease_lost)
  | some task ↦
      if owns_lease task prepared.lease_token prepared.attempt_no
      then compensation_done st task (configuration_by_id st task.vpn_configuration_id) now
      else ok (st, lease_lost)
]

-- `_record_compensation_failure`
unfoldable pub record_compensation_failure :
    PanelStore → Prepared → Instant → Text → Result PanelStore
unfolding task_by_id owns_lease require_compensation save_task
record_compensation_failure st prepared now error = elim (task_by_id st prepared.task_id) [
  | none ↦ ok st
  | some task ↦
      if owns_lease task prepared.lease_token prepared.attempt_no
      then save_task st
          (require_compensation task now (codes "panel compensation failed: " ++ error))
      else ok st
]

-- A transaction that raises is rolled back.
abbrev pub committed : PanelStore → Result PanelStore → PanelStore
committed st (ok st') = st'
committed st (err e) = st

abbrev pub answer_of : PanelStore → Result (PanelStore × Outcome) → PanelStore × Result Outcome
answer_of st (ok (st', o)) = (st', ok o)
answer_of st (err e) = (st, err e)

abbrev always : PanelStore → Outcome → Result PanelStore → PanelStore × Result Outcome
always st o (ok st') = (st', ok o)
always st o (err e) = (st, err e)

-- `_dispatch_compensation`; `revoke` is the type of the exception that the panel's revoke raised.
unfoldable pub dispatch_compensation :
    PanelStore → Prepared → Option Text → Instant → PanelStore × Result Outcome
unfolding record_compensation_success record_compensation_failure
dispatch_compensation st prepared none now =
    answer_of st (record_compensation_success st prepared now)
dispatch_compensation st prepared (some error) now =
    always st compensation_required (record_compensation_failure st prepared now error)

-- `_compensate_after_local_failure`: it swallows what its transactions raise.
unfoldable pub compensate_after_local_failure :
    PanelStore → Prepared → Option Text → Instant → PanelStore
unfolding record_compensation_success record_compensation_failure
compensate_after_local_failure st prepared none now =
    (answer_of st (record_compensation_success st prepared now)).0
compensate_after_local_failure st prepared (some error) now =
    committed st (record_compensation_failure st prepared now error)

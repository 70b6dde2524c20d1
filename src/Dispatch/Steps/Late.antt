-- ===== src/Dispatch/Steps/Late.antt =====
-- A worker that comes back after its attempt is over.
use project_vpn.Common.{ℕ, ◌≡◌, some, arith, Text}
use project_vpn.Errors.{ok}
use project_vpn.Task.Provision.{PanelProvisionTask, owns_lease, owns_active_lease}
use project_vpn.Task.Provision.Fencing.{IsReleased, run_provision, late_worker_refused}
use project_vpn.Dispatch.Rows.{PanelStore, task_by_id}
use project_vpn.Dispatch.Provision.{
  Prepared, lost, lease_lost, finalize_provision_success, finalize_found, finalize_remote_failure,
}
use project_vpn.Dispatch.Compensate.{record_compensation_success, record_compensation_failure}
use project_vpn.Dispatch.Trace.Follow.{anything, goes_to}
use project_vpn.Dispatch.Steps.{Steps, HasKeys}
use project_vpn.Dispatch.Steps.Traces.{Steps-IsTraced}

-- Once attempt `n` of a task is over, a worker that holds it still may come back at any time, after any
-- transactions of other workers: each of the four transactions that it may then run finds that the
-- lease is lost and writes nothing.
pub late_transactions_refused :
    (st st' : PanelStore) (t : PanelProvisionTask) (p : Prepared) (base now : ℕ) (error : Text)
    → HasKeys st
    → task_by_id st p.task_id ≡ some t
    → IsReleased p.attempt_no t
    → Steps st st'
    → (finalize_provision_success st' p now ≡ ok (st', lost))
      × (finalize_remote_failure st' p base now error ≡ ok (st', lease_lost))
      × (record_compensation_success st' p now ≡ ok (st', lease_lost))
      × (record_compensation_failure st' p now error ≡ ok st')
unfolding finalize_provision_success finalize_found finalize_remote_failure
    record_compensation_success record_compensation_failure owns_lease owns_active_lease
late_transactions_refused st st' t p base now error keys found over steps =
    let v = (Steps-IsTraced st st' keys steps).tasks p.task_id in
    let row =
      goes_to anything run_provision (task_by_id st p.task_id) (task_by_id st' p.task_id) t v
        found in
    let free = late_worker_refused p.attempt_no p.lease_token t v.calls over in
    (
      ground (arith, row, free),
      ground (arith, row, free),
      ground (arith, row, free),
      ground (arith, row, free),
    )

-- ===== src/Tests/Tasks/NodeRuns.antt =====
-- Tasks of domain/entities/node.py that are started, recovered and deferred.
use project_vpn.Common.{◌≡◌, refl, false, none, some, List, [], ◌∷◌, inl, arith, pos, codes}
use project_vpn.Errors.{ok}
use project_vpn.Task.Lease.{TaskStatus}
use project_vpn.Task.Node.{NodeTask, Operation, start_attempt, owns_active_lease}
use project_vpn.Task.Node.Fencing.{
  Call, call_start, call_recover, call_defer, run_task, late_node_worker_refused,
}
use project_vpn.Task.Node.Limit.{IsWithin, run_task-IsWithin}

abbrev waiting : NodeTask
waiting = record {
  id = some 1;
  task_uuid = 901;
  node_id = 4;
  operation = Operation.sync_status;
  status = TaskStatus.pending;
  idempotency_key = codes "sync-4";
  payload = [];
  vpn_configuration_id = none;
  subscription_id = none;
  vpn_generation = none;
  response_payload = none;
  remote_client_ref = none;
  attempts = 0;
  max_attempts = 3;
  next_retry_at = none;
  last_error = none;
  claimed_at = none;
  lease_expires_at = none;
  lease_token = none;
  created_at = some 0;
  updated_at = none;
  completed_at = none;
  journal_retired_at = none;
}

abbrev working : NodeTask
working = record waiting {
  status = TaskStatus.in_progress;
  attempts = 1;
  claimed_at = some 100;
  lease_expires_at = some 400;
  lease_token = some 42;
  updated_at = some 100;
  next_retry_at = none;
}

starts : start_attempt waiting 100 400 42 ≡ ok working
unfolding start_attempt
starts = refl

abbrev over : NodeTask
over = record working { status = TaskStatus.pending; lease_token = none }

late_node_worker_refused_example :
    owns_active_lease (run_task over (call_start 500 800 42 ∷ [])) 42 600 1 ≡ false
late_node_worker_refused_example =
    late_node_worker_refused 1 42 600 over (call_start 500 800 42 ∷ [])
      (record { begun = omega arith; over = inl refl })

abbrev history : List Call
history =
    call_start 100 400 42
    ∷ call_recover 400 (codes "lost") 5
    ∷ call_start 90000000 90000500 43
    ∷ call_defer 90000001 (pos 30) (codes "busy")
    ∷ []

run_task-IsWithin_example : IsWithin (run_task waiting history)
run_task-IsWithin_example =
    run_task-IsWithin waiting history (record { limit = omega arith; spare = λ h. omega arith })

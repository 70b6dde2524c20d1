-- ===== src/Tests/Tasks/PanelRuns.antt =====
-- Tasks of domain/entities/panel_task.py that are started and recovered.
use project_vpn.Common.{
  ℕ, ◌+◌, ◌≤◌, ◌<◌, ◌≡◌, ◌↔◌, refl, true, false, none, some, List, [], ◌∷◌, inl, arith, ltb,
  if◌then◌else◌, codes, Text, Instant,
}
use project_vpn.Errors.{ok}
use project_vpn.Task.Lease.{TaskStatus}
use project_vpn.Task.Provision.{
  PanelProvisionTask, start_attempt, owns_lease, owns_active_lease, lease_is_expired,
  recover_expired_lease,
}
use project_vpn.Task.Provision.Fencing.{
  IsReleased, Call, call_start, call_recover, call_complete, run_provision, late_worker_refused,
  attempt_exclusive,
}
use project_vpn.Task.Provision.Retries.{iterate, failed_round, errors_exhaust}
use project_vpn.Task.Revoke
use project_vpn.Task.Revoke.{PanelRevokeTask}

abbrev pub waiting : PanelProvisionTask
waiting = record {
  id = some 1;
  vpn_configuration_id = 9;
  subscription_id = 3;
  status = TaskStatus.pending;
  idempotency_key = codes "provision-9";
  payload = [];
  vpn_generation = 1;
  attempts = 0;
  max_attempts = 3;
  next_retry_at = none;
  last_error = none;
  claimed_at = none;
  lease_expires_at = none;
  lease_token = none;
  compensation_required = false;
  created_at = some 0;
  updated_at = none;
  completed_at = none;
}

abbrev working : PanelProvisionTask
working = record waiting {
  status = TaskStatus.in_progress;
  attempts = 1;
  claimed_at = some 100;
  lease_expires_at = some 400;
  lease_token = some 42;
  updated_at = some 100;
  next_retry_at = none;
}

-- The lease ends, the task is recovered and started again, and the first worker comes back.
abbrev takeover : List Call
takeover = call_recover 400 (codes "lease expired") ∷ call_start 500 800 43 ∷ call_complete 600 ∷ []

starts : start_attempt waiting 100 400 42 ≡ ok working
unfolding start_attempt
starts = refl

attempt_exclusive_example :
    ((other n : ℕ) → (owns_lease working other n ≡ true) ↔ ((other ≡ 42) × (n ≡ 0 + 1)))
    × ((at : Instant) → (owns_active_lease working 42 1 at ≡ true) ↔ (at < 400))
    × ((at : Instant) → (lease_is_expired working at ≡ true) ↔ (400 ≤ at))
    × ((at : Instant) (e : Text) (t'' : PanelProvisionTask)
        → recover_expired_lease working at e ≡ ok t''
        → (400 ≤ at) × IsReleased 1 t'' × (t''.compensation_required ≡ true))
attempt_exclusive_example = attempt_exclusive waiting 100 400 42 working starts

-- The task after the recovery of attempt 1.
abbrev recovered : PanelProvisionTask
recovered = record working {
  status = TaskStatus.pending;
  claimed_at = none;
  lease_expires_at = none;
  lease_token = none;
  compensation_required = true;
}

late_worker_refused_example :
    owns_lease (run_provision recovered (call_start 500 800 42 ∷ [])) 42 1 ≡ false
late_worker_refused_example =
    late_worker_refused 1 42 recovered (call_start 500 800 42 ∷ [])
      (record { begun = omega arith; over = inl refl })

errors_exhaust_example :
    (iterate 3 (failed_round 5 42 (codes "timeout")) waiting).status
    ≡ (if ltb (0 + 3) 3 then TaskStatus.pending else TaskStatus.failed)
errors_exhaust_example =
    errors_exhaust 3 5 42 (codes "timeout") waiting refl (omega arith) (omega arith)

abbrev revoke_waiting : PanelRevokeTask
revoke_waiting = record {
  id = some 1;
  task_uuid = 900;
  vpn_configuration_id = 9;
  subscription_id = 3;
  status = TaskStatus.pending;
  idempotency_key = codes "revoke-9";
  payload = [];
  vpn_generation = 1;
  attempts = 0;
  max_attempts = 3;
  next_retry_at = none;
  last_error = none;
  claimed_at = none;
  lease_expires_at = none;
  lease_token = none;
  created_at = some 0;
  updated_at = none;
  completed_at = none;
}

abbrev revoke_working : PanelRevokeTask
revoke_working = record revoke_waiting {
  status = TaskStatus.in_progress;
  attempts = 1;
  claimed_at = some 100;
  lease_expires_at = some 400;
  lease_token = some 42;
  updated_at = some 100;
  next_retry_at = none;
}

revoke_starts : Revoke.start_attempt revoke_waiting 100 400 42 ≡ ok revoke_working
unfolding Revoke.start_attempt
revoke_starts = refl

abbrev revoke_over : PanelRevokeTask
revoke_over = record revoke_working { status = TaskStatus.pending; lease_token = none }

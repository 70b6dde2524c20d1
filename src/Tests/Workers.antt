-- ===== src/Tests/Workers.antt =====
-- Workers of application/use_cases/dispatch_panel_provision_task.py over a small database.
use project_vpn.Common.{
  ℕ, ◌+◌, ◌≡◌, ◌↔◌, ◌≤◌, refl, true, false, none, some, [], ◌∷◌, inl, inr, arith, codes, leb,
  if◌then◌else◌, seconds,
}
use project_vpn.Errors.{ok}
use project_vpn.UseCase.Rows.{by_id, replace, has_current_period}
use project_vpn.Subscription.{SubscriptionPeriod}
use project_vpn.Vpn
use project_vpn.Vpn.{VpnConfiguration, VpnStatus, DesiredState, wants_active}
use project_vpn.Task.Lease.{TaskStatus}
use project_vpn.Task.Provision.{PanelProvisionTask, owns_active_lease}
use project_vpn.Dispatch.Rows.{
  PanelStore, configuration_activated, has_other_active, task_by_id, revoke_by_id,
  configuration_by_id,
}
use project_vpn.Dispatch.Provision.{
  Prepared, Action, ready, lost, lease_lost, status, activated, retry_scheduled, prepare,
  finalize_provision_success, finalize_remote_failure,
}
use project_vpn.Dispatch.Compensate.{record_compensation_success, record_compensation_failure}
use project_vpn.Dispatch.Run.{Settings, Surroundings, execute_provision}
use project_vpn.Dispatch.Trace.{IsTraced}
use project_vpn.Dispatch.Steps.{Steps, HasKeys, here, next, prepared, finalized}
use project_vpn.Dispatch.Steps.Traces.{Steps-IsTraced}
use project_vpn.Dispatch.Steps.Sound.{IsSound, Steps-IsSound}
use project_vpn.Dispatch.Steps.Late.{late_transactions_refused}
use project_vpn.Dispatch.Steps.Withdrawn.{withdrawn_stays}
use project_vpn.Dispatch.Outcomes.{IsReady}
use project_vpn.Dispatch.Outcomes.Completes.{with_access, provision_completes}
use project_vpn.Dispatch.Outcomes.Fails.{provision_fails}
use project_vpn.Dispatch.Outcomes.Exactly.{MayActivate, activates_exactly}
use project_vpn.Tests.Tasks.PanelRuns.{waiting}
use project_vpn.Tests.Subscriptions.{configuration}

abbrev awaited : VpnConfiguration
awaited = record configuration { status = VpnStatus.provisioning }

abbrev month : SubscriptionPeriod
month = record {
  id = some 1;
  subscription_id = some 3;
  starts_at = 0;
  expires_at = 9000000;
  is_paid = true;
  created_at = 0;
  payment_order_id = some 7;
}

abbrev database : PanelStore
database = record {
  tasks = waiting ∷ [];
  revokes = [];
  configurations = awaited ∷ [];
  periods = month ∷ [];
  audit = [];
}

abbrev settings : Settings
settings = record { retry_base_seconds = 5; lease_seconds = 60 }

abbrev calm : Surroundings
calm = record {
  claimed_at = 100;
  finalized_at = 200;
  compensated_at = 300;
  token = 42;
  provision = none;
  revoke = none;
  during_provision = λ st. st;
  during_revoke = λ st. st;
}

calm-IsReady : IsReady settings calm database 1 waiting awaited
unfolding task_by_id configuration_by_id by_id
calm-IsReady = record {
  found = refl;
  pending = refl;
  due_now = refl;
  plain = refl;
  configuration = refl;
  current = refl;
  lease = omega arith;
  task_kept = λ x. refl;
  configuration_kept = λ x. refl;
  periods_kept = λ x. refl;
}

month_paid : has_current_period 3 200 (month ∷ []) ≡ true
unfolding has_current_period
month_paid = refl

awaited_alone : has_other_active awaited (awaited ∷ []) ≡ false
unfolding has_other_active
awaited_alone = refl

provision_completes_example :
    let after = execute_provision settings calm database 1 in
    (after.1 ≡ ok (status TaskStatus.succeeded))
    × ((t' : PanelProvisionTask) × (task_by_id after.0 1 ≡ some t')
        × (t'.status ≡ TaskStatus.succeeded)
        × (t'.attempts ≡ 0 + 1))
    × ((c' : VpnConfiguration) × (configuration_by_id after.0 9 ≡ some c')
        × (c'.status ≡ VpnStatus.active)
        × (c'.generation ≡ 1))
    × (after.0.audit ≡ configuration_activated 9 3 ∷ [])
provision_completes_example =
    provision_completes settings calm database 1 waiting awaited calm-IsReady refl (omega arith)
      month_paid awaited_alone

abbrev refused : Surroundings
refused = record calm { provision = some (codes "TimeoutError") }

refused-IsReady : IsReady settings refused database 1 waiting awaited
unfolding task_by_id configuration_by_id by_id
refused-IsReady = record {
  found = refl;
  pending = refl;
  due_now = refl;
  plain = refl;
  configuration = refl;
  current = refl;
  lease = omega arith;
  task_kept = λ x. refl;
  configuration_kept = λ x. refl;
  periods_kept = λ x. refl;
}

provision_fails_example :
    let after = execute_provision settings refused database 1 in
    let last = leb 3 (0 + 1) in
    (after.1 ≡ ok (if last then status TaskStatus.failed else retry_scheduled))
    × ((t' : PanelProvisionTask) × (task_by_id after.0 1 ≡ some t')
        × (t'.status ≡ (if last then TaskStatus.failed else TaskStatus.pending))
        × (t'.attempts ≡ 0 + 1)
        × (t'.lease_token ≡ none))
    × ((c' : VpnConfiguration) × (configuration_by_id after.0 9 ≡ some c')
        × (c'.status ≡ (if last then VpnStatus.failed else VpnStatus.provisioning)))
provision_fails_example =
    provision_fails settings refused database 1 waiting awaited (codes "TimeoutError")
      refused-IsReady refl

-- A database in which the task is claimed, and what was handed to the worker
abbrev taken : PanelStore
taken = record database {
  tasks =
      record waiting {
        status = TaskStatus.in_progress;
        attempts = 1;
        claimed_at = some 100;
        lease_expires_at = some (100 + seconds 60);
        lease_token = some 42;
        updated_at = some 100;
      }
      ∷ [];
}

abbrev handed : Prepared
handed = record {
  task_id = 1;
  lease_token = 42;
  attempt_no = 1;
  action = Action.provision;
  payload = [];
}

abbrev taken_task : PanelProvisionTask
taken_task = record waiting {
  status = TaskStatus.in_progress;
  attempts = 1;
  claimed_at = some 100;
  lease_expires_at = some (100 + seconds 60);
  lease_token = some 42;
  updated_at = some 100;
}

abbrev finished : PanelStore
finished = with_access taken taken_task awaited 200

activates_exactly_example :
    (finalize_provision_success taken handed 200 ≡ ok (finished, activated)) ↔ (
      (t : PanelProvisionTask) × (c : VpnConfiguration) × MayActivate taken handed 200 t c
      × (finished ≡ with_access taken t c 200))
activates_exactly_example = activates_exactly taken finished handed 200

only :
    (x : PanelProvisionTask) (n : ℕ)
    → x ≡ waiting
    → x.id ≡ some n
    → by_id (λ (y : PanelProvisionTask). y.id) n (waiting ∷ []) ≡ some x
unfolding by_id
only x n e h = ground (arith, e, h)

only_released :
    (x : PanelProvisionTask) (n : ℕ)
    → x ≡ record waiting { attempts = 1 }
    → x.id ≡ some n
    → by_id (λ (y : PanelProvisionTask). y.id) n (record waiting { attempts = 1 } ∷ []) ≡ some x
unfolding by_id
only_released x n e h = ground (arith, e, h)

database-HasKeys : HasKeys database
unfolding by_id
database-HasKeys = record {
  tasks = λ x n i h. elim i [ inl e ↦ only x n e h | inr j ↦ elim j [ ] ];
  revokes = λ x n i h. elim i [ ];
}

claims : prepare database 1 60 100 42 ≡ ok (taken, ready handed)
unfolding prepare replace
claims = refl

first_move : Steps database taken
first_move = next here (prepared 1 60 100 42 (ready handed) claims)

taken-MayActivate : MayActivate taken handed 200 taken_task awaited
unfolding task_by_id configuration_by_id by_id owns_active_lease has_current_period has_other_active
taken-MayActivate = record {
  found = refl;
  configuration = refl;
  owned = refl;
  current = refl;
  paid = refl;
  only_active = refl;
}

ends : finalize_provision_success taken handed 200 ≡ ok (finished, activated)
ends =
    (activates_exactly taken finished handed 200).1 (taken_task, awaited, taken-MayActivate, refl)

both_moves : Steps database finished
both_moves = next first_move (finalized handed 200 activated ends)

Steps-IsTraced_example : IsTraced database finished
Steps-IsTraced_example = Steps-IsTraced database finished database-HasKeys both_moves

database-IsSound : IsSound database
unfolding task_by_id revoke_by_id configuration_by_id by_id
database-IsSound = record {
  tasks = λ n t h. ground arith;
  revokes = λ n t h. ground arith;
  configurations = λ n c h. ground arith;
}

Steps-IsSound_example : IsSound finished
Steps-IsSound_example = Steps-IsSound database finished database-HasKeys database-IsSound both_moves

-- The second attempt is under way when the first worker comes back.
abbrev released_task : PanelProvisionTask
released_task = record waiting { attempts = 1 }

abbrev released : PanelStore
released = record database { tasks = released_task ∷ [] }

abbrev retaken : PanelStore
retaken = record database {
  tasks =
      record taken_task {
        attempts = 2;
        claimed_at = some 500;
        lease_expires_at = some (500 + seconds 60);
        lease_token = some 43;
        updated_at = some 500;
      }
      ∷ [];
}

abbrev handed_again : Prepared
handed_again = record handed { lease_token = 43; attempt_no = 2 }

claims_again : prepare released 1 60 500 43 ≡ ok (retaken, ready handed_again)
unfolding prepare replace
claims_again = refl

released-HasKeys : HasKeys released
unfolding by_id
released-HasKeys = record {
  tasks = λ x n i h. elim i [ inl e ↦ only_released x n e h | inr j ↦ elim j [ ] ];
  revokes = λ x n i h. elim i [ ];
}

released_found : task_by_id released 1 ≡ some released_task
unfolding task_by_id by_id
released_found = refl

late_transactions_refused_example :
    (finalize_provision_success retaken handed 600 ≡ ok (retaken, lost))
    × (finalize_remote_failure retaken handed 5 600 [] ≡ ok (retaken, lease_lost))
    × (record_compensation_success retaken handed 600 ≡ ok (retaken, lease_lost))
    × (record_compensation_failure retaken handed 600 [] ≡ ok retaken)
late_transactions_refused_example =
    late_transactions_refused released retaken released_task handed 5 600 [] released-HasKeys
      released_found (record { begun = omega arith; over = inl refl })
      (next here (prepared 1 60 500 43 (ready handed_again) claims_again))

abbrev leaving : VpnConfiguration
leaving = record configuration {
  status = VpnStatus.revoking;
  desired_state = DesiredState.revoked;
  generation = 2;
}

abbrev cancelled : PanelStore
cancelled = record database { configurations = leaving ∷ [] }

leaving_found : configuration_by_id cancelled 9 ≡ some leaving
unfolding configuration_by_id by_id
leaving_found = refl

claims_cancelled :
    prepare cancelled 1 60 100 42
    ≡ ok (record taken { configurations = leaving ∷ [] }, ready handed)
unfolding prepare replace
claims_cancelled = refl

withdrawn_stays_example :
    (c' : VpnConfiguration) × (configuration_by_id
        (record taken { configurations = leaving ∷ [] })
        9
      ≡ some c')
    × (Vpn.is c'.status VpnStatus.active ≡ false)
    × (wants_active c'.desired_state ≡ false)
    × (2 ≤ c'.generation)
withdrawn_stays_example =
    withdrawn_stays cancelled (record taken { configurations = leaving ∷ [] }) 9 leaving
      (record { tasks = database-HasKeys.tasks; revokes = database-HasKeys.revokes }) leaving_found
      (record { desired = refl; revoked_time = λ h. ground arith }) refl
      (next here (prepared 1 60 100 42 (ready handed) claims_cancelled))

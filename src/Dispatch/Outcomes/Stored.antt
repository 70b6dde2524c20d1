-- ===== src/Dispatch/Outcomes/Stored.antt =====
-- Rows after an UPDATE that finds them, and the database after a claim.
use project_vpn.Common.{ℕ, ◌+◌, ◌≡◌, refl, ◌∙◌, true, false, some, none, arith, ◌==◌, seconds}
use project_vpn.Errors.{ok}
use project_vpn.UseCase.Rows.{replace}
use project_vpn.UseCase.Rows.Laws.{by_id-replace, by_id-id}
use project_vpn.Vpn.{VpnConfiguration}
use project_vpn.Task.Lease.{TaskStatus}
use project_vpn.Task.Provision.{PanelProvisionTask, can_dispatch, start_attempt}
use project_vpn.Dispatch.Rows.{
  PanelStore, task_by_id, configuration_by_id, save_task, save_configuration, breaks_one_active,
}
use project_vpn.Dispatch.Provision.{Prepared, Action, ready, prepare, prepare_found, claim_found}
use project_vpn.Dispatch.Run.{Settings, Surroundings}
use project_vpn.Dispatch.Outcomes.{IsReady}

abbrev pub stored_task : PanelStore → PanelProvisionTask → PanelStore
stored_task st t = record st { tasks = replace (λ (x : PanelProvisionTask). x.id) t st.tasks }

abbrev pub stored_configuration : PanelStore → VpnConfiguration → PanelStore
stored_configuration st c = record st {
  configurations = replace (λ (x : VpnConfiguration). x.id) c st.configurations;
}

pub save_task-stored :
    (st : PanelStore) (t : PanelProvisionTask) (n : ℕ)
    → t.id ≡ some n
    → save_task st t ≡ ok (stored_task st t)
unfolding save_task
save_task-stored st t n e = ground arith

pub save_configuration-stored :
    (st : PanelStore) (c : VpnConfiguration) (n : ℕ)
    → c.id ≡ some n
    → breaks_one_active c st.configurations ≡ false
    → save_configuration st c ≡ ok (stored_configuration st c)
unfolding save_configuration
save_configuration-stored st c n e free = ground (arith, e, free)

same_true : (n : ℕ) → (n == n) ≡ true
same_true n = ground arith

pub stored_task-row :
    (st : PanelStore) (t t' : PanelProvisionTask) (n : ℕ)
    → task_by_id st n ≡ some t
    → t'.id ≡ some n
    → task_by_id (stored_task st t') n ≡ some t'
unfolding task_by_id
stored_task-row st t t' n found e =
    rw (by_id-replace (λ (x : PanelProvisionTask). x.id) t' n n st.tasks e, same_true n, found) refl

pub stored_configuration-row :
    (st : PanelStore) (c c' : VpnConfiguration) (n : ℕ)
    → configuration_by_id st n ≡ some c
    → c'.id ≡ some n
    → configuration_by_id (stored_configuration st c') n ≡ some c'
unfolding configuration_by_id
stored_configuration-row st c c' n found e =
    rw
      (
        by_id-replace (λ (x : VpnConfiguration). x.id) c' n n st.configurations e,
        same_true n,
        found,
      )
      refl

pub task-id :
    (st : PanelStore) (n : ℕ) (t : PanelProvisionTask) → task_by_id st n ≡ some t → t.id ≡ some n
unfolding task_by_id
task-id st n t h = by_id-id (λ x. x.id) n st.tasks t h

pub configuration-id :
    (st : PanelStore) (n : ℕ) (c : VpnConfiguration)
    → configuration_by_id st n ≡ some c
    → c.id ≡ some n
unfolding configuration_by_id
configuration-id st n c h = by_id-id (λ x. x.id) n st.configurations c h

-- The task once it is claimed
abbrev pub claimed : Settings → Surroundings → PanelProvisionTask → PanelProvisionTask
claimed s w t = record t {
  status = TaskStatus.in_progress;
  attempts = t.attempts + 1;
  claimed_at = some w.claimed_at;
  lease_expires_at = some (w.claimed_at + seconds s.lease_seconds);
  lease_token = some w.token;
  last_error = none;
  updated_at = some w.claimed_at;
}

abbrev pub handed_over : Surroundings → ℕ → PanelProvisionTask → Prepared
handed_over w id t = record {
  task_id = id;
  lease_token = w.token;
  attempt_no = t.attempts + 1;
  action = Action.provision;
  payload = t.payload;
}

start_claimed :
    (s : Settings) (w : Surroundings) (st : PanelStore) (id : ℕ) (t : PanelProvisionTask)
    (c : VpnConfiguration)
    → IsReady s w st id t c
    → start_attempt t w.claimed_at (w.claimed_at + seconds s.lease_seconds) w.token
      ≡ ok (claimed s w t)
unfolding start_attempt can_dispatch
start_claimed s w st id t c v = ground (arith, v.pending, v.due_now, v.lease)

pub prepare-ready :
    (s : Settings) (w : Surroundings) (st : PanelStore) (id : ℕ) (t : PanelProvisionTask)
    (c : VpnConfiguration)
    → IsReady s w st id t c
    → prepare st id s.lease_seconds w.claimed_at w.token
      ≡ ok (stored_task st (claimed s w t), ready (handed_over w id t))
unfolding prepare prepare_found claim_found can_dispatch
prepare-ready s w st id t c v =
    let start = start_claimed s w st id t c v in
    let saved = save_task-stored st (claimed s w t) id (task-id st id t v.found) in
    ground (arith, v.found, v.pending, v.due_now, v.plain, start, saved)

-- The rows that the worker finds when the panel has answered
pub after_claim :
    (s : Settings) (w : Surroundings) (st : PanelStore) (id : ℕ) (t : PanelProvisionTask)
    (c : VpnConfiguration)
    → IsReady s w st id t c
    → let end = w.during_provision (stored_task st (claimed s w t)) in
      (task_by_id end id ≡ some (claimed s w t))
      × (configuration_by_id end t.vpn_configuration_id ≡ some c)
      × (end.periods ≡ st.periods)
unfolding configuration_by_id
after_claim s w st id t c v =
    let stored = stored_task st (claimed s w t) in
    (
      v.task_kept stored
          ∙ stored_task-row st t (claimed s w t) id v.found (task-id st id t v.found),
      v.configuration_kept stored ∙ v.configuration,
      v.periods_kept stored,
    )

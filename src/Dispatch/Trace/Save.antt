-- ===== src/Dispatch/Trace/Save.antt =====
-- An UPDATE of a row by what calls of its entity make of it keeps the database traced.
use project_vpn.Common.{ℕ, ◌≡◌, refl, sym, ◌∙◌, true, some, List, [], arith}
use mathlib.Core.Path.{subst}
use project_vpn.Errors.{ok}
use project_vpn.UseCase.Rows.{replace}
use project_vpn.UseCase.Rows.Laws.{by_id-id, replace-IsKeyed}
use project_vpn.Vpn.{VpnConfiguration}
use project_vpn.Vpn.Lifecycle
use project_vpn.Vpn.Lifecycle.{run_vpn, without_expire}
use project_vpn.Task.Provision.{PanelProvisionTask}
use project_vpn.Task.Provision.Fencing as ProvisionCalls
use project_vpn.Task.Provision.Fencing.{run_provision}
use project_vpn.Task.Revoke.{PanelRevokeTask}
use project_vpn.Task.Revoke.Fencing as RevokeCalls
use project_vpn.Task.Revoke.Fencing.{run_revoke}
use project_vpn.Dispatch.Rows.{
  PanelStore, PanelAudit, task_by_id, revoke_by_id, configuration_by_id, save_task, save_revoke,
  save_configuration, append_audit,
}
use project_vpn.Dispatch.Trace.{IsTraced}
use project_vpn.Dispatch.Trace.Follow.{anything, Follows-refl, Follows-replace}

provision_nil : (t : PanelProvisionTask) → run_provision t [] ≡ t
unfolding run_provision
provision_nil t = refl

revoke_nil : (t : PanelRevokeTask) → run_revoke t [] ≡ t
unfolding run_revoke
revoke_nil t = refl

vpn_nil : (c : VpnConfiguration) → run_vpn c [] ≡ c
unfolding run_vpn
vpn_nil c = refl

pub IsTraced-refl : (st : PanelStore) → IsTraced st st
IsTraced-refl st = record {
  task_keys = λ k. k;
  revoke_keys = λ k. k;
  tasks = λ n. Follows-refl anything run_provision refl provision_nil (task_by_id st n);
  revokes = λ n. Follows-refl anything run_revoke refl revoke_nil (revoke_by_id st n);
  configurations = λ n. Follows-refl without_expire run_vpn refl vpn_nil (configuration_by_id st n);
}

pub append_audit-IsTraced :
    (st st' : PanelStore) (a : PanelAudit) → IsTraced st st' → IsTraced st (append_audit st' a)
unfolding append_audit task_by_id revoke_by_id configuration_by_id
append_audit-IsTraced st st' a v = record {
  task_keys = v.task_keys;
  revoke_keys = v.revoke_keys;
  tasks = v.tasks;
  revokes = v.revokes;
  configurations = v.configurations;
}

saved_task :
    (st st' : PanelStore) (t : PanelProvisionTask)
    → save_task st t ≡ ok st'
    → st' ≡ record st { tasks = replace (λ (x : PanelProvisionTask). x.id) t st.tasks }
unfolding save_task
saved_task st st' t h = ground arith

pub save_task-IsTraced :
    (st cur cur' : PanelStore) (n : ℕ) (t t' : PanelProvisionTask) (ms : List ProvisionCalls.Call)
    → task_by_id st n ≡ some t
    → t'.id ≡ t.id
    → t' ≡ run_provision t ms
    → IsTraced st cur
    → save_task cur t' ≡ ok cur'
    → IsTraced st cur'
unfolding task_by_id revoke_by_id configuration_by_id
save_task-IsTraced st cur cur' n t t' ms found same run v h =
    subst (λ x. IsTraced st x) (sym (saved_task cur cur' t' h))
      (record {
        task_keys = λ keys.
            replace-IsKeyed (λ x. x.id) t' n cur.tasks
              (same ∙ by_id-id (λ x. x.id) n st.tasks t found) (v.task_keys keys);
        revoke_keys = v.revoke_keys;
        tasks =
            Follows-replace anything run_provision refl provision_nil (λ x. x.id) ms n t t'
              cur.tasks st.tasks found (same ∙ by_id-id (λ x. x.id) n st.tasks t found) run refl
              v.tasks;
        revokes = v.revokes;
        configurations = v.configurations;
      })

saved_revoke :
    (st st' : PanelStore) (t : PanelRevokeTask)
    → save_revoke st t ≡ ok st'
    → st' ≡ record st { revokes = replace (λ (x : PanelRevokeTask). x.id) t st.revokes }
unfolding save_revoke
saved_revoke st st' t h = ground arith

pub save_revoke-IsTraced :
    (st cur cur' : PanelStore) (n : ℕ) (t t' : PanelRevokeTask) (ms : List RevokeCalls.Call)
    → revoke_by_id st n ≡ some t
    → t'.id ≡ t.id
    → t' ≡ run_revoke t ms
    → IsTraced st cur
    → save_revoke cur t' ≡ ok cur'
    → IsTraced st cur'
unfolding task_by_id revoke_by_id configuration_by_id
save_revoke-IsTraced st cur cur' n t t' ms found same run v h =
    subst (λ x. IsTraced st x) (sym (saved_revoke cur cur' t' h))
      (record {
        revoke_keys = λ keys.
            replace-IsKeyed (λ x. x.id) t' n cur.revokes
              (same ∙ by_id-id (λ x. x.id) n st.revokes t found) (v.revoke_keys keys);
        task_keys = v.task_keys;
        tasks = v.tasks;
        revokes =
            Follows-replace anything run_revoke refl revoke_nil (λ x. x.id) ms n t t' cur.revokes
              st.revokes found (same ∙ by_id-id (λ x. x.id) n st.revokes t found) run refl
              v.revokes;
        configurations = v.configurations;
      })

saved_configuration :
    (st st' : PanelStore) (c : VpnConfiguration)
    → save_configuration st c ≡ ok st'
    → st'
      ≡ record st { configurations = replace (λ (x : VpnConfiguration). x.id) c st.configurations }
unfolding save_configuration
saved_configuration st st' c h = ground arith

pub save_configuration-IsTraced :
    (st cur cur' : PanelStore) (n : ℕ) (c c' : VpnConfiguration) (ms : List Lifecycle.Call)
    → configuration_by_id st n ≡ some c
    → c'.id ≡ c.id
    → c' ≡ run_vpn c ms
    → without_expire ms ≡ true
    → IsTraced st cur
    → save_configuration cur c' ≡ ok cur'
    → IsTraced st cur'
unfolding task_by_id revoke_by_id configuration_by_id
save_configuration-IsTraced st cur cur' n c c' ms found same run fine v h =
    subst (λ x. IsTraced st x) (sym (saved_configuration cur cur' c' h))
      (record {
        task_keys = v.task_keys;
        revoke_keys = v.revoke_keys;
        tasks = v.tasks;
        revokes = v.revokes;
        configurations =
            Follows-replace without_expire run_vpn refl vpn_nil (λ x. x.id) ms n c c'
              cur.configurations st.configurations found
              (same ∙ by_id-id (λ x. x.id) n st.configurations c found) run fine v.configurations;
      })

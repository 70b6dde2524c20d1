-- ===== src/Dispatch/Steps/Sound.antt =====
-- Rows that are well formed stay well formed, whatever the workers do.
use project_vpn.Common.{ℕ, ◌≡◌, sym, some}
use mathlib.Core.Path.{subst}
use project_vpn.Task.Provision.{PanelProvisionTask}
use project_vpn.Task.Provision.Fencing as ProvisionCalls
use project_vpn.Task.Provision.Fencing.{run_provision, run_provision-IsValid}
use project_vpn.Task.Revoke.{PanelRevokeTask}
use project_vpn.Task.Revoke.Fencing as RevokeCalls
use project_vpn.Task.Revoke.Fencing.{run_revoke, run_revoke-IsValid}
use project_vpn.Vpn.{VpnConfiguration}
use project_vpn.Vpn.Lifecycle
use project_vpn.Vpn.Lifecycle.{run_vpn, run_vpn-IsValid, without_expire}
use project_vpn.Dispatch.Rows.{PanelStore, task_by_id, revoke_by_id, configuration_by_id}
use project_vpn.Dispatch.Trace.Follow.{anything, came_from}
use project_vpn.Dispatch.Steps.{Steps, HasKeys}
use project_vpn.Dispatch.Steps.Traces.{Steps-IsTraced}

-- A task has the fields of a lease exactly while it is in progress; a configuration is wanted active
-- exactly while it is not leaving, and has a time of revocation once revoked.
pub record IsSound (st : PanelStore) : Type 0 where
  pub tasks : (n : ℕ) (t : PanelProvisionTask) → task_by_id st n ≡ some t → ProvisionCalls.IsValid t
  pub revokes : (n : ℕ) (t : PanelRevokeTask) → revoke_by_id st n ≡ some t → RevokeCalls.IsValid t
  pub configurations :
      (n : ℕ) (c : VpnConfiguration) → configuration_by_id st n ≡ some c → Lifecycle.IsValid c

-- However the transactions of the workers are interleaved, well-formed rows stay well formed: the
-- fields of a lease are there exactly while a task is in progress, and access is wanted exactly while
-- a configuration is not leaving.
pub Steps-IsSound : (st st' : PanelStore) → HasKeys st → IsSound st → Steps st st' → IsSound st'
Steps-IsSound st st' keys v steps =
    let traced = Steps-IsTraced st st' keys steps in
    record {
      tasks = λ n t' e.
          let (t, ms, f, g) =
            came_from anything run_provision (task_by_id st n) (task_by_id st' n) t'
              (traced.tasks n) e in
          subst (λ x. ProvisionCalls.IsValid x) (sym g)
            (run_provision-IsValid t ms (v.tasks n t f));
      revokes = λ n t' e.
          let (t, ms, f, g) =
            came_from anything run_revoke (revoke_by_id st n) (revoke_by_id st' n) t'
              (traced.revokes n) e in
          subst (λ x. RevokeCalls.IsValid x) (sym g) (run_revoke-IsValid t ms (v.revokes n t f));
      configurations = λ n c' e.
          let (c, ms, f, g) =
            came_from without_expire run_vpn (configuration_by_id st n) (configuration_by_id st' n)
              c' (traced.configurations n) e in
          subst (λ x. Lifecycle.IsValid x) (sym g) (run_vpn-IsValid c ms (v.configurations n c f));
    }

-- ===== src/Dispatch/Trace.antt =====
-- What transactions may do to the rows of the database: nothing but the calls of the entities.
pub mod Follow
pub mod Save
pub mod Calls
pub mod Claims
pub mod Finals
pub mod Failures
pub mod Revokes
use project_vpn.Common.{ℕ, Bool, true, List, Option}
use project_vpn.UseCase.Rows.Laws.{IsKeyed}
use project_vpn.Task.Provision.{PanelProvisionTask}
use project_vpn.Task.Revoke.{PanelRevokeTask}
use project_vpn.Task.Provision.Fencing as ProvisionCalls
use project_vpn.Task.Revoke.Fencing as RevokeCalls
use project_vpn.Vpn.Lifecycle
use project_vpn.Dispatch.Rows.{PanelStore, task_by_id, revoke_by_id, configuration_by_id}
use project_vpn.Dispatch.Trace.Follow.{Follows, anything}

-- Each row of the second database is the row of the first after calls of its entity, among which a
-- configuration receives no `expire`; no row appears or disappears, and primary keys
-- stay primary keys.
pub record IsTraced (st st' : PanelStore) : Type 0 where
  pub tasks :
      (n : ℕ) → Follows anything ProvisionCalls.run_provision (task_by_id st n) (task_by_id st' n)
  pub task_keys :
      IsKeyed (λ (x : PanelProvisionTask). x.id) st.tasks
      → IsKeyed (λ (x : PanelProvisionTask). x.id) st'.tasks
  pub revoke_keys :
      IsKeyed (λ (x : PanelRevokeTask). x.id) st.revokes
      → IsKeyed (λ (x : PanelRevokeTask). x.id) st'.revokes
  pub revokes :
      (n : ℕ) → Follows anything RevokeCalls.run_revoke (revoke_by_id st n) (revoke_by_id st' n)
  pub configurations :
      (n : ℕ)
      → Follows Lifecycle.without_expire Lifecycle.run_vpn
          (configuration_by_id st n)
          (configuration_by_id st' n)

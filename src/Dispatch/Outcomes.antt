-- ===== src/Dispatch/Outcomes.antt =====
-- What a whole run of the provision worker leads to.
pub mod Stored
pub mod Completes
pub mod Fails
pub mod Exactly
use project_vpn.Common.{ℕ, ◌≡◌, ◌<◌, true, false, some}
use project_vpn.Vpn.{VpnConfiguration}
use project_vpn.Task.Lease.{TaskStatus, due}
use project_vpn.Task.Provision.{PanelProvisionTask}
use project_vpn.Dispatch.Rows.{PanelStore, task_by_id, configuration_by_id}
use project_vpn.Dispatch.Provision.{is_current}
use project_vpn.Dispatch.Run.{Settings, Surroundings}

-- A task that is due, with the configuration that it is to provision, and a run in which no other
-- transaction touches the two rows or the paid periods while the panel works.
pub record IsReady (s : Settings) (w : Surroundings) (st : PanelStore) (id : ℕ)
    (t : PanelProvisionTask) (c : VpnConfiguration) : Type 0 where
  pub found : task_by_id st id ≡ some t
  pub pending : t.status ≡ TaskStatus.pending
  pub due_now : due t.next_retry_at w.claimed_at ≡ true
  pub plain : t.compensation_required ≡ false
  pub configuration : configuration_by_id st t.vpn_configuration_id ≡ some c
  pub current : is_current t c ≡ true
  pub lease : 0 < s.lease_seconds
  pub task_kept : (x : PanelStore) → task_by_id (w.during_provision x) id ≡ task_by_id x id
  pub configuration_kept :
      (x : PanelStore)
      → configuration_by_id (w.during_provision x) t.vpn_configuration_id
        ≡ configuration_by_id x t.vpn_configuration_id
  pub periods_kept : (x : PanelStore) → (w.during_provision x).periods ≡ x.periods

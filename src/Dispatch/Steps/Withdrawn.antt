-- ===== src/Dispatch/Steps/Withdrawn.antt =====
-- Access that was withdrawn.
use project_vpn.Common.{ℕ, ◌≤◌, ◌≡◌, true, false, not, ◌||◌, some, arith}
use project_vpn.Vpn.{VpnConfiguration, VpnStatus, is, wants_active}
use project_vpn.Vpn.Lifecycle.{
  IsValid, run_vpn, run_vpn-IsValid, run_forward, without_expire, is_leaving,
}
use project_vpn.Dispatch.Rows.{PanelStore, configuration_by_id}
use project_vpn.Dispatch.Trace.Follow.{goes_to}
use project_vpn.Dispatch.Steps.{Steps, HasKeys}
use project_vpn.Dispatch.Steps.Traces.{Steps-IsTraced}

left_means :
    (c c' : VpnConfiguration)
    → IsValid c
    → IsValid c'
    → wants_active c.desired_state ≡ false
    → (not (is_leaving c.status) || is_leaving c'.status) ≡ true
    → (is c'.status VpnStatus.active ≡ false) × (wants_active c'.desired_state ≡ false)
left_means c c' v v' h k = ground (arith, v.desired, v'.desired)

-- Once access through a configuration is no longer wanted, it stays so and the configuration is not
-- active, whatever transactions of workers follow: a provision that ends late does not bring it back.
pub withdrawn_stays :
    (st st' : PanelStore) (n : ℕ) (c : VpnConfiguration)
    → HasKeys st
    → configuration_by_id st n ≡ some c
    → IsValid c
    → wants_active c.desired_state ≡ false
    → Steps st st'
    → (c' : VpnConfiguration) × (configuration_by_id st' n ≡ some c')
      × (is c'.status VpnStatus.active ≡ false)
      × (wants_active c'.desired_state ≡ false)
      × (c.generation ≤ c'.generation)
withdrawn_stays st st' n c keys found valid gone steps =
    let v = (Steps-IsTraced st st' keys steps).configurations n in
    let row =
      goes_to without_expire run_vpn (configuration_by_id st n) (configuration_by_id st' n) c v
        found in
    let forward = run_forward c v.calls valid in
    let left =
      left_means c (run_vpn c v.calls) valid (run_vpn-IsValid c v.calls valid) gone forward.1 in
    (run_vpn c v.calls, row, left.0, left.1, forward.0)

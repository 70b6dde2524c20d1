-- ===== src/Dispatch/Trace/Calls.antt =====
-- Each method that changes an entity is one call of it.
use project_vpn.Common.{ℕ, ◌≡◌, sym, Bool, [], ◌∷◌, arith, Text}
use mathlib.Core.Path.{subst}
use project_vpn.Errors.{ok}
use project_vpn.Vpn
use project_vpn.Vpn.{VpnConfiguration, cancel_provisioning_for_revoke, fail_provisioning}
use project_vpn.Vpn.Lifecycle
use project_vpn.Vpn.Lifecycle.{run_vpn, perform}
use project_vpn.Task.Provision.{
  PanelProvisionTask, start_attempt, complete, retry, mark_compensation_required,
  require_compensation, compensation_succeeded, recover_expired_lease,
}
use project_vpn.Task.Provision.Fencing
use project_vpn.Task.Provision.Fencing.{after, run_provision}
use project_vpn.Dispatch.Rows.{PanelStore}
use project_vpn.Dispatch.Trace.{IsTraced}
use project_vpn.Dispatch.Trace.Save.{IsTraced-refl}

pub start_run :
    (t t' : PanelProvisionTask) (now until token : ℕ)
    → start_attempt t now until token ≡ ok t'
    → (t'.id ≡ t.id) × (t' ≡ run_provision t (Fencing.call_start now until token ∷ []))
unfolding start_attempt run_provision after
start_run t t' now until token h = ground arith

pub complete_run :
    (t t' : PanelProvisionTask) (now : ℕ)
    → complete t now ≡ ok t'
    → (t'.id ≡ t.id) × (t' ≡ run_provision t (Fencing.call_complete now ∷ []))
unfolding complete run_provision after
complete_run t t' now h = ground arith

pub mark_run :
    (t t' : PanelProvisionTask) (now : ℕ) (e : Text)
    → mark_compensation_required t now e ≡ ok t'
    → (t'.id ≡ t.id) × (t' ≡ run_provision t (Fencing.call_mark now e ∷ []))
unfolding mark_compensation_required run_provision after
mark_run t t' now e h = ground arith

pub retry_run :
    (t : PanelProvisionTask) (now : ℕ) (e : Text) (base : ℕ)
    → ((retry t now e base).id ≡ t.id)
      × (retry t now e base ≡ run_provision t (Fencing.call_retry now e base ∷ []))
unfolding retry run_provision after
retry_run t now e base = ground arith

pub vpn_run :
    (c c' : VpnConfiguration) (m : Lifecycle.Call)
    → perform c m ≡ ok c'
    → (c'.id ≡ c.id) × (c' ≡ run_vpn c (m ∷ []))
unfolding perform run_vpn Vpn.activate
vpn_run c c' (Lifecycle.call_activate ref) h = ground arith
vpn_run c c' m h = ground arith

pub require_run :
    (t : PanelProvisionTask) (now : ℕ) (e : Text)
    → ((require_compensation t now e).id ≡ t.id)
      × (require_compensation t now e ≡ run_provision t (Fencing.call_require now e ∷ []))
unfolding require_compensation run_provision after
require_run t now e = ground arith

pub compensated_run :
    (t : PanelProvisionTask) (now : ℕ) (terminal : Bool)
    → ((compensation_succeeded t now terminal).id ≡ t.id)
      × (compensation_succeeded t now terminal
          ≡ run_provision t (Fencing.call_compensated now terminal ∷ []))
unfolding compensation_succeeded run_provision after
compensated_run t now terminal = ground arith

pub recover_run :
    (t t' : PanelProvisionTask) (now : ℕ) (e : Text)
    → recover_expired_lease t now e ≡ ok t'
    → (t'.id ≡ t.id) × (t' ≡ run_provision t (Fencing.call_recover now e ∷ []))
unfolding recover_expired_lease run_provision after
recover_run t t' now e h = ground arith

pub same_store : (st st' : PanelStore) → st' ≡ st → IsTraced st st'
same_store st st' e = subst (λ x. IsTraced st x) (sym e) (IsTraced-refl st)

-- ===== src/Dispatch/Trace/Finals.antt =====
-- What the end of a provision does, traced to the calls of the entities.
use project_vpn.Common.{
  ℕ, ◌≡◌, refl, ◌&&◌, Bool-cases, inl, inr, Option-cases, none, some, [], ◌∷◌, arith, Text, codes,
}
use mathlib.Core.Path.{subst}
use project_vpn.Errors.{ok, bind_ok}
use project_vpn.Vpn.{VpnConfiguration}
use project_vpn.Vpn.Lifecycle
use project_vpn.Vpn.Lifecycle.{run_vpn, perform}
use project_vpn.Task.Provision.{PanelProvisionTask, owns_active_lease, owns_lease}
use project_vpn.Task.Provision.Fencing
use project_vpn.Task.Provision.Fencing.{after, run_provision}
use project_vpn.UseCase.Rows.{has_current_period}
use project_vpn.Dispatch.Rows.{PanelStore, configuration_activated, task_by_id, configuration_by_id}
use project_vpn.Dispatch.Provision.{
  Prepared, Finish, is_current, mark_stale, finalize_owned, activate_owned, withdraw_owned,
  finalize_found, finalize_provision_success,
}
use project_vpn.Dispatch.Trace.{IsTraced}
use project_vpn.Dispatch.Trace.Save.{
  IsTraced-refl, save_task-IsTraced, save_configuration-IsTraced, append_audit-IsTraced,
}
use project_vpn.Dispatch.Trace.Calls.{complete_run, mark_run, vpn_run, same_store}

mark_stale-IsTraced :
    (st cur st' : PanelStore) (id : ℕ) (t : PanelProvisionTask) (now : ℕ) (e : Text) (f : Finish)
    → task_by_id st id ≡ some t
    → IsTraced st cur
    → mark_stale cur t now e ≡ ok (st', f)
    → IsTraced st st'
unfolding mark_stale
mark_stale-IsTraced st cur st' id t now e f found v h =
    let (t', marked, h1) = bind_ok h in
    let (cur', saved, h2) = bind_ok h1 in
    let run = mark_run t t' now e marked in
    subst (λ x. IsTraced st x) (ground arith)
      (save_task-IsTraced st cur cur' id t t' (Fencing.call_mark now e ∷ []) found run.0 run.1 v
        saved)

activate_owned-IsTraced :
    (st st' : PanelStore) (id n : ℕ) (t : PanelProvisionTask) (c : VpnConfiguration) (now : ℕ)
    (f : Finish)
    → task_by_id st id ≡ some t
    → configuration_by_id st n ≡ some c
    → activate_owned st t c now ≡ ok (st', f)
    → IsTraced st st'
unfolding activate_owned perform
activate_owned-IsTraced st st' id n t c now f found here h =
    let (c', active, h1) = bind_ok h in
    let (cur, saved, h2) = bind_ok h1 in
    let (t', done, h3) = bind_ok h2 in
    let (cur', finished, h4) = bind_ok h3 in
    let vpn = vpn_run c c' (Lifecycle.call_activate none) active in
    let run = complete_run t t' now done in
    subst (λ x. IsTraced st x) (ground arith)
      (append_audit-IsTraced st cur'
        (configuration_activated t.vpn_configuration_id t.subscription_id)
        (save_task-IsTraced st cur cur' id t t' (Fencing.call_complete now ∷ []) found run.0 run.1
          (save_configuration-IsTraced st st cur n c c' (Lifecycle.call_activate none ∷ []) here
            vpn.0 vpn.1 refl (IsTraced-refl st) saved)
          finished))

withdraw_owned-IsTraced :
    (st st' : PanelStore) (id n : ℕ) (t : PanelProvisionTask) (c : VpnConfiguration) (now : ℕ)
    (f : Finish)
    → task_by_id st id ≡ some t
    → configuration_by_id st n ≡ some c
    → withdraw_owned st t c now ≡ ok (st', f)
    → IsTraced st st'
unfolding withdraw_owned perform
withdraw_owned-IsTraced st st' id n t c now f found here h =
    let (c', left, h1) = bind_ok h in
    let (cur, saved, h2) = bind_ok h1 in
    let vpn = vpn_run c c' Lifecycle.call_cancel_provisioning left in
    mark_stale-IsTraced st cur st' id t now
      (codes "subscription access expired during panel provisioning") f found
      (save_configuration-IsTraced st st cur n c c' (Lifecycle.call_cancel_provisioning ∷ []) here
        vpn.0 vpn.1 refl (IsTraced-refl st) saved)
      h2

finalize_owned-IsTraced :
    (st st' : PanelStore) (id n : ℕ) (t : PanelProvisionTask) (c : VpnConfiguration) (now : ℕ)
    (f : Finish)
    → task_by_id st id ≡ some t
    → configuration_by_id st n ≡ some c
    → finalize_owned st t c now ≡ ok (st', f)
    → IsTraced st st'
unfolding finalize_owned
finalize_owned-IsTraced st st' id n t c now f found here h =
    elim (Bool-cases (is_current t c && has_current_period t.subscription_id now st.periods)) [
      | inl p ↦ activate_owned-IsTraced st st' id n t c now f found here (ground arith)
      | inr p ↦ elim (Bool-cases (is_current t c)) [
        | inl q ↦ withdraw_owned-IsTraced st st' id n t c now f found here (ground arith)
        | inr q ↦
            mark_stale-IsTraced st st st' id t now
              (codes "stale panel provision success requires compensation") f found
              (IsTraced-refl st) (ground arith)
      ]
    ]

finalize_found-IsTraced :
    (st st' : PanelStore) (id : ℕ) (p : Prepared) (t : PanelProvisionTask) (now : ℕ) (f : Finish)
    → task_by_id st id ≡ some t
    → finalize_found st p t now ≡ ok (st', f)
    → IsTraced st st'
unfolding finalize_found
finalize_found-IsTraced st st' id p t now f found h =
    elim (Bool-cases (owns_active_lease t p.lease_token p.attempt_no now)) [
      | inl q ↦ elim (Option-cases (configuration_by_id st t.vpn_configuration_id)) [
        | inl e ↦ same_store st st' (ground arith)
        | inr (c, e) ↦
            finalize_owned-IsTraced st st' id t.vpn_configuration_id t c now f found e
              (ground arith)
      ]
      | inr q ↦ elim (Bool-cases (owns_lease t p.lease_token p.attempt_no)) [
        | inl r ↦
            mark_stale-IsTraced st st st' id t now
              (codes "panel lease expired after remote success") f found (IsTraced-refl st)
              (ground arith)
        | inr r ↦ same_store st st' (ground arith)
      ]
    ]

pub finalize_provision_success-IsTraced :
    (st st' : PanelStore) (p : Prepared) (now : ℕ) (f : Finish)
    → finalize_provision_success st p now ≡ ok (st', f)
    → IsTraced st st'
unfolding finalize_provision_success
finalize_provision_success-IsTraced st st' p now f h =
    elim (Option-cases (task_by_id st p.task_id)) [
      | inl e ↦ same_store st st' (ground arith)
      | inr (t, e) ↦ finalize_found-IsTraced st st' p.task_id p t now f e (ground arith)
    ]

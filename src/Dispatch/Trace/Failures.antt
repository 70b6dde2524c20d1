-- ===== src/Dispatch/Trace/Failures.antt =====
-- What a failed provision and a compensation do, traced to the calls of the entities.
use project_vpn.Common.{
  ℕ, ◌≡◌, refl, true, false, Bool-cases, inl, inr, Option, Option-cases, none, some, [], ◌∷◌, arith,
  Text, codes, ◌++◌,
}
use mathlib.Core.Path.{subst}
use project_vpn.Errors.{ok, Result-cases, bind_ok}
use project_vpn.Vpn
use project_vpn.Vpn.{VpnConfiguration, cancel_provisioning_for_revoke, fail_provisioning}
use project_vpn.Vpn.Lifecycle
use project_vpn.Vpn.Lifecycle.{run_vpn, perform}
use project_vpn.Task.Lease.{TaskStatus, is}
use project_vpn.Task.Provision.{
  PanelProvisionTask, retry, require_compensation, compensation_succeeded, owns_lease,
}
use project_vpn.Task.Provision.Fencing
use project_vpn.Task.Provision.Fencing.{after, run_provision}
use project_vpn.Dispatch.Rows.{
  PanelStore, configuration_revoked, task_by_id, configuration_by_id, save_task,
}
use project_vpn.Dispatch.Provision.{
  Prepared, Outcome, is_current, fail_configuration, fail_owned, finalize_remote_failure,
}
use project_vpn.Dispatch.Trace.{IsTraced}
use project_vpn.Dispatch.Trace.Save.{
  IsTraced-refl, save_task-IsTraced, save_configuration-IsTraced, append_audit-IsTraced,
}
use project_vpn.Dispatch.Trace.Calls.{retry_run, require_run, compensated_run, vpn_run, same_store}
use project_vpn.Dispatch.Compensate.{
  completes_cancelled, is_terminal_locally, fail_with, revoke_cancelled, settle_configuration,
  compensation_done, record_compensation_success, record_compensation_failure,
}

fail_configuration-IsTraced :
    (st cur st' : PanelStore) (n : ℕ) (t : PanelProvisionTask) (o : Option VpnConfiguration)
    → configuration_by_id st n ≡ o
    → IsTraced st cur
    → fail_configuration cur t o ≡ ok st'
    → IsTraced st st'
unfolding fail_configuration perform
fail_configuration-IsTraced st cur st' n t none here v h =
    subst (λ x. IsTraced st x) (ground arith) v
fail_configuration-IsTraced st cur st' n t (some c) here v h = elim (Bool-cases (is_current t c)) [
  | inr q ↦ subst (λ x. IsTraced st x) (ground arith) v
  | inl q ↦ elim (Result-cases (fail_provisioning c)) [
    | inr (x, e) ↦ absurd (ground arith)
    | inl (c', e) ↦
        let vpn = vpn_run c c' Lifecycle.call_fail_provisioning e in
        save_configuration-IsTraced st cur st' n c c' (Lifecycle.call_fail_provisioning ∷ []) here
          vpn.0 vpn.1 refl v (ground arith)
  ]
]

save_task-configuration :
    (st st' : PanelStore) (t : PanelProvisionTask) (n : ℕ)
    → save_task st t ≡ ok st'
    → configuration_by_id st n ≡ configuration_by_id st' n
unfolding save_task configuration_by_id
save_task-configuration st st' t n h = ground arith

fail_owned-IsTraced :
    (st st' : PanelStore) (id : ℕ) (t : PanelProvisionTask) (base now : ℕ) (error : Text)
    (o : Outcome)
    → task_by_id st id ≡ some t
    → fail_owned st t base now error ≡ ok (st', o)
    → IsTraced st st'
unfolding fail_owned
fail_owned-IsTraced st st' id t base now error o found h =
    let message = codes "panel provision failed: " ++ error in
    let tried = retry t now message base in
    let (cur, saved, h1) = bind_ok h in
    let run = retry_run t now message base in
    let v =
      save_task-IsTraced st st cur id t tried (Fencing.call_retry now message base ∷ []) found run.0
        run.1 (IsTraced-refl st) saved in
    let n = tried.vpn_configuration_id in
    elim (Bool-cases (is tried.status TaskStatus.failed)) [
      | inr q ↦ subst (λ x. IsTraced st x) (ground arith) v
      | inl q ↦ elim (Result-cases (fail_configuration cur tried (configuration_by_id cur n))) [
        | inr (x, e) ↦ absurd (ground arith)
        | inl (done, e) ↦
            subst (λ x. IsTraced st x) (ground arith)
              (fail_configuration-IsTraced st cur done n tried (configuration_by_id cur n)
                (save_task-configuration st cur tried n saved) v e)
      ]
    ]

pub finalize_remote_failure-IsTraced :
    (st st' : PanelStore) (p : Prepared) (base now : ℕ) (error : Text) (o : Outcome)
    → finalize_remote_failure st p base now error ≡ ok (st', o)
    → IsTraced st st'
unfolding finalize_remote_failure
finalize_remote_failure-IsTraced st st' p base now error o h =
    elim (Option-cases (task_by_id st p.task_id)) [
      | inl e ↦ same_store st st' (ground arith)
      | inr (t, e) ↦ elim (Bool-cases (owns_lease t p.lease_token p.attempt_no)) [
        | inl q ↦ fail_owned-IsTraced st st' p.task_id t base now error o e (ground arith)
        | inr q ↦ same_store st st' (ground arith)
      ]
    ]

revoke_cancelled-IsTraced :
    (st cur st' : PanelStore) (n : ℕ) (t : PanelProvisionTask) (c c' : VpnConfiguration) (now : ℕ)
    → configuration_by_id st n ≡ some c
    → IsTraced st cur
    → completes_cancelled t c ≡ true
    → revoke_cancelled cur t c now ≡ ok (st', c')
    → IsTraced st st' × (is_current t c' ≡ false)
unfolding revoke_cancelled perform Vpn.revoke
revoke_cancelled-IsTraced st cur st' n t c c' now here v q h =
    let (gone, left, h1) = bind_ok h in
    let (cur', saved, h2) = bind_ok h1 in
    let vpn = vpn_run c gone (Lifecycle.call_revoke now) left in
    (
      subst (λ x. IsTraced st x) (ground arith)
          (append_audit-IsTraced st cur' (configuration_revoked t.vpn_configuration_id) (
            save_configuration-IsTraced st cur cur' n c gone (Lifecycle.call_revoke now ∷ []) here
              vpn.0 vpn.1 refl v saved)),
      ground (arith, left, h2),
    )

fail_with_stale :
    (t : PanelProvisionTask) (st : PanelStore) (c : VpnConfiguration)
    → is_current t c ≡ false
    → fail_with t (st, c) ≡ ok st
unfolding fail_configuration
fail_with_stale t st c q = ground arith

settle_configuration-IsTraced :
    (st cur st' : PanelStore) (n : ℕ) (t : PanelProvisionTask) (o : Option VpnConfiguration)
    (now : ℕ)
    → configuration_by_id st n ≡ o
    → IsTraced st cur
    → settle_configuration cur t o now ≡ ok st'
    → IsTraced st st'
unfolding settle_configuration
settle_configuration-IsTraced st cur st' n t none now here v h =
    subst (λ x. IsTraced st x) (ground arith) v
settle_configuration-IsTraced st cur st' n t (some c) now here v h =
    elim (Bool-cases (completes_cancelled t c)) [
      | inl q ↦ elim (Result-cases (revoke_cancelled cur t c now)) [
        | inr (x, e) ↦ absurd (ground arith)
        | inl ((mid, c'), e) ↦
            let both = revoke_cancelled-IsTraced st cur mid n t c c' now here v q e in
            subst (λ x. IsTraced st x) (ground (arith, fail_with_stale t mid c' both.1)) both.0
      ]
      | inr q ↦ elim (Bool-cases (is t.status TaskStatus.failed)) [
        | inl r ↦ fail_configuration-IsTraced st cur st' n t (some c) here v (ground arith)
        | inr r ↦ subst (λ x. IsTraced st x) (ground arith) v
      ]
    ]

compensation_done-IsTraced :
    (st st' : PanelStore) (id n : ℕ) (t : PanelProvisionTask) (found : Option VpnConfiguration)
    (now : ℕ) (o : Outcome)
    → task_by_id st id ≡ some t
    → configuration_by_id st n ≡ found
    → compensation_done st t found now ≡ ok (st', o)
    → IsTraced st st'
unfolding compensation_done
compensation_done-IsTraced st st' id n t found now o here config h =
    let terminal = is_terminal_locally t found in
    let finished = compensation_succeeded t now terminal in
    let (cur, saved, h1) = bind_ok h in
    let (settled, s, h2) = bind_ok h1 in
    let run = compensated_run t now terminal in
    subst (λ x. IsTraced st x) (ground (arith, h2))
      (settle_configuration-IsTraced st cur settled n finished found now config
        (save_task-IsTraced st st cur id t finished (Fencing.call_compensated now terminal ∷ [])
          here run.0 run.1 (IsTraced-refl st) saved)
        s)

pub record_compensation_success-IsTraced :
    (st st' : PanelStore) (p : Prepared) (now : ℕ) (o : Outcome)
    → record_compensation_success st p now ≡ ok (st', o)
    → IsTraced st st'
unfolding record_compensation_success
record_compensation_success-IsTraced st st' p now o h =
    elim (Option-cases (task_by_id st p.task_id)) [
      | inl e ↦ same_store st st' (ground arith)
      | inr (t, e) ↦ elim (Bool-cases (owns_lease t p.lease_token p.attempt_no)) [
        | inl q ↦
            compensation_done-IsTraced st st' p.task_id t.vpn_configuration_id t
              (configuration_by_id st t.vpn_configuration_id) now o e refl (ground arith)
        | inr q ↦ same_store st st' (ground arith)
      ]
    ]

pub record_compensation_failure-IsTraced :
    (st st' : PanelStore) (p : Prepared) (now : ℕ) (error : Text)
    → record_compensation_failure st p now error ≡ ok st'
    → IsTraced st st'
unfolding record_compensation_failure
record_compensation_failure-IsTraced st st' p now error h =
    elim (Option-cases (task_by_id st p.task_id)) [
      | inl e ↦ same_store st st' (ground arith)
      | inr (t, e) ↦ elim (Bool-cases (owns_lease t p.lease_token p.attempt_no)) [
        | inl q ↦
            let message = codes "panel compensation failed: " ++ error in
            let run = require_run t now message in
            save_task-IsTraced st st st' p.task_id t (require_compensation t now message)
              (Fencing.call_require now message ∷ []) e run.0 run.1 (IsTraced-refl st)
              (ground arith)
        | inr q ↦ same_store st st' (ground arith)
      ]
    ]

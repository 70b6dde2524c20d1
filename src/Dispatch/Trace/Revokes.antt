-- ===== src/Dispatch/Trace/Revokes.antt =====
-- The transactions of the revoke worker, traced to the calls of the entities.
use project_vpn.Common.{
  ℕ, ◌+◌, ◌≡◌, refl, not, ◌&&◌, Bool-cases, inl, inr, Option, Option-cases, none, some, [], ◌∷◌,
  arith, Text, codes, ◌++◌, seconds,
}
use mathlib.Core.Path.{subst}
use project_vpn.Errors.{ok, Result-cases, bind_ok}
use project_vpn.Vpn.{VpnConfiguration, fail_revoke}
use project_vpn.Vpn.Lifecycle
use project_vpn.Vpn.Lifecycle.{perform}
use project_vpn.Task.Lease.{TaskStatus, is}
use project_vpn.Task.Revoke.{
  PanelRevokeTask, can_dispatch, start_attempt, complete, retry, recover_expired_lease,
  owns_active_lease, owns_lease,
}
use project_vpn.Task.Revoke.Fencing
use project_vpn.Task.Revoke.Fencing.{after, run_revoke}
use project_vpn.Dispatch.Rows.{
  PanelStore, configuration_revoked, revoke_by_id, configuration_by_id, save_revoke,
}
use project_vpn.Dispatch.Provision.{is_over}
use project_vpn.Dispatch.Revoke.{
  PreparedRevoke, RevokeOutcome, RevokePreparation, claim_found, prepare_found, prepare,
  is_revoking, revoke_found, revoke_configuration, succeed_owned, finalize_success,
  fail_configuration, fail_owned, finalize_failure,
}
use project_vpn.Dispatch.Trace.{IsTraced}
use project_vpn.Dispatch.Trace.Save.{
  IsTraced-refl, save_revoke-IsTraced, save_configuration-IsTraced, append_audit-IsTraced,
}
use project_vpn.Dispatch.Trace.Calls.{vpn_run, same_store}

start_run :
    (t t' : PanelRevokeTask) (now until token : ℕ)
    → start_attempt t now until token ≡ ok t'
    → (t'.id ≡ t.id) × (t' ≡ run_revoke t (Fencing.call_start now until token ∷ []))
unfolding start_attempt run_revoke after
start_run t t' now until token h = ground arith

complete_run :
    (t t' : PanelRevokeTask) (now : ℕ)
    → complete t now ≡ ok t'
    → (t'.id ≡ t.id) × (t' ≡ run_revoke t (Fencing.call_complete now ∷ []))
unfolding complete run_revoke after
complete_run t t' now h = ground arith

retry_run :
    (t : PanelRevokeTask) (now : ℕ) (e : Text) (base : ℕ)
    → ((retry t now e base).id ≡ t.id)
      × (retry t now e base ≡ run_revoke t (Fencing.call_retry now e base ∷ []))
unfolding retry run_revoke after
retry_run t now e base = ground arith

pub revoke_recover_run :
    (t t' : PanelRevokeTask) (now : ℕ) (e : Text)
    → recover_expired_lease t now e ≡ ok t'
    → (t'.id ≡ t.id) × (t' ≡ run_revoke t (Fencing.call_recover now e ∷ []))
unfolding recover_expired_lease run_revoke after
revoke_recover_run t t' now e h = ground arith

claim_found-IsTraced :
    (st st' : PanelStore) (id : ℕ) (t : PanelRevokeTask) (lease now token : ℕ)
    (a : RevokePreparation)
    → revoke_by_id st id ≡ some t
    → claim_found st id t lease now token ≡ ok (st', a)
    → IsTraced st st'
unfolding claim_found
claim_found-IsTraced st st' id t lease now token a found h =
    let until = now + seconds lease in
    let (t', started, h1) = bind_ok h in
    let (cur, saved, h2) = bind_ok h1 in
    let run = start_run t t' now until token started in
    subst (λ x. IsTraced st x) (ground (arith, h2))
      (save_revoke-IsTraced st st cur id t t' (Fencing.call_start now until token ∷ []) found run.0
        run.1 (IsTraced-refl st) saved)

pub prepare_revoke-IsTraced :
    (st st' : PanelStore) (id lease now token : ℕ) (a : RevokePreparation)
    → prepare st id lease now token ≡ ok (st', a)
    → IsTraced st st'
unfolding prepare prepare_found
prepare_revoke-IsTraced st st' id lease now token a h = elim (Option-cases (revoke_by_id st id)) [
  | inl e ↦ same_store st st' (ground arith)
  | inr (t, e) ↦ elim (Bool-cases (not (is_over t.status) && can_dispatch t now)) [
    | inl q ↦ claim_found-IsTraced st st' id t lease now token a e (ground arith)
    | inr q ↦ same_store st st' (ground arith)
  ]
]

revoke_found-IsTraced :
    (st cur st' : PanelStore) (n : ℕ) (t : PanelRevokeTask) (c : VpnConfiguration) (now : ℕ)
    → configuration_by_id st n ≡ some c
    → IsTraced st cur
    → revoke_found cur t c now ≡ ok st'
    → IsTraced st st'
unfolding revoke_found perform
revoke_found-IsTraced st cur st' n t c now here v h =
    let (gone, left, h1) = bind_ok h in
    let (cur', saved, h2) = bind_ok h1 in
    let vpn = vpn_run c gone (Lifecycle.call_revoke now) left in
    subst (λ x. IsTraced st x) (ground (arith, h2))
      (append_audit-IsTraced st cur' (configuration_revoked t.vpn_configuration_id) (
        save_configuration-IsTraced st cur cur' n c gone (Lifecycle.call_revoke now ∷ []) here vpn.0
          vpn.1 refl v saved))

revoke_configuration-IsTraced :
    (st cur st' : PanelStore) (n : ℕ) (t : PanelRevokeTask) (o : Option VpnConfiguration) (now : ℕ)
    → configuration_by_id st n ≡ o
    → IsTraced st cur
    → revoke_configuration cur t o now ≡ ok st'
    → IsTraced st st'
unfolding revoke_configuration
revoke_configuration-IsTraced st cur st' n t none now here v h =
    subst (λ x. IsTraced st x) (ground arith) v
revoke_configuration-IsTraced st cur st' n t (some c) now here v h =
    elim (Bool-cases (is_revoking t c)) [
      | inl q ↦ revoke_found-IsTraced st cur st' n t c now here v (ground arith)
      | inr q ↦ subst (λ x. IsTraced st x) (ground arith) v
    ]

succeed_owned-IsTraced :
    (st st' : PanelStore) (id : ℕ) (t : PanelRevokeTask) (now : ℕ) (o : RevokeOutcome)
    → revoke_by_id st id ≡ some t
    → succeed_owned st t now ≡ ok (st', o)
    → IsTraced st st'
unfolding succeed_owned
succeed_owned-IsTraced st st' id t now o found h =
    let (t', done, h1) = bind_ok h in
    let (cur, saved, h2) = bind_ok h1 in
    let (cur', revoked, h3) = bind_ok h2 in
    let run = complete_run t t' now done in
    subst (λ x. IsTraced st x) (ground (arith, h3))
      (revoke_configuration-IsTraced st cur cur' t.vpn_configuration_id t'
        (configuration_by_id st t.vpn_configuration_id) now refl
        (save_revoke-IsTraced st st cur id t t' (Fencing.call_complete now ∷ []) found run.0 run.1
          (IsTraced-refl st) saved)
        revoked)

pub finalize_success-IsTraced :
    (st st' : PanelStore) (p : PreparedRevoke) (now : ℕ) (o : RevokeOutcome)
    → finalize_success st p now ≡ ok (st', o)
    → IsTraced st st'
unfolding finalize_success
finalize_success-IsTraced st st' p now o h = elim (Option-cases (revoke_by_id st p.task_id)) [
  | inl e ↦ same_store st st' (ground arith)
  | inr (t, e) ↦ elim (Bool-cases (owns_active_lease t p.lease_token p.attempt_no now)) [
    | inl q ↦ succeed_owned-IsTraced st st' p.task_id t now o e (ground arith)
    | inr q ↦ same_store st st' (ground arith)
  ]
]

fail_configuration-IsTraced :
    (st cur st' : PanelStore) (n : ℕ) (t : PanelRevokeTask) (o : Option VpnConfiguration)
    → configuration_by_id st n ≡ o
    → IsTraced st cur
    → fail_configuration cur t o ≡ ok st'
    → IsTraced st st'
unfolding fail_configuration perform
fail_configuration-IsTraced st cur st' n t none here v h =
    subst (λ x. IsTraced st x) (ground arith) v
fail_configuration-IsTraced st cur st' n t (some c) here v h = elim (Bool-cases (is_revoking t c)) [
  | inr q ↦ subst (λ x. IsTraced st x) (ground arith) v
  | inl q ↦ elim (Result-cases (fail_revoke c)) [
    | inr (x, e) ↦ absurd (ground arith)
    | inl (c', e) ↦
        let vpn = vpn_run c c' Lifecycle.call_fail_revoke e in
        save_configuration-IsTraced st cur st' n c c' (Lifecycle.call_fail_revoke ∷ []) here vpn.0
          vpn.1 refl v (ground arith)
  ]
]

save_revoke-configuration :
    (st st' : PanelStore) (t : PanelRevokeTask) (n : ℕ)
    → save_revoke st t ≡ ok st'
    → configuration_by_id st n ≡ configuration_by_id st' n
unfolding save_revoke configuration_by_id
save_revoke-configuration st st' t n h = ground arith

fail_owned-IsTraced :
    (st st' : PanelStore) (id : ℕ) (t : PanelRevokeTask) (base now : ℕ) (error : Text)
    (o : RevokeOutcome)
    → revoke_by_id st id ≡ some t
    → fail_owned st t base now error ≡ ok (st', o)
    → IsTraced st st'
unfolding fail_owned
fail_owned-IsTraced st st' id t base now error o found h =
    let message = codes "panel revoke failed: " ++ error in
    let tried = retry t now message base in
    let (cur, saved, h1) = bind_ok h in
    let run = retry_run t now message base in
    let v =
      save_revoke-IsTraced st st cur id t tried (Fencing.call_retry now message base ∷ []) found
        run.0 run.1 (IsTraced-refl st) saved in
    let n = tried.vpn_configuration_id in
    elim (Bool-cases (is tried.status TaskStatus.failed)) [
      | inr q ↦ subst (λ x. IsTraced st x) (ground arith) v
      | inl q ↦ elim (Result-cases (fail_configuration cur tried (configuration_by_id cur n))) [
        | inr (x, e) ↦ absurd (ground arith)
        | inl (done, e) ↦
            subst (λ x. IsTraced st x) (ground arith)
              (fail_configuration-IsTraced st cur done n tried (configuration_by_id cur n)
                (save_revoke-configuration st cur tried n saved) v e)
      ]
    ]

pub finalize_failure-IsTraced :
    (st st' : PanelStore) (p : PreparedRevoke) (base now : ℕ) (error : Text) (o : RevokeOutcome)
    → finalize_failure st p base now error ≡ ok (st', o)
    → IsTraced st st'
unfolding finalize_failure
finalize_failure-IsTraced st st' p base now error o h =
    elim (Option-cases (revoke_by_id st p.task_id)) [
      | inl e ↦ same_store st st' (ground arith)
      | inr (t, e) ↦ elim (Bool-cases (owns_lease t p.lease_token p.attempt_no)) [
        | inl q ↦ fail_owned-IsTraced st st' p.task_id t base now error o e (ground arith)
        | inr q ↦ same_store st st' (ground arith)
      ]
    ]

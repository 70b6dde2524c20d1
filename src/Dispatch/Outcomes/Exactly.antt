-- ===== src/Dispatch/Outcomes/Exactly.antt =====
-- When the end of a provision gives access.
use project_vpn.Common.{
  ℕ, ◌≡◌, ◌↔◌, sym, true, false, Bool-cases, inl, inr, Option-cases, some, arith, Text, codes,
  Instant,
}
use mathlib.Core.Path.{subst}
use project_vpn.Errors.{ok, Result-cases}
use project_vpn.UseCase.Rows.{has_current_period}
use project_vpn.Vpn.{VpnConfiguration, cancel_provisioning_for_revoke}
use project_vpn.Task.Lease.{TaskStatus}
use project_vpn.Task.Provision.{
  PanelProvisionTask, mark_compensation_required, owns_active_lease, owns_lease,
}
use project_vpn.Dispatch.Rows.{
  PanelStore, task_by_id, configuration_by_id, save_task, save_configuration, has_other_active,
}
use project_vpn.Dispatch.Provision.{
  Prepared, activated, is_current, mark_stale, activate_owned, withdraw_owned, finalize_owned,
  finalize_found, finalize_provision_success,
}
use project_vpn.Dispatch.Outcomes.Stored.{task-id, configuration-id}
use project_vpn.Dispatch.Outcomes.Completes.{
  activate_current, activated_breaks, with_access, activate_owned-works, finalize_works,
}

-- A worker that holds an active lease on a current operation whose access is paid, for a subscription
-- of which no other configuration is active
pub record MayActivate (st : PanelStore) (p : Prepared) (now : Instant) (t : PanelProvisionTask)
    (c : VpnConfiguration) : Type 0 where
  pub found : task_by_id st p.task_id ≡ some t
  pub configuration : configuration_by_id st t.vpn_configuration_id ≡ some c
  pub owned : owns_active_lease t p.lease_token p.attempt_no now ≡ true
  pub current : is_current t c ≡ true
  pub paid : has_current_period t.subscription_id now st.periods ≡ true
  pub only_active : has_other_active c st.configurations ≡ false

started :
    (t : PanelProvisionTask) (token n : ℕ) (now : Instant)
    → owns_active_lease t token n now ≡ true
    → t.status ≡ TaskStatus.in_progress
unfolding owns_active_lease
started t token n now h = ground arith

mark_stale-never :
    (st st' : PanelStore) (t : PanelProvisionTask) (now : Instant) (e : Text)
    → mark_stale st t now e ≡ ok (st', activated)
    → ⊥
unfolding mark_stale
mark_stale-never st st' t now e h = elim (Result-cases (mark_compensation_required t now e)) [
  | inr (x, marked) ↦ ground arith
  | inl (t', marked) ↦ elim (Result-cases (save_task st t')) [
    | inr (x, saved) ↦ ground arith
    | inl (cur, saved) ↦ ground arith
  ]
]

withdraw_owned-never :
    (st st' : PanelStore) (t : PanelProvisionTask) (c : VpnConfiguration) (now : Instant)
    → withdraw_owned st t c now ≡ ok (st', activated)
    → ⊥
unfolding withdraw_owned
withdraw_owned-never st st' t c now h = elim (Result-cases (cancel_provisioning_for_revoke c)) [
  | inr (x, left) ↦ ground arith
  | inl (c', left) ↦ elim (Result-cases (save_configuration st c')) [
    | inr (x, saved) ↦ ground arith
    | inl (cur, saved) ↦
        mark_stale-never cur st' t now
          (codes "subscription access expired during panel provisioning") (ground arith)
  ]
]

-- A second activation for a subscription breaks the index.
activated_alone :
    (st st' : PanelStore) (t : PanelProvisionTask) (c : VpnConfiguration) (now : Instant)
    → is_current t c ≡ true
    → activate_owned st t c now ≡ ok (st', activated)
    → has_other_active c st.configurations ≡ false
unfolding activate_owned save_configuration
activated_alone st st' t c now r h =
    let active = activate_current t c r in
    let breaks = activated_breaks c st.configurations in
    elim (Bool-cases (has_other_active c st.configurations)) [
      | inl used ↦ absurd (ground (arith, active, breaks))
      | inr free ↦ free
    ]

found_activated :
    (st st' : PanelStore) (p : Prepared) (t : PanelProvisionTask) (now : Instant)
    → task_by_id st p.task_id ≡ some t
    → finalize_found st p t now ≡ ok (st', activated)
    → (c : VpnConfiguration) × MayActivate st p now t c
      × (activate_owned st t c now ≡ ok (st', activated))
unfolding finalize_found finalize_owned
found_activated st st' p t now found h =
    elim (Bool-cases (owns_active_lease t p.lease_token p.attempt_no now)) [
      | inr q ↦ elim (Bool-cases (owns_lease t p.lease_token p.attempt_no)) [
        | inl r ↦ absurd (
            mark_stale-never st st' t now (codes "panel lease expired after remote success")
              (ground arith))
        | inr r ↦ absurd (ground arith)
      ]
      | inl q ↦ elim (Option-cases (configuration_by_id st t.vpn_configuration_id)) [
        | inl e ↦ absurd (ground arith)
        | inr (c, e) ↦ elim (Bool-cases (is_current t c)) [
          | inr r ↦ absurd (
              mark_stale-never st st' t now
                (codes "stale panel provision success requires compensation") (ground arith))
          | inl r ↦ elim (Bool-cases (has_current_period t.subscription_id now st.periods)) [
            | inr u ↦ absurd (withdraw_owned-never st st' t c now (ground arith))
            | inl u ↦ (
              c,
              record {
                found = found;
                configuration = e;
                owned = q;
                current = r;
                paid = u;
                only_active = activated_alone st st' t c now r (ground arith);
              },
              ground arith,
            )
          ]
        ]
      ]
    ]

-- The end of a provision gives access exactly if the worker holds an active lease on the task, the
-- configuration is still the one to provision, of the task's generation, the subscription has a
-- current paid period and no other active configuration; then it stores the active configuration, the
-- completed task and an audit entry.
pub activates_exactly :
    (st st' : PanelStore) (p : Prepared) (now : Instant)
    → (finalize_provision_success st p now ≡ ok (st', activated)) ↔ (
        (t : PanelProvisionTask) × (c : VpnConfiguration) × MayActivate st p now t c
        × (st' ≡ with_access st t c now))
unfolding finalize_provision_success
activates_exactly st st' p now = (
  (λ h. elim (Option-cases (task_by_id st p.task_id)) [
    | inl e ↦ absurd (ground arith)
    | inr (t, e) ↦
        let (c, may, works) = found_activated st st' p t now e (ground arith) in
        let same =
          activate_owned-works st t c p.task_id t.vpn_configuration_id now
            (task-id st p.task_id t e)
            (configuration-id st t.vpn_configuration_id c may.configuration)
            (started t p.lease_token p.attempt_no now may.owned) may.current may.only_active in
        (t, c, may, ground (arith, same, works))
  ]),
  (λ (t, c, may, same).
      subst (λ x. finalize_provision_success st p now ≡ ok (x, activated)) (sym same)
        (finalize_works st p t c now may.found may.configuration may.owned
          (started t p.lease_token p.attempt_no now may.owned) may.current may.paid
          may.only_active)),
)

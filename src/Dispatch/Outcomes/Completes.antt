-- ===== src/Dispatch/Outcomes/Completes.antt =====
-- A provision that works: from a task that is due to an active configuration, in one run.
use project_vpn.Common.{
  ℕ, ◌+◌, ◌<◌, ◌≡◌, refl, ◌∙◌, ap, true, false, some, none, List, [], ◌∷◌, ◌++◌, arith, Instant,
  seconds,
}
use project_vpn.Errors.{Result, ok}
use project_vpn.UseCase.Rows.{has_current_period}
use project_vpn.Vpn
use project_vpn.Vpn.{VpnConfiguration, VpnStatus}
use project_vpn.Task.Lease.{TaskStatus}
use project_vpn.Task.Provision.{PanelProvisionTask, complete, clear_lease, owns_active_lease}
use project_vpn.Dispatch.Rows.{
  PanelStore, configuration_activated, task_by_id, configuration_by_id, append_audit,
  has_other_active, breaks_one_active,
}
use project_vpn.Dispatch.Provision.{
  Prepared, Outcome, status, is_current, activated, activate_owned, finalize_owned, finalize_found,
  finalize_provision_success,
}
use project_vpn.Dispatch.Run.{
  Settings, Surroundings, finish, after_provision, carry_out, execute_prepared, execute_provision,
}
use project_vpn.Dispatch.Outcomes.{IsReady}
use project_vpn.Dispatch.Outcomes.Stored.{
  stored_task, stored_configuration, save_task-stored, save_configuration-stored, stored_task-row,
  stored_configuration-row, task-id, configuration-id, claimed, handed_over, prepare-ready,
  after_claim,
}

abbrev activated_configuration : VpnConfiguration → VpnConfiguration
activated_configuration c = record c { status = VpnStatus.active; revoked_at = none }

pub activate_current :
    (t : PanelProvisionTask) (c : VpnConfiguration)
    → is_current t c ≡ true
    → Vpn.activate c none ≡ ok (activated_configuration c)
unfolding Vpn.activate
activate_current t c h = ground arith

abbrev closed : PanelProvisionTask → Instant → PanelProvisionTask
closed t now = record t {
  status = TaskStatus.succeeded;
  completed_at = some now;
  updated_at = some now;
  last_error = none;
  compensation_required = false;
  claimed_at = none;
  lease_expires_at = none;
  lease_token = none;
}

complete_started :
    (t : PanelProvisionTask) (now : Instant)
    → t.status ≡ TaskStatus.in_progress
    → complete t now ≡ ok (closed t now)
unfolding complete clear_lease
complete_started t now h = ground arith

-- The database after the end of a provision that works
abbrev pub with_access : PanelStore → PanelProvisionTask → VpnConfiguration → Instant → PanelStore
with_access st t c now =
    append_audit (stored_task (stored_configuration st (activated_configuration c)) (closed t now))
      (configuration_activated t.vpn_configuration_id t.subscription_id)

same_others :
    (c : VpnConfiguration) (l : List VpnConfiguration)
    → has_other_active (activated_configuration c) l ≡ has_other_active c l
unfolding has_other_active
same_others c [] = refl
same_others c (x ∷ l) = ground (arith, same_others c l)

-- The index holds for the active configuration exactly when no other of its subscription is active.
pub activated_breaks :
    (c : VpnConfiguration) (l : List VpnConfiguration)
    → breaks_one_active (activated_configuration c) l ≡ has_other_active c l
unfolding breaks_one_active
activated_breaks c l = same_others c l

pub activate_owned-works :
    (st : PanelStore) (t : PanelProvisionTask) (c : VpnConfiguration) (id n : ℕ) (now : Instant)
    → t.id ≡ some id
    → c.id ≡ some n
    → t.status ≡ TaskStatus.in_progress
    → is_current t c ≡ true
    → has_other_active c st.configurations ≡ false
    → activate_owned st t c now ≡ ok (with_access st t c now, activated)
unfolding activate_owned
activate_owned-works st t c id n now e f g h only =
    let free = activated_breaks c st.configurations ∙ only in
    let saved = save_configuration-stored st (activated_configuration c) n f free in
    let finished =
      save_task-stored (stored_configuration st (activated_configuration c)) (closed t now) id e in
    ground (arith, activate_current t c h, complete_started t now g, saved, finished)

pub finalize_works :
    (st : PanelStore) (p : Prepared) (t : PanelProvisionTask) (c : VpnConfiguration) (now : Instant)
    → task_by_id st p.task_id ≡ some t
    → configuration_by_id st t.vpn_configuration_id ≡ some c
    → owns_active_lease t p.lease_token p.attempt_no now ≡ true
    → t.status ≡ TaskStatus.in_progress
    → is_current t c ≡ true
    → has_current_period t.subscription_id now st.periods ≡ true
    → has_other_active c st.configurations ≡ false
    → finalize_provision_success st p now ≡ ok (with_access st t c now, activated)
unfolding finalize_provision_success finalize_found finalize_owned
finalize_works st p t c now found config owned started current paid only =
    let works =
      activate_owned-works st t c p.task_id t.vpn_configuration_id now
        (task-id st p.task_id t found) (configuration-id st t.vpn_configuration_id c config) started
        current only in
    ground (arith, found, config, owned, current, paid, works)

owns_claimed :
    (s : Settings) (w : Surroundings) (t : PanelProvisionTask)
    → w.finalized_at < w.claimed_at + seconds s.lease_seconds
    → owns_active_lease (claimed s w t) w.token (t.attempts + 1) w.finalized_at ≡ true
unfolding owns_active_lease
owns_claimed s w t h = ground arith

same_generation :
    (t : PanelProvisionTask) (c : VpnConfiguration)
    → is_current t c ≡ true
    → c.generation ≡ t.vpn_generation
same_generation t c h = ground arith

completes_run :
    (s : Settings) (w : Surroundings) (st : PanelStore) (id : ℕ) (t : PanelProvisionTask)
    (c : VpnConfiguration)
    → IsReady s w st id t c
    → w.provision ≡ none
    → w.finalized_at < w.claimed_at + seconds s.lease_seconds
    → has_current_period t.subscription_id w.finalized_at st.periods ≡ true
    → has_other_active c (w.during_provision (stored_task st (claimed s w t))).configurations
      ≡ false
    → execute_provision s w st id ≡ (
      with_access
          (w.during_provision (stored_task st (claimed s w t)))
          (claimed s w t)
          c
          w.finalized_at,
      ok (status TaskStatus.succeeded),
    )
unfolding execute_provision execute_prepared carry_out after_provision finish
completes_run s w st id t c v works in_time paid only =
    let end = w.during_provision (stored_task st (claimed s w t)) in
    let rows = after_claim s w st id t c v in
    let final =
      finalize_works end (handed_over w id t) (claimed s w t) c w.finalized_at rows.0 rows.1
        (owns_claimed s w t in_time) refl v.current
        (ap (has_current_period t.subscription_id w.finalized_at) rows.2 ∙ paid) only in
    rw (prepare-ready s w st id t c v, works, final) refl

-- A task that is due, whose configuration waits for it and whose subscription is paid at the end,
-- succeeds in one run if the panel provisions before the lease ends and no other transaction touches
-- the rows meanwhile, and no other configuration of the subscription is active when the panel has
-- answered: the configuration is then active, and the audit has one entry more, which names the
-- configuration and its subscription.
pub provision_completes :
    (s : Settings) (w : Surroundings) (st : PanelStore) (id : ℕ) (t : PanelProvisionTask)
    (c : VpnConfiguration)
    → IsReady s w st id t c
    → w.provision ≡ none
    → w.finalized_at < w.claimed_at + seconds s.lease_seconds
    → has_current_period t.subscription_id w.finalized_at st.periods ≡ true
    → has_other_active c (w.during_provision (stored_task st (claimed s w t))).configurations
      ≡ false
    → let after = execute_provision s w st id in
      (after.1 ≡ ok (status TaskStatus.succeeded))
      × ((t' : PanelProvisionTask) × (task_by_id after.0 id ≡ some t')
          × (t'.status ≡ TaskStatus.succeeded)
          × (t'.attempts ≡ t.attempts + 1))
      × ((c' : VpnConfiguration) × (configuration_by_id after.0 t.vpn_configuration_id ≡ some c')
          × (c'.status ≡ VpnStatus.active)
          × (c'.generation ≡ t.vpn_generation))
      × (after.0.audit
          ≡ (w.during_provision (stored_task st (claimed s w t))).audit
            ++ (configuration_activated t.vpn_configuration_id t.subscription_id ∷ []))
unfolding task_by_id configuration_by_id append_audit
provision_completes s w st id t c v works in_time paid only =
    let end = w.during_provision (stored_task st (claimed s w t)) in
    let rows = after_claim s w st id t c v in
    let run = completes_run s w st id t c v works in_time paid only in
    let last = closed (claimed s w t) w.finalized_at in
    let middle = stored_configuration end (activated_configuration c) in
    let n = t.vpn_configuration_id in
    let task_row =
      stored_task-row middle (claimed s w t) last id rows.0 (task-id st id t v.found) in
    let configuration_row =
      stored_configuration-row end c (activated_configuration c) n rows.1
        (configuration-id st n c v.configuration) in
    (
      ap (λ (x : PanelStore × Result Outcome). x.1) run,
      (
        last,
        ap (λ (x : PanelStore × Result Outcome). task_by_id x.0 id) run ∙ task_row,
        refl,
        refl,
      ),
      (
        activated_configuration c,
        ap (λ (x : PanelStore × Result Outcome). configuration_by_id x.0 n) run ∙ configuration_row,
        refl,
        same_generation t c v.current,
      ),
      ap (λ (x : PanelStore × Result Outcome). x.0.audit) run,
    )

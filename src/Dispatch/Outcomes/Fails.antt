-- ===== src/Dispatch/Outcomes/Fails.antt =====
-- A provision that the panel refuses.
use project_vpn.Common.{
  ℕ, ◌+◌, ◌≡◌, ◌∙◌, ap, inl, inr, Bool, true, false, Bool-cases, leb, some, none, arith, ◌++◌,
  if◌then◌else◌, Text, codes,
}
use project_vpn.Errors.{Result, ok}
use project_vpn.Vpn.{VpnConfiguration, VpnStatus, fail_provisioning}
use project_vpn.Task.Lease.{TaskStatus}
use project_vpn.Task.Provision.{PanelProvisionTask, fail, retry, clear_lease, owns_lease}
use project_vpn.Dispatch.Rows.{PanelStore, task_by_id, configuration_by_id}
use project_vpn.Dispatch.Provision.{
  Outcome, status, retry_scheduled, is_current, fail_configuration, fail_owned,
  finalize_remote_failure,
}
use project_vpn.Dispatch.Run.{
  Settings, Surroundings, after_provision, carry_out, execute_prepared, execute_provision,
}
use project_vpn.Dispatch.Outcomes.{IsReady}
use project_vpn.Dispatch.Outcomes.Stored.{
  stored_task, stored_configuration, save_task-stored, save_configuration-stored, stored_task-row,
  stored_configuration-row, task-id, configuration-id, claimed, handed_over, prepare-ready,
  after_claim,
}

abbrev tried : Settings → Surroundings → PanelProvisionTask → Text → PanelProvisionTask
tried s w t error =
    retry (claimed s w t) w.finalized_at (codes "panel provision failed: " ++ error)
      s.retry_base_seconds

abbrev is_last : PanelProvisionTask → Bool
is_last t = leb t.max_attempts (t.attempts + 1)

tried_fields :
    (s : Settings) (w : Surroundings) (t : PanelProvisionTask) (error : Text)
    → let t' = tried s w t error in
      (t'.status ≡ (if is_last t then TaskStatus.failed else TaskStatus.pending))
      × (t'.attempts ≡ t.attempts + 1)
      × (t'.lease_token ≡ none)
      × (t'.last_error ≡ some (codes "panel provision failed: " ++ error))
unfolding retry fail clear_lease
tried_fields s w t error = ground arith

tried_kept :
    (s : Settings) (w : Surroundings) (t : PanelProvisionTask) (error : Text)
    → let t' = tried s w t error in
      (t'.id ≡ t.id)
      × (t'.vpn_configuration_id ≡ t.vpn_configuration_id)
      × (t'.vpn_generation ≡ t.vpn_generation)
unfolding retry fail clear_lease
tried_kept s w t error = ground arith

abbrev refused_configuration : VpnConfiguration → VpnConfiguration
refused_configuration c = record c { status = VpnStatus.failed }

fail_current :
    (st : PanelStore) (t t' : PanelProvisionTask) (c : VpnConfiguration) (n : ℕ)
    → is_current t c ≡ true
    → t'.vpn_generation ≡ t.vpn_generation
    → c.id ≡ some n
    → fail_configuration st t' (some c) ≡ ok (stored_configuration st (refused_configuration c))
unfolding fail_configuration fail_provisioning
fail_current st t t' c n h k e =
    ground (arith, save_configuration-stored st (refused_configuration c) n e)

-- What is stored after a failure
abbrev after_failure : PanelStore → PanelProvisionTask → VpnConfiguration → Bool → PanelStore
after_failure st t c last =
    if last
    then stored_configuration (stored_task st t) (refused_configuration c)
    else stored_task st t

fails_owned :
    (s : Settings) (w : Surroundings) (st : PanelStore) (id : ℕ) (t : PanelProvisionTask)
    (c : VpnConfiguration) (error : Text)
    → t.id ≡ some id
    → configuration_by_id st t.vpn_configuration_id ≡ some c
    → is_current t c ≡ true
    → fail_owned st (claimed s w t) s.retry_base_seconds w.finalized_at error
      ≡ ok (
        after_failure st (tried s w t error) c (is_last t),
        (if is_last t then status TaskStatus.failed else retry_scheduled),
      )
unfolding fail_owned configuration_by_id
fails_owned s w st id t c error e config current =
    let t' = tried s w t error in
    let kept = tried_kept s w t error in
    let fields = tried_fields s w t error in
    let saved = save_task-stored st t' id (kept.0 ∙ e) in
    let failure =
      fail_current (stored_task st t') t t' c t.vpn_configuration_id current kept.2
        (configuration-id st t.vpn_configuration_id c config) in
    elim (Bool-cases (is_last t)) [
      | inl q ↦ ground (arith, saved, fields.0, q, kept.1, config, failure)
      | inr q ↦ ground (arith, saved, fields.0, q)
    ]

owns_still :
    (s : Settings) (w : Surroundings) (t : PanelProvisionTask)
    → owns_lease (claimed s w t) w.token (t.attempts + 1) ≡ true
unfolding owns_lease
owns_still s w t = ground arith

fails_final :
    (s : Settings) (w : Surroundings) (st : PanelStore) (id : ℕ) (t : PanelProvisionTask)
    (c : VpnConfiguration) (error : Text)
    → t.id ≡ some id
    → task_by_id st id ≡ some (claimed s w t)
    → configuration_by_id st t.vpn_configuration_id ≡ some c
    → is_current t c ≡ true
    → finalize_remote_failure st (handed_over w id t) s.retry_base_seconds w.finalized_at error
      ≡ ok (
        after_failure st (tried s w t error) c (is_last t),
        (if is_last t then status TaskStatus.failed else retry_scheduled),
      )
unfolding finalize_remote_failure
fails_final s w st id t c error e found config current =
    ground (arith, found, owns_still s w t, fails_owned s w st id t c error e config current)

fails_run :
    (s : Settings) (w : Surroundings) (st : PanelStore) (id : ℕ) (t : PanelProvisionTask)
    (c : VpnConfiguration) (error : Text)
    → IsReady s w st id t c
    → w.provision ≡ some error
    → execute_provision s w st id ≡ (
      after_failure
          (w.during_provision (stored_task st (claimed s w t)))
          (tried s w t error)
          c
          (is_last t),
      ok (if is_last t then status TaskStatus.failed else retry_scheduled),
    )
unfolding execute_provision execute_prepared carry_out after_provision
fails_run s w st id t c error v refused =
    let end = w.during_provision (stored_task st (claimed s w t)) in
    let rows = after_claim s w st id t c v in
    let final =
      fails_final s w end id t c error (task-id st id t v.found) rows.0 rows.1 v.current in
    ground (arith, prepare-ready s w st id t c v, refused, final)

failure_rows :
    (st : PanelStore) (t t' : PanelProvisionTask) (c : VpnConfiguration) (id n : ℕ) (last : Bool)
    → task_by_id st id ≡ some t
    → t'.id ≡ some id
    → configuration_by_id st n ≡ some c
    → c.id ≡ some n
    → (task_by_id (after_failure st t' c last) id ≡ some t')
      × (configuration_by_id (after_failure st t' c last) n
          ≡ some (if last then refused_configuration c else c))
unfolding task_by_id configuration_by_id
failure_rows st t t' c id n false found e config f = (stored_task-row st t t' id found e, config)
failure_rows st t t' c id n true found e config f = (
  stored_task-row st t t' id found e,
  stored_configuration-row (stored_task st t') c (refused_configuration c) n config f,
)

refused_status :
    (t : PanelProvisionTask) (c : VpnConfiguration) (last : Bool)
    → is_current t c ≡ true
    → (if last then refused_configuration c else c).status
      ≡ (if last then VpnStatus.failed else VpnStatus.provisioning)
refused_status t c last h = ground arith

-- If the panel raises instead, the run does not: the attempt is counted and its lease given back. The
-- task waits for a retry, and the configuration stays PROVISIONING, unless that was the last attempt:
-- then the task and the configuration have both FAILED.
pub provision_fails :
    (s : Settings) (w : Surroundings) (st : PanelStore) (id : ℕ) (t : PanelProvisionTask)
    (c : VpnConfiguration) (error : Text)
    → IsReady s w st id t c
    → w.provision ≡ some error
    → let after = execute_provision s w st id in
      let last = leb t.max_attempts (t.attempts + 1) in
      (after.1 ≡ ok (if last then status TaskStatus.failed else retry_scheduled))
      × ((t' : PanelProvisionTask) × (task_by_id after.0 id ≡ some t')
          × (t'.status ≡ (if last then TaskStatus.failed else TaskStatus.pending))
          × (t'.attempts ≡ t.attempts + 1)
          × (t'.lease_token ≡ none))
      × ((c' : VpnConfiguration) × (configuration_by_id after.0 t.vpn_configuration_id ≡ some c')
          × (c'.status ≡ (if last then VpnStatus.failed else VpnStatus.provisioning)))
provision_fails s w st id t c error v refused =
    let end = w.during_provision (stored_task st (claimed s w t)) in
    let rows = after_claim s w st id t c v in
    let run = fails_run s w st id t c error v refused in
    let n = t.vpn_configuration_id in
    let final =
      failure_rows end (claimed s w t) (tried s w t error) c id n (is_last t) rows.0
        ((tried_kept s w t error).0 ∙ task-id st id t v.found) rows.1
        (configuration-id st n c v.configuration) in
    let fields = tried_fields s w t error in
    (
      ap (λ (x : PanelStore × Result Outcome). x.1) run,
      (
        tried s w t error,
        ap (λ (x : PanelStore × Result Outcome). task_by_id x.0 id) run ∙ final.0,
        fields.0,
        fields.1,
        fields.2,
      ),
      (
        (if is_last t then refused_configuration c else c),
        ap (λ (x : PanelStore × Result Outcome). configuration_by_id x.0 n) run ∙ final.1,
        refused_status t c (is_last t) v.current,
      ),
    )

-- ===== src/Dispatch/Rows.antt =====
-- The database as the workers see it, with the queries of
-- infrastructure/persistence/repositories/vpn.py. Rows that another transaction has locked are not
-- skipped: a transaction is one step.
use project_vpn.Common.{
  ℕ, zero, suc, Bool, true, false, not, ◌&&◌, ◌==◌, same_number, Option, none, some, List, [], ◌∷◌,
  ◌++◌, leb, if◌then◌else◌, is_none, filter, Instant,
}
use project_vpn.Errors.{Result, ok, runtime, raise_if, ◌>>◌}
use project_vpn.Subscription.{SubscriptionPeriod}
use project_vpn.Vpn
use project_vpn.Vpn.{VpnConfiguration, VpnStatus}
use project_vpn.Task.Lease.{TaskStatus, is, is_past}
use project_vpn.Task.Provision.{PanelProvisionTask}
use project_vpn.Task.Revoke.{PanelRevokeTask}
use project_vpn.UseCase.Rows.{by_id, replace}

pub data PanelAudit : Type 0 where
  configuration_activated : ℕ → ℕ → PanelAudit
  configuration_revoked : ℕ → PanelAudit

pub record PanelStore : Type 0 where
  pub tasks : List PanelProvisionTask
  pub revokes : List PanelRevokeTask
  pub configurations : List VpnConfiguration
  pub periods : List SubscriptionPeriod
  pub audit : List PanelAudit

-- `get_panel_task_entity`, `get_panel_revoke_task_entity` and `get_entity` of the configurations
unfoldable pub task_by_id : PanelStore → ℕ → Option PanelProvisionTask
unfolding by_id
task_by_id st n = by_id (λ x. x.id) n st.tasks

unfoldable pub revoke_by_id : PanelStore → ℕ → Option PanelRevokeTask
unfolding by_id
revoke_by_id st n = by_id (λ x. x.id) n st.revokes

unfoldable pub configuration_by_id : PanelStore → ℕ → Option VpnConfiguration
unfolding by_id
configuration_by_id st n = by_id (λ x. x.id) n st.configurations

-- `save_panel_task_entity`
unfoldable pub save_task : PanelStore → PanelProvisionTask → Result PanelStore
save_task st t =
    raise_if (is_none t.id) (runtime "Cannot save panel provision task without id")
    >> ok (record st { tasks = replace (λ x. x.id) t st.tasks })

-- `save_panel_revoke_task_entity`
unfoldable pub save_revoke : PanelStore → PanelRevokeTask → Result PanelStore
save_revoke st t =
    raise_if (is_none t.id) (runtime "Cannot save panel revoke task without id")
    >> ok (record st { revokes = replace (λ x. x.id) t st.revokes })

-- Whether another configuration of the same subscription is active
unfoldable pub has_other_active : VpnConfiguration → List VpnConfiguration → Bool
has_other_active c [] = false
has_other_active c (x ∷ xs) =
    let rest = has_other_active c xs in
    if x.subscription_id == c.subscription_id
      && (Vpn.is x.status VpnStatus.active && not (same_number x.id c.id))
    then true
    else rest

-- The unique index of the configurations on the subscription, of those that are active
unfoldable pub breaks_one_active : VpnConfiguration → List VpnConfiguration → Bool
unfolding has_other_active
breaks_one_active c rows = Vpn.is c.status VpnStatus.active && has_other_active c rows

-- `save_entity` of the configurations, with the index that the UPDATE may break
unfoldable pub save_configuration : PanelStore → VpnConfiguration → Result PanelStore
unfolding breaks_one_active
save_configuration st c =
    raise_if (is_none c.id) (runtime "Cannot save VPN configuration without id")
    >> raise_if (breaks_one_active c st.configurations)
        (runtime "uq_vpn_configurations_one_active_per_subscription")
    >> ok (record st { configurations = replace (λ x. x.id) c st.configurations })

unfoldable pub append_audit : PanelStore → PanelAudit → PanelStore
append_audit st a = record st { audit = st.audit ++ (a ∷ []) }

abbrev pub or_zero : Option Instant → Instant
or_zero none = 0
or_zero (some t) = t

-- LIMIT
abbrev pub limited {ℓ} : {A : Type ℓ} → ℕ → List A → List A
limited zero xs = []
limited (suc n) [] = []
limited (suc n) (x ∷ xs) = x ∷ limited n xs

-- ORDER BY a time that is there, ascending
unfoldable pub insert_by {ℓ} : {A : Type ℓ} → (A → Option Instant) → A → List A → List A
insert_by time x [] = x ∷ []
insert_by time x (y ∷ ys) =
    let later = y ∷ insert_by time x ys in
    if leb (or_zero (time x)) (or_zero (time y)) then x ∷ y ∷ ys else later

unfoldable pub sort_by {ℓ} : {A : Type ℓ} → (A → Option Instant) → List A → List A
unfolding insert_by
sort_by time [] = []
sort_by time (x ∷ xs) = insert_by time x (sort_by time xs)

-- `list_stale_panel_task_entities`
unfoldable pub stale_tasks : PanelStore → Instant → ℕ → List PanelProvisionTask
unfolding sort_by
stale_tasks st now limit = limited limit (
    sort_by (λ x. x.lease_expires_at)
      (filter (λ x. is x.status TaskStatus.in_progress && is_past x.lease_expires_at now) st.tasks))

-- `list_stale_panel_revoke_task_entities`
unfoldable pub stale_revokes : PanelStore → Instant → ℕ → List PanelRevokeTask
unfolding sort_by
stale_revokes st now limit = limited limit (
    sort_by (λ x. x.lease_expires_at)
      (filter (λ x. is x.status TaskStatus.in_progress && is_past x.lease_expires_at now)
        st.revokes))

-- `list_due_panel_task_ids` and `list_due_panel_revoke_task_ids`; a missing time is not due.
unfoldable pub due_tasks : PanelStore → Instant → ℕ → List PanelProvisionTask
unfolding sort_by
due_tasks st now limit = limited limit (
    sort_by (λ x. x.next_retry_at)
      (filter (λ x. is x.status TaskStatus.pending && is_past x.next_retry_at now) st.tasks))

unfoldable pub due_revokes : PanelStore → Instant → ℕ → List PanelRevokeTask
unfolding sort_by
due_revokes st now limit = limited limit (
    sort_by (λ x. x.next_retry_at)
      (filter (λ x. is x.status TaskStatus.pending && is_past x.next_retry_at now) st.revokes))

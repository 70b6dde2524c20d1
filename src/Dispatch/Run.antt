-- ===== src/Dispatch/Run.antt =====
-- A run of `DispatchPanelProvisionTask` (application/use_cases/dispatch_panel_provision_task.py):
-- `execute`, and the recovery and dispatch that a scheduler calls.
use project_vpn.Common.{ℕ, Option, none, some, List, [], ◌∷◌, Text, codes, Instant}
use project_vpn.Errors.{Result, ok, err, ◌>>=◌}
use project_vpn.Task.Lease.{TaskStatus}
use project_vpn.Task.Provision.{PanelProvisionTask, recover_expired_lease}
use project_vpn.Dispatch.Rows.{PanelStore, save_task, stale_tasks}
use project_vpn.Dispatch.Provision.{
  Action, Prepared, Outcome, Preparation, Finish, lease_lost, status, answered, ready, activated,
  lost, to_compensate, prepare, finalize_provision_success, finalize_remote_failure,
}
use project_vpn.Dispatch.Compensate.{
  answer_of, dispatch_compensation, compensate_after_local_failure,
}

pub record Settings : Type 0 where
  pub retry_base_seconds : ℕ
  pub lease_seconds : ℕ

-- What a run meets: the readings of the clock, the token it draws, the type of the exception that
-- each call of the panel raises (`none`: it returns), and what other transactions do to the
-- database while the run waits for the panel.
pub record Surroundings : Type 0 where
  pub claimed_at : Instant
  pub finalized_at : Instant
  pub compensated_at : Instant
  pub token : ℕ
  pub provision : Option Text
  pub revoke : Option Text
  pub during_provision : PanelStore → PanelStore
  pub during_revoke : PanelStore → PanelStore

-- After `_finalize_provision_success`
unfoldable pub finish :
    Surroundings
    → PanelStore
    → Prepared
    → Result (PanelStore × Finish)
    → PanelStore × Result Outcome
unfolding dispatch_compensation compensate_after_local_failure
finish w st prepared (ok (st', activated)) = (st', ok (status TaskStatus.succeeded))
finish w st prepared (ok (st', lost)) = (st', ok lease_lost)
finish w st prepared (ok (st', to_compensate)) =
    dispatch_compensation (w.during_revoke st') prepared w.revoke w.compensated_at
finish w st prepared (err e) =
    (compensate_after_local_failure (w.during_revoke st) prepared w.revoke w.compensated_at, err e)

-- After the panel has answered `provision`
unfoldable pub after_provision :
    Settings → Surroundings → PanelStore → Prepared → Option Text → PanelStore × Result Outcome
unfolding finalize_remote_failure finalize_provision_success finish
after_provision s w st prepared (some error) =
    answer_of st (finalize_remote_failure st prepared s.retry_base_seconds w.finalized_at error)
after_provision s w st prepared none =
    finish w st prepared (finalize_provision_success st prepared w.finalized_at)

-- After `_prepare`
unfoldable pub carry_out :
    Settings → Surroundings → PanelStore → Prepared → Action → PanelStore × Result Outcome
unfolding dispatch_compensation after_provision
carry_out s w st prepared Action.compensate =
    dispatch_compensation (w.during_revoke st) prepared w.revoke w.compensated_at
carry_out s w st prepared Action.provision =
    after_provision s w (w.during_provision st) prepared w.provision

unfoldable pub execute_prepared :
    Settings
    → Surroundings
    → PanelStore
    → Result (PanelStore × Preparation)
    → PanelStore × Result Outcome
unfolding carry_out
execute_prepared s w st (err e) = (st, err e)
execute_prepared s w st (ok (st', answered o)) = (st', ok o)
execute_prepared s w st (ok (st', ready prepared)) = carry_out s w st' prepared prepared.action

-- `execute`
unfoldable pub execute_provision :
    Settings → Surroundings → PanelStore → ℕ → PanelStore × Result Outcome
unfolding prepare execute_prepared
execute_provision s w st id =
    execute_prepared s w st (prepare st id s.lease_seconds w.claimed_at w.token)

-- The rows that `recover_stale` hands over, each recovered and saved
unfoldable pub recover_all :
    PanelStore → Instant → List PanelProvisionTask → Result (PanelStore × List (Option ℕ))
unfolding recover_expired_lease save_task
recover_all st now [] = ok (st, [])
recover_all st now (t ∷ ts) = do
  recovered ←
      recover_expired_lease t now
        (codes "panel provision lease expired; compensation required before retry")
  saved ← save_task st recovered
  rest ← recover_all saved now ts
  ok (rest.0, recovered.id ∷ rest.1)

-- The transaction of `recover_stale`, with the ids it enqueues
unfoldable pub recover_stale : PanelStore → Instant → ℕ → Result (PanelStore × List (Option ℕ))
unfolding stale_tasks recover_all
recover_stale st now limit = recover_all st now (stale_tasks st now limit)

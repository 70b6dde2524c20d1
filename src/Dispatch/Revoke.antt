-- ===== src/Dispatch/Revoke.antt =====
-- `DispatchPanelRevokeTask` of application/use_cases/dispatch_panel_revoke_task.py: its transactions
-- and a run.
use project_vpn.Common.{
  ℕ, ◌+◌, ◌==◌, Bool, not, ◌&&◌, Option, none, some, List, [], ◌∷◌, ◌++◌, if◌then◌else◌, Text,
  codes, Instant, seconds,
}
use project_vpn.Common.Json.{Payload}
use project_vpn.Errors.{Result, ok, err, ◌>>=◌}
use project_vpn.Vpn
use project_vpn.Vpn.{VpnConfiguration, VpnStatus, wants_active}
use project_vpn.Task.Lease.{TaskStatus, is}
use project_vpn.Task.Revoke.{
  PanelRevokeTask, can_dispatch, start_attempt, owns_active_lease, owns_lease, complete, retry,
  recover_expired_lease,
}
use project_vpn.Dispatch.Rows.{
  PanelStore, configuration_revoked, revoke_by_id, configuration_by_id, save_revoke,
  save_configuration, append_audit, stale_revokes,
}
use project_vpn.Dispatch.Provision.{is_over}

pub record PreparedRevoke : Type 0 where
  pub task_id : ℕ
  pub lease_token : ℕ
  pub attempt_no : ℕ
  pub payload : Payload

pub data RevokeOutcome : Type 0 where
  missing stale_attempt retry_scheduled : RevokeOutcome
  status : TaskStatus → RevokeOutcome

pub data RevokePreparation : Type 0 where
  answered : RevokeOutcome → RevokePreparation
  ready : PreparedRevoke → RevokePreparation

-- The attempt of `_prepare`, for a row that can be dispatched
unfoldable pub claim_found :
    PanelStore → ℕ → PanelRevokeTask → ℕ → Instant → ℕ → Result (PanelStore × RevokePreparation)
unfolding start_attempt save_revoke
claim_found st id task lease_seconds now token = do
  started ← start_attempt task now (now + seconds lease_seconds) token
  saved ← save_revoke st started
  ok (
    saved,
    ready (record {
      task_id = id;
      lease_token = token;
      attempt_no = started.attempts;
      payload = started.payload;
    }),
  )

-- `_prepare`, for the row that was found
unfoldable pub prepare_found :
    PanelStore → ℕ → PanelRevokeTask → ℕ → Instant → ℕ → Result (PanelStore × RevokePreparation)
unfolding can_dispatch claim_found
prepare_found st id task lease_seconds now token =
    if is_over task.status
    then ok (st, answered (status task.status))
    else if not (can_dispatch task now)
    then ok (st, answered (status task.status))
    else claim_found st id task lease_seconds now token

-- `_prepare`
unfoldable pub prepare : PanelStore → ℕ → ℕ → Instant → ℕ → Result (PanelStore × RevokePreparation)
unfolding revoke_by_id prepare_found
prepare st id lease_seconds now token = elim (revoke_by_id st id) [
  | none ↦ ok (st, answered missing)
  | some task ↦ prepare_found st id task lease_seconds now token
]

-- The configuration is the one that the task revokes.
abbrev pub is_revoking : PanelRevokeTask → VpnConfiguration → Bool
is_revoking task c =
    task.vpn_generation == c.generation
    && not (wants_active c.desired_state)
    && Vpn.is c.status VpnStatus.revoking

-- `configuration.revoke(now)` with its entry in the audit
unfoldable pub revoke_found :
    PanelStore → PanelRevokeTask → VpnConfiguration → Instant → Result PanelStore
unfolding Vpn.revoke save_configuration append_audit
revoke_found st task c now = do
  gone ← Vpn.revoke c now
  saved ← save_configuration st gone
  ok (append_audit saved (configuration_revoked task.vpn_configuration_id))

-- The end of `_finalize_success`, for the configuration that was found
unfoldable pub revoke_configuration :
    PanelStore → PanelRevokeTask → Option VpnConfiguration → Instant → Result PanelStore
unfolding revoke_found
revoke_configuration st task none now = ok st
revoke_configuration st task (some c) now =
    if is_revoking task c then revoke_found st task c now else ok st

-- `_finalize_success`, under an active lease
unfoldable pub succeed_owned :
    PanelStore → PanelRevokeTask → Instant → Result (PanelStore × RevokeOutcome)
unfolding complete save_revoke configuration_by_id revoke_configuration
succeed_owned st task now = do
  done ← complete task now
  saved ← save_revoke st done
  revoked ← revoke_configuration saved done (configuration_by_id st task.vpn_configuration_id) now
  ok (revoked, status TaskStatus.succeeded)

-- `_finalize_success`
unfoldable pub finalize_success :
    PanelStore → PreparedRevoke → Instant → Result (PanelStore × RevokeOutcome)
unfolding revoke_by_id owns_active_lease succeed_owned
finalize_success st prepared now = elim (revoke_by_id st prepared.task_id) [
  | none ↦ ok (st, missing)
  | some task ↦
      if owns_active_lease task prepared.lease_token prepared.attempt_no now
      then succeed_owned st task now
      else ok (st, stale_attempt)
]

-- `configuration.fail_revoke()`, where the task revokes it
unfoldable pub fail_configuration :
    PanelStore → PanelRevokeTask → Option VpnConfiguration → Result PanelStore
unfolding Vpn.fail_revoke save_configuration
fail_configuration st task none = ok st
fail_configuration st task (some c) =
    if is_revoking task c then Vpn.fail_revoke c >>= save_configuration st else ok st

-- `_finalize_failure`, for a task that the worker owns
unfoldable pub fail_owned :
    PanelStore → PanelRevokeTask → ℕ → Instant → Text → Result (PanelStore × RevokeOutcome)
unfolding retry save_revoke configuration_by_id fail_configuration
fail_owned st task base now error =
    let tried = retry task now (codes "panel revoke failed: " ++ error) base in
    save_revoke st tried >>= λ saved.
    (if is tried.status TaskStatus.failed
      then (fail_configuration saved tried (configuration_by_id saved tried.vpn_configuration_id)
          >>= λ done. ok (done, status TaskStatus.failed))
      else ok (saved, retry_scheduled))

-- `_finalize_failure`
unfoldable pub finalize_failure :
    PanelStore → PreparedRevoke → ℕ → Instant → Text → Result (PanelStore × RevokeOutcome)
unfolding revoke_by_id owns_lease fail_owned
finalize_failure st prepared base now error = elim (revoke_by_id st prepared.task_id) [
  | none ↦ ok (st, stale_attempt)
  | some task ↦
      if owns_lease task prepared.lease_token prepared.attempt_no
      then fail_owned st task base now error
      else ok (st, stale_attempt)
]

-- What a run meets: the readings of the clock, the token it draws, the type of the exception that
-- the panel raises (`none`: it returns), and what other transactions do meanwhile.
pub record RevokeSurroundings : Type 0 where
  pub claimed_at : Instant
  pub finalized_at : Instant
  pub token : ℕ
  pub revoke : Option Text
  pub meanwhile : PanelStore → PanelStore

abbrev answer_of :
    PanelStore → Result (PanelStore × RevokeOutcome) → PanelStore × Result RevokeOutcome
answer_of st (ok (st', o)) = (st', ok o)
answer_of st (err e) = (st, err e)

abbrev finalized :
    ℕ
    → RevokeSurroundings
    → PanelStore
    → PreparedRevoke
    → Option Text
    → Result (PanelStore × RevokeOutcome)
finalized base w st prepared none = finalize_success st prepared w.finalized_at
finalized base w st prepared (some error) = finalize_failure st prepared base w.finalized_at error

unfoldable pub execute_prepared :
    ℕ
    → RevokeSurroundings
    → PanelStore
    → Result (PanelStore × RevokePreparation)
    → PanelStore × Result RevokeOutcome
unfolding finalize_success finalize_failure
execute_prepared base w st (err e) = (st, err e)
execute_prepared base w st (ok (st', answered o)) = (st', ok o)
execute_prepared base w st (ok (st', ready prepared)) =
    let now_stored = w.meanwhile st' in
    answer_of now_stored (finalized base w now_stored prepared w.revoke)

-- `execute`; `base` is `retry_base_seconds`.
unfoldable pub execute_revoke :
    ℕ → ℕ → RevokeSurroundings → PanelStore → ℕ → PanelStore × Result RevokeOutcome
unfolding prepare execute_prepared
execute_revoke base lease_seconds w st id =
    execute_prepared base w st (prepare st id lease_seconds w.claimed_at w.token)

-- The rows that `recover_stale` hands over, each recovered and saved
unfoldable pub recover_all :
    PanelStore → Instant → List PanelRevokeTask → Result (PanelStore × List (Option ℕ))
unfolding recover_expired_lease save_revoke
recover_all st now [] = ok (st, [])
recover_all st now (t ∷ ts) = do
  recovered ← recover_expired_lease t now (codes "panel revoke lease expired")
  saved ← save_revoke st recovered
  rest ← recover_all saved now ts
  ok (rest.0, recovered.id ∷ rest.1)

-- The transaction of `recover_stale`, with the ids it enqueues
unfoldable pub recover_stale : PanelStore → Instant → ℕ → Result (PanelStore × List (Option ℕ))
unfolding stale_revokes recover_all
recover_stale st now limit = recover_all st now (stale_revokes st now limit)

-- ===== src/Dispatch/Steps.antt =====
-- The workers interleaved: each step is a transaction that commits, of any worker, with any
-- arguments; a worker that is slow, late or gone is one whose next step comes late or never.
pub mod Traces
pub mod Sound
pub mod Late
pub mod Withdrawn
use project_vpn.Common.{ℕ, ◌≡◌, List, Option, Text, Instant}
use project_vpn.Errors.{ok}
use project_vpn.UseCase.Rows.Laws.{IsKeyed}
use project_vpn.Task.Provision.{PanelProvisionTask}
use project_vpn.Task.Revoke.{PanelRevokeTask}
use project_vpn.Dispatch.Rows.{PanelStore}
use project_vpn.Dispatch.Provision.{
  Prepared, Preparation, Finish, Outcome, prepare, finalize_provision_success,
  finalize_remote_failure,
}
use project_vpn.Dispatch.Compensate.{record_compensation_success, record_compensation_failure}
use project_vpn.Dispatch.Run.{recover_stale}
use project_vpn.Dispatch.Revoke
use project_vpn.Dispatch.Revoke.{
  PreparedRevoke, RevokeOutcome, RevokePreparation, finalize_success, finalize_failure,
}

pub data Step (st : PanelStore) : PanelStore → Type 0 where
  prepared :
      {st' : PanelStore} (id lease now token : ℕ) (a : Preparation)
      → prepare st id lease now token ≡ ok (st', a)
      → Step st st'
  finalized :
      {st' : PanelStore} (p : Prepared) (now : Instant) (f : Finish)
      → finalize_provision_success st p now ≡ ok (st', f)
      → Step st st'
  failed :
      {st' : PanelStore} (p : Prepared) (base now : ℕ) (error : Text) (o : Outcome)
      → finalize_remote_failure st p base now error ≡ ok (st', o)
      → Step st st'
  compensated :
      {st' : PanelStore} (p : Prepared) (now : Instant) (o : Outcome)
      → record_compensation_success st p now ≡ ok (st', o)
      → Step st st'
  uncompensated :
      {st' : PanelStore} (p : Prepared) (now : Instant) (error : Text)
      → record_compensation_failure st p now error ≡ ok st'
      → Step st st'
  recovered :
      {st' : PanelStore} (now limit : ℕ) (ids : List (Option ℕ))
      → recover_stale st now limit ≡ ok (st', ids)
      → Step st st'
  revoke_prepared :
      {st' : PanelStore} (id lease now token : ℕ) (a : RevokePreparation)
      → Revoke.prepare st id lease now token ≡ ok (st', a)
      → Step st st'
  revoke_finalized :
      {st' : PanelStore} (p : PreparedRevoke) (now : Instant) (o : RevokeOutcome)
      → finalize_success st p now ≡ ok (st', o)
      → Step st st'
  revoke_failed :
      {st' : PanelStore} (p : PreparedRevoke) (base now : ℕ) (error : Text) (o : RevokeOutcome)
      → finalize_failure st p base now error ≡ ok (st', o)
      → Step st st'
  revoke_recovered :
      {st' : PanelStore} (now limit : ℕ) (ids : List (Option ℕ))
      → Revoke.recover_stale st now limit ≡ ok (st', ids)
      → Step st st'

pub data Steps (st : PanelStore) : PanelStore → Type 0 where
  here : Steps st st
  next : {st' st'' : PanelStore} → Steps st st' → Step st' st'' → Steps st st''

-- The ids of the tasks are primary keys.
pub record HasKeys (st : PanelStore) : Type 0 where
  pub tasks : IsKeyed (λ (x : PanelProvisionTask). x.id) st.tasks
  pub revokes : IsKeyed (λ (x : PanelRevokeTask). x.id) st.revokes

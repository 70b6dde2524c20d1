-- ===== src/Dispatch/Schedule.antt =====
-- What a scheduler calls: `dispatch_due` and the answer of `recover_stale`, of
-- application/use_cases/dispatch_panel_provision_task.py and dispatch_panel_revoke_task.py.
use project_vpn.Common.{
  ℕ, ◌+◌, Bool, Option, none, some, List, [], ◌∷◌, if◌then◌else◌, length, Instant,
}
use project_vpn.Errors.{Result, ok, ◌>>=◌}
use project_vpn.Task.Provision.{PanelProvisionTask}
use project_vpn.Task.Revoke.{PanelRevokeTask}
use project_vpn.Dispatch.Rows.{PanelStore, due_tasks, due_revokes}
use project_vpn.Dispatch.Run
use project_vpn.Dispatch.Revoke

-- How many jobs the queue takes; one that it refuses is passed over.
unfoldable pub queued : (ℕ → Bool) → List (Option ℕ) → ℕ
queued takes [] = 0
queued takes (none ∷ ids) = queued takes ids
queued takes (some id ∷ ids) = (if takes id then 1 else 0) + queued takes ids

abbrev task_ids : List PanelProvisionTask → List (Option ℕ)
task_ids [] = []
task_ids (t ∷ ts) = t.id ∷ task_ids ts

abbrev revoke_ids : List PanelRevokeTask → List (Option ℕ)
revoke_ids [] = []
revoke_ids (t ∷ ts) = t.id ∷ revoke_ids ts

-- `dispatch_due` of the provision tasks
unfoldable pub dispatch_due : PanelStore → (ℕ → Bool) → Instant → ℕ → ℕ
unfolding due_tasks queued
dispatch_due st takes now limit = queued takes (task_ids (due_tasks st now limit))

-- `dispatch_due` of the revoke tasks
unfoldable pub dispatch_due_revokes : PanelStore → (ℕ → Bool) → Instant → ℕ → ℕ
unfolding due_revokes queued
dispatch_due_revokes st takes now limit = queued takes (revoke_ids (due_revokes st now limit))

pub record Recovery : Type 0 where
  pub store : PanelStore
  pub recovered : ℕ
  pub queued_jobs : ℕ

abbrev recovery : (ℕ → Bool) → PanelStore × List (Option ℕ) → Recovery
recovery takes (st, ids) = record {
  store = st;
  recovered = length ids;
  queued_jobs = queued takes ids;
}

-- `recover_stale` with its answer
unfoldable pub recover_and_enqueue : PanelStore → (ℕ → Bool) → Instant → ℕ → Result Recovery
unfolding Run.recover_stale queued
recover_and_enqueue st takes now limit =
    Run.recover_stale st now limit >>= λ done. ok (recovery takes done)

unfoldable pub recover_revokes_and_enqueue : PanelStore → (ℕ → Bool) → Instant → ℕ → Result Recovery
unfolding Revoke.recover_stale queued
recover_revokes_and_enqueue st takes now limit =
    Revoke.recover_stale st now limit >>= λ done. ok (recovery takes done)

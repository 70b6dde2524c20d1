-- ===== src/Task/Node/Limit.antt =====
-- A node task is never tried more often than its limit, whether attempts fail or vanish.
use project_vpn.Common.{◌≤◌, ◌<◌, ◌≡◌, true, List, [], ◌∷◌, arith}
use project_vpn.Task.Lease.{TaskStatus, is}
use project_vpn.Task.Node.{NodeTask}
use project_vpn.Task.Node.Fencing.{Call, call_start, after, run_task}

-- The attempts do not pass the limit, and a pending task has one left.
pub record IsWithin (t : NodeTask) : Type 0 where
  pub limit : t.attempts ≤ t.max_attempts
  pub spare : is t.status TaskStatus.pending ≡ true → t.attempts < t.max_attempts

after-IsWithin : (t : NodeTask) (m : Call) → IsWithin t → IsWithin (after t m)
unfolding after
after-IsWithin t (call_start now until token) v = ground arith
after-IsWithin t _ v = ground arith

-- Whatever is called, expired leases included, the attempts stay within the limit, and a task that
-- is pending has one left.
pub run_task-IsWithin : (t : NodeTask) (ms : List Call) → IsWithin t → IsWithin (run_task t ms)
unfolding run_task
run_task-IsWithin t [] v = v
run_task-IsWithin t (m ∷ ms) v = run_task-IsWithin (after t m) ms (after-IsWithin t m v)

-- ===== src/Dispatch/Steps/Traces.antt =====
-- Whatever the workers do, rows change by calls of their entities.
use project_vpn.Common.{
  ◌≡◌, refl, ◌∙◌, ap, Bool, true, Option, none, some, List, [], ◌∷◌, ◌++◌, arith,
}
use mathlib.Core.Option
use project_vpn.Task.Provision.{PanelProvisionTask}
use project_vpn.Task.Provision.Fencing as ProvisionCalls
use project_vpn.Task.Provision.Fencing.{run_provision}
use project_vpn.Task.Revoke.{PanelRevokeTask}
use project_vpn.Task.Revoke.Fencing as RevokeCalls
use project_vpn.Task.Revoke.Fencing.{run_revoke}
use project_vpn.Vpn.{VpnConfiguration}
use project_vpn.Vpn.Lifecycle
use project_vpn.Vpn.Lifecycle.{run_vpn, without_expire}
use project_vpn.Dispatch.Rows.{PanelStore}
use project_vpn.Dispatch.Trace.{IsTraced}
use project_vpn.Dispatch.Trace.Follow.{Follows, anything}
use project_vpn.Dispatch.Trace.Save.{IsTraced-refl}
use project_vpn.Dispatch.Trace.Claims.{
  prepare-IsTraced, recover_stale-IsTraced, recover_stale_revokes-IsTraced,
}
use project_vpn.Dispatch.Trace.Finals.{finalize_provision_success-IsTraced}
use project_vpn.Dispatch.Trace.Failures.{
  finalize_remote_failure-IsTraced, record_compensation_success-IsTraced,
  record_compensation_failure-IsTraced,
}
use project_vpn.Dispatch.Trace.Revokes.{
  prepare_revoke-IsTraced, finalize_success-IsTraced, finalize_failure-IsTraced,
}
use project_vpn.Dispatch.Steps.{
  Step, Steps, HasKeys, here, next, prepared, finalized, failed, compensated, uncompensated,
  recovered, revoke_prepared, revoke_finalized, revoke_failed, revoke_recovered,
}

run_provision-append :
    (t : PanelProvisionTask) (ms ns : List ProvisionCalls.Call)
    → run_provision (run_provision t ms) ns ≡ run_provision t (ms ++ ns)
unfolding run_provision
run_provision-append t [] ns = refl
run_provision-append t (m ∷ ms) ns = run_provision-append (ProvisionCalls.after t m) ms ns

run_revoke-append :
    (t : PanelRevokeTask) (ms ns : List RevokeCalls.Call)
    → run_revoke (run_revoke t ms) ns ≡ run_revoke t (ms ++ ns)
unfolding run_revoke
run_revoke-append t [] ns = refl
run_revoke-append t (m ∷ ms) ns = run_revoke-append (RevokeCalls.after t m) ms ns

run_vpn-append :
    (c : VpnConfiguration) (ms ns : List Lifecycle.Call)
    → run_vpn (run_vpn c ms) ns ≡ run_vpn c (ms ++ ns)
unfolding run_vpn
run_vpn-append c [] ns = refl
run_vpn-append c (m ∷ ms) ns = run_vpn-append (run_vpn c (m ∷ [])) ms ns

without_expire-append :
    (ms ns : List Lifecycle.Call)
    → without_expire ms ≡ true
    → without_expire ns ≡ true
    → without_expire (ms ++ ns) ≡ true
without_expire-append [] ns h k = k
without_expire-append (m ∷ ms) ns h k = ground (arith, without_expire-append ms ns)

module _ {A C : Type 0} (allowed : List C → Bool) (run : A → List C → A)
    (run-append : (a : A) (ms ns : List C) → run (run a ms) ns ≡ run a (ms ++ ns))
    (allowed-append : (ms ns : List C)
      → allowed ms ≡ true
      → allowed ns ≡ true
      → allowed (ms ++ ns) ≡ true) where
  twice :
      (ms ns : List C) (x : Option A)
      → Option.map (λ a. run a ns) (Option.map (λ a. run a ms) x)
        ≡ Option.map (λ a. run a (ms ++ ns)) x
  twice ms ns none = refl
  twice ms ns (some a) = ap some (run-append a ms ns)

  Follows-trans :
      {x y z : Option A}
      → Follows allowed run x y
      → Follows allowed run y z
      → Follows allowed run x z
  Follows-trans {x} v w = record {
    calls = v.calls ++ w.calls;
    fine = allowed-append v.calls w.calls v.fine w.fine;
    followed =
        w.followed ∙ ap (Option.map (λ a. run a w.calls)) v.followed ∙ twice v.calls w.calls x;
  }

IsTraced-trans : (a b c : PanelStore) → IsTraced a b → IsTraced b c → IsTraced a c
IsTraced-trans a b c v w = record {
  task_keys = λ k. w.task_keys (v.task_keys k);
  revoke_keys = λ k. w.revoke_keys (v.revoke_keys k);
  tasks = λ n.
      Follows-trans anything run_provision run_provision-append (λ ms ns h k. refl) (v.tasks n)
        (w.tasks n);
  revokes = λ n.
      Follows-trans anything run_revoke run_revoke-append (λ ms ns h k. refl) (v.revokes n)
        (w.revokes n);
  configurations = λ n.
      Follows-trans without_expire run_vpn run_vpn-append without_expire-append (v.configurations n)
        (w.configurations n);
}

Step-IsTraced : (st st' : PanelStore) → HasKeys st → Step st st' → IsTraced st st'
Step-IsTraced st st' keys (prepared id lease now token a h) =
    prepare-IsTraced st st' id lease now token a h
Step-IsTraced st st' keys (finalized p now f h) =
    finalize_provision_success-IsTraced st st' p now f h
Step-IsTraced st st' keys (failed p base now error o h) =
    finalize_remote_failure-IsTraced st st' p base now error o h
Step-IsTraced st st' keys (compensated p now o h) =
    record_compensation_success-IsTraced st st' p now o h
Step-IsTraced st st' keys (uncompensated p now error h) =
    record_compensation_failure-IsTraced st st' p now error h
Step-IsTraced st st' keys (recovered now limit ids h) =
    recover_stale-IsTraced st st' now limit ids keys.tasks h
Step-IsTraced st st' keys (revoke_prepared id lease now token a h) =
    prepare_revoke-IsTraced st st' id lease now token a h
Step-IsTraced st st' keys (revoke_finalized p now o h) = finalize_success-IsTraced st st' p now o h
Step-IsTraced st st' keys (revoke_failed p base now error o h) =
    finalize_failure-IsTraced st st' p base now error o h
Step-IsTraced st st' keys (revoke_recovered now limit ids h) =
    recover_stale_revokes-IsTraced st st' now limit ids keys.revokes h

-- However the transactions of the workers are interleaved, each row of the database is what calls of
-- the methods of its entity have made of it, and a configuration is never expired; tasks and
-- configurations neither appear nor disappear, and their ids stay primary keys.
pub Steps-IsTraced : (st st' : PanelStore) → HasKeys st → Steps st st' → IsTraced st st'
Steps-IsTraced st _ keys here = IsTraced-refl st
Steps-IsTraced st st'' keys (next {st'} before step) =
    let v = Steps-IsTraced st st' keys before in
    IsTraced-trans st st' st'' v (
      Step-IsTraced st' st''
        (record { tasks = v.task_keys keys.tasks; revokes = v.revoke_keys keys.revokes }) step)

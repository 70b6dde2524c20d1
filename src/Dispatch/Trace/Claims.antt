-- ===== src/Dispatch/Trace/Claims.antt =====
-- Claims and recoveries of tasks, traced to the calls of the entities.
use project_vpn.Common.{
  ℕ, zero, suc, ◌+◌, ◌≡◌, refl, sym, ◌∙◌, not, ◌&&◌, Bool-cases, inl, inr, Option, Option-cases,
  some, List, [], ◌∷◌, In, In-filter, In-if, filter, leb, arith, codes, Instant, seconds,
}
use mathlib.Core.Path.{subst}
use project_vpn.Errors.{ok, bind_ok}
use project_vpn.Task.Lease.{TaskStatus, is, is_past}
use project_vpn.Task.Provision.{PanelProvisionTask, can_dispatch}
use project_vpn.Task.Provision.Fencing
use project_vpn.Task.Revoke.{PanelRevokeTask}
use project_vpn.Task.Revoke.Fencing as RevokeCalls
use project_vpn.UseCase.Rows.Laws.{IsKeyed}
use project_vpn.Dispatch.Rows.{
  or_zero, PanelStore, task_by_id, revoke_by_id, save_task, save_revoke, insert_by, sort_by,
  limited, stale_tasks, stale_revokes,
}
use project_vpn.Dispatch.Provision.{Preparation, is_over, claim_found, prepare_found, prepare}
use project_vpn.Dispatch.Run.{recover_all, recover_stale}
use project_vpn.Dispatch.Revoke
use project_vpn.Dispatch.Trace.{IsTraced}
use project_vpn.Dispatch.Trace.Save.{IsTraced-refl, save_task-IsTraced, save_revoke-IsTraced}
use project_vpn.Dispatch.Trace.Calls.{start_run, recover_run, same_store}
use project_vpn.Dispatch.Trace.Revokes.{revoke_recover_run}

claim_found-IsTraced :
    (st st' : PanelStore) (id : ℕ) (t : PanelProvisionTask) (lease now token : ℕ) (a : Preparation)
    → task_by_id st id ≡ some t
    → claim_found st id t lease now token ≡ ok (st', a)
    → IsTraced st st'
unfolding claim_found
claim_found-IsTraced st st' id t lease now token a found h =
    let until = now + seconds lease in
    let (t', started, h1) = bind_ok h in
    let (cur, saved, h2) = bind_ok h1 in
    let run = start_run t t' now until token started in
    subst (λ x. IsTraced st x) (ground (arith, h2))
      (save_task-IsTraced st st cur id t t' (Fencing.call_start now until token ∷ []) found run.0
        run.1 (IsTraced-refl st) saved)

pub prepare-IsTraced :
    (st st' : PanelStore) (id lease now token : ℕ) (a : Preparation)
    → prepare st id lease now token ≡ ok (st', a)
    → IsTraced st st'
unfolding prepare prepare_found
prepare-IsTraced st st' id lease now token a h = elim (Option-cases (task_by_id st id)) [
  | inl e ↦ same_store st st' (ground arith)
  | inr (t, e) ↦ elim (Bool-cases (not (is_over t.status) && can_dispatch t now)) [
    | inl q ↦ claim_found-IsTraced st st' id t lease now token a e (ground arith)
    | inr q ↦ same_store st st' (ground arith)
  ]
]

module _ {A : Type 0} where
  In-limited : (n : ℕ) (x : A) (l : List A) → In x (limited n l) → In x l
  In-limited zero x l i = elim i [ ]
  In-limited (suc n) x [] i = elim i [ ]
  In-limited (suc n) x (y ∷ l) (inl e) = inl e
  In-limited (suc n) x (y ∷ l) (inr i) = inr (In-limited n x l i)

  In-insert_by :
      (time : A → Option Instant) (y x : A) (l : List A) → In x (insert_by time y l) → In x (y ∷ l)
  unfolding insert_by
  In-insert_by time y x [] i = i
  In-insert_by time y x (z ∷ l) i =
      elim (In-if (leb (or_zero (time y)) (or_zero (time z))) x (y ∷ z ∷ l) (z ∷ insert_by time y l)
        i) [
          | inl j ↦ j
          | inr (inl e) ↦ inr (inl e)
          | inr (inr j) ↦ elim (In-insert_by time y x l j) [ inl e ↦ inl e | inr k ↦ inr (inr k) ]
        ]

  In-sort_by : (time : A → Option Instant) (x : A) (l : List A) → In x (sort_by time l) → In x l
  unfolding sort_by
  In-sort_by time x [] i = i
  In-sort_by time x (y ∷ l) i = elim (In-insert_by time y x (sort_by time l) i) [
    | inl e ↦ inl e
    | inr j ↦ inr (In-sort_by time x l j)
  ]

saved_id :
    (st st' : PanelStore) (t : PanelProvisionTask)
    → save_task st t ≡ ok st'
    → (n : ℕ) × (t.id ≡ some n)
unfolding save_task
saved_id st st' t h = elim (Option-cases t.id) [
  | inl e ↦ absurd (ground arith)
  | inr (n, e) ↦ (n, e)
]

stale_in :
    (st : PanelStore) (now limit : ℕ) (t : PanelProvisionTask)
    → In t (stale_tasks st now limit)
    → In t st.tasks
unfolding stale_tasks
stale_in st now limit t i =
    let keep = λ (x : PanelProvisionTask).
      is x.status TaskStatus.in_progress && is_past x.lease_expires_at now in
    let kept = filter keep st.tasks in
    (In-filter keep t st.tasks (
      In-sort_by (λ x. x.lease_expires_at) t kept
        (In-limited limit t (sort_by (λ x. x.lease_expires_at) kept) i))).0

recover_all-IsTraced :
    (st cur st' : PanelStore) (now : ℕ) (l : List PanelProvisionTask) (ids : List (Option ℕ))
    → IsKeyed (λ (x : PanelProvisionTask). x.id) st.tasks
    → ((t : PanelProvisionTask) → In t l → In t st.tasks)
    → IsTraced st cur
    → recover_all cur now l ≡ ok (st', ids)
    → IsTraced st st'
unfolding recover_all task_by_id
recover_all-IsTraced st cur st' now [] ids keys there v h =
    subst (λ x. IsTraced st x) (ground arith) v
recover_all-IsTraced st cur st' now (t ∷ l) ids keys there v h =
    let message = codes "panel provision lease expired; compensation required before retry" in
    let (t', recovered, h1) = bind_ok h in
    let (mid, saved, h2) = bind_ok h1 in
    let (both, rest, h3) = bind_ok h2 in
    let run = recover_run t t' now message recovered in
    let (n, e) = saved_id cur mid t' saved in
    let found = keys t n (there t (inl refl)) (sym run.0 ∙ e) in
    subst (λ x. IsTraced st x) (ground (arith, h3))
      (recover_all-IsTraced st mid both.0 now l both.1 keys (λ x i. there x (inr i))
        (save_task-IsTraced st cur mid n t t' (Fencing.call_recover now message ∷ []) found run.0
          run.1 v saved)
        rest)

pub recover_stale-IsTraced :
    (st st' : PanelStore) (now limit : ℕ) (ids : List (Option ℕ))
    → IsKeyed (λ (x : PanelProvisionTask). x.id) st.tasks
    → recover_stale st now limit ≡ ok (st', ids)
    → IsTraced st st'
unfolding recover_stale
recover_stale-IsTraced st st' now limit ids keys h =
    recover_all-IsTraced st st st' now (stale_tasks st now limit) ids keys (stale_in st now limit)
      (IsTraced-refl st) h

saved_revoke_id :
    (st st' : PanelStore) (t : PanelRevokeTask)
    → save_revoke st t ≡ ok st'
    → (n : ℕ) × (t.id ≡ some n)
unfolding save_revoke
saved_revoke_id st st' t h = elim (Option-cases t.id) [
  | inl e ↦ absurd (ground arith)
  | inr (n, e) ↦ (n, e)
]

stale_revoke_in :
    (st : PanelStore) (now limit : ℕ) (t : PanelRevokeTask)
    → In t (stale_revokes st now limit)
    → In t st.revokes
unfolding stale_revokes
stale_revoke_in st now limit t i =
    let keep = λ (x : PanelRevokeTask).
      is x.status TaskStatus.in_progress && is_past x.lease_expires_at now in
    let kept = filter keep st.revokes in
    (In-filter keep t st.revokes (
      In-sort_by (λ x. x.lease_expires_at) t kept
        (In-limited limit t (sort_by (λ x. x.lease_expires_at) kept) i))).0

recover_revokes-IsTraced :
    (st cur st' : PanelStore) (now : ℕ) (l : List PanelRevokeTask) (ids : List (Option ℕ))
    → IsKeyed (λ (x : PanelRevokeTask). x.id) st.revokes
    → ((t : PanelRevokeTask) → In t l → In t st.revokes)
    → IsTraced st cur
    → Revoke.recover_all cur now l ≡ ok (st', ids)
    → IsTraced st st'
unfolding Revoke.recover_all revoke_by_id
recover_revokes-IsTraced st cur st' now [] ids keys there v h =
    subst (λ x. IsTraced st x) (ground arith) v
recover_revokes-IsTraced st cur st' now (t ∷ l) ids keys there v h =
    let message = codes "panel revoke lease expired" in
    let (t', recovered, h1) = bind_ok h in
    let (mid, saved, h2) = bind_ok h1 in
    let (both, rest, h3) = bind_ok h2 in
    let run = revoke_recover_run t t' now message recovered in
    let (n, e) = saved_revoke_id cur mid t' saved in
    let found = keys t n (there t (inl refl)) (sym run.0 ∙ e) in
    subst (λ x. IsTraced st x) (ground (arith, h3))
      (recover_revokes-IsTraced st mid both.0 now l both.1 keys (λ x i. there x (inr i))
        (save_revoke-IsTraced st cur mid n t t' (RevokeCalls.call_recover now message ∷ []) found
          run.0 run.1 v saved)
        rest)

pub recover_stale_revokes-IsTraced :
    (st st' : PanelStore) (now limit : ℕ) (ids : List (Option ℕ))
    → IsKeyed (λ (x : PanelRevokeTask). x.id) st.revokes
    → Revoke.recover_stale st now limit ≡ ok (st', ids)
    → IsTraced st st'
unfolding Revoke.recover_stale
recover_stale_revokes-IsTraced st st' now limit ids keys h =
    recover_revokes-IsTraced st st st' now (stale_revokes st now limit) ids keys
      (stale_revoke_in st now limit) (IsTraced-refl st) h

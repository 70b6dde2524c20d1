-- ===== src/Vpn/Lifecycle.antt =====
-- The calls that a VPN configuration receives, and what holds of it after any of them.
use project_vpn.Common.{
  ◌≤◌, ◌<◌, ◌≡◌, inl, inr, Bool, true, false, not, ◌&&◌, ◌||◌, Bool-cases, Option, is_some, List,
  [], ◌∷◌, arith, Text, Instant,
}
use project_vpn.Errors.{Result, ok, err}
use project_vpn.Vpn.{
  VpnStatus, VpnConfiguration, is, wants_active, activate, begin_revoke, retry_revoke,
  cancel_provisioning_for_revoke, request_cleanup_from_failed, revoke, expire, fail_provisioning,
  fail_revoke,
}

-- One call of a method.
pub data Call : Type 0 where
  call_activate : Option Text → Call
  call_begin_revoke call_retry_revoke call_cancel_provisioning call_cleanup : Call
  call_revoke : Instant → Call
  call_fail_provisioning call_fail_revoke : Call
  call_expire : Option Text → Call

unfoldable pub perform : VpnConfiguration → Call → Result VpnConfiguration
unfolding activate begin_revoke retry_revoke cancel_provisioning_for_revoke
    request_cleanup_from_failed revoke fail_provisioning fail_revoke expire
perform c (call_activate ref) = activate c ref
perform c call_begin_revoke = begin_revoke c
perform c call_retry_revoke = retry_revoke c
perform c call_cancel_provisioning = cancel_provisioning_for_revoke c
perform c call_cleanup = request_cleanup_from_failed c
perform c (call_revoke now) = revoke c now
perform c call_fail_provisioning = fail_provisioning c
perform c call_fail_revoke = fail_revoke c
perform c (call_expire ref) = ok (expire c ref)

abbrev after : VpnConfiguration → Result VpnConfiguration → VpnConfiguration
after c (ok c') = c'
after c (err e) = c

-- The configuration after a sequence of calls; a call that raises changes nothing.
unfoldable pub run_vpn : VpnConfiguration → List Call → VpnConfiguration
run_vpn c [] = c
run_vpn c (m ∷ ms) = run_vpn (after c (perform c m)) ms

-- The statuses of a configuration that is not meant to stay.
abbrev pub is_leaving : VpnStatus → Bool
is_leaving s =
    is s VpnStatus.revoking
    || is s VpnStatus.revoke_failed
    || is s VpnStatus.revoked
    || is s VpnStatus.expired

-- Client access is wanted exactly while the configuration is not leaving.
pub record IsValid (c : VpnConfiguration) : Type 0 where
  pub desired : is_leaving c.status ≡ not (wants_active c.desired_state)
  pub revoked_time : is c.status VpnStatus.revoked ≡ true → is_some c.revoked_at ≡ true

perform-IsValid : (c : VpnConfiguration) (m : Call) → IsValid c → IsValid (after c (perform c m))
unfolding perform
perform-IsValid c (call_activate ref) v = ground arith
perform-IsValid c _ v = ground arith

generation_step :
    (c : VpnConfiguration) (m : Call) → c.generation ≤ (after c (perform c m)).generation
unfolding perform
generation_step c (call_activate ref) = ground arith
generation_step c _ = ground arith

leaving_step :
    (c : VpnConfiguration) (m : Call)
    → IsValid c
    → is_leaving c.status ≡ true
    → is_leaving (after c (perform c m)).status ≡ true
unfolding perform
leaving_step c (call_activate ref) v h = ground arith
leaving_step c _ v h = ground arith

abbrev pub is_expire : Call → Bool
is_expire (call_expire ref) = true
is_expire _ = false

fenced_step :
    (c : VpnConfiguration) (m : Call)
    → is_expire m ≡ false
    → wants_active c.desired_state ≡ true
    → wants_active (after c (perform c m)).desired_state ≡ false
    → c.generation < (after c (perform c m)).generation
unfolding perform
fenced_step c (call_activate ref) e h k = ground arith
fenced_step c _ e h k = ground arith

-- Whatever is called, a configuration stays well formed.
pub run_vpn-IsValid : (c : VpnConfiguration) (ms : List Call) → IsValid c → IsValid (run_vpn c ms)
unfolding run_vpn
run_vpn-IsValid c [] v = v
run_vpn-IsValid c (m ∷ ms) v = run_vpn-IsValid (after c (perform c m)) ms (perform-IsValid c m v)

forward :
    (c : VpnConfiguration) (ms : List Call)
    → IsValid c
    → (c.generation ≤ (run_vpn c ms).generation)
      × (is_leaving c.status ≡ true → is_leaving (run_vpn c ms).status ≡ true)
unfolding run_vpn
forward c [] v = (omega arith, λ h. h)
forward c (m ∷ ms) v =
    let c' = after c (perform c m) in
    let more = forward c' ms (perform-IsValid c m v) in
    (omega (arith, generation_step c m, more.0), λ h. more.1 (leaving_step c m v h))

-- Whatever is called, the generation does not fall, and a configuration that is leaving keeps
-- leaving: access that was withdrawn is never given again.
pub run_forward :
    (c : VpnConfiguration) (ms : List Call)
    → IsValid c
    → (c.generation ≤ (run_vpn c ms).generation)
      × ((not (is_leaving c.status) || is_leaving (run_vpn c ms).status) ≡ true)
run_forward c ms v =
    let kept = forward c ms v in
    elim (Bool-cases (is_leaving c.status)) [
      | inl gone ↦ (kept.0, ground (arith, kept.1 gone))
      | inr here ↦ (kept.0, ground arith)
    ]

-- The legacy transition `expire` is not among the calls.
abbrev pub without_expire : List Call → Bool
without_expire [] = true
without_expire (m ∷ ms) = not (is_expire m) && without_expire ms

-- If access was wanted and no longer is, the generation has risen, so that a task that carries the
-- old generation is seen to be stale. (`expire` is excluded: it withdraws access and keeps it.)
pub run_fenced :
    (c : VpnConfiguration) (ms : List Call)
    → IsValid c
    → without_expire ms ≡ true
    → wants_active c.desired_state ≡ true
    → wants_active (run_vpn c ms).desired_state ≡ false
    → c.generation < (run_vpn c ms).generation
unfolding run_vpn
run_fenced c [] v e h k = cc
run_fenced c (m ∷ ms) v e h k =
    let c' = after c (perform c m) in
    let v' = perform-IsValid c m v in
    elim (Bool-cases (wants_active c'.desired_state)) [
      | inl kept ↦ omega (arith, generation_step c m, run_fenced c' ms v' (ground arith) kept k)
      | inr lost ↦ omega (arith, fenced_step c m (ground arith) h lost, (forward c' ms v').0)
    ]

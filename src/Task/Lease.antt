-- ===== src/Task/Lease.antt =====
-- What the three kinds of task share: their statuses, the tests on times, and the delay of a retry.
use native.Mathlib.Nat.{pow-suc}
use project_vpn.Common.{
  ℕ, zero, suc, ◌+◌, ◌-◌, ◌*◌, ◌^◌, ◌≤◌, ◌≡◌, min, Bool, true, false, Option, none, some, arith,
  ltb, leb, ◌==◌, Instant,
}

-- `PanelProvisionTaskStatus`, `PanelRevokeTaskStatus` and `NodeTaskStatus` have the same members.
pub data TaskStatus : Type 0 where
  pending in_progress succeeded failed cancelled : TaskStatus

abbrev number : TaskStatus → ℕ
number TaskStatus.pending = 0
number TaskStatus.in_progress = 1
number TaskStatus.succeeded = 2
number TaskStatus.failed = 3
number TaskStatus.cancelled = 4

-- `a is b`
abbrev pub is : TaskStatus → TaskStatus → Bool
is a b = number a == number b

-- `t is None or t <= now`
abbrev pub due : Option Instant → Instant → Bool
due none now = true
due (some t) now = leb t now

-- `t is not None and t <= now`
abbrev pub is_past : Option Instant → Instant → Bool
is_past none now = false
is_past (some t) now = leb t now

-- `t is not None and now < t`
abbrev pub is_future : Option Instant → Instant → Bool
is_future none now = false
is_future (some t) now = ltb now t

-- `min(base_delay_seconds * (2 ** max(attempts - 1, 0)), 300)`: `-` on ℕ stops at 0.
unfoldable pub retry_delay : ℕ → ℕ → ℕ
retry_delay base_delay_seconds attempts = min (base_delay_seconds * 2 ^ (attempts - 1)) 300

pred_suc : (n : ℕ) → suc n - 1 ≡ n
pred_suc n = omega arith

pred_add : (n : ℕ) → suc n + 1 - 1 ≡ suc n
pred_add n = omega arith

doubles : (base n : ℕ) → base * 2 ^ n ≤ base * 2 ^ suc n
doubles base n = rw (pow-suc 2 n) (grind arith)

-- The delay never passes five minutes, the first is the base delay if that is below, and from one
-- attempt to the next it does not shrink.
pub retry_delay_grows :
    (base attempts : ℕ)
    → (retry_delay base attempts ≤ 300)
      × (retry_delay base 1 ≡ min base 300)
      × (retry_delay base attempts ≤ retry_delay base (attempts + 1))
unfolding retry_delay
retry_delay_grows base zero = (omega arith, omega arith, omega arith)
retry_delay_grows base (suc n) =
    (omega arith, omega arith, rw (pred_suc n, pred_add n) (omega (arith, doubles base n)))

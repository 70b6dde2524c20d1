-- ===== src/Subscription.antt =====
-- `Subscription` and `SubscriptionPeriod` of domain/entities/subscription.py, and below it the
-- policy of domain/services/subscription_policy.py that applies a paid period.
pub mod Policy
pub mod Coverage
pub mod Status
use project_vpn.Common.{
  ℕ, ◌+◌, ◌≡◌, Bool, true, false, not, ◌&&◌, ◌||◌, Option, none, some, ◌==◌, ltb, leb, leb_ℤ, max,
  if◌then◌else◌, is_none, is_some, ℤ, pos, pos_part, Instant, days, fits,
}
use project_vpn.Errors.{
  Result, ok, err, Error, domain_validation, invalid_state_transition, overflow, raise_if, ◌>>=◌,
  ◌>>◌,
}

pub data SubscriptionStatus : Type 0 where
  active ended cancelled paused : SubscriptionStatus

abbrev number : SubscriptionStatus → ℕ
number SubscriptionStatus.active = 0
number SubscriptionStatus.ended = 1
number SubscriptionStatus.cancelled = 2
number SubscriptionStatus.paused = 3

-- `a is b`
abbrev pub is : SubscriptionStatus → SubscriptionStatus → Bool
is a b = number a == number b

pub record SubscriptionPeriod : Type 0 where
  pub id : Option ℕ
  pub subscription_id : Option ℕ
  pub starts_at : Instant
  pub expires_at : Instant
  pub is_paid : Bool
  pub created_at : Instant
  pub payment_order_id : Option ℕ

-- `SubscriptionPeriod.__post_init__`, on the period whose fields have been set
unfoldable pub period_post_init : SubscriptionPeriod → Result SubscriptionPeriod
period_post_init self = do
  raise_if (leb self.expires_at self.starts_at)
      (domain_validation "Subscription period must have a positive duration")
  ok self

unfoldable pub contains : SubscriptionPeriod → Instant → Bool
contains self moment = self.is_paid && leb self.starts_at moment && ltb moment self.expires_at

pub record Subscription : Type 0 where
  pub id : Option ℕ
  pub user_id : ℕ
  pub tariff_id : ℕ
  pub status : SubscriptionStatus
  pub created_at : Instant
  pub ended_at : Option Instant

-- `Subscription.__post_init__`, with the references as the caller hands them over
unfoldable pub post_init :
    Option ℕ → ℤ → ℤ → SubscriptionStatus → Instant → Option Instant → Result Subscription
post_init id user_id tariff_id status created_at ended_at = do
  raise_if (leb_ℤ user_id (pos 0) || leb_ℤ tariff_id (pos 0))
      (domain_validation "Subscription references must be positive")
  raise_if (is status SubscriptionStatus.active && is_some ended_at)
      (domain_validation "Active subscription cannot have ended_at")
  ok (record {
    id = id;
    user_id = pos_part user_id;
    tariff_id = pos_part tariff_id;
    status = status;
    created_at = created_at;
    ended_at = ended_at;
  })

unfoldable pub start : ℤ → ℤ → Instant → Result Subscription
unfolding post_init
start user_id tariff_id now = post_init none user_id tariff_id SubscriptionStatus.active now none

unfoldable pub activate : Subscription → Result Subscription
activate self = do
  raise_if (is self.status SubscriptionStatus.cancelled)
      (invalid_state_transition "Cancelled subscription cannot be activated")
  ok (record self { status = SubscriptionStatus.active; ended_at = none })

unfoldable pub expire : Subscription → Instant → Subscription
expire self now =
    if is self.status SubscriptionStatus.ended
    then self
    else record self { status = SubscriptionStatus.ended; ended_at = some now }

unfoldable pub cancel : Subscription → Instant → Result Subscription
cancel self now = do
  raise_if (is self.status SubscriptionStatus.ended)
      (invalid_state_transition "Ended subscription cannot be cancelled")
  ok (record self { status = SubscriptionStatus.cancelled; ended_at = some now })

unfoldable pub pause : Subscription → Result Subscription
pause self = do
  raise_if (not (is self.status SubscriptionStatus.active))
      (invalid_state_transition "Only active subscription can be paused")
  ok (record self { status = SubscriptionStatus.paused })

unfoldable pub is_active : Subscription → Instant → Option SubscriptionPeriod → Bool
unfolding contains
is_active self now none = false
is_active self now (some period) = is self.status SubscriptionStatus.active && contains period now

-- `max(now, last_period.expires_at) if last_period is not None else now`
abbrev pub next_start : Instant → Option SubscriptionPeriod → Instant
next_start now none = now
next_start now (some last_period) = max now last_period.expires_at

abbrev activate_unless_active : Subscription → Result Subscription
activate_unless_active self =
    if not (is self.status SubscriptionStatus.active) then activate self else ok self

-- The subscription as `extend` leaves it, with the new period.
unfoldable pub extend :
    Subscription
    → ℤ
    → Instant
    → Option SubscriptionPeriod
    → Bool
    → Option ℕ
    → Result (Subscription × SubscriptionPeriod)
unfolding activate period_post_init fits
extend self period_days now last_period is_paid payment_order_id = do
  raise_if (leb_ℤ period_days (pos 0)) (domain_validation "Extension duration must be positive")
  activated ← activate_unless_active self
  let starts_at = next_start now last_period
  raise_if (not (fits (starts_at + days (pos_part period_days)))) overflow
  period ← period_post_init (record {
    id = none;
    subscription_id = activated.id;
    starts_at = starts_at;
    expires_at = starts_at + days (pos_part period_days);
    is_paid = is_paid;
    created_at = now;
    payment_order_id = payment_order_id;
  })
  ok (activated, period)

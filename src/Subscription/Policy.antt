-- ===== src/Subscription/Policy.antt =====
-- `SubscriptionPolicy.apply_paid_period` of domain/services/subscription_policy.py.
use project_vpn.Common.{
  Bool, true, false, Option, none, some, not, eq_ℤ, if◌then◌else◌, ℤ, pos, Instant,
}
use project_vpn.Errors.{Result, ok, ◌>>=◌}
use project_vpn.Subscription.{Subscription, SubscriptionPeriod, start, expire, extend}

pub record SubscriptionActivation : Type 0 where
  pub subscription : Subscription
  pub period : SubscriptionPeriod
  pub created_new_subscription : Bool
  pub replaced_subscription : Option Subscription

-- The subscription to extend, the last period that counts, whether it is new, and the one that it
-- replaces.
pub record Choice : Type 0 where
  pub subscription : Subscription
  pub last_period : Option SubscriptionPeriod
  pub created_new : Bool
  pub replaced : Option Subscription

-- The three branches on the active subscription.
unfoldable pub choose :
    Option Subscription → Option SubscriptionPeriod → ℤ → ℤ → Instant → Result Choice
unfolding start expire
choose none last_period user_id tariff_id now = do
  subscription ← start user_id tariff_id now
  ok (record {
    subscription = subscription;
    last_period = last_period;
    created_new = true;
    replaced = none;
  })
choose (some active) last_period user_id tariff_id now =
    if not (eq_ℤ (pos active.tariff_id) tariff_id)
    then (do
      subscription ← start user_id tariff_id now
      ok (record {
        subscription = subscription;
        last_period = none;
        created_new = true;
        replaced = some (expire active now);
      }))
    else ok (record {
      subscription = active;
      last_period = last_period;
      created_new = false;
      replaced = none;
    })

unfoldable pub apply_paid_period :
    Option Subscription
    → Option SubscriptionPeriod
    → ℤ
    → ℤ
    → ℤ
    → Instant
    → Result SubscriptionActivation
unfolding choose extend
apply_paid_period active_subscription last_period user_id tariff_id period_days now = do
  choice ← choose active_subscription last_period user_id tariff_id now
  (subscription, period) ← extend choice.subscription period_days now choice.last_period true none
  ok (record {
    subscription = subscription;
    period = period;
    created_new_subscription = choice.created_new;
    replaced_subscription = choice.replaced;
  })

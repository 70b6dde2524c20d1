-- ===== src/Subscription/Status.antt =====
-- The states of a subscription: which calls are refused, and when it has an end time.
use project_vpn.Common.{
  ◌+◌, ◌≤◌, ◌<◌, days, latest, fits, ◌↔◌, ◌≡◌, ◌≢◌, refl, Bool, true, false, Option, none, some,
  is_some, List, [], ◌∷◌, arith, ℤ, ℕ, pos, Instant,
}
use project_vpn.Errors.{Result, ok, err, is_ok}
use project_vpn.Subscription.{
  Subscription, SubscriptionPeriod, SubscriptionStatus, is, activate, expire, cancel, pause, extend,
  is_active,
}
use project_vpn.Subscription.Policy.{SubscriptionActivation, apply_paid_period}

-- A subscription has an end time exactly when it is over.
pub record IsValid (s : Subscription) : Type 0 where
  pub running : (is s.status SubscriptionStatus.active ≡ true) → s.ended_at ≡ none
  pub over : (is s.status SubscriptionStatus.cancelled ≡ true) → is_some s.ended_at ≡ true

pub data Call : Type 0 where
  call_activate call_pause : Call
  call_expire call_cancel : Instant → Call
  call_extend : ℤ → Instant → Option SubscriptionPeriod → Bool → Option ℕ → Call

abbrev subscription_of : Subscription → Result (Subscription × SubscriptionPeriod) → Subscription
subscription_of s (ok (s', p)) = s'
subscription_of s (err e) = s

abbrev result_or : Subscription → Result Subscription → Subscription
result_or s (ok s') = s'
result_or s (err e) = s

-- The subscription after a call; a call that raises leaves it as it was.
pub after : Subscription → Call → Subscription
unfolding activate pause expire cancel extend
after s call_activate = result_or s (activate s)
after s call_pause = result_or s (pause s)
after s (call_expire now) = expire s now
after s (call_cancel now) = result_or s (cancel s now)
after s (call_extend n now last paid order) = subscription_of s (extend s n now last paid order)

pub run : Subscription → List Call → Subscription
run s [] = s
run s (m ∷ ms) = run (after s m) ms

after-IsValid : (s : Subscription) (m : Call) → IsValid s → IsValid (after s m)
unfolding after
after-IsValid s call_activate v = ground arith
after-IsValid s _ v = ground arith

-- Whatever is called, an active subscription has no end time and a cancelled one has one.
pub run-IsValid : (s : Subscription) (ms : List Call) → IsValid s → IsValid (run s ms)
unfolding run
run-IsValid s [] v = v
run-IsValid s (m ∷ ms) v = run-IsValid (after s m) ms (after-IsValid s m v)

-- A cancelled subscription refuses every extension and every activation; yet `expire` takes it to
-- ENDED, from where `activate` brings it back.
pub cancelled_returns :
    (s : Subscription) (now : Instant)
    → s.status ≡ SubscriptionStatus.cancelled
    → (is_ok (activate s) ≡ false)
      × ((n : ℤ) (last : Option SubscriptionPeriod) (paid : Bool) (order : Option ℕ)
          → is_ok (extend s n now last paid order) ≡ false)
      × (activate (expire s now)
          ≡ ok (record s { status = SubscriptionStatus.active; ended_at = none }))
unfolding activate extend expire
cancelled_returns s now h = (ground arith, (λ n last paid order. ground arith), ground arith)

abbrev fresh : ℕ → ℕ → Instant → Subscription
fresh user tariff now = record {
  id = none;
  user_id = user;
  tariff_id = tariff;
  status = SubscriptionStatus.active;
  created_at = now;
  ended_at = none;
}

abbrev first_period : ℕ → Instant → SubscriptionPeriod
first_period n now = record {
  id = none;
  subscription_id = none;
  starts_at = now;
  expires_at = now + days n;
  is_paid = true;
  created_at = now;
  payment_order_id = none;
}

-- A payment for another tariff, for days that end no later than the last moment that there is, ends
-- the active subscription now and starts one of that tariff, which runs from now for the days that
-- were bought and gives access from now.
pub switch_tariff :
    (old : Subscription) (last : Option SubscriptionPeriod) (user tariff n : ℕ) (now : Instant)
    → old.status ≡ SubscriptionStatus.active
    → old.tariff_id ≢ tariff
    → 0 < user
    → 0 < tariff
    → 0 < n
    → now + days n ≤ latest
    → (a : SubscriptionActivation) × (apply_paid_period
          (some old)
          last
          (pos user)
          (pos tariff)
          (pos n)
          now
        ≡ ok a)
      × (a.replaced_subscription
          ≡ some (record old { status = SubscriptionStatus.ended; ended_at = some now }))
      × (a.created_new_subscription ≡ true)
      × (a.subscription.tariff_id ≡ tariff)
      × (a.period.expires_at ≡ now + days n)
      × ((at : Instant)
          → (is_active a.subscription at (some a.period) ≡ true)
            ↔ ((now ≤ at) × (at < now + days n)))
unfolding apply_paid_period is_active fits
switch_tariff old last user tariff n now h ne pu pt pn fit = (
  record {
    subscription = fresh user tariff now;
    period = first_period n now;
    created_new_subscription = true;
    replaced_subscription =
        some (record old { status = SubscriptionStatus.ended; ended_at = some now });
  },
  ground arith,
  refl,
  refl,
  refl,
  refl,
  (λ at. (λ e. ground arith, λ e. ground arith)),
)

-- ===== src/UseCase/Activate.antt =====
-- `ActivateSubscription.execute` of application/use_cases/activate_subscription.py.
use project_vpn.Common.{
  ℕ, ◌+◌, ◌==◌, Bool, true, false, Option, none, some, [], ◌∷◌, ◌++◌, if◌then◌else◌, pos, Instant,
}
use project_vpn.Errors.{Result, ok, err, runtime, ◌>>=◌}
use project_vpn.Subscription.{Subscription, SubscriptionPeriod}
use project_vpn.Subscription.Policy.{SubscriptionActivation, apply_paid_period}
use project_vpn.UseCase.Rows.{Store, save_subscription, active_for_user, last_period_of}

-- The last period of the active subscription, read only if it has the same tariff.
unfoldable pub last_period : Store → Option Subscription → ℕ → Option SubscriptionPeriod
unfolding last_period_of
last_period st none tariff_id = none
last_period st (some active) tariff_id = elim active.id [
  | none ↦ none
  | some id ↦ if active.tariff_id == tariff_id then last_period_of id st.periods else none
]

-- `save_entity` of the subscription that is replaced, if there is one
unfoldable pub save_replaced : Store → Option Subscription → Result Store
unfolding save_subscription
save_replaced st none = ok st
save_replaced st (some s) = save_subscription st s

-- `add_entity` of a new subscription, which sets its id, or `save_entity`
unfoldable pub store_subscription : Store → Bool → Subscription → Result (Store × Subscription)
unfolding save_subscription
store_subscription st true s =
    let added = record s { id = some st.next_subscription_id } in
    ok (
      record st {
        subscriptions = st.subscriptions ++ (added ∷ []);
        next_subscription_id = st.next_subscription_id + 1;
      },
      added,
    )
store_subscription st false s = save_subscription st s >>= λ saved. ok (saved, s)

-- `add_period_entity`, which sets the period's id
unfoldable pub add_period : Store → SubscriptionPeriod → Result (Store × SubscriptionPeriod)
add_period st p = elim p.subscription_id [
  | none ↦ err (runtime "Subscription period requires subscription_id")
  | some id ↦
      let added = record p { id = some st.next_period_id } in
      ok (
        record st { periods = st.periods ++ (added ∷ []); next_period_id = st.next_period_id + 1 },
        added,
      )
]

-- What is written once the policy has answered.
unfoldable pub persist :
    Store → SubscriptionActivation → ℕ → Result (Store × SubscriptionActivation)
unfolding save_replaced store_subscription add_period
persist st activation payment_order_id = do
  replaced ← save_replaced st activation.replaced_subscription
  (stored, subscription) ←
      store_subscription replaced activation.created_new_subscription activation.subscription
  (done, period) ← add_period stored (record activation.period {
    subscription_id = subscription.id;
    payment_order_id = some payment_order_id;
  })
  ok (done, record activation { subscription = subscription; period = period })

-- `execute`, for an order
unfoldable pub activate_paid :
    Store → ℕ → ℕ → ℕ → Instant → ℕ → Result (Store × SubscriptionActivation)
unfolding active_for_user last_period apply_paid_period persist
activate_paid st user_id tariff_id period_days now payment_order_id = do
  let active = active_for_user user_id st.subscriptions
  activation ←
      apply_paid_period active (last_period st active tariff_id) (pos user_id) (pos tariff_id)
        (pos period_days) now
  persist st activation payment_order_id

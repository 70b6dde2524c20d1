-- ===== src/Tests/Subscriptions.antt =====
-- A subscription and a VPN configuration over their lives.
use project_vpn.Common.{
  ℕ, ◌+◌, ◌≤◌, ◌<◌, ◌≡◌, ◌↔◌, refl, true, false, none, some, List, [], ◌∷◌, arith, pos, codes,
  Instant, days,
}
use project_vpn.Errors.{ok}
use project_vpn.Subscription.{Subscription, SubscriptionPeriod, SubscriptionStatus, is_active}
use project_vpn.Subscription.Policy.{SubscriptionActivation, apply_paid_period}
use project_vpn.Subscription.Coverage.{
  AllPositive, AllFit, purchases, Chained, access_count, purchases-Chained, access_once,
}
use project_vpn.Subscription.Status.{
  Call, call_activate, call_pause, call_cancel, call_expire, switch_tariff,
}
use project_vpn.Vpn.{VpnConfiguration, VpnStatus, DesiredState, wants_active}
use project_vpn.Vpn.Lifecycle
use project_vpn.Vpn.Lifecycle.{
  run_vpn, call_begin_revoke, call_revoke, is_leaving, run_forward, run_fenced, run_vpn-IsValid,
}

abbrev pub running : Subscription
running = record {
  id = some 3;
  user_id = 1;
  tariff_id = 2;
  status = SubscriptionStatus.active;
  created_at = 0;
  ended_at = none;
}

-- Thirty days bought on the first day, and thirty more ten days later.
abbrev bought : List (ℕ × Instant)
bought = (30, 0) ∷ (30, days 10) ∷ []

lengths : AllPositive bought
lengths = (omega arith, (omega arith, tt))

purchases-Chained_example :
    (((ps : List SubscriptionPeriod) × (purchases running none bought ≡ ok ps)) ↔ AllFit 0 bought)
    × ((ps : List SubscriptionPeriod)
        → purchases running none bought ≡ ok ps
        → Chained none ps bought)
purchases-Chained_example = purchases-Chained running none bought refl lengths

two_periods : (ps : List SubscriptionPeriod) × (purchases running none bought ≡ ok ps)
two_periods = purchases-Chained_example.0.1 (omega arith, (omega arith, tt))

access_once_example : access_count two_periods.0 (days 10) ≤ 1
access_once_example =
    access_once running none bought two_periods.0 (days 10) refl lengths two_periods.1

switch_tariff_example :
    (a : SubscriptionActivation) × (apply_paid_period
        (some running)
        none
        (pos 1)
        (pos 5)
        (pos 30)
        1000
      ≡ ok a)
    × (a.replaced_subscription
        ≡ some (record running { status = SubscriptionStatus.ended; ended_at = some 1000 }))
    × (a.created_new_subscription ≡ true)
    × (a.subscription.tariff_id ≡ 5)
    × (a.period.expires_at ≡ 1000 + days 30)
    × ((at : Instant)
        → (is_active a.subscription at (some a.period) ≡ true)
          ↔ ((1000 ≤ at) × (at < 1000 + days 30)))
switch_tariff_example =
    switch_tariff running none 1 5 30 1000 refl (ground arith) (omega arith) (omega arith)
      (omega arith) (omega arith)

abbrev calls : List Call
calls = call_pause ∷ call_cancel 500 ∷ call_expire 600 ∷ call_activate ∷ []

abbrev pub configuration : VpnConfiguration
configuration = record {
  id = some 9;
  subscription_id = 3;
  server_endpoint_id = 4;
  client_uuid = 77;
  display_name = codes "phone";
  status = VpnStatus.active;
  remote_client_ref = some (codes "ref");
  created_at = some 0;
  revoked_at = none;
  desired_state = DesiredState.active;
  generation = 1;
}

abbrev leaving : List Lifecycle.Call
leaving = call_begin_revoke ∷ call_revoke 900 ∷ []

well_formed : Lifecycle.IsValid configuration
well_formed = record { desired = refl; revoked_time = λ h. ground arith }

left : wants_active (run_vpn configuration leaving).desired_state ≡ false
unfolding run_vpn Lifecycle.perform
left = refl

run_fenced_example : 1 < (run_vpn configuration leaving).generation
run_fenced_example = run_fenced configuration leaving well_formed refl refl left

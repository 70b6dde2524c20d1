-- ===== src/UseCase/Rows.antt =====
-- The database as the use cases see it. A table is the list of its rows, found by their ids; the
-- queries are those of infrastructure/persistence/repositories.
pub mod Laws
use project_vpn.Common.{
  ℕ, Bool, false, not, same_text, ◌&&◌, ◌||◌, Option, none, some, List, [], ◌∷◌, ◌++◌, ltb, leb,
  if◌then◌else◌, is_none, same_number, text_eq, ◌==◌, codes, pos, ◌+ℤ◌, ℤ, Text, Instant,
}
use project_vpn.Common.Json.{Payload}
use project_vpn.Errors.{Result, ok, runtime, raise_if, ◌>>◌}
use project_vpn.Payment.Status.{PaymentStatus}
use project_vpn.Payment.Order.{PaymentOrder}
use project_vpn.Payment.Attempt.{PaymentAttempt, clear_creation_claim}
use project_vpn.Payment.Event.{PaymentEvent}
use project_vpn.Vpn
use project_vpn.Vpn.{VpnConfiguration, VpnStatus}
use project_vpn.Subscription
use project_vpn.Subscription.{Subscription, SubscriptionPeriod, SubscriptionStatus}

pub record Transaction : Type 0 where
  pub payment_order_id : ℕ
  pub payment_attempt_id : Option ℕ
  pub provider : Text
  pub transaction_type : Text
  pub provider_transaction_key : Text
  pub transaction_status : Text
  pub amount_minor : ℤ
  pub currency : Text
  pub payload : Payload

pub data AuditEntry : Type 0 where
  subscription_activated : Option ℕ → Option ℕ → Instant → Instant → AuditEntry
  payment_changed : PaymentStatus → Option ℕ → AuditEntry
  refund_reconciliation_required : ℕ → Text → AuditEntry

pub record Store : Type 0 where
  pub events : List PaymentEvent
  pub orders : List PaymentOrder
  pub attempts : List PaymentAttempt
  pub transactions : List Transaction
  pub subscriptions : List Subscription
  pub periods : List SubscriptionPeriod
  pub next_subscription_id : ℕ
  pub next_period_id : ℕ
  pub audit : List AuditEntry
  pub vpn : List VpnConfiguration

module _ {ℓ} {A : Type ℓ} (id_of : A → Option ℕ) where
  -- SELECT by primary key
  unfoldable pub by_id : ℕ → List A → Option A
  by_id n [] = none
  by_id n (x ∷ xs) =
      let rest = by_id n xs in if same_number (id_of x) (some n) then some x else rest

  -- UPDATE by primary key
  unfoldable pub replace : A → List A → List A
  replace x [] = []
  replace x (y ∷ ys) = (if same_number (id_of y) (id_of x) then x else y) ∷ replace x ys

-- `save_event_entity`
unfoldable pub save_event : Store → PaymentEvent → Result Store
save_event st e =
    raise_if (is_none e.id) (runtime "Cannot save payment event without id")
    >> ok (record st { events = replace (λ x. x.id) e st.events })

-- Whether another attempt has the provider and the reference of this one
unfoldable pub is_reference_used : PaymentAttempt → List PaymentAttempt → Bool
is_reference_used a [] = false
is_reference_used a (x ∷ xs) =
    (text_eq x.provider a.provider
      && (same_text x.provider_payment_id a.provider_payment_id && not (same_number x.id a.id)))
    || is_reference_used a xs

-- The unique index of the attempts on provider and reference, of those that have a reference
unfoldable pub breaks_reference : PaymentAttempt → List PaymentAttempt → Bool
unfolding is_reference_used
breaks_reference a rows = not (is_none a.provider_payment_id) && is_reference_used a rows

-- `save_attempt_entity`: without a token the fields of the claim are cleared. The UPDATE may break the
-- index.
unfoldable pub save_attempt : Store → PaymentAttempt → Result Store
unfolding clear_creation_claim breaks_reference
save_attempt st a =
    raise_if (is_none a.id) (runtime "Cannot save payment attempt without id")
    >> raise_if (breaks_reference a st.attempts) (runtime "uq_payment_attempts_provider_payment_id")
    >> ok (record st {
      attempts =
          replace (λ x. x.id) (if is_none a.creation_lease_token then clear_creation_claim a else a)
            st.attempts;
    })

-- `save_order_entity`
unfoldable pub save_order : Store → PaymentOrder → Result Store
save_order st o =
    raise_if (is_none o.id) (runtime "Cannot save payment order without id")
    >> ok (record st { orders = replace (λ x. x.id) o st.orders })

-- `save_entity` of the subscriptions
unfoldable pub save_subscription : Store → Subscription → Result Store
save_subscription st s =
    raise_if (is_none s.id) (runtime "Cannot save subscription without id")
    >> ok (record st { subscriptions = replace (λ x. x.id) s st.subscriptions })

-- `save_period_entity`
unfoldable pub save_period : Store → SubscriptionPeriod → Result Store
save_period st p =
    raise_if (is_none p.id) (runtime "Cannot save subscription period without id")
    >> ok (record st { periods = replace (λ x. x.id) p st.periods })

-- `create_provider_transaction`: ON CONFLICT (provider, key) DO NOTHING
abbrev same_key : Transaction → Transaction → Bool
same_key a b =
    text_eq a.provider b.provider && text_eq a.provider_transaction_key b.provider_transaction_key

abbrev has_key : Transaction → List Transaction → Bool
has_key t [] = false
has_key t (x ∷ xs) = same_key x t || has_key t xs

unfoldable pub create_provider_transaction : Store → Transaction → Store
create_provider_transaction st t =
    if has_key t st.transactions
    then st
    else record st { transactions = st.transactions ++ (t ∷ []) }

unfoldable pub append_audit : Store → AuditEntry → Store
append_audit st a = record st { audit = st.audit ++ (a ∷ []) }

-- `get_active_entity_for_user`
unfoldable pub active_for_user : ℕ → List Subscription → Option Subscription
active_for_user user_id [] = none
active_for_user user_id (s ∷ rest) =
    let others = active_for_user user_id rest in
    if same_number (some s.user_id) (some user_id)
      && Subscription.is s.status SubscriptionStatus.active
    then some s
    else others

-- The later of a period and one found among the rest of the rows.
abbrev later_period : SubscriptionPeriod → Option SubscriptionPeriod → Option SubscriptionPeriod
later_period p none = some p
later_period p (some q) = if ltb p.expires_at q.expires_at then some q else some p

-- `get_last_period_entity`: ORDER BY expires_at DESC LIMIT 1
unfoldable pub last_period_of : ℕ → List SubscriptionPeriod → Option SubscriptionPeriod
last_period_of subscription_id [] = none
last_period_of subscription_id (p ∷ rest) =
    let later = last_period_of subscription_id rest in
    if same_number p.subscription_id (some subscription_id) then later_period p later else later

-- `get_period_by_payment_order_id`
unfoldable pub period_of_order : ℕ → List SubscriptionPeriod → Option SubscriptionPeriod
period_of_order order_id [] = none
period_of_order order_id (p ∷ rest) =
    let others = period_of_order order_id rest in
    if same_number p.payment_order_id (some order_id) then some p else others

-- `get_current_period_entity` finds a period.
unfoldable pub has_current_period : ℕ → Instant → List SubscriptionPeriod → Bool
has_current_period subscription_id now [] = false
has_current_period subscription_id now (p ∷ rest) =
    (same_number p.subscription_id (some subscription_id)
      && p.is_paid
      && leb p.starts_at now
      && ltb now p.expires_at)
    || has_current_period subscription_id now rest

-- `has_funded_period_after`
unfoldable pub has_funded_period_after : ℕ → Instant → List SubscriptionPeriod → Bool
has_funded_period_after subscription_id now [] = false
has_funded_period_after subscription_id now (p ∷ rest) =
    (same_number p.subscription_id (some subscription_id) && p.is_paid && ltb now p.expires_at)
    || has_funded_period_after subscription_id now rest

-- `sum_provider_transactions` of the succeeded refunds of an order
unfoldable pub sum_refunds : ℕ → Text → List Transaction → ℤ
sum_refunds order_id provider [] = pos 0
sum_refunds order_id provider (t ∷ rest) =
    let others = sum_refunds order_id provider rest in
    if t.payment_order_id == order_id
      && text_eq t.provider provider
      && text_eq t.transaction_type (codes "refund_succeeded")
      && text_eq t.transaction_status (codes "succeeded")
    then t.amount_minor +ℤ others
    else others

-- `get_active_entity_for_subscription` of the configurations
unfoldable pub active_vpn : ℕ → List VpnConfiguration → Option VpnConfiguration
active_vpn subscription_id [] = none
active_vpn subscription_id (c ∷ rest) =
    let others = active_vpn subscription_id rest in
    if c.subscription_id == subscription_id && Vpn.is c.status VpnStatus.active
    then some c
    else others

abbrev pub or_zero : Option ℕ → ℕ
or_zero none = 0
or_zero (some n) = n

-- ORDER BY created_at DESC, payment_attempt_id DESC
abbrev pub attempt_before : PaymentAttempt → PaymentAttempt → Bool
attempt_before a b =
    let at = or_zero a.created_at in
    let bt = or_zero b.created_at in ltb at bt || (at == bt && ltb (or_zero a.id) (or_zero b.id))

abbrev pub later_attempt : PaymentAttempt → Option PaymentAttempt → Option PaymentAttempt
later_attempt a none = some a
later_attempt a (some b) = if attempt_before a b then some b else some a

-- `get_latest_attempt_entity`
unfoldable pub latest_attempt : ℕ → List PaymentAttempt → Option PaymentAttempt
latest_attempt order_id [] = none
latest_attempt order_id (a ∷ rest) =
    let others = latest_attempt order_id rest in
    if a.payment_order_id == order_id then later_attempt a others else others

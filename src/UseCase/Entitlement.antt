-- ===== src/UseCase/Entitlement.antt =====
-- What the runs of application/use_cases/process_payment.py do to the entitlements of orders, as
-- three kinds of step on the store.
pub mod Preserves
pub mod Grants
pub mod Refunds
pub mod Failures
pub mod Runs
use project_vpn.Common.{
  ℕ, ◌+◌, ◌≤◌, ◌<◌, ◌≡◌, sym, ap, ◌∙◌, Bool, true, false, Option, none, some, List, [], ◌∷◌, ◌++◌,
  if◌then◌else◌, ◌==◌, same_number,
}
use project_vpn.Payment.Status.{is_paid}
use project_vpn.Payment.Order.{PaymentOrder}
use project_vpn.Subscription.{SubscriptionPeriod}
use project_vpn.UseCase.Rows.{Store, by_id, replace, period_of_order}

-- How many periods an order has.
abbrev pub periods_of : ℕ → List SubscriptionPeriod → ℕ
periods_of n [] = 0
periods_of n (p ∷ ps) = (if same_number p.payment_order_id (some n) then 1 else 0) + periods_of n ps

abbrev paid_row : Option PaymentOrder → Bool
paid_row none = false
paid_row (some o) = is_paid o.status

-- The order is there and paid.
abbrev pub order_paid : ℕ → List PaymentOrder → Bool
order_paid n os = paid_row (by_id (λ x. x.id) n os)

-- The ids of the periods rise, from `low` on, and stay below `next`.
abbrev pub IsNumbered : ℕ → List SubscriptionPeriod → ℕ → Type 0
IsNumbered low [] next = low ≤ next
IsNumbered low (p ∷ ps) next = (k : ℕ) × (p.id ≡ some k) × (low ≤ k) × IsNumbered (k + 1) ps next

-- An order has at most one period, and none unless it is paid.
pub record IsEntitled (st : Store) : Type 0 where
  pub numbered : IsNumbered 0 st.periods st.next_period_id
  pub entitled : (n : ℕ) → periods_of n st.periods ≤ (if order_paid n st.orders then 1 else 0)

-- What a run does: nothing to entitlements; an order becomes paid and gets the one new period; or
-- the period of an order loses its effect.
pub data Step (s t : Store) : Type 0 where
  kept :
      t.periods ≡ s.periods
      → t.next_period_id ≡ s.next_period_id
      → ((m : ℕ) → order_paid m t.orders ≡ order_paid m s.orders)
      → Step s t
  granted :
      (n : ℕ) (p : SubscriptionPeriod)
      → order_paid n s.orders ≡ false
      → ((m : ℕ) → order_paid m t.orders ≡ (if n == m then true else order_paid m s.orders))
      → t.periods ≡ s.periods ++ (p ∷ [])
      → p.id ≡ some s.next_period_id
      → p.payment_order_id ≡ some n
      → t.next_period_id ≡ s.next_period_id + 1
      → Step s t
  withdrawn :
      (n : ℕ) (p : SubscriptionPeriod)
      → period_of_order n s.periods ≡ some p
      → t.periods ≡ replace (λ x. x.id) (record p { is_paid = false }) s.periods
      → t.next_period_id ≡ s.next_period_id
      → t.orders ≡ s.orders
      → Step s t

-- Rows that the invariant does not read have changed at most.
pub record SameRights (s t : Store) : Type 0 where
  pub periods : t.periods ≡ s.periods
  pub next : t.next_period_id ≡ s.next_period_id
  pub orders : t.orders ≡ s.orders

pub Step-frame : {s s' t' t : Store} → SameRights s s' → Step s' t' → SameRights t' t → Step s t
Step-frame a (kept g h i) b =
    kept (b.periods ∙ g ∙ a.periods) (b.next ∙ h ∙ a.next)
      (λ m. ap (order_paid m) b.orders ∙ i m ∙ ap (order_paid m) a.orders)
Step-frame a (granted n p g h i j k l) b =
    granted n p (ap (order_paid n) (sym a.orders) ∙ g)
      (λ m. rw (← a.orders) (ap (order_paid m) b.orders ∙ h m))
      (b.periods ∙ i ∙ ap (λ ps. ps ++ (p ∷ [])) a.periods) (j ∙ ap some a.next) k
      (b.next ∙ l ∙ ap (λ n. n + 1) a.next)
Step-frame a (withdrawn n p g h i j) b =
    withdrawn n p (ap (period_of_order n) (sym a.periods) ∙ g)
      (b.periods ∙ h ∙ ap (replace (λ x. x.id) (record p { is_paid = false })) a.periods)
      (b.next ∙ i ∙ a.next) (b.orders ∙ j ∙ a.orders)

pub SameRights-Step : {s t : Store} → SameRights s t → Step s t
SameRights-Step a = kept a.periods a.next (λ m. ap (order_paid m) a.orders)

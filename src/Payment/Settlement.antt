-- ===== src/Payment/Settlement.antt =====
-- `validate_paid_settlement` of domain/services/payment_settlement.py.
use project_vpn.Common.{
  ℕ, ◌≡◌, ◌↔◌, refl, Bool, true, false, not, ◌&&◌, ◌||◌, Option, none, some, arith, same_number,
  Text, strip, upper, is_blank, is_missing, same_text, text_eq, ℤ, pos, eq_ℤ, is_none, ◌==◌,
  text_eq_sound, text_eq_complete, text_eq_refl, ◌⊎◌, ap, String,
}
use mathlib.Core.Path.{subst}
use project_vpn.Errors.{Result, ok, err, payment_invariant_violation, raise_if, ◌>>◌}
use project_vpn.Payment.Order.{PaymentOrder}
use project_vpn.Payment.Attempt.{PaymentAttempt}
use project_vpn.Payment.Event.{PaymentEvent}

-- `event.amount_minor == order.amount.minor`
abbrev same_amount : Option ℤ → ℕ → Bool
same_amount none n = false
same_amount (some a) n = eq_ℤ a (pos n)

-- `event.currency is None or not event.currency.strip()`
abbrev blank_currency : Option Text → Bool
blank_currency none = true
blank_currency (some c) = is_blank (strip c)

-- `event.currency.strip().upper() == order.amount.currency.strip().upper()`
abbrev same_currency : Option Text → Text → Bool
same_currency none d = false
same_currency (some c) d = text_eq (upper (strip c)) (upper (strip d))

-- `if broken: raise PaymentInvariantViolation(message)`
abbrev refuse : Bool → String → Result (Unit {0})
refuse broken message = raise_if broken (payment_invariant_violation message)

-- The tests on the amount and the currency.
validate_amount : PaymentEvent → PaymentOrder → Result (Unit {0})
validate_amount event order = do
  refuse (is_none event.amount_minor) "verified payment amount is required"
  refuse (not (same_amount event.amount_minor order.amount.minor)) "payment amount mismatch"
  refuse (blank_currency event.currency) "verified payment currency is required"
  refuse (not (same_currency event.currency order.amount.currency)) "payment currency mismatch"

-- The tests once the attempt and the order's id are known to be there.
validate_identified : PaymentEvent → PaymentAttempt → PaymentOrder → ℕ → Result (Unit {0})
unfolding validate_amount
validate_identified event attempt order order_id = do
  refuse
      (not (text_eq event.provider order.provider) || not (text_eq event.provider attempt.provider))
      "payment provider mismatch"
  refuse (is_missing event.provider_payment_id || is_missing attempt.provider_payment_id)
      "provider payment id is required"
  refuse (not (same_text event.provider_payment_id attempt.provider_payment_id))
      "provider payment id mismatch"
  refuse (not (attempt.payment_order_id == order_id)) "payment attempt order mismatch"
  refuse (not (same_number event.payment_order_id (some attempt.payment_order_id)))
      "payment event order mismatch"
  refuse
      (not (is_none event.reported_payment_order_id)
        && not (same_number event.reported_payment_order_id (some attempt.payment_order_id)))
      "provider-reported order mismatch"
  validate_amount event order

-- `validate_paid_settlement`
unfoldable pub validate_paid_settlement :
    PaymentEvent → Option PaymentAttempt → PaymentOrder → Result (Unit {0})
unfolding validate_identified
validate_paid_settlement event none order =
    err (payment_invariant_violation "exact payment attempt is required")
validate_paid_settlement event (some attempt) order = elim order.id [
  | none ↦ err (payment_invariant_violation "persisted payment order id is required")
  | some order_id ↦ validate_identified event attempt order order_id
]

-- What a settlement promises, read off the data: one provider, one provider payment id, one order
-- throughout, the exact amount, and the same currency.
pub record Settles (event : PaymentEvent) (attempt : PaymentAttempt) (order : PaymentOrder)
    : Type 0 where
  pub order_known : order.id ≡ some attempt.payment_order_id
  pub provider_order : event.provider ≡ order.provider
  pub provider_attempt : event.provider ≡ attempt.provider
  pub payment_given : is_missing event.provider_payment_id ≡ false
  pub payment_same : event.provider_payment_id ≡ attempt.provider_payment_id
  pub event_order : event.payment_order_id ≡ some attempt.payment_order_id
  pub reported_order :
      (event.reported_payment_order_id ≡ none)
      ⊎ (event.reported_payment_order_id ≡ some attempt.payment_order_id)
  pub amount : event.amount_minor ≡ some (pos order.amount.minor)
  pub currency_given : blank_currency event.currency ≡ false
  pub currency_same : same_currency event.currency order.amount.currency ≡ true

same_text_sound : (a b : Option Text) → same_text a b ≡ true → a ≡ b
same_text_sound none none h = refl
same_text_sound (some s) (some t) h = ap some (text_eq_sound s t h)
same_text_sound none (some t) h = cc
same_text_sound (some s) none h = cc

same_text_complete : (a b : Option Text) → a ≡ b → same_text a b ≡ true
same_text_complete a none h = rw h
same_text_complete a (some t) h = rw h (text_eq_refl t)

same_missing : {a b : Option Text} → a ≡ b → is_missing a ≡ is_missing b
same_missing h = ap is_missing h

module _ (event : PaymentEvent) (a : PaymentAttempt) (order : PaymentOrder) where
  ok-Settles : validate_paid_settlement event (some a) order ≡ ok tt → Settles event a order
  unfolding validate_paid_settlement
  ok-Settles h = record {
    order_known = ground arith;
    provider_order = text_eq_sound _ _ (ground arith);
    provider_attempt = text_eq_sound _ _ (ground arith);
    payment_given = ground arith;
    payment_same = same_text_sound _ _ (ground arith);
    event_order = ground arith;
    reported_order = ground arith;
    amount = ground arith;
    currency_given = ground arith;
    currency_same = ground arith;
  }

  Settles-ok : Settles event a order → validate_paid_settlement event (some a) order ≡ ok tt
  unfolding validate_paid_settlement
  Settles-ok s = ground (
    arith,
    text_eq_complete event.provider order.provider s.provider_order,
    text_eq_complete event.provider a.provider s.provider_attempt,
    same_text_complete event.provider_payment_id a.provider_payment_id s.payment_same,
    same_missing s.payment_same,
  )

-- A settlement is accepted exactly when it holds together: there is an attempt, and the event, the
-- attempt and the order agree on all that `Settles` names.
pub settlement_exact :
    (event : PaymentEvent) (attempt : Option PaymentAttempt) (order : PaymentOrder)
    → (validate_paid_settlement event attempt order ≡ ok tt)
      ↔ ((a : PaymentAttempt) × (attempt ≡ some a) × Settles event a order)
settlement_exact event none order =
    ((λ h. unfold validate_paid_settlement in cc), (λ (a, e, s). cc))
settlement_exact event (some a) order = (
  (λ h. (a, refl, ok-Settles event a order h)),
  (λ (b, e, s).
      let same : b ≡ a = cc in
      Settles-ok event a order (subst (λ x. Settles event x order) same s)),
)

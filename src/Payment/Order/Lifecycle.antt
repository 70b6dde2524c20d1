-- ===== src/Payment/Order/Lifecycle.antt =====
-- An order over its life: whatever statuses arrive, a payment takes effect at most once.
use project_vpn.Common.{
  ℕ, ◌+◌, ◌≡◌, refl, Bool, true, false, not, ◌&&◌, ◌||◌, List, [], ◌∷◌, arith, is_some,
  if◌then◌else◌, Instant,
}
use project_vpn.Errors.{Result, ok, err}
use project_vpn.Payment.Status.{PaymentStatus, is, is_paid}
use project_vpn.Payment.Order.{PaymentOrder, apply_external_status}

-- The time of payment is there exactly when the order is paid.
pub record IsValid (o : PaymentOrder) : Type 0 where
  pub paid_time : is_some o.paid_at ≡ is_paid o.status

-- The order after a call: what raises leaves it as it was.
abbrev pub after : PaymentOrder → Result (PaymentOrder × Bool) → PaymentOrder
after o (ok (o', changed)) = o'
after o (err e) = o

abbrev pub changed : Result (PaymentOrder × Bool) → Bool
changed (ok (o', c)) = c
changed (err e) = false

-- The statuses that reach the order, each with its time, in the order of arrival.
pub receive : PaymentOrder → List (PaymentStatus × Instant) → PaymentOrder
receive o [] = o
receive o ((status, now) ∷ rest) = receive (after o (apply_external_status o status now)) rest

-- How often a payment takes effect: the PAID statuses for which the call returned True.
pub grants : PaymentOrder → List (PaymentStatus × Instant) → ℕ
grants o [] = 0
grants o ((status, now) ∷ rest) =
    (if is_paid status && changed (apply_external_status o status now) then 1 else 0)
    + grants (after o (apply_external_status o status now)) rest

abbrev pub any_paid : List (PaymentStatus × Instant) → Bool
any_paid [] = false
any_paid ((status, now) ∷ rest) = is_paid status || any_paid rest

-- The order can be paid: it is neither paid yet nor still being created.
abbrev pub is_payable : PaymentOrder → Bool
is_payable o = not (is_paid o.status || is o.status PaymentStatus.created)

module _ (o : PaymentOrder) (s : PaymentStatus) (now : Instant) where
  after-IsValid : IsValid o → IsValid (after o (apply_external_status o s now))
  unfolding apply_external_status
  after-IsValid v = ground arith

  is_paid-after :
      is_paid (after o (apply_external_status o s now)).status
      ≡ (is_paid o.status || (is_payable o && is_paid s))
  unfolding apply_external_status
  is_paid-after = ground arith

  is_payable-after :
      is_payable (after o (apply_external_status o s now)) ≡ (is_payable o && not (is_paid s))
  unfolding apply_external_status
  is_payable-after = ground arith

  changed_paid :
      (is_paid s && changed (apply_external_status o s now)) ≡ (is_payable o && is_paid s)
  unfolding apply_external_status
  changed_paid = ground arith

  after_paid : is_paid o.status ≡ true → after o (apply_external_status o s now) ≡ o
  unfolding apply_external_status
  after_paid h = ground arith

-- Whatever statuses arrive, the time of payment stays there exactly when the order is paid.
pub receive-IsValid :
    (o : PaymentOrder) (l : List (PaymentStatus × Instant)) → IsValid o → IsValid (receive o l)
unfolding receive
receive-IsValid o [] v = v
receive-IsValid o ((s, now) ∷ l) v =
    receive-IsValid (after o (apply_external_status o s now)) l (after-IsValid o s now v)

-- A paid order is left as it is by every later status.
pub receive_paid :
    (o : PaymentOrder) (l : List (PaymentStatus × Instant))
    → is_paid o.status ≡ true
    → receive o l ≡ o
unfolding receive
receive_paid o [] h = refl
receive_paid o ((s, now) ∷ l) h = rw (after_paid o s now h) (receive_paid o l h)

-- Over any sequence of statuses a payment takes effect once if the order can be paid and one of
-- them is PAID, and never otherwise; and the order ends as paid exactly if it was paid or a payment
-- has taken effect.
pub grants_exact :
    (o : PaymentOrder) (l : List (PaymentStatus × Instant))
    → (grants o l ≡ (if is_payable o && any_paid l then 1 else 0))
      × (is_paid (receive o l).status ≡ (is_paid o.status || (is_payable o && any_paid l)))
unfolding receive grants
grants_exact o [] = ground arith
grants_exact o ((s, now) ∷ l) = ground (
  arith,
  grants_exact (after o (apply_external_status o s now)) l,
  is_paid-after o s now,
  is_payable-after o s now,
  changed_paid o s now,
)

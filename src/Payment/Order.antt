-- ===== src/Payment/Order.antt =====
-- `PaymentOrder` of domain/entities/payment.py.
pub mod Lifecycle
use project_vpn.Common.{
  ℕ, ◌≡◌, Bool, true, false, not, ◌&&◌, ◌||◌, Option, none, some, ◌==◌, leb_ℤ, if◌then◌else◌, ℤ,
  pos, pos_part, Text, strip, is_blank, text_eq, Instant,
}
use project_vpn.Common.Json.{Payload}
use project_vpn.Errors.{
  Result, ok, err, Error, domain_validation, invalid_state_transition, raise_if, ◌>>=◌, ◌>>◌,
}
use project_vpn.Payment.Status.{PaymentStatus, is, is_paid}
use project_vpn.Payment.Money.{Money}

-- An order that was constructed has positive references and a positive period.
pub record PaymentOrder : Type 0 where
  pub id : Option ℕ
  pub user_id : ℕ
  pub tariff_id : ℕ
  pub provider : Text
  pub status : PaymentStatus
  pub amount : Money
  pub requested_period_days : ℕ
  pub idempotency_key : Text
  pub metadata : Payload
  pub created_at : Option Instant
  pub updated_at : Option Instant
  pub paid_at : Option Instant

-- The arguments of the constructor, before `__post_init__`.
pub record OrderArguments : Type 0 where
  pub id : Option ℕ
  pub user_id : ℤ
  pub tariff_id : ℤ
  pub provider : Text
  pub status : PaymentStatus
  pub amount : Money
  pub requested_period_days : ℤ
  pub idempotency_key : Text
  pub metadata : Payload
  pub created_at : Option Instant
  pub updated_at : Option Instant
  pub paid_at : Option Instant

-- `__post_init__`
unfoldable pub post_init : OrderArguments → Result PaymentOrder
post_init a = do
  let provider = strip a.provider
  let key = strip a.idempotency_key
  raise_if (leb_ℤ a.user_id (pos 0) || leb_ℤ a.tariff_id (pos 0))
      (domain_validation "Payment order references must be positive")
  raise_if (is_blank provider || is_blank key)
      (domain_validation "Payment provider and idempotency key cannot be blank")
  raise_if (a.amount.minor == 0 || leb_ℤ a.requested_period_days (pos 0))
      (domain_validation "Payment amount and period must be positive")
  ok (record {
    id = a.id;
    user_id = pos_part a.user_id;
    tariff_id = pos_part a.tariff_id;
    provider = provider;
    status = a.status;
    amount = a.amount;
    requested_period_days = pos_part a.requested_period_days;
    idempotency_key = key;
    metadata = a.metadata;
    created_at = a.created_at;
    updated_at = a.updated_at;
    paid_at = a.paid_at;
  })

unfoldable pub has_same_creation_identity : PaymentOrder → PaymentOrder → Bool
has_same_creation_identity self other =
    self.user_id == other.user_id
    && self.tariff_id == other.tariff_id
    && text_eq self.provider other.provider
    && self.amount.minor == other.amount.minor
    && text_eq self.amount.currency other.amount.currency
    && self.requested_period_days == other.requested_period_days

-- A method returns the order as it leaves it, with its result.
unfoldable pub mark_paid : PaymentOrder → Instant → Result (PaymentOrder × Bool)
mark_paid self now =
    if is_paid self.status
    then ok (self, false)
    else if is self.status PaymentStatus.created
    then err (invalid_state_transition "Created order must become pending before payment")
    else ok (
      record self { status = PaymentStatus.paid; paid_at = some now; updated_at = some now },
      true,
    )

-- `_finish`
unfoldable pub finish : PaymentOrder → PaymentStatus → Instant → Result (PaymentOrder × Bool)
finish self target now =
    if is self.status target
    then ok (self, false)
    else if is_paid self.status
    then err (invalid_state_transition "Paid order cannot transition to a failure state")
    else if not (is self.status PaymentStatus.pending)
    then ok (self, false)
    else ok (record self { status = target; updated_at = some now }, true)

unfoldable pub cancel : PaymentOrder → Instant → Result (PaymentOrder × Bool)
unfolding finish
cancel self now = finish self PaymentStatus.cancelled now

unfoldable pub fail : PaymentOrder → Instant → Result (PaymentOrder × Bool)
unfolding finish
fail self now = finish self PaymentStatus.failed now

unfoldable pub expire : PaymentOrder → Instant → Result (PaymentOrder × Bool)
unfolding finish
expire self now = finish self PaymentStatus.expired now

unfoldable pub apply_external_status :
    PaymentOrder → PaymentStatus → Instant → Result (PaymentOrder × Bool)
unfolding mark_paid cancel fail expire
apply_external_status self status now =
    if is_paid self.status && not (is_paid status)
    then ok (self, false)
    else if is_paid status
    then mark_paid self now
    else if is status PaymentStatus.cancelled
    then cancel self now
    else if is status PaymentStatus.failed
    then fail self now
    else if is status PaymentStatus.expired
    then expire self now
    else ok (self, false)

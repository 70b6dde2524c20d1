-- ===== src/Payment/Attempt.antt =====
-- `PaymentAttempt` of domain/entities/payment.py. Lease tokens are UUIDs: numbers that are only
-- compared.
pub mod Claim
pub mod Delivery
use project_vpn.Common.{
  ℕ, ◌≡◌, Bool, true, false, not, ◌&&◌, ◌||◌, Option, none, some, ltb, leb, if◌then◌else◌, is_some,
  same_number, or_else, Text, codes, Instant,
}
use project_vpn.Common.Json.{Payload, str, put}
use project_vpn.Errors.{
  Result, ok, err, Error, domain_validation, invalid_state_transition, raise_if, ◌>>=◌, ◌>>◌,
}
use project_vpn.Payment.Status.{
  PaymentStatus, is, is_final, rank, TransitionResult, applied, duplicate, stale,
}

pub record PaymentAttempt : Type 0 where
  pub id : Option ℕ
  pub payment_order_id : ℕ
  pub provider : Text
  pub status : PaymentStatus
  pub provider_payment_id : Option Text
  pub payment_url : Option Text
  pub payload : Payload
  pub created_at : Option Instant
  pub updated_at : Option Instant
  pub creation_claimed_at : Option Instant
  pub creation_lease_expires_at : Option Instant
  pub creation_lease_token : Option ℕ

-- `status is CREATED`
abbrev pub in_creation : PaymentAttempt → Bool
in_creation self = is self.status PaymentStatus.created

unfoldable pub claim_creation : PaymentAttempt → Instant → Instant → ℕ → Result PaymentAttempt
claim_creation self now lease_expires_at lease_token = do
  raise_if (not (in_creation self))
      (invalid_state_transition "Only created payment attempt can own invoice creation")
  raise_if (leb lease_expires_at now)
      (domain_validation "Payment creation lease must expire after claim time")
  ok (record self {
    creation_claimed_at = some now;
    creation_lease_expires_at = some lease_expires_at;
    creation_lease_token = some lease_token;
    updated_at = some now;
  })

-- `expires is not None and now < expires`
abbrev expires_later : Option Instant → Instant → Bool
expires_later none now = false
expires_later (some t) now = ltb now t

-- `expires is not None and expires <= now`
abbrev has_expired : Option Instant → Instant → Bool
has_expired none now = false
has_expired (some t) now = leb t now

unfoldable pub creation_claim_is_active : PaymentAttempt → Instant → Bool
creation_claim_is_active self now =
    in_creation self
    && is_some self.creation_lease_token
    && expires_later self.creation_lease_expires_at now

unfoldable pub creation_claim_is_expired : PaymentAttempt → Instant → Bool
creation_claim_is_expired self now =
    in_creation self && has_expired self.creation_lease_expires_at now

unfoldable pub owns_creation_claim : PaymentAttempt → ℕ → Bool
owns_creation_claim self token =
    in_creation self && same_number self.creation_lease_token (some token)

unfoldable pub clear_creation_claim : PaymentAttempt → PaymentAttempt
clear_creation_claim self = record self {
  creation_claimed_at = none;
  creation_lease_expires_at = none;
  creation_lease_token = none;
}

unfoldable pub finalize_creation :
    PaymentAttempt → PaymentStatus → Text → Option Text → Payload → Instant → Result PaymentAttempt
unfolding clear_creation_claim
finalize_creation self status provider_payment_id payment_url payload now = do
  raise_if (not (in_creation self))
      (invalid_state_transition "Only created payment attempt can be finalized")
  raise_if (is status PaymentStatus.created)
      (invalid_state_transition "Provider result cannot remain in creation-claim state")
  ok (
      clear_creation_claim (record self {
        status = status;
        provider_payment_id = some provider_payment_id;
        payment_url = payment_url;
        payload = payload;
        updated_at = some now;
      }))

unfoldable pub fail_creation : PaymentAttempt → Instant → Text → PaymentAttempt
unfolding clear_creation_claim
fail_creation self now diagnostic =
    if not (in_creation self)
    then self
    else clear_creation_claim (record self {
      status = PaymentStatus.failed;
      payload = put (codes "creation_error") (str diagnostic) self.payload;
      updated_at = some now;
    })

abbrev given {ℓ} : {A : Type ℓ} → Option A → A → A
given none a = a
given (some b) a = b

-- The three keyword arguments replace a field only if they are given.
unfoldable pub apply_provider_status :
    PaymentAttempt
    → PaymentStatus
    → Option Text
    → Option Text
    → Option Payload
    → PaymentAttempt × TransitionResult
apply_provider_status self target provider_payment_id payment_url payload =
    if is_final self.status
    then (self, (if is self.status target then duplicate else stale))
    else if ltb (rank target) (rank self.status)
    then (self, stale)
    else (
      record self {
        status = target;
        provider_payment_id = or_else provider_payment_id self.provider_payment_id;
        payment_url = or_else payment_url self.payment_url;
        payload = given payload self.payload;
      },
      applied,
    )

-- ===== src/Payment/Attempt/Claim.antt =====
-- Who owns the creation of an invoice: one token at a time, until the attempt leaves CREATED.
use project_vpn.Common.{ℕ, ◌≤◌, ◌<◌, ◌≡◌, ◌↔◌, true, false, Option, arith, is_some, Text, Instant}
use project_vpn.Common.Json.{Payload}
use project_vpn.Errors.{ok}
use project_vpn.Payment.Status.{PaymentStatus}
use project_vpn.Payment.Attempt.{
  PaymentAttempt, in_creation, claim_creation, creation_claim_is_active, creation_claim_is_expired,
  owns_creation_claim, finalize_creation, fail_creation,
}

-- The three fields of a claim are there together, and only during creation.
pub record IsValid (a : PaymentAttempt) : Type 0 where
  pub token_lease : is_some a.creation_lease_token ≡ is_some a.creation_lease_expires_at
  pub token_claimed : is_some a.creation_lease_token ≡ is_some a.creation_claimed_at
  pub in_creation_only : is_some a.creation_lease_token ≡ true → in_creation a ≡ true

-- A claim that succeeds makes its token, and no other, the owner; it is active until its lease
-- ends, and from that moment expired.
pub claim_exclusive :
    (a : PaymentAttempt) (now until : Instant) (token : ℕ) (a' : PaymentAttempt)
    → claim_creation a now until token ≡ ok a'
    → ((other : ℕ) → (owns_creation_claim a' other ≡ true) ↔ (other ≡ token))
      × ((at : Instant) → (creation_claim_is_active a' at ≡ true) ↔ (at < until))
      × ((at : Instant) → (creation_claim_is_expired a' at ≡ true) ↔ (until ≤ at))
      × (now < until)
      × IsValid a'
unfolding claim_creation owns_creation_claim creation_claim_is_active creation_claim_is_expired
claim_exclusive a now until token a' h = (
  (λ other. (λ e. ground arith, λ e. ground arith)),
  (λ at. (λ e. ground arith, λ e. ground arith)),
  (λ at. (λ e. ground arith, λ e. ground arith)),
  ground arith,
  ground arith,
)

-- After `finalize_creation` or `fail_creation` no token owns the attempt, so a worker that lost
-- its claim cannot finalize it a second time.
pub closed_creation :
    (a : PaymentAttempt) (s : PaymentStatus) (ref : Text) (url : Option Text) (p : Payload)
    (now : Instant) (diagnostic : Text) (a' : PaymentAttempt)
    → finalize_creation a s ref url p now ≡ ok a'
    → ((token : ℕ) → owns_creation_claim a' token ≡ false)
      × ((token : ℕ) → owns_creation_claim (fail_creation a now diagnostic) token ≡ false)
      × (fail_creation a' now diagnostic ≡ a')
      × IsValid a'
      × IsValid (fail_creation a now diagnostic)
unfolding finalize_creation fail_creation owns_creation_claim
closed_creation a s ref url p now diagnostic a' h =
    ((λ token. ground arith), (λ token. ground arith), ground arith, ground arith, ground arith)

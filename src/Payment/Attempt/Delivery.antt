-- ===== src/Payment/Attempt/Delivery.antt =====
-- What a sequence of provider updates does to an attempt.
use project_vpn.Common.{
  ◌≤◌, ◌≡◌, refl, Option, true, false, none, some, List, [], ◌∷◌, arith, if◌then◌else◌, Bool-cases,
  Option-cases, inl, inr, ◌∙◌,
}
use project_vpn.Common.Json.{Payload}
use project_vpn.Payment.Status.{PaymentStatus, is, is_final, rank, duplicate, stale}
use project_vpn.Payment.Attempt.{PaymentAttempt, apply_provider_status}

-- The updates that reach an attempt, as `process_payment.py` delivers them: a status and a payload.
pub deliver : PaymentAttempt → List (PaymentStatus × Payload) → PaymentAttempt
deliver a [] = a
deliver a ((status, payload) ∷ rest) =
    deliver (apply_provider_status a status none none (some payload)).0 rest

abbrev pub first_final : List (PaymentStatus × Payload) → Option PaymentStatus
first_final [] = none
first_final ((t, p) ∷ rest) = if is_final t then some t else first_final rest

first_final-is_final :
    (l : List (PaymentStatus × Payload)) (s : PaymentStatus)
    → first_final l ≡ some s
    → is_final s ≡ true
first_final-is_final [] s e = cc
first_final-is_final ((t, p) ∷ l) s e = ground (arith, first_final-is_final l s)

-- A final attempt is left as it is, and the answer says whether the update repeats its status.
pub apply_final :
    (a : PaymentAttempt) (t : PaymentStatus) (p : Payload)
    → is_final a.status ≡ true
    → apply_provider_status a t none none (some p)
      ≡ (a, (if is a.status t then duplicate else stale))
unfolding apply_provider_status
apply_final a t p h = ground arith

pub deliver_final :
    (a : PaymentAttempt) (l : List (PaymentStatus × Payload))
    → is_final a.status ≡ true
    → deliver a l ≡ a
unfolding deliver
deliver_final a [] h = refl
deliver_final a ((t, p) ∷ l) h = rw (apply_final a t p h) (deliver_final a l h)

step_open :
    (a : PaymentAttempt) (t : PaymentStatus) (p : Payload)
    → is_final a.status ≡ false
    → let b = (apply_provider_status a t none none (some p)).0 in
      (is_final b.status ≡ is_final t)
      × (is_final t ≡ true → b.status ≡ t)
      × (rank a.status ≤ rank b.status)
unfolding apply_provider_status
step_open a t p h = ground arith

delivered :
    (a : PaymentAttempt) (l : List (PaymentStatus × Payload))
    → is_final a.status ≡ false
    → ((s : PaymentStatus) → first_final l ≡ some s → (deliver a l).status ≡ s)
      × (first_final l ≡ none → is_final (deliver a l).status ≡ false)
      × (rank a.status ≤ rank (deliver a l).status)
unfolding deliver
delivered a [] h = ((λ s e. cc), (λ e. h), omega arith)
delivered a ((t, p) ∷ l) h =
    let b = (apply_provider_status a t none none (some p)).0 in
    let one = step_open a t p h in
    elim (Bool-cases (is_final t)) [
      | inl final ↦
          rw (deliver_final b l (one.0 ∙ final))
            ((λ s e. ground (arith, one.1 final)), (λ e. ground arith), one.2)
      | inr going ↦
          let rest = delivered b l (one.0 ∙ going) in
          (
            (λ s e. rest.0 s (ground arith)),
            (λ e. rest.1 (ground arith)),
            omega (arith, one.2, rest.2),
          )
    ]

abbrev pub final_of : PaymentStatus → Option PaymentStatus
final_of s = if is_final s then some s else none

-- The first final status that arrives settles an open attempt for good, whatever arrives before and
-- after it; without one the attempt stays open. Its rank does not fall.
pub deliver_outcome :
    (a : PaymentAttempt) (l : List (PaymentStatus × Payload))
    → is_final a.status ≡ false
    → (final_of (deliver a l).status ≡ first_final l) × (rank a.status ≤ rank (deliver a l).status)
deliver_outcome a l h =
    let seen = delivered a l h in
    elim (Option-cases (first_final l)) [
      | inl e ↦ (ground (arith, seen.1 e), seen.2)
      | inr (s, e) ↦ (ground (arith, seen.0 s e, first_final-is_final l s e), seen.2)
    ]

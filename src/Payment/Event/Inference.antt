-- ===== src/Payment/Event/Inference.antt =====
-- What the inferred status of an event can be.
use mathlib.Core.Path.{subst}
use mathlib.Core.List.{append_assoc}
use project_vpn.Common.{
  sym, ◌∙◌, ◌≡◌, ◌⊎◌, inl, refl, Bool, true, ◌&&◌, none, some, List, [], ◌∷◌, ◌++◌, arith, Text,
  codes, lower, contains, lower-append, contains-append, Option,
}
use project_vpn.Common.Json.{Payload, Json, str}
use project_vpn.Payment.Status.{PaymentStatus, is_final}
use project_vpn.Payment.Event.{
  infer_payment_status, status_alias, status_of_type, or_type, raw_status, lookup, aliases,
}

all_final : List (Text × PaymentStatus) → Bool
all_final [] = true
all_final ((k, s) ∷ l) = is_final s && all_final l

lookup-final :
    (key : Text) (s : PaymentStatus) (l : List (Text × PaymentStatus))
    → all_final l ≡ true
    → lookup key l ≡ some s
    → is_final s ≡ true
unfolding all_final lookup
lookup-final key s [] h e = cc
lookup-final key s ((k, t) ∷ l) h e = ground (arith, lookup-final key s l)

aliases_final : all_final aliases ≡ true
unfolding all_final
aliases_final = refl

status_alias-final :
    (o : Option Json) (s : PaymentStatus) → status_alias o ≡ some s → is_final s ≡ true
status_alias-final (some (str raw)) s h =
    lookup-final (lower raw) s aliases aliases_final (unfold status_alias in h)
status_alias-final _ s h = unfold status_alias in cc

status_of_type-final :
    (event_type : Text)
    → (is_final (status_of_type event_type) ≡ true)
      ⊎ (status_of_type event_type ≡ PaymentStatus.pending)
unfolding status_of_type
status_of_type-final event_type = ground arith

or_type-final :
    (o : Option PaymentStatus) (event_type : Text)
    → ((s : PaymentStatus) → o ≡ some s → is_final s ≡ true)
    → (is_final (or_type o event_type) ≡ true) ⊎ (or_type o event_type ≡ PaymentStatus.pending)
or_type-final (some s) event_type h = inl (h s refl)
or_type-final none event_type h = status_of_type-final event_type

-- An inferred status is final or PENDING: text from a provider never sets CREATED or AUTHORIZED.
pub infer_final :
    (event_type : Text) (payload : Payload)
    → (is_final (infer_payment_status event_type payload) ≡ true)
      ⊎ (infer_payment_status event_type payload ≡ PaymentStatus.pending)
infer_final event_type payload =
    unfold infer_payment_status in
    or_type-final (status_alias (raw_status payload)) event_type
      (status_alias-final (raw_status payload))

has_paid : (a b : Text) → contains (codes "paid") (lower (a ++ (codes "unpaid" ++ b))) ≡ true
unfolding lower
has_paid a b =
    subst (λ t. contains (codes "paid") t ≡ true)
      (append_assoc (lower a) (codes "un") (codes "paid" ++ lower b)
        ∙ sym (lower-append a (codes "unpaid" ++ b)))
      (contains-append (codes "paid") (lower a ++ codes "un") (lower b))

-- A type that says "unpaid" anywhere is read as PAID, if the payload names no status.
pub unpaid_means_paid :
    (a b : Text) (payload : Payload)
    → status_alias (raw_status payload) ≡ none
    → infer_payment_status (a ++ (codes "unpaid" ++ b)) payload ≡ PaymentStatus.paid
unfolding status_of_type
unpaid_means_paid a b payload h =
    unfold infer_payment_status in rw (h, or_type) (ground (arith, has_paid a b))

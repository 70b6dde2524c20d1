-- ===== src/Errors.antt =====
-- The exceptions of domain/errors.py and core/exceptions.py, NodeAuthError and Python's OverflowError,
-- as values, each but the last with its message.
-- A method that may raise returns a `Result`: what it has not written when it raises, stays.
use project_vpn.Common.{String, Bool, true, false, ◌≡◌, refl, ◌⊎◌, inl, inr}

pub data Error : Type 0 where
  domain_validation : String → Error
  invalid_state_transition : String → Error
  payment_invariant_violation : String → Error
  not_found : String → Error
  conflict : String → Error
  validation : String → Error
  runtime : String → Error
  node_auth : String → Error
  webhook_payload : String → Error
  overflow : Error

pub data Result {ℓ} (A : Type ℓ) : Type ℓ where
  ok : A → Result A
  err : Error → Result A

-- `if broken: raise e`
abbrev pub raise_if : Bool → Error → Result (Unit {0})
raise_if true e = err e
raise_if false e = ok tt

abbrev pub is_ok {ℓ} : {A : Type ℓ} → Result A → Bool
is_ok (ok a) = true
is_ok (err e) = false

-- What follows a statement that may raise is skipped when it does.
infixl 5 ◌>>◌ ◌>>=◌
abbrev pub ◌>>=◌ {κ ℓ} : {B : Type κ} {A : Type ℓ} → Result B → (B → Result A) → Result A
err raised >>= next = err raised
ok value >>= next = next value

abbrev pub ◌>>◌ {ℓ} : {A : Type ℓ} → Result (Unit {0}) → Result A → Result A
first >> next = first >>= λ done. next

pub Result-cases {ℓ} :
    {A : Type ℓ} → (m : Result A) → ((a : A) × (m ≡ ok a)) ⊎ ((e : Error) × (m ≡ err e))
Result-cases (ok a) = inl (a, refl)
Result-cases (err e) = inr (e, refl)

-- A chain that succeeds has a first step that does.
pub bind_ok {κ ℓ} :
    {B : Type κ} {A : Type ℓ} {m : Result B} {next : B → Result A} {a : A}
    → (m >>= next) ≡ ok a
    → (b : B) × (m ≡ ok b) × (next b ≡ ok a)
bind_ok {m = ok b} h = (b, refl, h)
bind_ok {m = err e} h = cc

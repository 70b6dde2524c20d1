-- ===== src/Payment/Status.antt =====
-- The enumerations of domain/entities/payment.py.
use project_vpn.Common.{ℕ, ◌≡◌, ◌↔◌, ◌==◌, Bool, true, ◌||◌, arith}

pub data PaymentStatus : Type 0 where
  created pending authorized paid failed expired cancelled : PaymentStatus

pub data EventStatus : Type 0 where
  received processing processed ignored failed : EventStatus

pub data TransitionResult : Type 0 where
  applied duplicate stale : TransitionResult

-- A number for each member, by which `is` compares.
abbrev number : PaymentStatus → ℕ
number PaymentStatus.created = 0
number PaymentStatus.pending = 1
number PaymentStatus.authorized = 2
number PaymentStatus.paid = 3
number PaymentStatus.failed = 4
number PaymentStatus.expired = 5
number PaymentStatus.cancelled = 6

-- `a is b`
abbrev pub is : PaymentStatus → PaymentStatus → Bool
is a b = number a == number b

pub is_iff : (a b : PaymentStatus) → (is a b ≡ true) ↔ (a ≡ b)
is_iff a b = ground arith

abbrev pub is_paid : PaymentStatus → Bool
is_paid s = is s PaymentStatus.paid

-- The statuses after which a provider's updates are not applied.
abbrev pub is_final : PaymentStatus → Bool
is_final s =
    is s PaymentStatus.paid
    || is s PaymentStatus.failed
    || is s PaymentStatus.expired
    || is s PaymentStatus.cancelled

-- `order` in `apply_provider_status`
abbrev pub rank : PaymentStatus → ℕ
rank PaymentStatus.created = 0
rank PaymentStatus.pending = 1
rank PaymentStatus.authorized = 2
rank _ = 3

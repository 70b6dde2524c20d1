-- ===== src/Payment.antt =====
-- Payments: domain/entities/payment.py, domain/value_objects/money.py and
-- domain/services/payment_settlement.py, with what is proved of them.
pub mod Status
pub mod Money
pub mod Order
pub mod Attempt
pub mod Event
pub mod Settlement

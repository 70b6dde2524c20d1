-- ===== src/UseCase/Redelivery.antt =====
-- A second run of application/use_cases/process_payment.py for one event.
pub mod Frame
pub mod Answers
pub mod Twice

-- ===== src/UseCase.antt =====
-- The use cases of a payment: application/use_cases/create_payment.py, ingest_webhook.py,
-- process_payment.py and activate_subscription.py, over the rows that they read and write, with the
-- tariffs of domain/entities/tariff.py.
pub mod Rows
pub mod Activate
pub mod Reply
pub mod Paid
pub mod Unsuccessful
pub mod Refund
pub mod ProcessPayment
pub mod Entitlement
pub mod Redelivery
pub mod Catalog
pub mod CreatePayment
pub mod IngestWebhook

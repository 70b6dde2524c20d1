-- ===== src/Dispatch.antt =====
-- The workers that carry out panel tasks: their database, each transaction, and whole runs that
-- compose the transactions with the answers of the panel.
pub mod Rows
pub mod Provision
pub mod Compensate
pub mod Run
pub mod Revoke
pub mod Schedule
pub mod Trace
pub mod Steps
pub mod Outcomes

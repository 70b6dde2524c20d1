-- ===== src/Tests.antt =====
-- Runs of the models on concrete data.
mod Payments
pub mod Subscriptions
pub mod Tasks
mod Nodes
mod Agents
mod Requests
pub mod Settlements
mod Checkout
mod Users
mod Workers

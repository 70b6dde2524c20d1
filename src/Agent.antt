-- ===== src/Agent.antt =====
-- The agent that runs on a node: infrastructure/nodes/auth.py, infrastructure/nodes/idempotency.py
-- and apps/node_agent.
pub mod Journal
pub mod Nonces
pub mod Auth

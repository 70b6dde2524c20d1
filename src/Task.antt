-- ===== src/Task.antt =====
-- Leased background tasks: domain/entities/panel_task.py and the tasks of domain/entities/node.py.
-- A worker owns a task by a token and an attempt number, until its lease ends.
pub mod Lease
pub mod Provision
pub mod Revoke
pub mod Node

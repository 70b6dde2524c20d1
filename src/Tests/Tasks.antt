-- ===== src/Tests/Tasks.antt =====
-- Tasks of domain/entities/panel_task.py and domain/entities/node.py.
pub mod PanelRuns
mod NodeRuns

-- ===== src/Nodes.antt =====
-- backend/app/nodes/services.py: nodes and their reports.
pub mod Reports

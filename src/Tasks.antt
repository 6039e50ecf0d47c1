-- ===== src/Tasks.antt =====
-- The queue of node tasks: backend/app/agent/tasks.py and the agent's endpoints in
-- backend/app/agent/routes.py.
pub mod Queue
pub mod Results
pub mod Lease
pub mod Events

-- ===== src/Tasks/Results.antt =====
-- `complete_node_task` of backend/app/agent/routes.py for the tasks of a container: create, SSH keys,
-- ports, start, restart, stop and delete, with the retry of a failed synchronisation. What the other
-- task types write is a parameter.
pub mod Success
pub mod Failure
pub mod Complete
pub mod Retries

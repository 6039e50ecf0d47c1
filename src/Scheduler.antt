-- ===== src/Scheduler.antt =====
-- backend/app/containers/scheduler.py, with `effective_node_shared_storage_mode` of backend/app/platform_settings.py.
pub mod Gpus
pub mod Select

-- ===== src/Storage.antt =====
-- The images of Incus (backend/app/storage/services.py, backend/app/nodes/services.py).
pub mod Images
pub mod Roots

-- ===== src/Ports.antt =====
-- backend/app/containers/ports.py: the public port pools and the port mappings of containers.
pub mod Allocate
pub mod Mappings
pub mod Keys

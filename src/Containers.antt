-- ===== src/Containers.antt =====
-- backend/app/containers/routes.py: what the routes and the background loops do to a container.
pub mod Lifecycle
pub mod PortRoutes
pub mod Expiry
pub mod Creation

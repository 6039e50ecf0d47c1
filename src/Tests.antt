-- ===== src/Tests.antt =====
-- Concrete databases, and each theorem at one of them.
mod Roots
mod Images
mod Data
mod Queue
mod Mappings
mod Lifecycle
mod Accounts
mod Scheduling
mod Proxy
mod Router
mod Platform
mod Creation
mod Nodes

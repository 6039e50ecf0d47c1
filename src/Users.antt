-- ===== src/Users.antt =====
-- backend/app/users/routes.py: the nodes that users may use, and their API tokens.
pub mod Access
pub mod Tokens

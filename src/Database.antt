-- ===== src/Database.antt =====
-- The platform's database: its rows, and transactions over them.
mod Rows
mod Transaction
pub use Rows.*
pub use Transaction.*

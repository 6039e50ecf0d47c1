-- ===== src/Tasks/Lease.antt =====
-- The lease on a claimed task, of 300 seconds from the claim or the last progress report.
pub mod Quiet
pub mod Keeps
pub mod Exclusive
pub mod Trace

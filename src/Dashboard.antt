-- ===== src/Dashboard.antt =====
-- The reviews that the dashboard keeps in its database: pr_agent/dashboard/storage.py.
pub mod Payload
pub mod Reviews
pub mod Retention
pub mod Life
pub mod Transaction
pub mod Login

-- ===== src/Store.antt =====
-- apps/manager/internal/store: the queries and transactions of the manager's database, a module for
-- each file of the package.
pub mod Operations
pub mod Ports
pub mod Projects
pub mod Secrets
pub mod Auth
pub mod Times
pub mod Leases
pub mod Configuration

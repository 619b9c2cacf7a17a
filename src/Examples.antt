-- ===== src/Examples.antt =====
-- Concrete runs: the theorems at inputs that exercise the code, and tests.
mod Models
pub mod Tracking
pub mod Generators
pub mod Records
pub mod Databases
pub mod Servers
pub mod Recovering
pub mod Wallets
pub mod Storages
pub mod Polls
pub mod Fetching

-- ===== src/Recovery/Sql.antt =====
-- fog/sql_recovery_db/src: the recovery database and the report database on PostgreSQL tables. An
-- operation that writes is a function from the tables to an error, with which the transaction is
-- rolled back, or to the tables after it; transactions run one at a time. A connection is always
-- given by the pool.
pub mod Tables
pub mod Keys
pub mod Wire
pub mod Invocations
pub mod Blocks
pub mod Events
pub mod Reports
pub mod Consistency
pub mod Keeps
pub mod History
pub mod Links
pub mod Constraints
pub mod Lookups
pub mod Missed
pub mod Raised
pub mod Expiry
pub mod Paging
pub mod Unambiguous
pub mod Decommission

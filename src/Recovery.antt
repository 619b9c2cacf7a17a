-- ===== src/Recovery.antt =====
-- fog/recovery_db_iface: the types that the ingest servers, the view servers and the database share.
pub mod IngressKey
pub mod BlockRange
pub mod Sql

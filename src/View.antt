-- ===== src/View.antt =====
-- fog/view: the view server's loading of blocks, the enclave's records and the client's protocol.
pub mod Tracker
pub mod TxOutStore
pub mod SearchResult
pub mod UserRngSet
pub mod Query
pub mod Polling
pub mod DbFetcher

-- ===== src/Ingest.antt =====
-- fog/ingest: the ingest enclave's counters and the ingest server's controller.
pub mod RngStore
pub mod ControllerState
pub mod Activation

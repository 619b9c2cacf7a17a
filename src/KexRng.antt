-- ===== src/KexRng.antt =====
-- fog/kex_rng: the random sequence that a user shares with the ingest enclave by key exchange.
pub mod Core
pub mod Buffered
pub mod Sequence
pub mod Stored

-- ===== src/Oram.antt =====
-- fog/ocall_oram_storage: the storage of an oblivious map, of which the top of the tree is in the
-- enclave and the rest, encrypted and hashed, is outside.
pub mod ExtraMeta
pub mod Untrusted
pub mod Storage
pub mod Path
pub mod Slots
pub mod Sealing
pub mod Roots
pub mod RoundTrip
pub mod CheckedIn

-- ===== src/Paykit.antt =====
-- fog/sample-paykit: the client's cache of its outputs, its balance and the choice of inputs.
pub mod InputSelection
pub mod KeyImages
pub mod CachedTxData

-- ===== src/View/Query.antt =====
-- fog/fog_types/src/view.rs: what the view server answers, and what it holds of an output.
use fog.Prelude.{ℕ, List}
use fog.Prelude.Bytes.{Bytes}
use fog.Recovery.BlockRange.{BlockRange}
use fog.Recovery.Sql.Events.{RngRecord, DecommissionedIngestInvocation}
use fog.View.SearchResult.{TxOutSearchResult}

pub record QueryResponse : Type 0 where
  pub highest_processed_block_count : ℕ
  pub highest_processed_block_signature_timestamp : ℕ
  pub next_start_from_user_event_id : ℕ
  pub missed_block_ranges : List BlockRange
  pub rng_records : List RngRecord
  pub decommissioned_ingest_invocations : List DecommissionedIngestInvocation
  pub tx_out_search_results : List TxOutSearchResult
  pub last_known_block_count : ℕ
  pub last_known_block_cumulative_txo_count : ℕ

-- The bytes of curve points are `Bytes`.
pub record TxOutRecord : Type 0 where
  pub tx_out_amount_commitment_data : Bytes
  pub tx_out_amount_masked_value : ℕ
  pub tx_out_target_key_data : Bytes
  pub tx_out_public_key_data : Bytes
  pub tx_out_global_index : ℕ
  pub block_index : ℕ
  pub timestamp : ℕ
  pub tx_out_amount_commitment_data_crc32 : ℕ

-- ===== src/Recovery/Sql/Blocks.antt =====
-- fog/sql_recovery_db/src/lib.rs: the operations on ingested blocks.
use fog.Prelude.{
  ℕ, Bool, true, false, not, ◌&&◌, Option, none, some, List, [], ◌∷◌, map, ◌==◌, if◌then◌else◌,
}
use fog.Prelude.Bytes.{Bytes, bytes_eq}
use fog.Prelude.Map.{Map, get, insert}
use fog.Prelude.Result.{Result, ok, err, ◌>>=◌}
use fog.Prelude.Queries.{bigint_lt, filter, max_of}
use fog.View.SearchResult.{TxOutSearchResult, TxOutSearchResultCode, to_u32}
use fog.Recovery.IngressKey.{PublicKey}
use fog.Recovery.Sql.Wire.{Wire}
use fog.Recovery.Sql.Invocations.{is_invocation, update_last_active_at_impl}
use fog.Recovery.Sql.Tables.{
  IngestInvocation, IngestedBlock, Db, Error, unique_violation, foreign_key_violation,
  value_too_long, not_found, decode, encode, assertion_failed, missing_ingress_key,
  ingress_keys_schema_violation, user_event_schema_violation, ingested_block_schema_violation,
  insert_ingested_block,
}

pub record ETxOutRecord : Type 0 where
  pub search_key : Bytes
  pub payload : Bytes

-- What is read of a block and its signature.
pub record Block : Type 0 where
  pub index : ℕ
  pub cumulative_txo_count : ℕ

pub record AddBlockDataStatus : Type 0 where
  pub block_already_scanned_with_this_key : Bool

-- `first`, which fails on no row
abbrev pub ingress_key_of : List IngestInvocation → Result Error PublicKey
ingress_key_of [] = err not_found
ingress_key_of (r ∷ rs) = ok r.ingress_public_key

abbrev pub written : Option Bytes → Result Error Bytes
written none = err encode
written (some bytes) = ok bytes

abbrev pub read {ℓ} : {A : Type ℓ} → Option A → Result Error A
read none = err decode
read (some a) = ok a

-- What becomes of the transaction's result.
abbrev pub add_status : Db → Result Error Db → Result Error (AddBlockDataStatus × Db)
add_status db (ok db') = ok (record { block_already_scanned_with_this_key = false }, db')
add_status db (err unique_violation) =
    ok (record { block_already_scanned_with_this_key = true }, db)
add_status db (err foreign_key_violation) = err foreign_key_violation
add_status db (err value_too_long) = err value_too_long
add_status db (err not_found) = err not_found
add_status db (err decode) = err decode
add_status db (err encode) = err encode
add_status db (err assertion_failed) = err assertion_failed
add_status db (err (missing_ingress_key k)) = err (missing_ingress_key k)
add_status db (err (ingress_keys_schema_violation k)) = err (ingress_keys_schema_violation k)
add_status db (err (user_event_schema_violation i)) = err (user_event_schema_violation i)
add_status db (err (ingested_block_schema_violation i)) = err (ingested_block_schema_violation i)

abbrev pub at_key_and_block : PublicKey → ℕ → IngestedBlock → Bool
at_key_and_block key block_index b = b.ingress_public_key == key && b.block_number == block_index

-- The tests on the number of rows.
abbrev pub only_row {ℓ} : {A : Type ℓ} → ℕ → List A → Result Error (Option A)
only_row block_index [] = ok none
only_row block_index (a ∷ []) = ok (some a)
only_row block_index (a ∷ a' ∷ rest) = err (ingested_block_schema_violation block_index)

module _ (w : Wire (List ETxOutRecord)) where
  unfoldable pub new_block_row : ℕ → ℕ → PublicKey → Block → ℕ → Bytes → IngestedBlock
  new_block_row id ingest_invocation_id key block block_signature_timestamp bytes = record {
    id = id;
    ingest_invocation_id = ingest_invocation_id;
    ingress_public_key = key;
    block_number = block.index;
    cumulative_txo_count = block.cumulative_txo_count;
    block_signature_timestamp = block_signature_timestamp;
    proto_ingested_block_data = bytes;
  }

  -- The closure that runs in the transaction.
  unfoldable pub add_block_transaction :
      ℕ → ℕ → ℕ → Block → ℕ → List ETxOutRecord → Db → Result Error Db
  add_block_transaction now id ingest_invocation_id block block_signature_timestamp txs db = do
    key ← ingress_key_of (filter (is_invocation ingest_invocation_id) db.ingest_invocations)
    bytes ← written (w.encode txs)
    db1 ←
        insert_ingested_block
          (new_block_row id ingest_invocation_id key block block_signature_timestamp bytes) db
    ok (update_last_active_at_impl now ingest_invocation_id db1)

  unfoldable pub add_block_data :
      ℕ → ℕ → ℕ → Block → ℕ → List ETxOutRecord → Db → Result Error (AddBlockDataStatus × Db)
  add_block_data now id ingest_invocation_id block block_signature_timestamp txs db =
      add_status db
        (add_block_transaction now id ingest_invocation_id block block_signature_timestamp txs db)

  unfoldable pub index_records : List ETxOutRecord → Map Bytes Bytes → Map Bytes Bytes
  index_records [] m = m
  index_records (r ∷ rs) m = index_records rs (insert m r.search_key r.payload)

  unfoldable pub index_blocks :
      List IngestedBlock → Map Bytes Bytes → Result Error (Map Bytes Bytes)
  index_blocks [] m = ok m
  index_blocks (b ∷ bs) m = elim (w.decode b.proto_ingested_block_data) [
    | none ↦ err decode
    | some records ↦ index_blocks bs (index_records records m)
  ]

  abbrev pub search_result : Bytes → Option Bytes → TxOutSearchResult
  search_result search_key (some payload) = record {
    search_key = search_key;
    result_code = to_u32 TxOutSearchResultCode.found;
    ciphertext = payload;
  }
  search_result search_key none = record {
    search_key = search_key;
    result_code = to_u32 TxOutSearchResultCode.not_found;
    ciphertext = [];
  }

  unfoldable pub get_tx_outs : ℕ → List Bytes → Db → Result Error (List TxOutSearchResult)
  get_tx_outs start_block search_keys db = do
    m ←
        index_blocks (filter (λ b. not (bigint_lt b.block_number start_block)) db.ingested_blocks)
          []
    ok (map (λ search_key. search_result search_key (get m search_key)) search_keys)

  abbrev pub records_of : Option IngestedBlock → Result Error (Option (List ETxOutRecord))
  records_of none = ok none
  records_of (some b) = do records ← read (w.decode b.proto_ingested_block_data); ok (some records)

  unfoldable pub get_tx_outs_by_block_and_key :
      PublicKey → ℕ → Db → Result Error (Option (List ETxOutRecord))
  get_tx_outs_by_block_and_key ingress_key block_index db = do
    row ←
        only_row block_index (filter (at_key_and_block ingress_key block_index) db.ingested_blocks)
    records_of row

unfoldable pub get_invocation_id_by_block_and_key : PublicKey → ℕ → Db → Result Error (Option ℕ)
get_invocation_id_by_block_and_key ingress_key block_index db = only_row block_index (
    map (λ b. b.ingest_invocation_id)
      (filter (at_key_and_block ingress_key block_index) db.ingested_blocks))

unfoldable pub all_equal : ℕ → List ℕ → Bool
all_equal n [] = true
all_equal n (m ∷ ms) = m == n && all_equal n ms

abbrev pub common_count : ℕ → List ℕ → Result Error (Option ℕ)
common_count block_index [] = ok none
common_count block_index (n ∷ ns) =
    if all_equal n (n ∷ ns) then ok (some n) else err (ingested_block_schema_violation block_index)

unfoldable pub get_cumulative_txo_count_for_block : ℕ → Db → Result Error (Option ℕ)
get_cumulative_txo_count_for_block block_index db = common_count block_index (
    map (λ b. b.cumulative_txo_count)
      (filter (λ b. b.block_number == block_index) db.ingested_blocks))

abbrev pub head {ℓ} : {A : Type ℓ} → List A → Option A
head [] = none
head (a ∷ rest) = some a

unfoldable pub get_block_signature_timestamp_for_block : ℕ → Db → Option ℕ
get_block_signature_timestamp_for_block block_index db = head (
    map (λ b. b.block_signature_timestamp)
      (filter (λ b. b.block_number == block_index) db.ingested_blocks))

unfoldable pub get_highest_known_block_index : Db → Option ℕ
get_highest_known_block_index db = max_of (λ b. b.block_number) db.ingested_blocks

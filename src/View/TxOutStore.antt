-- ===== src/View/TxOutStore.antt =====
-- fog/view/enclave/impl/src/e_tx_out_store.rs: ciphertexts under search keys. A value in the oblivious
-- map is 240 bytes: a size byte, the ciphertext and zeroes.
pub mod Records
use fog.Prelude.{ℕ, ◌-◌, Option, List, [], ◌∷◌, ◌++◌, ltb, ◌==◌, if◌then◌else◌, not}
use fog.Prelude.Bytes.{Bytes}
use fog.Prelude.Lists.{length, take, replicate}
use fog.Prelude.Result.{Result, ok, err}
use fog.Oblivious.{ObliviousMap, Code, found, not_found, overflow, invalid_key}
use fog.View.SearchResult.{TxOutSearchResult, TxOutSearchResultCode, to_u32}

abbrev pub key_size : ℕ
key_size = 16

abbrev pub value_size : ℕ
value_size = 240

pub data AddRecordsError : Type 0 where
  key_wrong_size value_too_large value_wrong_size key_rejected : AddRecordsError
  map_overflow : ℕ → ℕ → AddRecordsError

-- The buffer of a ciphertext. The cast to `u8` changes nothing, since the size is below 240.
unfoldable pub encode : Bytes → Bytes
encode ciphertext =
    let size_byte = value_size - 1 - length ciphertext in
    size_byte ∷ (ciphertext ++ replicate size_byte 0)

-- `value[1..data_end]`, after the resizing that makes room for it
abbrev pub decode : Bytes → Bytes
decode [] = []
decode (size_byte ∷ rest) = take (value_size - 1 - size_byte) rest

-- the three conditional moves
abbrev pub result_code : Code → TxOutSearchResultCode
result_code found = TxOutSearchResultCode.found
result_code not_found = TxOutSearchResultCode.not_found
result_code invalid_key = TxOutSearchResultCode.bad_search_key
result_code overflow = TxOutSearchResultCode.internal_error

module _ (o : ObliviousMap) where
  pub record ETxOutStore : Type 0 where
    pub omap : o.Map
    pub last_ciphertext_size_byte : ℕ

  unfoldable pub new : ℕ → ETxOutStore
  new desired_capacity = record { omap = o.create desired_capacity; last_ciphertext_size_byte = 0 }

  abbrev pub add_result : o.Map → Code → Result AddRecordsError (Unit {0})
  add_result m invalid_key = err key_rejected
  add_result m overflow = err (map_overflow (o.len m) (o.capacity m))
  add_result m found = ok tt
  add_result m not_found = ok tt

  -- The write after the checks. The size byte is kept before the map is written.
  unfoldable pub write_record :
      ETxOutStore → Bytes → Bytes → Result AddRecordsError (Unit {0}) × ETxOutStore
  write_record s search_key ciphertext =
      let (code, m) = o.vartime_write s.omap search_key (encode ciphertext) in
      (
        add_result m code,
        record { omap = m; last_ciphertext_size_byte = value_size - 1 - length ciphertext },
      )

  -- 240 less 256, saturating, is 0.
  unfoldable pub add_record :
      ETxOutStore → Bytes → Bytes → Result AddRecordsError (Unit {0}) × ETxOutStore
  add_record s search_key ciphertext =
      if not (length search_key == key_size)
      then (err key_wrong_size, s)
      else if ltb (value_size - 1) (length ciphertext)
      then (err value_too_large, s)
      else if ltb (length ciphertext) (value_size - 256)
      then (err value_wrong_size, s)
      else write_record s search_key ciphertext

  unfoldable pub find_record : ETxOutStore → Bytes → TxOutSearchResult
  find_record s search_key =
      let size_byte = s.last_ciphertext_size_byte in
      if not (length search_key == key_size)
      then record {
        search_key = search_key;
        result_code = to_u32 TxOutSearchResultCode.bad_search_key;
        ciphertext = replicate (value_size - 1 - size_byte) 0;
      }
      else (let (code, value) =
            o.read s.omap search_key (size_byte ∷ replicate (value_size - 1) 0) in
          record {
            search_key = search_key;
            result_code = to_u32 (result_code code);
            ciphertext = decode value;
          })

-- ===== src/Examples/Records.antt =====
-- Runs of e_tx_out_store.rs over the map in a list.
use fog.Prelude.{◌≡◌, refl, [], ◌∷◌, arith}
use fog.Prelude.Bytes.{Bytes}
use fog.Prelude.Lists.{replicate}
use fog.Prelude.Map.{get, insert}
use fog.View.SearchResult.{TxOutSearchResultCode, to_u32}
use fog.View.TxOutStore.{ETxOutStore, add_record, find_record, write_record}
use fog.View.TxOutStore.Records.{AddOutcome, find_record-add_record, add_record-AddOutcome}
use fog.Examples.Models.{list_map, list_map_laws}

abbrev key_a : Bytes
key_a = 1 ∷ replicate 15 0

abbrev key_b : Bytes
key_b = 2 ∷ replicate 15 0

abbrev empty_store : ETxOutStore list_map
empty_store = record { omap = []; last_ciphertext_size_byte = 0 }

find_record-add_record_example :
    find_record list_map (add_record list_map empty_store key_a (7 ∷ 8 ∷ [])).1 key_a ≡ record {
      search_key = key_a;
      result_code = to_u32 TxOutSearchResultCode.found;
      ciphertext = 7 ∷ 8 ∷ [];
    }
unfolding add_record write_record get
find_record-add_record_example =
    (find_record-add_record list_map list_map_laws empty_store key_a (7 ∷ 8 ∷ []) refl (λ e. cc)
      (omega arith) refl).0

-- A miss answers with as many zeroes as the last ciphertext had bytes.
miss_test :
    (find_record list_map (add_record list_map empty_store key_a (7 ∷ 8 ∷ [])).1 key_b).ciphertext
    ≡ 0 ∷ 0 ∷ []
unfolding find_record add_record write_record get insert
miss_test = refl

add_record-AddOutcome_example :
    AddOutcome list_map list_map_laws empty_store key_b []
      (add_record list_map empty_store key_b [])
add_record-AddOutcome_example = add_record-AddOutcome list_map list_map_laws empty_store key_b []

-- ===== src/Examples/Recovering.antt =====
-- A run of `ingest_tx_out_search_results`: two results for a generator, one that nobody asked for,
-- and one with an unknown code. The crypto box takes the first byte for the success of the check.
use fog.Prelude.{ℕ, ◌≡◌, refl, Bool, Option, none, some, List, [], ◌∷◌, ◌==◌}
use fog.Prelude.Bytes.{Bytes, bytes_eq, to_le_bytes}
use fog.Prelude.Map.{get, insert, remove}
use fog.Prelude.Result.{Result, ok, err}
use fog.KexRng.Core.{prf}
use fog.KexRng.Buffered.{VersionedKexRng, v0, advance, versioned_advance}
use fog.View.SearchResult.{TxOutSearchResult, try_from_u32}
use fog.View.UserRngSet.{
  UserRngSet, Decryption, RecoveryError, decrypt_tx_out_result, drain, drain_all, sort_results,
  old_maids, ingest_tx_out_search_results, mac_check_failed, search_key_not_found,
  unexpected_tx_out_search_result_code,
}
use fog.View.UserRngSet.Recovery.{Ingested, ingest_tx_out_search_results-Ingested}
use fog.Examples.Models.{core}

abbrev open_box : Bytes → Result ℕ (Bool × Bytes)
open_box [] = err 0
open_box (b ∷ rest) = ok (b == 1, rest)

abbrev read_record : Bytes → Option ℕ
read_record [] = none
read_record (b ∷ rest) = some b

abbrev decryption : Decryption ℕ ℕ
decryption = record { decrypt_in_place = open_box; decode = read_record }

abbrev alice : Bytes
alice = 15 ∷ []

abbrev rng : VersionedKexRng
rng = v0 (record { secret = alice; counter = 0; buffer = core.prf alice 0 })

abbrev key_set : UserRngSet
key_set = record {
  rngs = (9 ∷ [], rng) ∷ [];
  highest_processed_block_count = 4;
  next_start_from_user_event_id = 1;
}

abbrev results : List TxOutSearchResult
results =
    record { search_key = core.prf alice 1; result_code = 1; ciphertext = 0 ∷ 42 ∷ [] }
    ∷ record { search_key = 5 ∷ []; result_code = 1; ciphertext = 1 ∷ 43 ∷ [] }
    ∷ record { search_key = core.prf alice 0; result_code = 1; ciphertext = 1 ∷ 44 ∷ [] }
    ∷ record { search_key = core.prf alice 2; result_code = 2; ciphertext = [] }
    ∷ record { search_key = 6 ∷ []; result_code = 77; ciphertext = [] }
    ∷ []

ingest_tx_out_search_results_test :
    ingest_tx_out_search_results ℕ ℕ core decryption results key_set
    ≡ some (
      (
        44 ∷ [],
        unexpected_tx_out_search_result_code 77 (6 ∷ [])
            ∷ mac_check_failed
            ∷ search_key_not_found (5 ∷ [])
            ∷ [],
      ),
      record key_set {
        rngs =
            (9 ∷ [], v0 (record { secret = alice; counter = 2; buffer = core.prf alice 2 })) ∷ [];
      },
    )
unfolding ingest_tx_out_search_results drain_all drain sort_results old_maids decrypt_tx_out_result
    try_from_u32 versioned_advance advance get insert remove prf to_le_bytes
ingest_tx_out_search_results_test = refl

ingest_tx_out_search_results-Ingested_example :
    (successes : List ℕ) × (failures : List (RecoveryError ℕ ℕ)) × (s' : UserRngSet)
    × (ingest_tx_out_search_results ℕ ℕ core decryption results key_set
        ≡ some ((successes, failures), s'))
    × Ingested core decryption results key_set successes failures s'
ingest_tx_out_search_results-Ingested_example =
    ingest_tx_out_search_results-Ingested core decryption results key_set

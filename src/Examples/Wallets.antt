-- ===== src/Examples/Wallets.antt =====
-- Runs of fog/sample-paykit/src/cached_tx_data.
use fog.Prelude.{
  ℕ, ◌%◌, ◌≡◌, refl, ◌==◌, if◌then◌else◌, min, max, Option, none, some, List, [], ◌∷◌, arith,
}
use fog.Prelude.Words.{u64_mod}
use fog.Prelude.Map.{nat_eq}
use fog.Prelude.Queries.{filter}
use fog.Prelude.Result.{Result, ok, Holds}
use fog.View.Query.{TxOutRecord}
use fog.View.UserRngSet.{UserRngSet}
use fog.Paykit.InputSelection.{input_selection_heuristic}
use fog.Paykit.InputSelection.Optimal.{IsSelection, input_selection_heuristic-IsSelection}
use fog.Paykit.KeyImages.{KeyImageResult, CheckKeyImagesResponse, status}
use fog.Paykit.CachedTxData.{
  CachedTxData, Scan, new, take_txos, consume_new_txo_records, insert_ordered, filter_some,
  sum_values, get_balance, get_num_blocks, values, poll_fog_for_key_images,
}
use fog.Paykit.CachedTxData.Ledger.{counts_at, total}
use fog.Paykit.CachedTxData.Reached.{
  Reached, initially, polled_txos, Reached-get_balance, Reached-poll,
}
use fog.Paykit.CachedTxData.Answers.{IsHonest}

input_selection_heuristic-IsSelection_example :
    IsSelection
      (10 ∷ 20 ∷ 5 ∷ 40 ∷ [])
      50
      (min 2 16)
      (max (min 2 16) 3)
      (input_selection_heuristic 16 (10 ∷ 20 ∷ 5 ∷ 40 ∷ []) 50 2)
input_selection_heuristic-IsSelection_example =
    input_selection_heuristic-IsSelection 16 (10 ∷ 20 ∷ 5 ∷ 40 ∷ []) 50 2 (omega arith)
      (omega arith)

abbrev record_at : ℕ → ℕ → TxOutRecord
record_at index block = record {
  tx_out_amount_commitment_data = [];
  tx_out_amount_masked_value = 100;
  tx_out_target_key_data = [];
  tx_out_public_key_data = [];
  tx_out_global_index = index;
  block_index = block;
  timestamp = 0;
  tx_out_amount_commitment_data_crc32 = 0;
}

-- An output and its key image are the global index.
abbrev scan : Scan ℕ ℕ ℕ
scan r = ok (r.tx_out_global_index, r.tx_out_amount_masked_value, r.tx_out_global_index)

-- The second output is spent in block 7.
abbrev spent : ℕ → Option ℕ
spent key_image = if key_image == 2 then some 7 else none

spent-seven : (key_image b : ℕ) → spent key_image ≡ some b → b ≡ 7
spent-seven key_image b e = ground arith

abbrev records : List TxOutRecord
records = record_at 1 3 ∷ record_at 2 4 ∷ []

abbrev six_blocks : UserRngSet
six_blocks = record {
  rngs = [];
  highest_processed_block_count = 6;
  next_start_from_user_event_id = 0;
}

abbrev told : CachedTxData ℕ ℕ
told = take_txos ℕ ℕ scan records six_blocks (new ℕ ℕ)

Reached-told : Reached ℕ spent scan told
Reached-told =
    polled_txos records six_blocks
      (
        λ tx_out value key_image e b f. omega (arith, spent-seven key_image b f),
        (λ tx_out value key_image e b f. omega (arith, spent-seven key_image b f), tt),
      )
      initially

Reached-get_balance_example :
    get_balance ℕ ℕ told
    ≡ some (
      total (filter (counts_at spent (get_num_blocks ℕ ℕ told)) (values told.owned_tx_outs))
          % u64_mod,
      get_num_blocks ℕ ℕ told,
    )
Reached-get_balance_example = Reached-get_balance ℕ spent scan told Reached-told

-- Both are in the first four blocks, and none is known to be spent.
get_balance_test : get_balance ℕ ℕ told ≡ some (100, 4)
unfolding get_balance get_num_blocks take_txos new consume_new_txo_records insert_ordered
    filter_some sum_values
get_balance_test = refl

abbrev not_spent_result : ℕ → KeyImageResult ℕ
not_spent_result key_image = record {
  key_image = key_image;
  spent_at = 0;
  timestamp = 0;
  timestamp_result_code = 0;
  key_image_result_code = 2;
}

abbrev answer : CheckKeyImagesResponse ℕ
answer = record {
  num_blocks = 6;
  global_txo_count = 10;
  results = not_spent_result 1 ∷ not_spent_result 2 ∷ [];
}

answer-IsHonest : IsHonest spent answer
unfolding status
answer-IsHonest = (
  (
    (λ b e. cc, λ e b f. omega (arith, spent-seven 1 b f)),
    ((λ b e. cc, λ e b f. omega (arith, spent-seven 2 b f)), tt),
  ),
  ((λ e. omega (arith, e), tt), (tt, tt)),
)

Reached-poll_example :
    (r : Result ℕ (CachedTxData ℕ ℕ)) × (poll_fog_for_key_images ℕ ℕ {LedgerError = ℕ}
        (λ images. ok answer)
        told
      ≡ some r)
    × Holds (Reached ℕ spent scan) r
Reached-poll_example =
    Reached-poll ℕ spent scan told (λ images. ok answer) answer-IsHonest Reached-told

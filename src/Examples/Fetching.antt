-- ===== src/Examples/Fetching.antt =====
-- A run of db_fetcher.rs: the other thread takes the first block before its records are counted.
use fog.Prelude.{ℕ, ◌≢◌, refl, false, some, [], ◌∷◌, ◌++◌}
use fog.Prelude.Map.{get, insert, nat_eq}
use fog.Prelude.Result.{ok}
use fog.Recovery.IngressKey.{PublicKey, IngressPublicKeyRecord, covers_block_index}
use fog.Recovery.Sql.Blocks.{ETxOutRecord}
use fog.View.Tracker.{new, next_blocks, next_blocks_from, block_processed}
use fog.View.DbFetcher.{
  FetchedRecords, in_loop, panicked, Threads, Reach, initially, next, start, load_ingress_keys,
  begin_round, load_block, begin_load_block_data, count_queued, end_load_block_data,
  take_fetched_records, reset_num_queued_records, round_begins, load_begins, block_loads,
  queue_has_room, load_ends, records_are_taken, number_is_reset,
}
use fog.View.DbFetcher.Order.{blocks_of, IsRun, Reach-IsRun}

abbrev key : IngressPublicKeyRecord
key = record {
  key = 1;
  status = record { start_block = 10; pubkey_expiry = 15; retired = false; lost = false };
  last_scanned_block = some 12;
}

abbrev tx_out : ETxOutRecord
tx_out = record { search_key = 1 ∷ []; payload = 2 ∷ [] }

abbrev block_10 : FetchedRecords
block_10 = record { ingress_key = 1; block_index = 10; records = tx_out ∷ [] }

-- Block 10 was taken, the thread asks for block 11, and the number of queued records is zero.
abbrev second_load : Threads
second_load = record {
  fetcher = record {
    stop_requested = false;
    shared_state = record { ingress_keys = key ∷ []; fetched_records = [] };
    block_tracker = record {
      processed_block_per_ingress_key = (1, 10) ∷ [];
      last_highest_processed_block_count = 0;
    };
    num_queued_records = 0;
    position = in_loop ((1, 11) ∷ []) false;
  };
  taken = block_10 ∷ [];
  in_reset = false;
}

history : Reach ℕ second_load
unfolding start new load_ingress_keys begin_round load_block begin_load_block_data count_queued
    end_load_block_data take_fetched_records reset_num_queued_records next_blocks next_blocks_from
    block_processed get insert covers_block_index
history =
    next
      (next
        (next
          (next
            (next
              (next (next (next initially (round_begins (ok (key ∷ [])) refl)) (load_begins refl))
                (block_loads (ok (some (tx_out ∷ []))) 1 10 refl))
              (records_are_taken refl))
            (queue_has_room 1 refl refl))
          (number_is_reset refl))
        (load_ends refl))
      (load_begins refl)

Reach-IsRun_example :
    ((k : PublicKey)
      → IsRun
          (blocks_of k (second_load.taken ++ second_load.fetcher.shared_state.fetched_records))
          (get second_load.fetcher.block_tracker.processed_block_per_ingress_key k))
    × (second_load.fetcher.position ≢ panicked)
Reach-IsRun_example = Reach-IsRun ℕ second_load history

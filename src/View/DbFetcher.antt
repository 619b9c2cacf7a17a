-- ===== src/View/DbFetcher.antt =====
-- fog/view/server/src/db_fetcher.rs: the thread that loads blocks from the recovery database, and the
-- other thread that takes them. What the database answers is an argument of each read; the log lines,
-- the metrics and the sleep are not modelled.
pub mod Due
pub mod Order
use fog.Prelude.{
  ℕ, ◌*◌, ◌/◌, ◌≡◌, Bool, true, false, Option, none, some, List, [], ◌∷◌, ◌++◌, leb, not, ◌&&◌,
  if◌then◌else◌,
}
use fog.Prelude.Words.{add64}
use fog.Prelude.Lists.{length}
use fog.Prelude.Map.{Map}
use fog.Prelude.Result.{Result, ok, err}
use fog.Recovery.IngressKey.{PublicKey, IngressPublicKeyRecord}
use fog.Recovery.Sql.Blocks.{ETxOutRecord}
use fog.View.Tracker.{BlockTracker, new, next_blocks, block_processed}

abbrev pub max_queued_records : ℕ
max_queued_records = 128 * 1024 * 1024 / 256

pub record FetchedRecords : Type 0 where
  pub ingress_key : PublicKey
  pub block_index : ℕ
  pub records : List ETxOutRecord

pub record DbFetcherSharedState : Type 0 where
  pub ingress_keys : List IngressPublicKeyRecord
  pub fetched_records : List FetchedRecords

-- Where the thread stands: at the top of the outer loop; before `load_block_data`; in its loop, with
-- the blocks that are left and `has_more_work`; blocked on the queue with a number of records that it
-- has pushed; ended by the stop request; ended by a panic.
pub data Position : Type 0 where
  at_top : Position
  at_load : Position
  in_loop : Map PublicKey ℕ → Bool → Position
  blocked : ℕ → Map PublicKey ℕ → Bool → Position
  stopped : Position
  panicked : Position

-- The thread with what it shares.
pub record DbFetcherThread : Type 0 where
  pub stop_requested : Bool
  pub shared_state : DbFetcherSharedState
  pub block_tracker : BlockTracker
  pub num_queued_records : ℕ
  pub position : Position

unfoldable pub start : DbFetcherThread
start = record {
  stop_requested = false;
  shared_state = record { ingress_keys = []; fetched_records = [] };
  block_tracker = new;
  num_queued_records = 0;
  position = at_top;
}

abbrev pub pushed : FetchedRecords → DbFetcherSharedState → DbFetcherSharedState
pushed fetched s = record s { fetched_records = s.fetched_records ++ (fetched ∷ []) }

-- A block that was found: it is marked as processed, pushed, and the thread waits for room.
abbrev pub push_block :
    Option BlockTracker → FetchedRecords → Map PublicKey ℕ → DbFetcherThread → DbFetcherThread
push_block none fetched rest t = record t { position = panicked }
push_block (some tracker) fetched rest t = record t {
  block_tracker = tracker;
  shared_state = pushed fetched t.shared_state;
  position = blocked (length fetched.records) rest true;
}

module _ {E : Type 0} where
  -- With the answer of `get_ingress_key_records(0)`.
  unfoldable pub load_ingress_keys :
      Result E (List IngressPublicKeyRecord) → DbFetcherSharedState → DbFetcherSharedState
  load_ingress_keys (ok records) s = record s { ingress_keys = records }
  load_ingress_keys (err e) s = s

  -- The outer loop up to `load_block_data`.
  unfoldable pub begin_round :
      Result E (List IngressPublicKeyRecord) → DbFetcherThread → DbFetcherThread
  begin_round answer t =
      if t.stop_requested
      then record t { position = stopped }
      else record t { shared_state = load_ingress_keys answer t.shared_state; position = at_load }

  -- One round of the loop, with the answer of `get_tx_outs_by_block_and_key`.
  unfoldable pub load_block :
      Result E (Option (List ETxOutRecord))
      → PublicKey
      → ℕ
      → Map PublicKey ℕ
      → Bool
      → DbFetcherThread
      → DbFetcherThread
  load_block (ok (some tx_outs)) ingress_key block_index rest has_more_work t =
      push_block (block_processed t.block_tracker ingress_key block_index)
        (record { ingress_key = ingress_key; block_index = block_index; records = tx_outs }) rest t
  load_block (ok none) ingress_key block_index rest has_more_work t = record t {
    position = in_loop rest has_more_work;
  }
  load_block (err e) ingress_key block_index rest has_more_work t = record t {
    position = in_loop rest has_more_work;
  }

-- `load_block_data` up to its loop.
unfoldable pub begin_load_block_data : DbFetcherThread → DbFetcherThread
begin_load_block_data t = record t {
  position = in_loop (next_blocks t.block_tracker t.shared_state.ingress_keys) false;
}

-- The wait on the condition variable.
abbrev pub has_room : ℕ → Bool
has_room num_queued_records = leb num_queued_records max_queued_records

unfoldable pub count_queued : ℕ → Map PublicKey ℕ → Bool → DbFetcherThread → DbFetcherThread
count_queued num_tx_outs rest has_more_work t = record t {
  num_queued_records = add64 t.num_queued_records num_tx_outs;
  position = in_loop rest has_more_work;
}

-- The end of `load_block_data`, and whether it is called again.
unfoldable pub end_load_block_data : Bool → DbFetcherThread → DbFetcherThread
end_load_block_data has_more_work t = record t {
  position = if has_more_work && not t.stop_requested then at_load else at_top;
}

-- `get_pending_fetched_records`: the records are taken under one lock, and the number is set to zero
-- under another.
unfoldable pub take_fetched_records : DbFetcherThread → List FetchedRecords × DbFetcherThread
take_fetched_records t =
    let s = t.shared_state in
    (s.fetched_records, record t { shared_state = record s { fetched_records = [] } })

unfoldable pub reset_num_queued_records : DbFetcherThread → DbFetcherThread
reset_num_queued_records t = record t { num_queued_records = 0 }

unfoldable pub stop : DbFetcherThread → DbFetcherThread
stop t = record t { stop_requested = true }

-- The two threads in every order. `taken` is what the other thread has taken, and `in_reset` whether
-- it has yet to set the number to zero.
pub record Threads : Type 0 where
  pub fetcher : DbFetcherThread
  pub taken : List FetchedRecords
  pub in_reset : Bool

pub data Step (E : Type 0) : Threads → Threads → Type 0 where
  round_begins :
      {w : Threads} (answer : Result E (List IngressPublicKeyRecord))
      → w.fetcher.position ≡ at_top
      → Step E w (record w { fetcher = begin_round answer w.fetcher })
  load_begins :
      {w : Threads}
      → w.fetcher.position ≡ at_load
      → Step E w (record w { fetcher = begin_load_block_data w.fetcher })
  block_loads :
      {w : Threads} {rest : Map PublicKey ℕ} {has_more_work : Bool}
      (answer : Result E (Option (List ETxOutRecord))) (ingress_key : PublicKey) (block_index : ℕ)
      → w.fetcher.position ≡ in_loop ((ingress_key, block_index) ∷ rest) has_more_work
      → Step E w (record w {
        fetcher = load_block answer ingress_key block_index rest has_more_work w.fetcher;
      })
  queue_has_room :
      {w : Threads} {rest : Map PublicKey ℕ} {has_more_work : Bool} (num_tx_outs : ℕ)
      → w.fetcher.position ≡ blocked num_tx_outs rest has_more_work
      → has_room w.fetcher.num_queued_records ≡ true
      → Step E w (record w { fetcher = count_queued num_tx_outs rest has_more_work w.fetcher })
  load_ends :
      {w : Threads} {has_more_work : Bool}
      → w.fetcher.position ≡ in_loop [] has_more_work
      → Step E w (record w { fetcher = end_load_block_data has_more_work w.fetcher })
  records_are_taken :
      {w : Threads}
      → w.in_reset ≡ false
      → Step E w (record {
        fetcher = (take_fetched_records w.fetcher).1;
        taken = w.taken ++ (take_fetched_records w.fetcher).0;
        in_reset = true;
      })
  number_is_reset :
      {w : Threads}
      → w.in_reset ≡ true
      → Step E w (record w { fetcher = reset_num_queued_records w.fetcher; in_reset = false })
  stop_is_requested : {w : Threads} → Step E w (record w { fetcher = stop w.fetcher })

pub data Reach (E : Type 0) : Threads → Type 0 where
  initially : Reach E (record { fetcher = start; taken = []; in_reset = false })
  next : {w w' : Threads} → Reach E w → Step E w w' → Reach E w'

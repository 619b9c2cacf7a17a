-- ===== src/Examples/Databases.antt =====
-- Runs of fog/sql_recovery_db/src/lib.rs on small tables.
use fog.Prelude.{
  ℕ, ◌+◌, ◌<◌, sym, eq_of_some, ◌↔◌, ◌≡◌, refl, true, false, Option, none, some, List, [], ◌∷◌,
  ◌++◌, ◌⊎◌, arith, ◌≢◌,
}
use fog.Prelude.Bytes.{Bytes}
use fog.Prelude.Words.{u64_mod}
use fog.Prelude.Lists.{length, take, drop, take-append, In}
use fog.Prelude.Result.{ok, err}
use fog.Prelude.Queries.{any, filter, update, max_of, sort_by, insert_by}
use fog.Recovery.BlockRange.{BlockRange, is_valid, contains, overlaps}
use fog.Recovery.BlockRange.Overlap.{overlaps-contains}
use fog.Recovery.IngressKey.{IngressPublicKeyStatus}
use fog.Recovery.Sql.Unambiguous.{Reach_unambiguous}
use fog.Recovery.Sql.Invocations.{
  decommission_ingest_invocation_impl, Fresh, new_ingest_invocation_op, update_last_active_at_impl,
}
use fog.Recovery.Sql.Wire.{Wire, WireLaws}
use fog.Recovery.Sql.Keys.{
  status_of, new_ingress_key, get_last_scanned_block_index, get_ingress_key_status,
}
use fog.Recovery.Sql.Blocks.{
  ETxOutRecord, Block, add_block_data, new_block_row, add_block_transaction,
  get_tx_outs_by_block_and_key, get_invocation_id_by_block_and_key,
}
use fog.Recovery.Sql.Events.{missing, max_id, collect, search_user_events, report_lost_ingress_key}
use fog.Recovery.Sql.Reports.{ReportData, set_report, is_report, publish, upsert_report, upsert_row}
use fog.KexRng.Core.{KexRngPubkey}
use fog.Recovery.Sql.Constraints.{ObeysConstraints, Reach-ObeysConstraints}
use fog.Recovery.Sql.History.{
  start, then_step, new_key, invocation, block_added, reported, lost_key, Reach,
}
use fog.Recovery.Sql.Lookups.{add_block_data-Found}
use fog.Recovery.Sql.Missed.{IsMissed, lost_db, range_event, report_lost_ingress_key-Missed}
use fog.Recovery.Sql.Expiry.{set_report-Retired, set_report-Raised}
use fog.Recovery.Sql.Paging.{search_user_events-Drained}
use fog.Recovery.Sql.Tables.{
  IngressKey, IngestInvocation, IngestedBlock, Report, Db, Error, decode, unique_violation,
  missing_blocks_event, block_conflict, insert_user_event, varchar, split_chars,
  decommission_ingest_invocation_event,
}

-- At most one record is encoded, its key after the key's length.
abbrev one_record : List ETxOutRecord → Option Bytes
one_record [] = some []
one_record (r ∷ []) = some (length r.search_key ∷ (r.search_key ++ r.payload))
one_record (r ∷ r' ∷ rs) = none

abbrev of_one_record : Bytes → Option (List ETxOutRecord)
of_one_record [] = some []
of_one_record (n ∷ rest) = some (record { search_key = take n rest; payload = drop n rest } ∷ [])

abbrev record_wire : Wire (List ETxOutRecord)
record_wire = record { encode = one_record; decode = of_one_record }

drop-append : (xs ys : Bytes) → drop (length xs) (xs ++ ys) ≡ ys
drop-append [] ys = refl
drop-append (x ∷ xs) ys = drop-append xs ys

decode-encode_one :
    (a : List ETxOutRecord) (bytes : Bytes)
    → one_record a ≡ some bytes
    → of_one_record bytes ≡ some a
decode-encode_one [] bytes h = rw (sym (eq_of_some h)) refl
decode-encode_one (r ∷ []) bytes h =
    rw (sym (eq_of_some h), take-append r.search_key r.payload, drop-append r.search_key r.payload)
      refl
decode-encode_one (r ∷ r' ∷ rs) bytes h = cc

record_wire_laws : WireLaws record_wire
record_wire_laws = record { decode-encode = decode-encode_one }

abbrev pub bytes_wire : Wire Bytes
bytes_wire = record { encode = λ b. some b; decode = λ b. some b }

abbrev key_row : IngressKey
key_row = record {
  ingress_public_key = 5;
  start_block = 10;
  pubkey_expiry = 20;
  retired = false;
  lost = false;
}

abbrev retired_row : IngressKey
retired_row = record {
  ingress_public_key = 6;
  start_block = 3;
  pubkey_expiry = 8;
  retired = true;
  lost = false;
}

abbrev invocation_row : IngestInvocation
invocation_row = record {
  id = 1;
  ingress_public_key = 5;
  egress_public_key = 9 ∷ [];
  last_active_at = 100;
  start_block = 10;
  decommissioned = false;
  rng_version = 0;
}

abbrev block_12 : IngestedBlock
block_12 = record {
  id = 1;
  ingest_invocation_id = 1;
  ingress_public_key = 5;
  block_number = 12;
  cumulative_txo_count = 30;
  block_signature_timestamp = 7;
  proto_ingested_block_data = [];
}

abbrev pub small_db : Db
small_db = record {
  ingress_keys = key_row ∷ retired_row ∷ [];
  ingest_invocations = invocation_row ∷ [];
  ingested_blocks = block_12 ∷ [];
  user_events =
      record { id = 4; event = range_event (record { start_block = 1; end_block = 3 }) } ∷ [];
  reports = [];
}

abbrev egress : ℕ → KexRngPubkey
egress n = record { public_key = n ∷ []; version = 0 }

abbrev ids : ℕ → Fresh
ids n = record { now = 100 + n; decommission_event_id = n; invocation_id = n; new_event_id = n + 1 }

abbrev tx : ETxOutRecord
tx = record { search_key = 1 ∷ 2 ∷ []; payload = 3 ∷ [] }

abbrev block_13 : Block
block_13 = record { index = 13; cumulative_txo_count = 31 }

abbrev row_13 : IngestedBlock
row_13 = new_block_row record_wire 2 1 5 block_13 8 (2 ∷ 1 ∷ 2 ∷ 3 ∷ [])

add_block_data-Found_example :
    ((any (block_conflict row_13) small_db.ingested_blocks ≡ true)
      × (add_block_data record_wire 101 2 1 block_13 8 (tx ∷ []) small_db
          ≡ ok (record { block_already_scanned_with_this_key = true }, small_db)))
    ⊎ ((any (block_conflict row_13) small_db.ingested_blocks ≡ false)
        × (db' : Db) × (add_block_data record_wire 101 2 1 block_13 8 (tx ∷ []) small_db
            ≡ ok (record { block_already_scanned_with_this_key = false }, db'))
        × (get_tx_outs_by_block_and_key record_wire 5 13 db' ≡ ok (some (tx ∷ [])))
        × (get_invocation_id_by_block_and_key 5 13 db' ≡ ok (some 1)))
unfolding any filter
add_block_data-Found_example =
    add_block_data-Found record_wire_laws 101 2 1 block_13 8 (tx ∷ []) small_db 5
      (2 ∷ 1 ∷ 2 ∷ 3 ∷ []) refl refl refl

small-bound : (n : ℕ) → get_last_scanned_block_index 5 small_db ≡ some n → n + 1 < u64_mod
unfolding get_last_scanned_block_index max_of filter
small-bound n h = omega (arith, eq_of_some h)

report_lost_ingress_key-Missed_example :
    (((b : ℕ) → ¬ IsMissed key_row (get_last_scanned_block_index 5 small_db) b)
      × (report_lost_ingress_key 5 5 small_db ≡ ok (lost_db 5 small_db)))
    ⊎ ((r : BlockRange) × (is_valid r ≡ true)
        × ((b : ℕ)
            → (contains r b ≡ true) ↔ IsMissed key_row (get_last_scanned_block_index 5 small_db) b)
        × (report_lost_ingress_key 5 5 small_db
            ≡ insert_user_event 5 (range_event r) (lost_db 5 small_db)))
unfolding filter
report_lost_ingress_key-Missed_example =
    report_lost_ingress_key-Missed 5 5 small_db key_row refl small-bound

abbrev new_report : ReportData bytes_wire
new_report = record { ingest_invocation_id = some 1; report = 4 ∷ 2 ∷ []; pubkey_expiry = 25 }

set_report-Retired_example :
    set_report bytes_wire 1 6 (8 ∷ []) new_report small_db ≡ ok (status_of retired_row, small_db)
unfolding filter
set_report-Retired_example =
    set_report-Retired bytes_wire 1 6 (8 ∷ []) new_report small_db retired_row refl (omega arith)
      (omega arith) refl

set_report-Raised_example :
    (db' : Db) × (set_report bytes_wire 1 5 (8 ∷ []) new_report small_db
      ≡ ok (record (status_of key_row) { pubkey_expiry = 25 }, db'))
    × (get_ingress_key_status 5 db' ≡ ok (some (record (status_of key_row) { pubkey_expiry = 25 })))
    × ((other : ℕ)
        → other ≢ 5
        → get_ingress_key_status other db' ≡ get_ingress_key_status other small_db)
    × (r : Report) × In r db'.reports
    × (is_report (8 ∷ []) r ≡ true)
    × (r.report ≡ 4 ∷ 2 ∷ [])
    × (r.ingress_public_key ≡ 5)
    × (r.pubkey_expiry ≡ 25)
unfolding filter any varchar split_chars
set_report-Raised_example =
    set_report-Raised bytes_wire 1 5 (8 ∷ []) new_report small_db key_row refl (omega arith)
      (omega arith) (4 ∷ 2 ∷ []) (8 ∷ []) refl refl refl refl

search_user_events-Drained_example : search_user_events 4 small_db ≡ ok ([], 4)
unfolding search_user_events filter collect sort_by insert_by max_id
search_user_events-Drained_example =
    search_user_events-Drained 0 small_db (missing (record { start_block = 1; end_block = 3 }) ∷ [])
      4 refl

-- Two lost keys with the same missed range: the second report fails, and its key is not marked lost.
same_range_test :
    report_lost_ingress_key 6 5 (record small_db {
      user_events =
          record { id = 4; event = range_event (record { start_block = 13; end_block = 20 }) } ∷ [];
    })
    ≡ err unique_violation
unfolding report_lost_ingress_key get_last_scanned_block_index max_of filter update any is_valid
    missing_blocks_event
same_range_test = refl

overlaps-contains_example :
    (overlaps
        (record { start_block = 1; end_block = 5 })
        (record { start_block = 4; end_block = 9 })
      ≡ true)
    ↔ ((b : ℕ) × (contains (record { start_block = 1; end_block = 5 }) b ≡ true)
        × (contains (record { start_block = 4; end_block = 9 }) b ≡ true))
unfolding is_valid
overlaps-contains_example =
    overlaps-contains (record { start_block = 1; end_block = 5 })
      (record { start_block = 4; end_block = 9 }) refl refl

-- Two keys, two invocations of the first, two blocks, a report, and the first key lost.
history : (db : Db) × Reach bytes_wire record_wire db
unfolding new_ingress_key new_ingest_invocation_op decommission_ingest_invocation_impl any update
    add_block_data add_block_transaction update_last_active_at_impl new_block_row set_report publish
    upsert_report upsert_row varchar split_chars report_lost_ingress_key
    get_last_scanned_block_index max_of filter is_valid missing_blocks_event
history = (
  _,
  then_step
      (then_step
        (then_step
          (then_step
            (then_step
              (then_step (then_step (then_step start (new_key 5 10)) (new_key 6 3))
                (invocation (ids 1) none 5 (egress 8) 10 1 refl))
              (invocation (ids 4) (some 1) 5 (egress 9) 11 4 refl))
            (block_added 110 1 4 (record { index = 13; cumulative_txo_count = 31 }) 8 [] _ refl))
          (block_added 111 2 4 (record { index = 14; cumulative_txo_count = 32 }) 9 (tx ∷ []) _
            refl))
        (reported 1 5 (8 ∷ [])
          (record { ingest_invocation_id = some 4; report = 4 ∷ 2 ∷ []; pubkey_expiry = 25 }) _
          refl))
      (lost_key 7 5 refl),
)

Reach-ObeysConstraints_example : ObeysConstraints history.0
Reach-ObeysConstraints_example = Reach-ObeysConstraints bytes_wire history.1

Reach_unambiguous_example :
    ((st : Option IngressPublicKeyStatus) × (get_ingress_key_status 5 history.0 ≡ ok st))
    × ((iid : Option ℕ) × (get_invocation_id_by_block_and_key 5 13 history.0 ≡ ok iid))
    × ((e : Error) → get_tx_outs_by_block_and_key record_wire 5 13 history.0 ≡ err e → e ≡ decode)
Reach_unambiguous_example = Reach_unambiguous bytes_wire 5 13 history.1

abbrev ended_db : Db
ended_db = record small_db {
  ingest_invocations = record invocation_row { decommissioned = true; last_active_at = 200 } ∷ [];
  user_events =
      record { id = 4; event = range_event (record { start_block = 1; end_block = 3 }) }
      ∷ record { id = 9; event = decommission_ingest_invocation_event 1 }
      ∷ [];
}

-- Two characters, the first of three bytes, and a space that is cut off.
varchar_test :
    (varchar 2 (226 ∷ 130 ∷ 172 ∷ 65 ∷ 32 ∷ []) ≡ some (226 ∷ 130 ∷ 172 ∷ 65 ∷ []))
    × (varchar 2 (226 ∷ 130 ∷ 172 ∷ 65 ∷ 66 ∷ []) ≡ none)
unfolding varchar split_chars any
varchar_test = (refl, refl)

-- ===== src/Recovery/Sql/Lookups.antt =====
-- fog/sql_recovery_db/src/lib.rs: what the lookups by ingress key and block find after `add_block_data`.
use fog.Prelude.{
  ℕ, true, false, List, [], ◌∷◌, ◌≡◌, refl, ◌++◌, Bool-cases, ◌⊎◌, inl, inr, some, arith,
}
use fog.Prelude.Bytes.{Bytes}
use fog.Prelude.Result.{ok}
use fog.Prelude.Queries.{any, filter}
use fog.Prelude.Rows.{filter-empty, filter-append}
use fog.Recovery.IngressKey.{PublicKey}
use fog.Recovery.Sql.Wire.{Wire, WireLaws}
use fog.Recovery.Sql.Invocations.{is_invocation, update_last_active_at_impl}
use fog.Recovery.Sql.Blocks.{
  ETxOutRecord, Block, at_key_and_block, ingress_key_of, new_block_row, add_block_transaction,
  add_block_data, get_tx_outs_by_block_and_key, get_invocation_id_by_block_and_key,
}
use fog.Recovery.Sql.Tables.{IngestInvocation, IngestedBlock, Db, refers, has_key, block_conflict}

ingress_key_of-refers :
    (iid : ℕ) (rows : List IngestInvocation) (key : PublicKey)
    → ingress_key_of (filter (is_invocation iid) rows) ≡ ok key
    → refers (some iid) rows ≡ true
unfolding filter any
ingress_key_of-refers iid [] key h = cc
ingress_key_of-refers iid (r ∷ rows) key h = ground (arith, ingress_key_of-refers iid rows key)

-- Without a conflict there is no row with that key and block.
block_conflict-at_key :
    (new : IngestedBlock) (rows : List IngestedBlock)
    → any (block_conflict new) rows ≡ false
    → any (at_key_and_block new.ingress_public_key new.block_number) rows ≡ false
unfolding any
block_conflict-at_key new [] h = refl
block_conflict-at_key new (r ∷ rows) h = ground (arith, block_conflict-at_key new rows)

at_key_and_block_self :
    (new : IngestedBlock) → at_key_and_block new.ingress_public_key new.block_number new ≡ true
at_key_and_block_self new = ground arith

filter-new :
    (new : IngestedBlock) (rows : List IngestedBlock)
    → any (block_conflict new) rows ≡ false
    → filter (at_key_and_block new.ingress_public_key new.block_number) (rows ++ (new ∷ []))
      ≡ new ∷ []
unfolding filter
filter-new new rows h =
    rw
      (
        filter-append (at_key_and_block new.ingress_public_key new.block_number) rows (new ∷ []),
        filter-empty (at_key_and_block new.ingress_public_key new.block_number) rows
            (block_conflict-at_key new rows h),
        at_key_and_block_self new,
      )
      refl

module _ {w : Wire (List ETxOutRecord)} (laws : WireLaws w) (now id iid : ℕ) (block : Block)
    (timestamp : ℕ) (txs : List ETxOutRecord) (db : Db) (key : PublicKey) (bytes : Bytes)
    (known : ingress_key_of (filter (is_invocation iid) db.ingest_invocations) ≡ ok key)
    (has : has_key key db.ingress_keys ≡ true) (fits : w.encode txs ≡ some bytes) where
  -- For an invocation that the database knows, whose ingress key it holds, and records that can be
  -- encoded: when the block was already recorded for the ingress key or the invocation, the operation
  -- says so and changes nothing; otherwise it says that the block is new, and from then on the
  -- records and the invocation are what the lookups by that key and block find.
  pub add_block_data-Found :
      ((any (block_conflict (new_block_row w id iid key block timestamp bytes)) db.ingested_blocks
          ≡ true)
        × (add_block_data w now id iid block timestamp txs db
            ≡ ok (record { block_already_scanned_with_this_key = true }, db)))
      ⊎ ((any (block_conflict (new_block_row w id iid key block timestamp bytes)) db.ingested_blocks
            ≡ false)
          × (db' : Db) × (add_block_data w now id iid block timestamp txs db
              ≡ ok (record { block_already_scanned_with_this_key = false }, db'))
          × (get_tx_outs_by_block_and_key w key block.index db' ≡ ok (some txs))
          × (get_invocation_id_by_block_and_key key block.index db' ≡ ok (some iid)))
  unfolding add_block_data add_block_transaction new_block_row update_last_active_at_impl
      get_tx_outs_by_block_and_key get_invocation_id_by_block_and_key
  add_block_data-Found =
      elim (Bool-cases (
        any (block_conflict (new_block_row w id iid key block timestamp bytes))
          db.ingested_blocks)) [
            | inl e ↦ inl (e, rw (known, fits, e) refl)
            | inr e ↦ inr (
              e,
              update_last_active_at_impl now iid (record db {
                ingested_blocks =
                    db.ingested_blocks ++ (new_block_row w id iid key block timestamp bytes ∷ []);
              }),
              rw (known, fits, e, ingress_key_of-refers iid db.ingest_invocations key known, has)
                  refl,
              rw
                  (
                    filter-new (new_block_row w id iid key block timestamp bytes) db.ingested_blocks
                        e,
                    laws.decode-encode txs bytes fits,
                  )
                  refl,
              rw
                  (filter-new (new_block_row w id iid key block timestamp bytes) db.ingested_blocks
                    e)
                  refl,
            )
          ]

-- ===== src/Recovery/Sql/Invocations.antt =====
-- fog/sql_recovery_db/src/lib.rs: the operations on ingest invocations. `now` is the time that the
-- database gives.
use fog.Prelude.{ℕ, Bool, true, false, Option, none, some, List, map, ◌==◌}
use fog.Prelude.Result.{Result, ok, ◌>>=◌}
use fog.Prelude.Queries.{filter, update, max_of, sort_by}
use fog.KexRng.Core.{KexRngPubkey}
use fog.Recovery.IngressKey.{PublicKey, IngestableRange}
use fog.Recovery.Sql.Tables.{
  IngestInvocation, IngestedBlock, Db, Error, new_ingest_invocation_event,
  decommission_ingest_invocation_event, insert_ingest_invocation, insert_user_event,
}

abbrev pub is_invocation : ℕ → IngestInvocation → Bool
is_invocation id r = r.id == id

abbrev pub end_invocation : ℕ → IngestInvocation → IngestInvocation
end_invocation now r = record r { decommissioned = true; last_active_at = now }

unfoldable pub decommission_ingest_invocation_impl : ℕ → ℕ → ℕ → Db → Result Error Db
decommission_ingest_invocation_impl now event_id ingest_invocation_id db =
    insert_user_event event_id (decommission_ingest_invocation_event ingest_invocation_id)
      (record db {
        ingest_invocations =
            update (is_invocation ingest_invocation_id) (end_invocation now) db.ingest_invocations;
      })

abbrev pub touch : ℕ → IngestInvocation → IngestInvocation
touch now r = record r { last_active_at = now }

unfoldable pub update_last_active_at_impl : ℕ → ℕ → Db → Db
update_last_active_at_impl now ingest_invocation_id db = record db {
  ingest_invocations =
      update (is_invocation ingest_invocation_id) (touch now) db.ingest_invocations;
}

unfoldable pub update_last_active_at : ℕ → ℕ → Db → Db
update_last_active_at now ingest_invocation_id db =
    update_last_active_at_impl now ingest_invocation_id db

unfoldable pub decommission_ingest_invocation_op : ℕ → ℕ → ℕ → Db → Result Error Db
decommission_ingest_invocation_op now event_id ingest_invocation_id db =
    decommission_ingest_invocation_impl now event_id ingest_invocation_id db

-- The values that the sequences of the ids and the clock give to one transaction.
pub record Fresh : Type 0 where
  pub now : ℕ
  pub decommission_event_id : ℕ
  pub invocation_id : ℕ
  pub new_event_id : ℕ

abbrev pub decommission_old : Fresh → Option ℕ → Db → Result Error Db
decommission_old fresh none db = ok db
decommission_old fresh (some prev_ingest_invocation_id) db =
    decommission_ingest_invocation_impl fresh.now fresh.decommission_event_id
      prev_ingest_invocation_id db

abbrev pub row_of : Fresh → PublicKey → KexRngPubkey → ℕ → IngestInvocation
row_of fresh ingress_public_key egress_public_key start_block = record {
  id = fresh.invocation_id;
  ingress_public_key = ingress_public_key;
  egress_public_key = egress_public_key.public_key;
  last_active_at = fresh.now;
  start_block = start_block;
  decommissioned = false;
  rng_version = egress_public_key.version;
}

unfoldable pub new_ingest_invocation_op :
    Fresh → Option ℕ → PublicKey → KexRngPubkey → ℕ → Db → Result Error (ℕ × Db)
new_ingest_invocation_op fresh prev ingress_public_key egress_public_key start_block db = do
  db1 ← decommission_old fresh prev db
  db2 ← insert_ingest_invocation (row_of fresh ingress_public_key egress_public_key start_block) db1
  db3 ← insert_user_event fresh.new_event_id (new_ingest_invocation_event fresh.invocation_id) db2
  ok (fresh.invocation_id, db3)

abbrev pub range_of : List IngestedBlock → IngestInvocation → IngestableRange
range_of blocks r = record {
  id = r.id;
  start_block = r.start_block;
  decommissioned = r.decommissioned;
  last_ingested_block =
      max_of (λ b. b.block_number) (filter (λ b. b.ingest_invocation_id == r.id) blocks);
}

unfoldable pub get_ingestable_ranges : Db → List IngestableRange
get_ingestable_ranges db =
    map (range_of db.ingested_blocks) (sort_by (λ r. r.id) db.ingest_invocations)

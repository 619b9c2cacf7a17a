-- ===== src/Recovery/Sql/History.antt =====
-- fog/sql_recovery_db/src/lib.rs: the operations that write, as the steps of the database.
use fog.Prelude.{ℕ, Bool, List, [], ◌≡◌, refl, not, Option}
use fog.Prelude.Bytes.{Bytes}
use fog.Prelude.Result.{ok, of_Holds}
use fog.Prelude.Rows.{Distinct-filter, Distinct-append}
use fog.KexRng.Core.{KexRngPubkey}
use fog.Recovery.IngressKey.{PublicKey, IngressPublicKeyStatus}
use fog.Recovery.Sql.Wire.{Wire}
use fog.Recovery.Sql.Keys.{is_key, new_ingress_key, retire_ingress_key, set_retired_flag}
use fog.Recovery.Sql.Invocations.{
  Fresh, is_invocation, touch, update_last_active_at_impl, decommission_ingest_invocation_op,
  update_last_active_at, new_ingest_invocation_op,
}
use fog.Recovery.Sql.Blocks.{
  ETxOutRecord, Block, AddBlockDataStatus, add_block_transaction, add_block_data,
}
use fog.Recovery.Sql.Events.{report_lost_ingress_key}
use fog.Recovery.Sql.Reports.{ReportData, set_report, remove_report, is_report}
use fog.Recovery.Sql.Consistency.{
  IsConsistent, report_conflict, key_conflict, with_keys, with_all_reports,
  update_keys-IsConsistent, update_invocations-IsConsistent, insert_user_event-Keeps,
  insert_ingest_invocation-Keeps, insert_ingested_block-Keeps, upsert_report-Keeps,
}
use fog.Recovery.Sql.Tables.{Db}
use fog.Recovery.Sql.Keeps.{
  IsKept, new_ingress_key-keeps, decommission_impl-Holds, new_ingest_invocation-Holds,
  report_lost-Holds, add_transaction-Holds, add_status-Holds, set_report-Holds,
}

abbrev pub empty_db : Db
empty_db = record {
  ingress_keys = [];
  ingest_invocations = [];
  ingested_blocks = [];
  user_events = [];
  reports = [];
}

IsConsistent-IsKept : IsKept IsConsistent
unfolding remove_report
IsConsistent-IsKept = record {
  add_key = λ {db} c new e. with_keys c (Distinct-append key_conflict db.ingress_keys new e c.keys);
  update_keys = λ c. update_keys-IsConsistent c;
  insert_invocation = λ c. insert_ingest_invocation-Keeps c;
  update_invocations = λ c p f h. update_invocations-IsConsistent c p f (λ r. (h r).0);
  insert_block = λ c new found. insert_ingested_block-Keeps c new;
  insert_event = λ c. insert_user_event-Keeps c;
  upsert = λ c. upsert_report-Keeps c;
  remove = λ {db} c report_id.
      with_all_reports c (
        Distinct-filter report_conflict (λ r. not (is_report report_id r)) db.reports
          c.all_reports);
}

module _ {VerificationReport : Type 0} (v : Wire VerificationReport) where
  -- One operation that writes. When it fails, nothing changes.
  pub data Step (w : Wire (List ETxOutRecord)) (db : Db) : Db → Type 0 where
    new_key : (key : PublicKey) (start_block : ℕ) → Step w db (new_ingress_key key start_block db).1
    retire :
        (key : PublicKey) (set_retired : Bool) → Step w db (retire_ingress_key key set_retired db)
    touched : (now id : ℕ) → Step w db (update_last_active_at now id db)
    removed : (report_id : Bytes) → Step w db (remove_report report_id db)
    invocation :
        (fresh : Fresh) (prev : Option ℕ) (key : PublicKey) (egress : KexRngPubkey) (start id : ℕ)
        {db' : Db}
        → new_ingest_invocation_op fresh prev key egress start db ≡ ok (id, db')
        → Step w db db'
    decommissioned_one :
        (now event_id id : ℕ) {db' : Db}
        → decommission_ingest_invocation_op now event_id id db ≡ ok db'
        → Step w db db'
    block_added :
        (now id iid : ℕ) (block : Block) (timestamp : ℕ) (txs : List ETxOutRecord)
        (status : AddBlockDataStatus) {db' : Db}
        → add_block_data w now id iid block timestamp txs db ≡ ok (status, db')
        → Step w db db'
    lost_key :
        (event_id : ℕ) (key : PublicKey) {db' : Db}
        → report_lost_ingress_key event_id key db ≡ ok db'
        → Step w db db'
    reported :
        (id : ℕ) (key : PublicKey) (report_id : Bytes) (data' : ReportData v)
        (status : IngressPublicKeyStatus) {db' : Db}
        → set_report v id key report_id data' db ≡ ok (status, db')
        → Step w db db'

  pub data Reach (w : Wire (List ETxOutRecord)) : Db → Type 0 where
    start : Reach w empty_db
    then_step : {db db' : Db} → Reach w db → Step w db db' → Reach w db'

  -- What the single insertions and updates keep, every operation keeps.
  pub Step_keeps :
      {w : Wire (List ETxOutRecord)} {db db' : Db} (I : Db → Type 0)
      → IsKept I
      → Step w db db'
      → I db
      → I db'
  unfolding retire_ingress_key update_last_active_at update_last_active_at_impl add_block_data
      decommission_ingest_invocation_op
  Step_keeps {db = db} I kept (new_key key start_block) c =
      new_ingress_key-keeps I kept key start_block db c
  Step_keeps I kept (retire key set_retired) c =
      kept.update_keys c (is_key key) (set_retired_flag set_retired) (λ r. refl)
  Step_keeps I kept (touched now id) c =
      kept.update_invocations c (is_invocation id) (touch now) (λ r. (refl, refl, refl))
  Step_keeps I kept (removed report_id) c = kept.remove c report_id
  Step_keeps {db = db} I kept (invocation fresh prev key egress start_block id e) c =
      of_Holds (λ p. I p.1)
        (new_ingest_invocation-Holds I kept fresh prev key egress start_block db c) e
  Step_keeps {db = db} I kept (decommissioned_one now event_id id e) c =
      of_Holds I (decommission_impl-Holds I kept now event_id id db c) e
  Step_keeps {w = w} {db = db} I kept (block_added now id iid block timestamp txs status e) c =
      of_Holds (λ p. I p.1)
        (add_status-Holds I kept w db (add_block_transaction w now id iid block timestamp txs db) c
          (add_transaction-Holds I kept w now id iid block timestamp txs db c))
        e
  Step_keeps {db = db} I kept (lost_key event_id key e) c =
      of_Holds I (report_lost-Holds I kept event_id key db c) e
  Step_keeps {db = db} I kept (reported id key report_id data' status e) c =
      of_Holds (λ p. I p.1) (set_report-Holds I kept v id key report_id data' db c) e

  pub Reach-IsConsistent : {w : Wire (List ETxOutRecord)} {db : Db} → Reach w db → IsConsistent db
  Reach-IsConsistent start = record {
    keys = tt;
    invocations = tt;
    blocks = tt;
    events = tt;
    all_reports = tt;
  }
  Reach-IsConsistent (then_step r s) =
      Step_keeps IsConsistent IsConsistent-IsKept s (Reach-IsConsistent r)

  -- Any operations after each other.
  pub data Steps (w : Wire (List ETxOutRecord)) (db : Db) : Db → Type 0 where
    no_step : Steps w db db
    one_more : {db' db'' : Db} → Steps w db db' → Step w db' db'' → Steps w db db''

  pub Steps_keep :
      {w : Wire (List ETxOutRecord)} {db db' : Db} (I : Db → Type 0)
      → IsKept I
      → Steps w db db'
      → I db
      → I db'
  Steps_keep I kept no_step c = c
  Steps_keep I kept (one_more steps s) c = Step_keeps I kept s (Steps_keep I kept steps c)

-- ===== src/Ingest/Activation.antt =====
-- fog/ingest/server/src/controller.rs: the part of `activate` that follows the checks of the peers,
-- and `publish_report`. The row id and the report of the enclave, when it gives one, are arguments.
pub mod Start
pub mod Ready
use fog.Prelude.{ℕ, Bool, true, false, ◌&&◌, Option, none, some, ltb, if◌then◌else◌, max}
use fog.Prelude.Bytes.{Bytes}
use fog.Prelude.Words.{add64}
use fog.Prelude.Result.{Result, ok, err, ◌>>=◌, map_err}
use fog.Recovery.IngressKey.{PublicKey, IngressPublicKeyStatus, candidate}
use fog.Recovery.Sql.Wire.{Wire}
use fog.Recovery.Sql.Tables.{Db, Error}
use fog.Recovery.Sql.Keys.{get_ingress_key_status, get_last_scanned_block_index, new_ingress_key}
use fog.Recovery.Sql.Blocks.{get_highest_known_block_index}
use fog.Recovery.Sql.Reports.{ReportData, set_report}
use fog.Ingest.ControllerState.{IngestControllerState, is_active, set_active, set_next_block_index}

pub data ActivateError : Type 0 where
  database : Error → ActivateError
  creating_new_ingress_key report_cache publish_report_failed : ActivateError
  key_already_retired : PublicKey → ActivateError

-- `map(|x| x + 1).unwrap_or(0)`
abbrev pub count_of : Option ℕ → ℕ
count_of highest = candidate highest 0

-- A key is new when the insertion wrote a row.
abbrev pub created : ℕ → Bool × Db → Result ActivateError (ℕ × Db)
created start_block (true, db) = ok (start_block, db)
created start_block (false, db) = err creating_new_ingress_key

abbrev pub start_of :
    PublicKey → ℕ → Db → Option IngressPublicKeyStatus → Result ActivateError (ℕ × Db)
start_of our_pubkey ledger_num_blocks db (some status) =
    ok (candidate (get_last_scanned_block_index our_pubkey db) status.start_block, db)
start_of our_pubkey ledger_num_blocks db none =
    let start_block = max ledger_num_blocks (count_of (get_highest_known_block_index db)) in
    created start_block (new_ingress_key our_pubkey start_block db)

unfoldable pub find_start_block : PublicKey → ℕ → Db → Result ActivateError (ℕ × Db)
find_start_block our_pubkey ledger_num_blocks db =
    map_err database (get_ingress_key_status our_pubkey db)
    >>= start_of our_pubkey ledger_num_blocks db

module _ {VerificationReport : Type 0} (v : Wire VerificationReport) (id : ℕ)
    (fog_report_id : Bytes) (ias_report : Option VerificationReport) where
  abbrev pub report_data : VerificationReport → IngestControllerState → ReportData v
  report_data report s = record {
    ingest_invocation_id = s.ingest_invocation_id;
    report = report;
    pubkey_expiry = add64 s.next_block_index s.pubkey_expiry_window;
  }

  unfoldable pub publish_report :
      PublicKey → IngestControllerState → Db → Result ActivateError (IngressPublicKeyStatus × Db)
  publish_report ingress_public_key s db = elim ias_report [
    | none ↦ err report_cache
    | some report ↦
        map_err (λ _. publish_report_failed)
          (set_report v id ingress_public_key fog_report_id (report_data report s) db)
  ]

  -- The decision after the report was published.
  abbrev pub finish :
      PublicKey
      → ℕ
      → IngestControllerState
      → IngressPublicKeyStatus × Db
      → Result ActivateError (Unit {0}) × IngestControllerState × Db
  finish our_pubkey start_block s (key_status, db) =
      if key_status.retired && ltb key_status.pubkey_expiry start_block
      then (err (key_already_retired our_pubkey), s, db)
      else (ok tt, set_active s, db)

  -- What an error leaves behind: the new row of a key and the new index stay.
  unfoldable pub activate_key :
      PublicKey
      → ℕ
      → IngestControllerState
      → Db
      → Result ActivateError (Unit {0}) × IngestControllerState × Db
  activate_key our_pubkey ledger_num_blocks s db =
      if is_active s
      then (ok tt, s, db)
      else elim (find_start_block our_pubkey ledger_num_blocks db) [
        | err e ↦ (err e, s, db)
        | ok found ↦
            let s1 = (set_next_block_index found.0 s).1 in
            elim (publish_report our_pubkey s1 found.1) [
              | err e ↦ (err e, s1, found.1)
              | ok published ↦ finish our_pubkey found.0 s1 published
            ]
      ]

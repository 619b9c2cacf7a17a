-- ===== src/Recovery/Sql/Reports.antt =====
-- fog/sql_recovery_db/src/lib.rs: the report database. `VerificationReport` is a message of the
-- attestation crate, of which the code uses the encoding only.
use fog.Prelude.{ℕ, Bool, true, not, ◌&&◌, Option, none, some, List, [], ◌∷◌, ◌++◌, if◌then◌else◌}
use fog.Prelude.Bytes.{Bytes, bytes_beq}
use fog.Prelude.Result.{Result, ok, err, ◌>>=◌}
use fog.Prelude.Queries.{bigint_lt, any, filter, update, sort_by}
use fog.Recovery.IngressKey.{PublicKey, IngressPublicKeyStatus}
use fog.Recovery.Sql.Wire.{Wire}
use fog.Recovery.Sql.Keys.{is_key, status_of, get_ingress_key_status}
use fog.Recovery.Sql.Blocks.{written, read}
use fog.Recovery.Sql.Events.{collect}
use fog.Recovery.Sql.Tables.{
  IngressKey, Report, Db, Error, foreign_key_violation, missing_ingress_key,
  ingress_keys_schema_violation, refers, has_key, value_too_long, varchar,
}

abbrev pub is_report : Bytes → Report → Bool
is_report fog_report_id r = bytes_beq r.fog_report_id fog_report_id

-- The rows that the conditional update writes.
abbrev pub can_raise : PublicKey → ℕ → IngressKey → Bool
can_raise key pubkey_expiry r =
    is_key key r && (not r.retired && bigint_lt r.pubkey_expiry pubkey_expiry)

abbrev pub raise : ℕ → IngressKey → IngressKey
raise pubkey_expiry r = record r { pubkey_expiry = pubkey_expiry }

abbrev pub existing :
    PublicKey → Option IngressPublicKeyStatus → Result Error IngressPublicKeyStatus
existing key none = err (missing_ingress_key key)
existing key (some status) = ok status

-- The status, from the rows that were updated or from a second query.
abbrev pub updated_status : PublicKey → Db → List IngressKey → Result Error IngressPublicKeyStatus
updated_status key db [] = get_ingress_key_status key db >>= existing key
updated_status key db (r ∷ []) = ok (status_of r)
updated_status key db (r ∷ r' ∷ rs) = err (ingress_keys_schema_violation key)

-- A reference of a report to a row of ingest_invocations.
abbrev pub report_refers : Report → Db → Bool
report_refers new db =
    has_key new.ingress_public_key db.ingress_keys
    && refers new.ingest_invocation_id db.ingest_invocations

-- ON CONFLICT (fog_report_id) DO UPDATE
abbrev pub overwrite : Report → Report → Report
overwrite new r = record r {
  ingress_public_key = new.ingress_public_key;
  ingest_invocation_id = new.ingest_invocation_id;
  report = new.report;
  pubkey_expiry = new.pubkey_expiry;
}

-- With the report id as the column stores it.
unfoldable pub upsert_row : Report → Db → Result Error Db
upsert_row new db =
    if not (report_refers new db)
    then err foreign_key_violation
    else if any (is_report new.fog_report_id) db.reports
    then ok
        (record db { reports = update (is_report new.fog_report_id) (overwrite new) db.reports })
    else ok (record db { reports = db.reports ++ (new ∷ []) })

-- fog_report_id VARCHAR(64)
unfoldable pub upsert_report : Report → Db → Result Error Db
upsert_report new db = elim (varchar 64 new.fog_report_id) [
  | none ↦ err value_too_long
  | some fog_report_id ↦ upsert_row (record new { fog_report_id = fog_report_id }) db
]

module _ {VerificationReport : Type 0} (w : Wire VerificationReport) where
  pub record ReportData : Type 0 where
    pub ingest_invocation_id : Option ℕ
    pub report : VerificationReport
    pub pubkey_expiry : ℕ

  abbrev pub report_of_row : Report → Result Error (Bytes × ReportData)
  report_of_row r = do
    report ← read (w.decode r.report)
    ok (
      r.fog_report_id,
      record {
        ingest_invocation_id = r.ingest_invocation_id;
        report = report;
        pubkey_expiry = r.pubkey_expiry;
      },
    )

  unfoldable pub get_all_reports : Db → Result Error (List (Bytes × ReportData))
  get_all_reports db = collect report_of_row (sort_by (λ r. r.id) db.reports)

  -- After the status is known: a retired key is not published.
  unfoldable pub publish :
      ℕ
      → PublicKey
      → Bytes
      → ReportData
      → IngressPublicKeyStatus
      → Db
      → Result Error (IngressPublicKeyStatus × Db)
  publish id ingress_key report_id data' result db = if result.retired then ok (result, db) else (do
    report_bytes ← written (w.encode data'.report)
    db' ←
        upsert_report
          (record {
            id = id;
            ingress_public_key = ingress_key;
            ingest_invocation_id = data'.ingest_invocation_id;
            fog_report_id = report_id;
            report = report_bytes;
            pubkey_expiry = data'.pubkey_expiry;
          })
          db
    ok (result, db'))

  unfoldable pub set_report :
      ℕ → PublicKey → Bytes → ReportData → Db → Result Error (IngressPublicKeyStatus × Db)
  set_report id ingress_key report_id data' db =
      let touched = filter (can_raise ingress_key data'.pubkey_expiry) db.ingress_keys in
      let db1 = record db {
        ingress_keys =
            update (can_raise ingress_key data'.pubkey_expiry) (raise data'.pubkey_expiry)
              db.ingress_keys;
      } in
      updated_status ingress_key db1 (update (λ _. true) (raise data'.pubkey_expiry) touched)
      >>= λ result. publish id ingress_key report_id data' result db1

unfoldable pub remove_report : Bytes → Db → Db
remove_report report_id db = record db {
  reports = filter (λ r. not (is_report report_id r)) db.reports;
}

-- ===== src/Recovery/Sql/Expiry.antt =====
-- fog/sql_recovery_db/src/lib.rs, `set_report`: what it does to the status of the ingress keys.
use fog.Prelude.{ℕ, ◌<◌, ◌^◌, true, false, [], ◌∷◌, ◌≡◌, ◌≢◌, refl, ap, max, some, ◌∙◌}
use fog.Prelude.Bytes.{Bytes}
use fog.Prelude.Lists.{In}
use fog.Prelude.Result.{ok}
use fog.Prelude.Queries.{filter}
use fog.Prelude.Rows.{any-update, any-of_filter}
use fog.Recovery.IngressKey.{PublicKey}
use fog.Recovery.Sql.Wire.{Wire}
use fog.Recovery.Sql.Keys.{is_key, status_of, get_ingress_key_status, only_status}
use fog.Recovery.Sql.Reports.{
  ReportData, can_raise, raise, publish, set_report, is_report, report_refers,
}
use fog.Recovery.Sql.Tables.{IngressKey, Report, Db, refers, varchar}
use fog.Recovery.Sql.Raised.{
  raised, raised_db, raised-own, raised-other, updated-raised, retired-db, upsert-Stored,
}

module _ {VerificationReport : Type 0} (v : Wire VerificationReport) (id : ℕ) (key : PublicKey)
    (report_id : Bytes) (data' : ReportData v) (db : Db) (row : IngressKey)
    (one : filter (is_key key) db.ingress_keys ≡ row ∷ []) (small_row : row.pubkey_expiry < 2 ^ 63)
    (small : data'.pubkey_expiry < 2 ^ 63) where
  set_report-publish :
      set_report v id key report_id data' db
      ≡ publish v id key report_id data'
          (status_of (raised data'.pubkey_expiry row))
          (raised_db key data'.pubkey_expiry db)
  unfolding set_report
  set_report-publish = rw (updated-raised key data'.pubkey_expiry small db row small_row one) refl

  report_refers-raised :
      (bytes : Bytes)
      → refers data'.ingest_invocation_id db.ingest_invocations ≡ true
      → report_refers
          (record {
            id = id;
            ingress_public_key = key;
            ingest_invocation_id = data'.ingest_invocation_id;
            fog_report_id = report_id;
            report = bytes;
            pubkey_expiry = data'.pubkey_expiry;
          })
          (raised_db key data'.pubkey_expiry db)
        ≡ true
  report_refers-raised bytes refs =
      rw
        (
          any-update (can_raise key data'.pubkey_expiry) (is_key key) (raise data'.pubkey_expiry)
              db.ingress_keys (λ r. refl),
          any-of_filter (is_key key) db.ingress_keys row [] one,
          refs,
        )
        refl

  -- For a key with one row, which is retired, and expiries below 2^63: `set_report` gives the
  -- key's status and changes nothing, neither the expiry of the key nor the reports.
  pub set_report-Retired :
      row.retired ≡ true → set_report v id key report_id data' db ≡ ok (status_of row, db)
  unfolding publish
  set_report-Retired r =
      set_report-publish ∙ rw (r, retired-db key data'.pubkey_expiry small db row one r) refl

  -- For a key with one row that is not retired, expiries below 2^63, a report id that fits the column
  -- (64 characters, without spaces behind them), a report that can be encoded and an invocation that
  -- the database knows: `set_report` raises the key's expiry to the
  -- report's, unless it is already higher; it gives the status that the database then has for the
  -- key, leaves that of every other key alone, and the report stands in the table under the id as the
  -- column stores it, with this key and its own expiry.
  pub set_report-Raised :
      (bytes stored : Bytes)
      → row.retired ≡ false
      → varchar 64 report_id ≡ some stored
      → v.encode data'.report ≡ some bytes
      → refers data'.ingest_invocation_id db.ingest_invocations ≡ true
      → (db' : Db) × (set_report v id key report_id data' db
          ≡ ok (
            record (status_of row) { pubkey_expiry = max row.pubkey_expiry data'.pubkey_expiry },
            db',
          ))
        × (get_ingress_key_status key db'
            ≡ ok (
                some (record (status_of row) {
                  pubkey_expiry = max row.pubkey_expiry data'.pubkey_expiry;
                })))
        × ((other : PublicKey)
            → other ≢ key
            → get_ingress_key_status other db' ≡ get_ingress_key_status other db)
        × (r : Report) × In r db'.reports
        × (is_report stored r ≡ true)
        × (r.report ≡ bytes)
        × (r.ingress_public_key ≡ key)
        × (r.pubkey_expiry ≡ data'.pubkey_expiry)
  unfolding publish get_ingress_key_status
  set_report-Raised bytes stored live short fits refs =
      let (rows, run, r, i, named, bytes', key', expiry') =
        upsert-Stored key data'.pubkey_expiry small
          (record {
            id = id;
            ingress_public_key = key;
            ingest_invocation_id = data'.ingest_invocation_id;
            fog_report_id = report_id;
            report = bytes;
            pubkey_expiry = data'.pubkey_expiry;
          })
          stored (raised_db key data'.pubkey_expiry db) short (report_refers-raised bytes refs) in
      (
        record (raised_db key data'.pubkey_expiry db) { reports = rows },
        set_report-publish ∙ rw (live, fits, run) refl,
        rw (raised-own key data'.pubkey_expiry small db row small_row one, live) refl,
        λ other ne. ap (only_status other) (raised-other key data'.pubkey_expiry small db other ne),
        r,
        i,
        named,
        bytes',
        key',
        expiry',
      )

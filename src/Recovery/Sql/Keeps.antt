-- ===== src/Recovery/Sql/Keeps.antt =====
-- fog/sql_recovery_db/src/lib.rs: what the single insertions and updates keep, the operations that
-- write keep, one by one.
use fog.Prelude.{
  ◌≡◌, Bool, [], ◌∷◌, ◌++◌, ℕ, false, List, refl, Bool-cases, inl, inr, Option, none, some,
}
use fog.Prelude.Bytes.{Bytes}
use fog.Prelude.Result.{Result, ok, err, Holds, Holds-bind, Holds-any, Holds-ok}
use fog.Prelude.Queries.{filter, update}
use fog.KexRng.Core.{KexRngPubkey}
use fog.Recovery.BlockRange.{BlockRange, is_valid}
use fog.Recovery.IngressKey.{PublicKey, IngressPublicKeyStatus}
use fog.Recovery.Sql.Wire.{Wire}
use fog.Recovery.Sql.Keys.{is_key, new_ingress_key}
use fog.Recovery.Sql.Invocations.{
  Fresh, decommission_old, row_of, end_invocation, is_invocation, touch,
  decommission_ingest_invocation_impl, update_last_active_at_impl, new_ingest_invocation_op,
}
use fog.Recovery.Sql.Blocks.{
  ETxOutRecord, Block, add_status, ingress_key_of, written, new_block_row, add_block_transaction,
}
use fog.Recovery.Sql.Events.{mark_lost, key_range, add_missed, report_lost_ingress_key}
use fog.Recovery.Sql.Reports.{
  ReportData, can_raise, raise, publish, set_report, remove_report, upsert_report,
}
use fog.Recovery.Sql.Tables.{
  IngressKey, IngestInvocation, IngestedBlock, NewUserEvent, Report, Db, Error, unique_violation,
  foreign_key_violation, value_too_long, not_found, decode, encode, assertion_failed,
  missing_ingress_key, ingress_keys_schema_violation, user_event_schema_violation,
  ingested_block_schema_violation, new_ingest_invocation_event,
  decommission_ingest_invocation_event, missing_blocks_event, has_key, insert_ingest_invocation,
  insert_ingested_block, insert_user_event,
}

-- What the single insertions and updates keep.
pub record IsKept (I : Db → Type 0) : Type 0 where
  pub add_key :
      {db : Db}
      → I db
      → (new : IngressKey) → has_key new.ingress_public_key db.ingress_keys ≡ false
      → I (record db { ingress_keys = db.ingress_keys ++ (new ∷ []) })
  pub update_keys :
      {db : Db}
      → I db
      → (p : IngressKey → Bool) (f : IngressKey → IngressKey)
      → ((r : IngressKey) → (f r).ingress_public_key ≡ r.ingress_public_key)
      → I (record db { ingress_keys = update p f db.ingress_keys })
  pub insert_invocation :
      {db : Db} → I db → (new : IngestInvocation) → Holds I (insert_ingest_invocation new db)
  pub update_invocations :
      {db : Db}
      → I db
      → (p : IngestInvocation → Bool) (f : IngestInvocation → IngestInvocation)
      → ((r : IngestInvocation)
          → ((f r).egress_public_key ≡ r.egress_public_key)
            × ((f r).id ≡ r.id)
            × ((f r).ingress_public_key ≡ r.ingress_public_key))
      → I (record db { ingest_invocations = update p f db.ingest_invocations })
  pub insert_block :
      {db : Db}
      → I db
      → (new : IngestedBlock)
      → ingress_key_of (filter (is_invocation new.ingest_invocation_id) db.ingest_invocations)
        ≡ ok new.ingress_public_key
      → Holds I (insert_ingested_block new db)
  pub insert_event :
      {db : Db} → I db → (id : ℕ) (new : NewUserEvent) → Holds I (insert_user_event id new db)
  pub upsert : {db : Db} → I db → (new : Report) → Holds I (upsert_report new db)
  pub remove : {db : Db} → I db → (report_id : Bytes) → I (remove_report report_id db)

module _ (I : Db → Type 0) (kept : IsKept I) where
  pub new_ingress_key-keeps :
      (key : PublicKey) (start_block : ℕ) (db : Db)
      → I db
      → I (new_ingress_key key start_block db).1
  unfolding new_ingress_key
  new_ingress_key-keeps key start_block db c = elim (Bool-cases (has_key key db.ingress_keys)) [
    | inl e ↦ rw e c
    | inr e ↦ rw e (kept.add_key c _ e)
  ]

  pub decommission_impl-Holds :
      (now event_id id : ℕ) (db : Db)
      → I db
      → Holds I (decommission_ingest_invocation_impl now event_id id db)
  unfolding decommission_ingest_invocation_impl
  decommission_impl-Holds now event_id id db c =
      kept.insert_event
        (kept.update_invocations c (is_invocation id) (end_invocation now)
          (λ r. (refl, refl, refl)))
        event_id (decommission_ingest_invocation_event id)

  pub decommission_old-Holds :
      (fresh : Fresh) (prev : Option ℕ) (db : Db) → I db → Holds I (decommission_old fresh prev db)
  decommission_old-Holds fresh none db c = c
  decommission_old-Holds fresh (some prev) db c =
      decommission_impl-Holds fresh.now fresh.decommission_event_id prev db c

  pub new_ingest_invocation-Holds :
      (fresh : Fresh) (prev : Option ℕ) (key : PublicKey) (egress : KexRngPubkey) (start : ℕ)
      (db : Db)
      → I db
      → Holds (λ p. I p.1) (new_ingest_invocation_op fresh prev key egress start db)
  unfolding new_ingest_invocation_op
  new_ingest_invocation-Holds fresh prev key egress start db c =
      Holds-bind I (λ p. I p.1) (decommission_old fresh prev db) _
        (decommission_old-Holds fresh prev db c)
        (λ db1 c1.
          Holds-bind I (λ p. I p.1) (insert_ingest_invocation (row_of fresh key egress start) db1) _
            (kept.insert_invocation c1 (row_of fresh key egress start))
            (λ db2 c2.
              Holds-bind I (λ p. I p.1)
                (insert_user_event fresh.new_event_id
                  (new_ingest_invocation_event fresh.invocation_id) db2)
                _
                (kept.insert_event c2 fresh.new_event_id
                  (new_ingest_invocation_event fresh.invocation_id))
                (λ db3 c3. c3)))

  pub add_missed-Holds :
      (event_id : ℕ) (r : Option BlockRange) (db : Db) → I db → Holds I (add_missed event_id r db)
  add_missed-Holds event_id none db c = c
  add_missed-Holds event_id (some r) db c = elim (Bool-cases (is_valid r)) [
    | inl e ↦ rw e (
        Holds-bind (λ _. Unit {0}) I (missing_blocks_event r) _ (Holds-any (missing_blocks_event r))
          (λ new _. kept.insert_event c event_id new))
    | inr e ↦ rw e c
  ]

  pub report_lost-Holds :
      (event_id : ℕ) (key : PublicKey) (db : Db)
      → I db
      → Holds I (report_lost_ingress_key event_id key db)
  unfolding report_lost_ingress_key
  report_lost-Holds event_id key db c =
      let c1 = kept.update_keys c (is_key key) mark_lost (λ r. refl) in
      Holds-bind (λ _. Unit {0}) I
        (key_range key (filter (is_key key) (update (is_key key) mark_lost db.ingress_keys))) _
        (Holds-any
          (key_range key (filter (is_key key) (update (is_key key) mark_lost db.ingress_keys))))
        (λ r _. add_missed-Holds event_id _ _ c1)

  module _ (w : Wire (List ETxOutRecord)) where
    pub add_transaction-Holds :
        (now id iid : ℕ) (block : Block) (timestamp : ℕ) (txs : List ETxOutRecord) (db : Db)
        → I db
        → Holds I (add_block_transaction w now id iid block timestamp txs db)
    unfolding add_block_transaction update_last_active_at_impl new_block_row
    add_transaction-Holds now id iid block timestamp txs db c =
        let known = ingress_key_of (filter (is_invocation iid) db.ingest_invocations) in
        Holds-bind (λ key. known ≡ ok key) I known _ (Holds-ok known)
          (λ key found.
            Holds-bind (λ _. Unit {0}) I (written (w.encode txs)) _
              (Holds-any (written (w.encode txs)))
              (λ bytes _.
                Holds-bind I I
                  (insert_ingested_block (new_block_row w id iid key block timestamp bytes) db) _
                  (kept.insert_block c (new_block_row w id iid key block timestamp bytes) found)
                  (λ db1 c1.
                    kept.update_invocations c1 (is_invocation iid) (touch now)
                      (λ r. (refl, refl, refl)))))

    pub add_status-Holds :
        (db : Db) (r : Result Error Db) → I db → Holds I r → Holds (λ p. I p.1) (add_status db r)
    add_status-Holds db (ok db') c h = h
    add_status-Holds db (err unique_violation) c h = c
    add_status-Holds db (err foreign_key_violation) c h = tt
    add_status-Holds db (err value_too_long) c h = tt
    add_status-Holds db (err not_found) c h = tt
    add_status-Holds db (err decode) c h = tt
    add_status-Holds db (err encode) c h = tt
    add_status-Holds db (err assertion_failed) c h = tt
    add_status-Holds db (err (missing_ingress_key k)) c h = tt
    add_status-Holds db (err (ingress_keys_schema_violation k)) c h = tt
    add_status-Holds db (err (user_event_schema_violation i)) c h = tt
    add_status-Holds db (err (ingested_block_schema_violation i)) c h = tt

  module _ {VerificationReport : Type 0} (v : Wire VerificationReport) where
    pub publish-Holds :
        (id : ℕ) (key : PublicKey) (report_id : Bytes) (data' : ReportData v)
        (status : IngressPublicKeyStatus) (db : Db)
        → I db
        → Holds (λ p. I p.1) (publish v id key report_id data' status db)
    unfolding publish
    publish-Holds id key report_id data' status db c = elim (Bool-cases status.retired) [
      | inl e ↦ rw e c
      | inr e ↦ rw e (
          Holds-bind (λ _. Unit {0}) (λ p. I p.1) (written (v.encode data'.report)) _
            (Holds-any (written (v.encode data'.report)))
            (λ bytes _. Holds-bind I (λ p. I p.1) _ _ (kept.upsert c _) (λ db' c'. c')))
    ]

    pub set_report-Holds :
        (id : ℕ) (key : PublicKey) (report_id : Bytes) (data' : ReportData v) (db : Db)
        → I db
        → Holds (λ p. I p.1) (set_report v id key report_id data' db)
    unfolding set_report
    set_report-Holds id key report_id data' db c =
        let c1 =
          kept.update_keys c (can_raise key data'.pubkey_expiry) (raise data'.pubkey_expiry)
            (λ r. refl) in
        Holds-bind (λ _. Unit {0}) (λ p. I p.1) _ _ (Holds-any _)
          (λ status _. publish-Holds id key report_id data' status _ c1)

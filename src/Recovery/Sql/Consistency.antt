-- ===== src/Recovery/Sql/Consistency.antt =====
-- The tables of fog/sql_recovery_db: their UNIQUE constraints and references as one predicate, and
-- that the insertions and updates of the operations keep it.
use fog.Prelude.{ℕ, Bool, ◌&&◌, some, List, ◌==◌, ◌≡◌, refl, ap, inl, inr, Bool-cases, Option-cases}
use fog.Prelude.Bytes.{bytes_beq}
use fog.Prelude.Result.{Result, ok, err}
use fog.Prelude.Queries.{any, update}
use fog.Prelude.Rows.{Distinct, Distinct-append, Distinct-update}
use fog.Recovery.Sql.Tables.{
  IngressKey, IngestInvocation, IngestedBlock, NewUserEvent, UserEvent, Report, Db, Error, refers,
  has_key, insert_ingest_invocation, block_conflict, insert_ingested_block, event_conflict,
  insert_user_event, varchar,
}
use fog.Recovery.Sql.Reports.{is_report, overwrite, report_refers, upsert_row, upsert_report}

abbrev pub key_conflict : IngressKey → IngressKey → Bool
key_conflict new r = r.ingress_public_key == new.ingress_public_key

abbrev pub egress_conflict : IngestInvocation → IngestInvocation → Bool
egress_conflict new r = bytes_beq r.egress_public_key new.egress_public_key

abbrev pub row_conflict : UserEvent → UserEvent → Bool
row_conflict new r = event_conflict new.event r.event

abbrev pub report_conflict : Report → Report → Bool
report_conflict new r = is_report new.fog_report_id r

pub record IsConsistent (db : Db) : Type 0 where
  pub keys : Distinct key_conflict db.ingress_keys
  pub invocations : Distinct egress_conflict db.ingest_invocations
  pub blocks : Distinct block_conflict db.ingested_blocks
  pub events : Distinct row_conflict db.user_events
  pub all_reports : Distinct report_conflict db.reports

-- The result of an operation: its error, or consistent tables.
abbrev pub Keeps : Result Error Db → Type 0
Keeps (ok db) = IsConsistent db
Keeps (err e) = Unit

module _ {db : Db} (c : IsConsistent db) where
  pub with_keys :
      {rows : List IngressKey}
      → Distinct key_conflict rows
      → IsConsistent (record db { ingress_keys = rows })
  with_keys d = record {
    keys = d;
    invocations = c.invocations;
    blocks = c.blocks;
    events = c.events;
    all_reports = c.all_reports;
  }

  pub with_invocations :
      {rows : List IngestInvocation}
      → Distinct egress_conflict rows
      → IsConsistent (record db { ingest_invocations = rows })
  with_invocations d = record {
    keys = c.keys;
    invocations = d;
    blocks = c.blocks;
    events = c.events;
    all_reports = c.all_reports;
  }

  pub with_blocks :
      {rows : List IngestedBlock}
      → Distinct block_conflict rows
      → IsConsistent (record db { ingested_blocks = rows })
  with_blocks d = record {
    keys = c.keys;
    invocations = c.invocations;
    blocks = d;
    events = c.events;
    all_reports = c.all_reports;
  }

  pub with_events :
      {rows : List UserEvent}
      → Distinct row_conflict rows
      → IsConsistent (record db { user_events = rows })
  with_events d = record {
    keys = c.keys;
    invocations = c.invocations;
    blocks = c.blocks;
    events = d;
    all_reports = c.all_reports;
  }

  pub with_all_reports :
      {rows : List Report}
      → Distinct report_conflict rows
      → IsConsistent (record db { reports = rows })
  with_all_reports d = record {
    keys = c.keys;
    invocations = c.invocations;
    blocks = c.blocks;
    events = c.events;
    all_reports = d;
  }

  pub insert_user_event-Keeps : (id : ℕ) (new : NewUserEvent) → Keeps (insert_user_event id new db)
  insert_user_event-Keeps id new =
      elim (Bool-cases (any (λ r. event_conflict new r.event) db.user_events)) [
        | inl e ↦ rw e tt
        | inr e ↦
            rw e
              (elim (Bool-cases (
                refers new.new_ingest_invocation_id db.ingest_invocations
                && refers new.decommission_ingest_invocation_id db.ingest_invocations)) [
                  | inl g ↦ rw g (
                      with_events (
                        Distinct-append row_conflict db.user_events
                          (record { id = id; event = new }) e c.events))
                  | inr g ↦ rw g tt
                ])
      ]

  pub insert_ingest_invocation-Keeps :
      (new : IngestInvocation) → Keeps (insert_ingest_invocation new db)
  insert_ingest_invocation-Keeps new =
      elim (Bool-cases (any (egress_conflict new) db.ingest_invocations)) [
        | inl e ↦ rw e tt
        | inr e ↦ rw e (elim (Bool-cases (has_key new.ingress_public_key db.ingress_keys)) [
          | inl g ↦ rw g (
              with_invocations
                (Distinct-append egress_conflict db.ingest_invocations new e c.invocations))
          | inr g ↦ rw g tt
        ])
      ]

  pub insert_ingested_block-Keeps : (new : IngestedBlock) → Keeps (insert_ingested_block new db)
  insert_ingested_block-Keeps new =
      elim (Bool-cases (any (block_conflict new) db.ingested_blocks)) [
        | inl e ↦ rw e tt
        | inr e ↦
            rw e
              (elim (Bool-cases (
                refers (some new.ingest_invocation_id) db.ingest_invocations
                && has_key new.ingress_public_key db.ingress_keys)) [
                  | inl g ↦ rw g (
                      with_blocks
                        (Distinct-append block_conflict db.ingested_blocks new e c.blocks))
                  | inr g ↦ rw g tt
                ])
      ]

  pub update_keys-IsConsistent :
      (p : IngressKey → Bool) (f : IngressKey → IngressKey)
      → ((r : IngressKey) → (f r).ingress_public_key ≡ r.ingress_public_key)
      → IsConsistent (record db { ingress_keys = update p f db.ingress_keys })
  update_keys-IsConsistent p f h = with_keys (
      Distinct-update key_conflict p f db.ingress_keys
        (λ x y. ap (λ k. y.ingress_public_key == k) (h x))
        (λ x y. ap (λ k. k == x.ingress_public_key) (h y)) c.keys)

  pub update_invocations-IsConsistent :
      (p : IngestInvocation → Bool) (f : IngestInvocation → IngestInvocation)
      → ((r : IngestInvocation) → (f r).egress_public_key ≡ r.egress_public_key)
      → IsConsistent (record db { ingest_invocations = update p f db.ingest_invocations })
  update_invocations-IsConsistent p f h = with_invocations (
      Distinct-update egress_conflict p f db.ingest_invocations
        (λ x y. ap (λ k. bytes_beq y.egress_public_key k) (h x))
        (λ x y. ap (λ k. bytes_beq k x.egress_public_key) (h y)) c.invocations)

  upsert_row-Keeps : (new : Report) → Keeps (upsert_row new db)
  unfolding upsert_row
  upsert_row-Keeps new = elim (Bool-cases (report_refers new db)) [
    | inl g ↦ rw g (elim (Bool-cases (any (is_report new.fog_report_id) db.reports)) [
      | inl e ↦ rw e (
          with_all_reports (
            Distinct-update report_conflict (is_report new.fog_report_id) (overwrite new) db.reports
              (λ x y. refl) (λ x y. refl) c.all_reports))
      | inr e ↦
          rw e (with_all_reports (Distinct-append report_conflict db.reports new e c.all_reports))
    ])
    | inr g ↦ rw g tt
  ]

  pub upsert_report-Keeps : (new : Report) → Keeps (upsert_report new db)
  unfolding upsert_report
  upsert_report-Keeps new = elim (Option-cases (varchar 64 new.fog_report_id)) [
    | inl e ↦ rw (e, upsert_report, Keeps) tt
    | inr (s, e) ↦
        rw (e, upsert_report, Keeps) (upsert_row-Keeps (record new { fog_report_id = s }))
  ]

-- ===== src/Recovery/Sql/Decommission.antt =====
-- fog/sql_recovery_db/src/lib.rs: `decommission_ingest_invocation`.
use fog.Prelude.{ℕ, ◌≡◌, true}
use fog.Prelude.Lists.{All}
use fog.Prelude.Queries.{any}
use fog.Recovery.Sql.Wire.{Wire}
use fog.Recovery.Sql.Tables.{
  Db, IngestInvocation, event_conflict, decommission_ingest_invocation_event,
}

abbrev pub IsEnded : ℕ → IngestInvocation → Type 0
IsEnded id r = r.id ≡ id → r.decommissioned ≡ true

-- The event was announced, and the invocations with the id have ended.
abbrev Announced : ℕ → Db → Type 0
Announced id db =
    (any (λ r. event_conflict (decommission_ingest_invocation_event id) r.event) db.user_events
      ≡ true)
    × All (IsEnded id) db.ingest_invocations

-- The event stands in the table.
abbrev IsSaid : ℕ → Db → Type 0
IsSaid id db =
    any (λ r. event_conflict (decommission_ingest_invocation_event id) r.event) db.user_events
    ≡ true

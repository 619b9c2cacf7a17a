-- ===== src/Recovery/Sql/Tables.antt =====
-- fog/sql_recovery_db: the rows (src/models.rs), the tables and their constraints (the migration's
-- up.sql), and the errors (src/error.rs). The value that a BIGSERIAL column takes is an argument of
-- an insertion, and so is the time. Byte strings that are only compared are numbers or lists of them.
use fog.Prelude.{
  ℕ, zero, suc, leb, ltb, Bool, true, false, not, ◌&&◌, ◌||◌, Option, none, some, List, [], ◌∷◌,
  ◌++◌, ◌==◌, if◌then◌else◌,
}
use fog.Prelude.Bytes.{Bytes, bytes_beq}
use fog.Prelude.Result.{Result, ok, err}
use fog.Prelude.Queries.{any}
use fog.Recovery.BlockRange.{BlockRange, is_valid}
use fog.Recovery.IngressKey.{PublicKey}

pub record IngressKey : Type 0 where
  pub ingress_public_key : PublicKey
  pub start_block : ℕ
  pub pubkey_expiry : ℕ
  pub retired : Bool
  pub lost : Bool

pub record IngestInvocation : Type 0 where
  pub id : ℕ
  pub ingress_public_key : PublicKey
  pub egress_public_key : Bytes
  pub last_active_at : ℕ
  pub start_block : ℕ
  pub decommissioned : Bool
  pub rng_version : ℕ

pub record IngestedBlock : Type 0 where
  pub id : ℕ
  pub ingest_invocation_id : ℕ
  pub ingress_public_key : PublicKey
  pub block_number : ℕ
  pub cumulative_txo_count : ℕ
  pub block_signature_timestamp : ℕ
  pub proto_ingested_block_data : Bytes

pub data UserEventType : Type 0 where
  new_ingest_invocation decommission_ingest_invocation missing_blocks : UserEventType

pub record NewUserEvent : Type 0 where
  pub event_type : UserEventType
  pub new_ingest_invocation_id : Option ℕ
  pub decommission_ingest_invocation_id : Option ℕ
  pub missing_blocks_start : Option ℕ
  pub missing_blocks_end : Option ℕ

-- A row of user_events.
pub record UserEvent : Type 0 where
  pub id : ℕ
  pub event : NewUserEvent

pub record Report : Type 0 where
  pub id : ℕ
  pub ingress_public_key : PublicKey
  pub ingest_invocation_id : Option ℕ
  pub fog_report_id : Bytes
  pub report : Bytes
  pub pubkey_expiry : ℕ

pub record Db : Type 0 where
  pub ingress_keys : List IngressKey
  pub ingest_invocations : List IngestInvocation
  pub ingested_blocks : List IngestedBlock
  pub user_events : List UserEvent
  pub reports : List Report

-- The errors that the operations return, those of the database by their kind; the errors of the
-- connection pool and the two that nothing returns are left out. `assertion_failed`
-- is the panic of an `assert!`.
pub data Error : Type 0 where
  unique_violation foreign_key_violation value_too_long not_found decode encode assertion_failed :
      Error
  missing_ingress_key ingress_keys_schema_violation : PublicKey → Error
  user_event_schema_violation : ℕ → Error
  ingested_block_schema_violation : ℕ → Error

-- The first `n` characters of a UTF-8 string, and the rest. A byte of the form 10xxxxxx goes on with
-- the character before it.
unfoldable pub split_chars : ℕ → Bytes → Bytes × Bytes
split_chars n [] = ([], [])
split_chars zero (b ∷ bs) =
    let (kept, excess) = split_chars zero bs in
    if leb 128 b && ltb b 192 then (b ∷ kept, excess) else ([], b ∷ bs)
split_chars (suc n) (b ∷ bs) =
    let (kept, excess) = split_chars (suc n) bs in
    let (kept', excess') = split_chars n bs in
    if leb 128 b && ltb b 192 then (b ∷ kept, excess) else (b ∷ kept', excess')

-- What a VARCHAR(n) column stores of a string: longer ones are cut if the rest is spaces, and are an
-- error otherwise.
unfoldable pub varchar : ℕ → Bytes → Option Bytes
varchar n s =
    let (kept, excess) = split_chars n s in
    if any (λ b. not (b == 32)) excess then none else some kept

abbrev pub new_ingest_invocation_event : ℕ → NewUserEvent
new_ingest_invocation_event ingest_invocation_id = record {
  event_type = new_ingest_invocation;
  new_ingest_invocation_id = some ingest_invocation_id;
  decommission_ingest_invocation_id = none;
  missing_blocks_start = none;
  missing_blocks_end = none;
}

abbrev pub decommission_ingest_invocation_event : ℕ → NewUserEvent
decommission_ingest_invocation_event ingest_invocation_id = record {
  event_type = decommission_ingest_invocation;
  new_ingest_invocation_id = none;
  decommission_ingest_invocation_id = some ingest_invocation_id;
  missing_blocks_start = none;
  missing_blocks_end = none;
}

unfoldable pub missing_blocks_event : BlockRange → Result Error NewUserEvent
missing_blocks_event r =
    if is_valid r
    then ok (record {
      event_type = missing_blocks;
      new_ingest_invocation_id = none;
      decommission_ingest_invocation_id = none;
      missing_blocks_start = some r.start_block;
      missing_blocks_end = some r.end_block;
    })
    else err assertion_failed

-- Two values of a nullable column that a UNIQUE constraint takes as the same.
abbrev pub same : Option ℕ → Option ℕ → Bool
same (some a) (some b) = a == b
same (some a) none = false
same none b = false

-- A reference to a row of ingest_invocations, where NULL refers to none.
abbrev pub refers : Option ℕ → List IngestInvocation → Bool
refers none rows = true
refers (some id) rows = any (λ r. r.id == id) rows

abbrev pub has_key : PublicKey → List IngressKey → Bool
has_key key rows = any (λ r. r.ingress_public_key == key) rows

abbrev pub insert_ingest_invocation : IngestInvocation → Db → Result Error Db
insert_ingest_invocation new db =
    if any (λ r. bytes_beq r.egress_public_key new.egress_public_key) db.ingest_invocations
    then err unique_violation
    else if not (has_key new.ingress_public_key db.ingress_keys)
    then err foreign_key_violation
    else ok (record db { ingest_invocations = db.ingest_invocations ++ (new ∷ []) })

-- The two UNIQUE constraints of ingested_blocks.
abbrev pub block_conflict : IngestedBlock → IngestedBlock → Bool
block_conflict new r =
    (r.ingest_invocation_id == new.ingest_invocation_id && r.block_number == new.block_number)
    || (r.ingress_public_key == new.ingress_public_key && r.block_number == new.block_number)

abbrev pub insert_ingested_block : IngestedBlock → Db → Result Error Db
insert_ingested_block new db =
    if any (block_conflict new) db.ingested_blocks
    then err unique_violation
    else if not (
        refers (some new.ingest_invocation_id) db.ingest_invocations
        && has_key new.ingress_public_key db.ingress_keys)
    then err foreign_key_violation
    else ok (record db { ingested_blocks = db.ingested_blocks ++ (new ∷ []) })

-- The three UNIQUE constraints of user_events.
abbrev pub event_conflict : NewUserEvent → NewUserEvent → Bool
event_conflict new r =
    same r.new_ingest_invocation_id new.new_ingest_invocation_id
    || same r.decommission_ingest_invocation_id new.decommission_ingest_invocation_id
    || (same r.missing_blocks_start new.missing_blocks_start
        && same r.missing_blocks_end new.missing_blocks_end)

abbrev pub insert_user_event : ℕ → NewUserEvent → Db → Result Error Db
insert_user_event id new db =
    if any (λ r. event_conflict new r.event) db.user_events
    then err unique_violation
    else if not (
        refers new.new_ingest_invocation_id db.ingest_invocations
        && refers new.decommission_ingest_invocation_id db.ingest_invocations)
    then err foreign_key_violation
    else ok (record db { user_events = db.user_events ++ (record { id = id; event = new } ∷ []) })

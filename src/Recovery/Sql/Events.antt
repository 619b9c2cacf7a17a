-- ===== src/Recovery/Sql/Events.antt =====
-- fog/sql_recovery_db/src/lib.rs: lost keys, missed blocks and the events that users are told.
use fog.Prelude.{
  ℕ, ◌-◌, ◌^◌, Bool, true, false, not, Option, none, some, List, [], ◌∷◌, map, leb, ltb, ◌==◌,
  if◌then◌else◌,
}
use fog.Prelude.Words.{add64}
use fog.Prelude.Result.{Result, ok, err, ◌>>=◌}
use fog.Prelude.Queries.{bigint_lt, bigint_max, filter, update, max_of, sort_by}
use fog.KexRng.Core.{KexRngPubkey}
use fog.Recovery.BlockRange.{BlockRange, is_valid}
use fog.Recovery.IngressKey.{PublicKey}
use fog.Recovery.Sql.Keys.{is_key, get_last_scanned_block_index}
use fog.Recovery.Sql.Tables.{
  IngressKey, IngestInvocation, IngestedBlock, UserEventType, new_ingest_invocation,
  decommission_ingest_invocation, missing_blocks, NewUserEvent, UserEvent, Db, Error,
  missing_ingress_key, ingress_keys_schema_violation, user_event_schema_violation,
  missing_blocks_event, insert_user_event,
}

abbrev pub mark_lost : IngressKey → IngressKey
mark_lost r = record r { lost = true }

-- The range of the rows that the update returned.
abbrev pub key_range : PublicKey → List IngressKey → Result Error BlockRange
key_range key [] = err (missing_ingress_key key)
key_range key (r ∷ []) = ok (record { start_block = r.start_block; end_block = r.pubkey_expiry })
key_range key (r ∷ r' ∷ rs) = err (ingress_keys_schema_violation key)

-- The range without the blocks up to the last scanned one; nothing when no block needs scanning.
abbrev pub shrink : Option ℕ → BlockRange → Option BlockRange
shrink none r = some r
shrink (some block_index) r =
    if leb r.end_block (add64 block_index 1)
    then none
    else if ltb r.start_block (add64 block_index 1)
    then some (record r { start_block = add64 block_index 1 })
    else some r

-- The last two steps: an empty range is not added.
abbrev pub add_missed : ℕ → Option BlockRange → Db → Result Error Db
add_missed event_id none db = ok db
add_missed event_id (some r) db =
    if not (is_valid r)
    then ok db
    else missing_blocks_event r >>= λ event. insert_user_event event_id event db

unfoldable pub report_lost_ingress_key : ℕ → PublicKey → Db → Result Error Db
report_lost_ingress_key event_id lost_ingress_key db =
    let db1 = record db {
      ingress_keys = update (is_key lost_ingress_key) mark_lost db.ingress_keys;
    } in
    key_range lost_ingress_key (filter (is_key lost_ingress_key) db1.ingress_keys) >>= λ r.
    add_missed event_id (shrink (get_last_scanned_block_index lost_ingress_key db1) r) db1

abbrev pub is_missing_blocks : UserEventType → Bool
is_missing_blocks missing_blocks = true
is_missing_blocks new_ingest_invocation = false
is_missing_blocks decommission_ingest_invocation = false

abbrev pub block_range : ℕ → Option ℕ → Option ℕ → Result Error BlockRange
block_range id (some start_index) (some end_index) =
    ok (record { start_block = start_index; end_block = end_index })
block_range id (some start_index) none = err (user_event_schema_violation id)
block_range id none end = err (user_event_schema_violation id)

-- `collect` into a result: the first error, or every value
unfoldable pub collect {ℓ κ} :
    {A : Type ℓ} {B : Type κ} → (A → Result Error B) → List A → Result Error (List B)
collect f [] = ok []
collect f (x ∷ xs) = let rest = collect f xs in f x >>= λ y. rest >>= λ ys. ok (y ∷ ys)

unfoldable pub get_missed_block_ranges : Db → Result Error (List BlockRange)
get_missed_block_ranges db =
    collect (λ r. block_range r.id r.event.missing_blocks_start r.event.missing_blocks_end)
      (sort_by (λ r. r.id) (filter (λ r. is_missing_blocks r.event.event_type) db.user_events))

pub record RngRecord : Type 0 where
  pub ingest_invocation_id : ℕ
  pub pubkey : KexRngPubkey
  pub start_block : ℕ

pub record DecommissionedIngestInvocation : Type 0 where
  pub ingest_invocation_id : ℕ
  pub last_ingested_block : ℕ

pub data FogUserEvent : Type 0 where
  new_rng_record : RngRecord → FogUserEvent
  decommission : DecommissionedIngestInvocation → FogUserEvent
  missing : BlockRange → FogUserEvent

-- The row of ingest_invocations that the left join finds.
unfoldable pub joined : Option ℕ → List IngestInvocation → Option IngestInvocation
joined none rows = none
joined (some id) [] = none
joined (some id) (r ∷ rs) = let rest = joined (some id) rs in if r.id == id then some r else rest

abbrev pub rng_record : ℕ → Option IngestInvocation → Result Error FogUserEvent
rng_record event_id none = err (user_event_schema_violation event_id)
rng_record event_id (some r) = ok (
    new_rng_record (record {
      ingest_invocation_id = r.id;
      pubkey = record { public_key = r.egress_public_key; version = r.rng_version };
      start_block = r.start_block;
    }))

-- `COALESCE(MAX(block_number), 0)`
abbrev pub or_zero : Option ℕ → ℕ
or_zero none = 0
or_zero (some n) = n

abbrev pub decommissioned_event : List IngestedBlock → ℕ → Option ℕ → Result Error FogUserEvent
decommissioned_event blocks event_id none = err (user_event_schema_violation event_id)
decommissioned_event blocks event_id (some id) = ok (
    decommission (record {
      ingest_invocation_id = id;
      last_ingested_block =
          or_zero
            (max_of (λ b. b.block_number) (filter (λ b. b.ingest_invocation_id == id) blocks));
    }))

-- The match on the type of the event.
abbrev pub event_of_type : Db → ℕ → UserEventType → NewUserEvent → Result Error FogUserEvent
event_of_type db id new_ingest_invocation e =
    rng_record id (joined e.new_ingest_invocation_id db.ingest_invocations)
event_of_type db id decommission_ingest_invocation e =
    decommissioned_event db.ingested_blocks id e.decommission_ingest_invocation_id
event_of_type db id missing_blocks e =
    block_range id e.missing_blocks_start e.missing_blocks_end >>= λ r. ok (missing r)

abbrev pub event_of_row : Db → UserEvent → Result Error (ℕ × FogUserEvent)
event_of_row db r = event_of_type db r.id r.event.event_type r.event >>= λ e. ok (r.id, e)

unfoldable pub max_id : ℕ → List UserEvent → ℕ
max_id m [] = m
max_id m (r ∷ rs) = max_id (bigint_max m r.id) rs

abbrev pub i64_max : ℕ
i64_max = 2 ^ 63 - 1

unfoldable pub search_user_events : ℕ → Db → Result Error (List FogUserEvent × ℕ)
search_user_events start_from_user_event_id db =
    if start_from_user_event_id == i64_max
    then ok ([], i64_max)
    else (let rows = filter (λ r. bigint_lt start_from_user_event_id r.id) db.user_events in
        collect (event_of_row db) rows >>= λ events.
        ok (map (λ e. e.1) (sort_by (λ e. e.0) events), max_id start_from_user_event_id rows))

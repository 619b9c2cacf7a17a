-- ===== src/Recovery/Sql/Keys.antt =====
-- fog/sql_recovery_db/src/lib.rs: the operations on ingress keys.
use fog.Prelude.{
  ℕ, Bool, true, false, not, Option, none, some, List, [], ◌∷◌, ◌++◌, map, ◌==◌, if◌then◌else◌,
}
use fog.Prelude.Result.{Result, ok, err}
use fog.Prelude.Queries.{bigint_lt, filter, update, max_of}
use fog.Recovery.IngressKey.{PublicKey, IngressPublicKeyStatus, IngressPublicKeyRecord}
use fog.Recovery.Sql.Tables.{
  IngressKey, IngestedBlock, Db, Error, ingress_keys_schema_violation, has_key,
}

abbrev pub is_key : PublicKey → IngressKey → Bool
is_key key r = r.ingress_public_key == key

abbrev pub status_of : IngressKey → IngressPublicKeyStatus
status_of r = record {
  start_block = r.start_block;
  pubkey_expiry = r.pubkey_expiry;
  retired = r.retired;
  lost = r.lost;
}

-- The tests on the number of rows.
abbrev pub only_status : PublicKey → List IngressKey → Result Error (Option IngressPublicKeyStatus)
only_status key [] = ok none
only_status key (r ∷ []) = ok (some (status_of r))
only_status key (r ∷ r' ∷ rs) = err (ingress_keys_schema_violation key)

unfoldable pub get_ingress_key_status :
    PublicKey → Db → Result Error (Option IngressPublicKeyStatus)
get_ingress_key_status key db = only_status key (filter (is_key key) db.ingress_keys)

-- ON CONFLICT DO NOTHING; whether a row was inserted.
unfoldable pub new_ingress_key : PublicKey → ℕ → Db → Bool × Db
new_ingress_key key start_block db = if has_key key db.ingress_keys then (false, db) else (
  true,
  record db {
    ingress_keys =
        db.ingress_keys
        ++ (record {
          ingress_public_key = key;
          start_block = start_block;
          pubkey_expiry = 0;
          retired = false;
          lost = false;
        }
            ∷ []);
  },
)

abbrev pub set_retired_flag : Bool → IngressKey → IngressKey
set_retired_flag set_retired r = record r { retired = set_retired }

unfoldable pub retire_ingress_key : PublicKey → Bool → Db → Db
retire_ingress_key key set_retired db = record db {
  ingress_keys = update (is_key key) (set_retired_flag set_retired) db.ingress_keys;
}

abbrev pub scanned_with : PublicKey → IngestedBlock → Bool
scanned_with key b = b.ingress_public_key == key

unfoldable pub get_last_scanned_block_index : PublicKey → Db → Option ℕ
get_last_scanned_block_index key db =
    max_of (λ b. b.block_number) (filter (scanned_with key) db.ingested_blocks)

-- The subquery is the one of `get_last_scanned_block_index`.
unfoldable pub get_ingress_key_records : ℕ → Db → List IngressPublicKeyRecord
get_ingress_key_records start_block_at_least db =
    map
      (λ r. record {
        key = r.ingress_public_key;
        status = status_of r;
        last_scanned_block = get_last_scanned_block_index r.ingress_public_key db;
      })
      (filter (λ r. not (bigint_lt r.start_block start_block_at_least)) db.ingress_keys)

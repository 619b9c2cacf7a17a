-- ===== src/Recovery/Sql/Missed.antt =====
-- fog/sql_recovery_db/src/lib.rs, `report_lost_ingress_key`: the blocks that are reported as missed.
use fog.Prelude.{
  ℕ, ◌+◌, ◌≤◌, ◌<◌, Bool, true, false, List, [], ◌∷◌, ◌≡◌, refl, ltb, leb, leb→le, Bool-cases, ◌⊎◌,
  inl, inr, Option, none, some, arith, map, ◌↔◌,
}
use fog.Prelude.Words.{u64_mod, add64-no_wrap}
use fog.Prelude.Result.{ok}
use fog.Prelude.Queries.{filter, update}
use fog.Recovery.BlockRange.{BlockRange, is_valid, contains}
use fog.Recovery.IngressKey.{PublicKey}
use fog.Recovery.Sql.Keys.{is_key, get_last_scanned_block_index}
use fog.Recovery.Sql.Events.{mark_lost, shrink, add_missed, report_lost_ingress_key}
use fog.Recovery.Sql.Tables.{
  IngressKey, missing_blocks, NewUserEvent, Db, missing_blocks_event, insert_user_event,
}

-- A block that the key was promised for, and that comes after every block scanned with it.
abbrev pub IsMissed : IngressKey → Option ℕ → ℕ → Type 0
IsMissed row none b = (row.start_block ≤ b) × (b < row.pubkey_expiry)
IsMissed row (some last) b = (row.start_block ≤ b) × (b < row.pubkey_expiry) × (last < b)

abbrev pub range_event : BlockRange → NewUserEvent
range_event r = record {
  event_type = missing_blocks;
  new_ingest_invocation_id = none;
  decommission_ingest_invocation_id = none;
  missing_blocks_start = some r.start_block;
  missing_blocks_end = some r.end_block;
}

abbrev promised : IngressKey → BlockRange
promised row = record { start_block = row.start_block; end_block = row.pubkey_expiry }

-- What the last two steps do with the rest of the range.
abbrev Added : IngressKey → Option ℕ → ℕ → Option BlockRange → Type 0
Added row s event_id rest =
    (((b : ℕ) → ¬ IsMissed row s b) × ((db : Db) → add_missed event_id rest db ≡ ok db))
    ⊎ ((r : BlockRange) × (is_valid r ≡ true)
        × ((b : ℕ) → (contains r b ≡ true) ↔ IsMissed row s b)
        × ((db : Db) → add_missed event_id rest db ≡ insert_user_event event_id (range_event r) db))

add_missed-valid :
    (event_id : ℕ) (r : BlockRange) (db : Db)
    → is_valid r ≡ true
    → add_missed event_id (some r) db ≡ insert_user_event event_id (range_event r) db
unfolding missing_blocks_event
add_missed-valid event_id r db h = rw h refl

add_missed-invalid :
    (event_id : ℕ) (r : BlockRange) (db : Db)
    → is_valid r ≡ false
    → add_missed event_id (some r) db ≡ ok db
add_missed-invalid event_id r db h = rw h refl

rest-Added :
    (row : IngressKey) (s : Option ℕ) (event_id : ℕ) (r : BlockRange)
    → ((b : ℕ) → (contains r b ≡ true) ↔ IsMissed row s b)
    → Added row s event_id (some r)
unfolding is_valid contains
rest-Added row s event_id r h = elim (Bool-cases (is_valid r)) [
  | inl e ↦ inr (r, e, h, λ db. add_missed-valid event_id r db e)
  | inr e ↦ inl (λ b m. ground (arith, (h b).1 m), λ db. add_missed-invalid event_id r db e)
]

shrink-Added :
    (row : IngressKey) (s : Option ℕ) (event_id : ℕ)
    → ((n : ℕ) → s ≡ some n → n + 1 < u64_mod)
    → Added row s event_id (shrink s (promised row))
unfolding contains
shrink-Added row none event_id bound =
    rest-Added row none event_id (promised row) (λ b. (λ h. ground arith, λ h. ground arith))
shrink-Added row (some n) event_id bound =
    rw (add64-no_wrap n 1 (bound n refl)) (elim (Bool-cases (leb row.pubkey_expiry (n + 1))) [
      | inl e ↦ rw e (inl (λ b m. ground (arith, leb→le row.pubkey_expiry (n + 1) e), λ db. refl))
      | inr e ↦ rw e (elim (Bool-cases (ltb row.start_block (n + 1))) [
        | inl g ↦ rw g (
            rest-Added row (some n) event_id
              (record { start_block = n + 1; end_block = row.pubkey_expiry })
              (λ b. (λ h. ground arith, λ h. ground arith)))
        | inr g ↦ rw g (
            rest-Added row (some n) event_id (promised row)
              (λ b. (λ h. ground arith, λ h. ground arith)))
      ])
    ])

filter-update :
    (p : IngressKey → Bool) (f : IngressKey → IngressKey) (rows : List IngressKey)
    → ((r : IngressKey) → p (f r) ≡ p r)
    → filter p (update p f rows) ≡ map f (filter p rows)
unfolding filter update
filter-update p f [] h = refl
filter-update p f (r ∷ rows) h = elim (Bool-cases (p r)) [
  | inl e ↦ rw (e, h r, e, filter-update p f rows h) refl
  | inr e ↦ rw (e, e, filter-update p f rows h) refl
]

abbrev pub lost_db : PublicKey → Db → Db
lost_db key db = record db { ingress_keys = update (is_key key) mark_lost db.ingress_keys }

-- For a key with one row, whose last scanned block is below 2^64 - 1: when no block is missed,
-- the operation only marks the key lost. Otherwise it also adds an event for a range whose blocks
-- are exactly the missed ones: those from the key's start block up to its published expiry that
-- come after the last block scanned with it. The one thing that can fail is the insertion of that
-- event.
pub report_lost_ingress_key-Missed :
    (event_id : ℕ) (key : PublicKey) (db : Db) (row : IngressKey)
    → filter (is_key key) db.ingress_keys ≡ row ∷ []
    → ((n : ℕ) → get_last_scanned_block_index key db ≡ some n → n + 1 < u64_mod)
    → (((b : ℕ) → ¬ IsMissed row (get_last_scanned_block_index key db) b)
        × (report_lost_ingress_key event_id key db ≡ ok (lost_db key db)))
      ⊎ ((r : BlockRange) × (is_valid r ≡ true)
          × ((b : ℕ) → (contains r b ≡ true) ↔ IsMissed row (get_last_scanned_block_index key db) b)
          × (report_lost_ingress_key event_id key db
              ≡ insert_user_event event_id (range_event r) (lost_db key db)))
unfolding report_lost_ingress_key get_last_scanned_block_index
report_lost_ingress_key-Missed event_id key db row one bound =
    elim (shrink-Added row (get_last_scanned_block_index key db) event_id bound) [
      | inl a ↦ inl (
        a.0,
        rw (filter-update (is_key key) mark_lost db.ingress_keys (λ r. refl), one)
            (a.1 (lost_db key db)),
      )
      | inr a ↦ inr (
        a.0,
        a.1,
        a.2,
        rw (filter-update (is_key key) mark_lost db.ingress_keys (λ r. refl), one)
            (a.3 (lost_db key db)),
      )
    ]

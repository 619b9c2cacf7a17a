-- ===== src/View/Tracker.antt =====
-- fog/view/server/src/block_tracker.rs: which block each ingress key has to provide next, and up to
-- which block everything is loaded. The log lines are not modelled.
pub mod Advance
pub mod Next
pub mod History
pub mod Loaded
use fog.Prelude.{
  ℕ, zero, suc, ◌+◌, ◌-◌, max, ◌≡◌, refl, Bool, true, false, Option, none, some, List, [], ◌∷◌, ltb,
  leb, ◌==◌, if◌then◌else◌,
}
use fog.Prelude.Words.{add64}
use fog.Prelude.Map.{Map, get, insert, nat_eq}
use fog.Recovery.IngressKey.{PublicKey, IngressPublicKeyRecord, covers_block_index}

pub record BlockTracker : Type 0 where
  pub processed_block_per_ingress_key : Map PublicKey ℕ
  pub last_highest_processed_block_count : ℕ

unfoldable pub new : BlockTracker
new = record { processed_block_per_ingress_key = []; last_highest_processed_block_count = 0 }

-- The block that one record has to provide next, if it covers it: the branches of the loop body.
abbrev pub candidate : Option ℕ → ℕ → ℕ
candidate (some last_processed_block) start_block = add64 last_processed_block 1
candidate none start_block = start_block

abbrev pub next_block : Map PublicKey ℕ → IngressPublicKeyRecord → ℕ
next_block m rec = candidate (get m rec.key) rec.status.start_block

-- one round of the loop over the records
abbrev pub ask : Map PublicKey ℕ → Map PublicKey ℕ → IngressPublicKeyRecord → Map PublicKey ℕ
ask m found rec =
    if covers_block_index rec (next_block m rec)
    then insert found rec.key (next_block m rec)
    else found

unfoldable pub next_blocks_from :
    Map PublicKey ℕ → Map PublicKey ℕ → List IngressPublicKeyRecord → Map PublicKey ℕ
next_blocks_from m found [] = found
next_blocks_from m found (rec ∷ recs) = next_blocks_from m (ask m found rec) recs

unfoldable pub next_blocks : BlockTracker → List IngressPublicKeyRecord → Map PublicKey ℕ
next_blocks t recs = next_blocks_from t.processed_block_per_ingress_key [] recs

-- `none` is the panic of the assertion.
abbrev pub moves_forward : Option ℕ → ℕ → Bool
moves_forward none block_index = true
moves_forward (some previous_block_index) block_index = block_index == add64 previous_block_index 1

unfoldable pub block_processed : BlockTracker → PublicKey → ℕ → Option BlockTracker
block_processed t ingress_key block_index =
    let m = t.processed_block_per_ingress_key in
    if moves_forward (get m ingress_key) block_index
    then some (record t { processed_block_per_ingress_key = insert m ingress_key block_index })
    else none

unfoldable pub highest_count : Map PublicKey ℕ → ℕ
highest_count [] = 0
highest_count ((key, block_index) ∷ m) = max (add64 block_index 1) (highest_count m)

unfoldable pub highest_known_block_count : BlockTracker → ℕ
highest_known_block_count t = highest_count t.processed_block_per_ingress_key

-- The block was not loaded with this key.
abbrev pub is_behind : Option ℕ → ℕ → Bool
is_behind (some last_processed_block) next_block_index = ltb last_processed_block next_block_index
is_behind none next_block_index = true

-- The inner loop: the first record that has to provide the block and has not.
unfoldable pub blocking :
    Map PublicKey ℕ → ℕ → List IngressPublicKeyRecord → Option IngressPublicKeyRecord
blocking m next_block_index [] = none
blocking m next_block_index (rec ∷ recs) =
    if covers_block_index rec next_block_index
    then if is_behind (get m rec.key) next_block_index
      then some rec
      else blocking m next_block_index recs
    else blocking m next_block_index recs

-- The outer loop, over `last_highest_processed_block_count`. Each round adds one to it and it never
-- passes the highest known count, which is why the fuel that the caller gives is enough.
unfoldable pub advance :
    ℕ
    → Map PublicKey ℕ
    → List IngressPublicKeyRecord
    → ℕ
    → ℕ
    → Option (ℕ × Option IngressPublicKeyRecord)
advance zero m recs known last = none
advance (suc fuel) m recs known last =
    let rest = advance fuel m recs known (add64 last 1) in
    if ltb known (add64 last 1)
    then some (last, none)
    else elim (blocking m last recs) [ some rec ↦ some (last, some rec) | none ↦ rest ]

abbrev pub with_last :
    BlockTracker
    → Option (ℕ × Option IngressPublicKeyRecord)
    → Option (BlockTracker × ℕ × Option IngressPublicKeyRecord)
with_last t none = none
with_last t (some (last, reason)) =
    some (record t { last_highest_processed_block_count = last }, last, reason)

-- The new tracker, the count and the reason for it to stop. `none` would be a loop that goes on.
unfoldable pub highest_fully_processed_block_count :
    BlockTracker
    → List IngressPublicKeyRecord
    → Option (BlockTracker × ℕ × Option IngressPublicKeyRecord)
highest_fully_processed_block_count t ingress_keys =
    let known = highest_known_block_count t in
    let last = t.last_highest_processed_block_count in
    with_last t
      (advance (suc (known - last)) t.processed_block_per_ingress_key ingress_keys known last)

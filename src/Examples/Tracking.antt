-- ===== src/Examples/Tracking.antt =====
-- Runs of block_tracker.rs and of the records of types.rs.
use fog.Prelude.{
  sym, ap, ◌∙◌, ℕ, ◌≤◌, ◌≡◌, ◌≢◌, refl, ◌↔◌, true, false, Option, none, some, List, [], ◌∷◌, arith,
}
use fog.Prelude.Lists.{In, here, there}
use fog.Prelude.Map.{Map, get, insert, nat_eq}
use fog.Recovery.IngressKey.{
  IngressPublicKeyRecord, IngestableRange, covers_block_index, next_needed_block_index,
  can_provide_block,
}
use fog.Recovery.IngressKey.Ranges.{
  IsBelow, record_end, range_end, IsUnscanned, covers_block_index-range,
  next_needed_block_index-least, next_needed_block_index-none, can_provide_block-range,
}
use fog.View.Tracker.{
  BlockTracker, new, block_processed, next_blocks, highest_known_block_count,
  highest_fully_processed_block_count, advance, highest_count, blocking, next_blocks_from,
}
use fog.View.Tracker.Advance.{Stop, highest_fully_processed_block_count-Advanced}
use fog.View.Tracker.Next.{
  Asks, next_blocks-Asks, block_processed-next_blocks, next_blocks_complete,
}
use fog.View.Tracker.History.{process, recount, Reach, start}
use fog.View.Tracker.Loaded.{HasOneRecord, Reach-loaded}

-- A key that is scanned from block 10 on, and one that was lost after block 11.
abbrev active : IngressPublicKeyRecord
active = record {
  key = 1;
  status = record { start_block = 10; pubkey_expiry = 15; retired = false; lost = false };
  last_scanned_block = some 12;
}

abbrev lost : IngressPublicKeyRecord
lost = record {
  key = 2;
  status = record { start_block = 10; pubkey_expiry = 15; retired = true; lost = true };
  last_scanned_block = some 11;
}

abbrev keys : List IngressPublicKeyRecord
keys = active ∷ lost ∷ []

abbrev tracker : BlockTracker
tracker = record {
  processed_block_per_ingress_key = (1, 11) ∷ (2, 10) ∷ [];
  last_highest_processed_block_count = 0;
}

covers_block_index-range_example :
    (covers_block_index lost 11 ≡ true) ↔ ((10 ≤ 11) × IsBelow (record_end lost) 11)
covers_block_index-range_example = covers_block_index-range lost 11

next_needed_block_index-least_example :
    IsUnscanned active 13 × ((c : ℕ) → IsUnscanned active c → 13 ≤ c)
unfolding next_needed_block_index covers_block_index
next_needed_block_index-least_example = next_needed_block_index-least active 13 (omega arith) refl

next_needed_block_index-none_example :
    (next_needed_block_index lost ≡ none) ↔ ((c : ℕ) → ¬ IsUnscanned lost c)
next_needed_block_index-none_example = next_needed_block_index-none lost (omega arith)

abbrev range : IngestableRange
range = record { id = 3; start_block = 5; decommissioned = true; last_ingested_block = some 9 }

can_provide_block-range_example :
    (can_provide_block range 9 ≡ true) ↔ ((5 ≤ 9) × IsBelow (range_end range) 9)
can_provide_block-range_example = can_provide_block-range range 9

-- The tracker stops at block 11, which the lost key has scanned and which is not loaded yet.
stops_at_lost :
    highest_fully_processed_block_count tracker keys
    ≡ some (record tracker { last_highest_processed_block_count = 11 }, 11, some lost)
unfolding highest_fully_processed_block_count highest_known_block_count advance highest_count
    blocking covers_block_index get
stops_at_lost = refl

abbrev m₀ : Map ℕ ℕ
m₀ = tracker.processed_block_per_ingress_key

highest_fully_processed_block_count-Advanced_example :
    (r : ℕ) × (reason : Option IngressPublicKeyRecord) × (0 ≤ r) × Stop m₀ keys 12 r reason
unfolding highest_known_block_count highest_count
highest_fully_processed_block_count-Advanced_example =
    let a = highest_fully_processed_block_count-Advanced tracker keys (omega arith) (omega arith) in
    (a.0, a.1, a.3, a.6)

next_blocks-Asks_example : Asks m₀ keys 1 12
unfolding next_blocks next_blocks_from covers_block_index get insert
next_blocks-Asks_example = next_blocks-Asks tracker keys 1 12 refl

block_processed-next_blocks_example : (t' : BlockTracker) × (block_processed tracker 2 11 ≡ some t')
unfolding next_blocks next_blocks_from covers_block_index get insert
block_processed-next_blocks_example =
    let a = block_processed-next_blocks tracker keys 2 11 refl in (a.0, a.1)

next_blocks_complete_example : get (next_blocks tracker keys) 2 ≢ none
unfolding covers_block_index get
next_blocks_complete_example = next_blocks_complete tracker keys lost (there (here refl)) refl

-- Block 10 is loaded with both keys, and then the count is taken.
abbrev after_ten : BlockTracker
after_ten = record {
  processed_block_per_ingress_key = (1, 10) ∷ (2, 10) ∷ [];
  last_highest_processed_block_count = 11;
}

abbrev loads : List (ℕ × ℕ)
loads = (2, 10) ∷ (1, 10) ∷ []

history : Reach keys after_ten loads
unfolding new block_processed highest_fully_processed_block_count highest_known_block_count advance
    highest_count blocking covers_block_index get insert next_blocks next_blocks_from
history =
    recount 11 none
      (process 2 10 (process 1 10 start (omega arith) refl refl) (omega arith) refl refl) refl

two_keys : HasOneRecord keys
two_keys r r' (here e) (here f) h = sym e ∙ f
two_keys r r' (there (here e)) (there (here f)) h = sym e ∙ f
two_keys r r' (here e) (there (here f)) h =
    let clash : 1 ≡ 2 = ap (λ x. x.key) e ∙ h ∙ ap (λ x. x.key) (sym f) in
    absurd (omega (arith, clash))
two_keys r r' (there (here e)) (here f) h =
    let clash : 2 ≡ 1 = ap (λ x. x.key) e ∙ h ∙ ap (λ x. x.key) (sym f) in
    absurd (omega (arith, clash))
two_keys r r' (there (there i)) j h = elim i [ ]
two_keys r r' (here e) (there (there j)) h = elim j [ ]
two_keys r r' (there (here e)) (there (there j)) h = elim j [ ]

Reach-loaded_example : In (2, 10) loads
unfolding covers_block_index
Reach-loaded_example =
    Reach-loaded keys after_ten loads lost 10 two_keys history (omega arith) (there (here refl))
      refl

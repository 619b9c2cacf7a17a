-- ===== src/Recovery/IngressKey/Ranges.antt =====
-- The blocks that an ingress key record or an ingestable range covers form one range.
use fog.Prelude.{
  ℕ, suc, ◌+◌, ◌≤◌, ◌<◌, ◌≡◌, ◌↔◌, Bool, true, false, Option, none, some, Option-cases, inl, inr,
  arith,
}
use fog.Prelude.Words.{u64_mod}
use fog.Recovery.IngressKey.{
  IngressPublicKeyRecord, IngestableRange, covers_block_index, next_needed_block_index,
  can_provide_block,
}

-- The end of a range, exclusive, where it has one.
pub data End : Type 0 where
  empty unbounded : End
  below : ℕ → End

abbrev pub IsBelow : End → ℕ → Type 0
IsBelow empty b = ⊥
IsBelow unbounded b = Unit {0}
IsBelow (below e) b = b < e

abbrev pub after_last : Option ℕ → End
after_last none = empty
after_last (some n) = below (suc n)

-- A lost key ends after its last scanned block, a retired one at its expiry, any other never.
abbrev pub key_end : Bool → Bool → ℕ → Option ℕ → End
key_end true retired expiry last = after_last last
key_end false true expiry last = below expiry
key_end false false expiry last = unbounded

abbrev pub record_end : IngressPublicKeyRecord → End
record_end r = key_end r.status.lost r.status.retired r.status.pubkey_expiry r.last_scanned_block

-- A record covers exactly the blocks from its start block on that lie below its end: a lost key
-- ends after its last scanned block (and covers nothing if it has none), a retired key that is not
-- lost at its expiry, any other key never.
pub covers_block_index-range :
    (r : IngressPublicKeyRecord) (b : ℕ)
    → (covers_block_index r b ≡ true) ↔ ((r.status.start_block ≤ b) × IsBelow (record_end r) b)
unfolding covers_block_index
covers_block_index-range r b = (ground arith, ground arith)

-- The last scanned block, if any, lies in the range of the record, and its successor does not wrap.
abbrev pub InOrder : Option ℕ → ℕ → Type 0
InOrder none start_block = Unit {0}
InOrder (some n) start_block = (start_block ≤ n) × (n + 1 < u64_mod)

abbrev pub IsAfter : Option ℕ → ℕ → Type 0
IsAfter none b = Unit {0}
IsAfter (some n) b = n < b

-- A block that the record covers and that was not scanned.
abbrev pub IsUnscanned : IngressPublicKeyRecord → ℕ → Type 0
IsUnscanned r b = (covers_block_index r b ≡ true) × IsAfter r.last_scanned_block b

-- For a record whose last scanned block, if any, is not below its start block, nor the largest `u64`:
-- the next needed block is covered and unscanned, and no covered block below it is unscanned.
pub next_needed_block_index-least :
    (r : IngressPublicKeyRecord) (b : ℕ)
    → InOrder r.last_scanned_block r.status.start_block
    → next_needed_block_index r ≡ some b
    → IsUnscanned r b × ((c : ℕ) → IsUnscanned r c → b ≤ c)
unfolding next_needed_block_index covers_block_index
next_needed_block_index-least r b o h = ((ground arith, ground arith), λ c u. ground arith)

none-IsUnscanned :
    (r : IngressPublicKeyRecord)
    → InOrder r.last_scanned_block r.status.start_block
    → next_needed_block_index r ≡ none
    → (c : ℕ) → ¬ IsUnscanned r c
unfolding next_needed_block_index covers_block_index
none-IsUnscanned r o h c u = ground arith

-- For a record whose last scanned block, if any, is not below its start block, nor the largest `u64`:
-- no block is needed exactly when no block that the record covers comes after the last scanned one.
pub next_needed_block_index-none :
    (r : IngressPublicKeyRecord)
    → InOrder r.last_scanned_block r.status.start_block
    → (next_needed_block_index r ≡ none) ↔ ((c : ℕ) → ¬ IsUnscanned r c)
next_needed_block_index-none r o = (
  none-IsUnscanned r o,
  λ all. elim (Option-cases (next_needed_block_index r)) [
    | inl e ↦ e
    | inr (b, e) ↦ absurd (all b (next_needed_block_index-least r b o e).0)
  ],
)

-- The end of an ingestable range.
abbrev pub range_end : IngestableRange → End
range_end r = key_end r.decommissioned false 0 r.last_ingested_block

-- An ingestable range provides exactly the blocks from its start block on, up to the last ingested
-- one if it is decommissioned.
pub can_provide_block-range :
    (r : IngestableRange) (b : ℕ)
    → (can_provide_block r b ≡ true) ↔ ((r.start_block ≤ b) × IsBelow (range_end r) b)
unfolding can_provide_block
can_provide_block-range r b = (ground arith, ground arith)

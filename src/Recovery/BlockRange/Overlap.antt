-- ===== src/Recovery/BlockRange/Overlap.antt =====
-- fog/fog_types/src/common.rs: what `overlaps` decides.
use fog.Prelude.{ℕ, ◌≡◌, true, ◌↔◌, max, arith}
use fog.Recovery.BlockRange.{BlockRange, contains, is_valid, overlaps}

-- For two ranges that are not empty, `overlaps` says yes exactly when some block is in both.
pub overlaps-contains :
    (r other : BlockRange)
    → is_valid r ≡ true
    → is_valid other ≡ true
    → (overlaps r other ≡ true) ↔ ((b : ℕ) × (contains r b ≡ true) × (contains other b ≡ true))
unfolding contains is_valid overlaps
overlaps-contains r other h h' = (
  λ o. (max r.start_block other.start_block, ground arith, ground arith),
  λ (b, c, c'). ground arith,
)

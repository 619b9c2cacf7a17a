-- ===== src/Recovery/BlockRange.antt =====
-- fog/fog_types/src/common.rs: a half-open range of blocks.
pub mod Overlap
use fog.Prelude.{ℕ, Bool, ltb, leb, ◌&&◌}

pub record BlockRange : Type 0 where
  pub start_block : ℕ
  pub end_block : ℕ

unfoldable pub contains : BlockRange → ℕ → Bool
contains r block = leb r.start_block block && ltb block r.end_block

unfoldable pub is_valid : BlockRange → Bool
is_valid r = ltb r.start_block r.end_block

unfoldable pub overlaps : BlockRange → BlockRange → Bool
overlaps r other = ltb r.start_block other.end_block && ltb other.start_block r.end_block

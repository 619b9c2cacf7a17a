-- ===== src/Ingest/RngStore.antt =====
-- fog/ingest/enclave/impl/src/rng_store.rs: the counter of each user's generator. A counter's eight
-- bytes are little-endian, as on the machine that the enclave runs on. The oblivious map and its
-- capacity come from another crate (Oblivious.antt).
pub mod Counters
pub mod History
use fog.Prelude.{
  ℕ, zero, suc, ◌+◌, ◌-◌, ◌≡◌, refl, Bool, true, false, Option, none, some, List, [], ◌∷◌,
}
use fog.Prelude.Words.{add64}
use fog.Prelude.Bytes.{Bytes, to_le_bytes, from_le_bytes}
use fog.Prelude.Lists.{replicate}
use fog.Oblivious.{ObliviousMap, Code, overflow}
use fog.KexRng.Core.{KexRngCore}

-- `!aligned_shared_secret[0]`
abbrev pub flip_first : Bytes → Bytes
flip_first [] = []
flip_first (b ∷ bs) = (255 - b) ∷ bs

-- the value of a user that has no counter yet
abbrev pub zeroes : Bytes
zeroes = replicate 8 0

-- the callback: the output at the counter, and the counter after it
abbrev pub count_up : KexRngCore → Bytes → Code → Bytes → Bytes × Bytes
count_up core shared_secret code counter_buf =
    let counter_val = from_le_bytes counter_buf in
    (to_le_bytes 8 (add64 counter_val 1), core.prf shared_secret counter_val)

abbrev pub is_overflow : Code → Bool
is_overflow overflow = true
is_overflow c = false

module _ (o : ObliviousMap) where
  pub record RngStore : Type 0 where
    pub omap : Option o.Map
    pub desired_capacity : ℕ

  unfoldable pub new : ℕ → RngStore
  new desired_capacity = record {
    omap = some (o.create desired_capacity);
    desired_capacity = desired_capacity;
  }

  unfoldable pub capacity : RngStore → ℕ
  capacity s = elim s.omap [ none ↦ 0 | some m ↦ o.capacity m ]

  unfoldable pub clear : RngStore → RngStore
  clear s = record s { omap = some (o.create s.desired_capacity) }

  -- `none` is the panic of `unwrap`.
  unfoldable pub next_rng_output :
      KexRngCore → Bytes → RngStore → Option ((Bool × Bytes) × RngStore)
  next_rng_output core shared_secret s = elim s.omap [
    | none ↦ none
    | some m ↦
        let (code, output, m') =
          o.access_and_insert m (flip_first shared_secret) zeroes (count_up core shared_secret) in
        some ((is_overflow code, output), record s { omap = some m' })
  ]

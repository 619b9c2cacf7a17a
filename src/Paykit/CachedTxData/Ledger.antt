-- ===== src/Paykit/CachedTxData/Ledger.antt =====
-- The cached outputs of fog/sample-paykit/src/cached_tx_data/mod.rs against the ledger.
use fog.Prelude.{
  ℕ, ◌+◌, ◌%◌, ◌≤◌, ◌<◌, ◌≡◌, refl, min, ◌⊎◌, inl, inr, Bool, true, false, ◌&&◌, Option, none, some,
  List, [], ◌∷◌, ltb, leb, ltb→lt, lt→ltb, le→leb, Bool-cases, Option-cases, if◌then◌else◌, arith,
}
use fog.Prelude.Words.{u64_mod, add64}
use fog.Prelude.Lists.{All}
use fog.Prelude.Map.{nat_eq}
use fog.Prelude.Queries.{filter}
use fog.Paykit.CachedTxData.{
  OwnedTxOut, CachedTxData, KeyImageStatus, spent_at, not_spent, block_count_max, values,
  get_num_blocks, unspent_at, sum_values, get_balance,
}
use fog.Paykit.CachedTxData.Cache.{filter_some-filter, Ordered, All-map}

abbrev pub not_before : ℕ → Option ℕ → Bool
not_before blocks none = true
not_before blocks (some b) = leb blocks b

abbrev pub total : {TxOut KeyImage : Type 0} → List (OwnedTxOut TxOut KeyImage) → ℕ
total [] = 0
total (txo ∷ txos) = txo.value + total txos

module _ {KeyImage : Type 0} (spent : KeyImage → Option ℕ) where
  -- An output appears before it is spent.
  abbrev pub IsLater : ℕ → KeyImage → Type 0
  IsLater block_index key_image = (b : ℕ) → spent key_image ≡ some b → block_index < b

  -- It was not spent in the blocks below.
  abbrev pub IsUnspentBelow : ℕ → KeyImage → Type 0
  IsUnspentBelow blocks key_image = (b : ℕ) → spent key_image ≡ some b → blocks ≤ b

  not_before-IsUnspentBelow :
      (n blocks : ℕ) (key_image : KeyImage)
      → n ≤ blocks
      → IsUnspentBelow blocks key_image
      → not_before n (spent key_image) ≡ true
  not_before-IsUnspentBelow n blocks key_image l u = elim (Option-cases (spent key_image)) [
    | inl e ↦ rw e refl
    | inr (b, e) ↦ rw e (le→leb n b (omega (arith, l, u b e)))
  ]

module _ {TxOut KeyImage : Type 0} (spent : KeyImage → Option ℕ) where
  -- What a status says is so. A block index of all ones leaves no count of blocks above it.
  abbrev pub Knows : ℕ → OwnedTxOut TxOut KeyImage → KeyImageStatus → Type 0
  Knows complete txo (spent_at n) = spent txo.key_image ≡ some n
  Knows complete txo (not_spent as_of) =
      (complete ≤ as_of)
      × IsUnspentBelow spent as_of txo.key_image
      × ((txo.block_index < as_of) ⊎ (u64_mod ≤ txo.block_index + 1))

  abbrev pub IsKnown : ℕ → OwnedTxOut TxOut KeyImage → Type 0
  IsKnown complete txo = IsLater spent txo.block_index txo.key_image × Knows complete txo txo.status

  -- The invariant of the cache.
  abbrev pub IsConsistent : CachedTxData TxOut KeyImage → Type 0
  IsConsistent s =
      (s.key_image_data_completeness ≤ block_count_max)
      × Ordered 0 s.owned_tx_outs
      × All (IsKnown s.key_image_data_completeness) (values s.owned_tx_outs)

  -- Whether the output is there and not spent in the ledger of so many blocks.
  abbrev pub counts_at : ℕ → OwnedTxOut TxOut KeyImage → Bool
  counts_at blocks txo = ltb txo.block_index blocks && not_before blocks (spent txo.key_image)

  unspent_at-Knows :
      (s : CachedTxData TxOut KeyImage) (n : ℕ) (txo : OwnedTxOut TxOut KeyImage)
      (status : KeyImageStatus)
      → n ≤ s.key_image_data_completeness
      → n ≤ block_count_max
      → txo.block_index < n
      → IsLater spent txo.block_index txo.key_image
      → Knows s.key_image_data_completeness txo status
      → unspent_at TxOut KeyImage s n txo status ≡ some (not_before n (spent txo.key_image))
  unspent_at-Knows s n txo (spent_at b) c m l later e =
      rw (e, lt→ltb txo.block_index b (later b e)) refl
  unspent_at-Knows s n txo (not_spent as_of) c m l later (k, u, i) =
      let below : txo.block_index < as_of = elim i [
        | inl h ↦ h
        | inr h ↦ absurd (omega (arith, h, l, m))
      ] in
      rw
        (
          lt→ltb txo.block_index as_of below,
          le→leb s.key_image_data_completeness as_of k,
          not_before-IsUnspentBelow spent n as_of txo.key_image (omega (arith, c, k)) u,
        )
        refl

  tested :
      (s : CachedTxData TxOut KeyImage) (n : ℕ) (txo : OwnedTxOut TxOut KeyImage)
      → n ≤ s.key_image_data_completeness
      → n ≤ block_count_max
      → IsKnown s.key_image_data_completeness txo
      → (if ltb txo.block_index n then unspent_at TxOut KeyImage s n txo txo.status else some false)
        ≡ some (counts_at n txo)
  tested s n txo c m (later, k) = elim (Bool-cases (ltb txo.block_index n)) [
    | inl e ↦ rw e (unspent_at-Knows s n txo txo.status c m (ltb→lt txo.block_index n e) later k)
    | inr e ↦ rw e refl
  ]

  sum_values-total :
      (txos : List (OwnedTxOut TxOut KeyImage)) (running : ℕ)
      → running < u64_mod
      → sum_values TxOut KeyImage txos running ≡ (running + total txos) % u64_mod
  unfolding sum_values
  sum_values-total [] running h = omega (arith, h)
  sum_values-total (txo ∷ txos) running h =
      omega (arith, sum_values-total txos (add64 running txo.value) (omega arith))

  sum_values-zero :
      (txos : List (OwnedTxOut TxOut KeyImage))
      → sum_values TxOut KeyImage txos 0 ≡ total txos % u64_mod
  sum_values-zero txos = omega (arith, sum_values-total txos 0 (omega arith))

  -- No assertion fails, and the balance is that of the ledger.
  pub get_balance-IsConsistent :
      (s : CachedTxData TxOut KeyImage)
      → IsConsistent s
      → get_balance TxOut KeyImage s
        ≡ some (
          total (filter (counts_at (get_num_blocks TxOut KeyImage s)) (values s.owned_tx_outs))
              % u64_mod,
          get_num_blocks TxOut KeyImage s,
        )
  unfolding get_balance get_num_blocks
  get_balance-IsConsistent s (m, o, known) =
      let n = min s.rng_set.highest_processed_block_count s.key_image_data_completeness in
      let c : n ≤ s.key_image_data_completeness = omega arith in
      rw
        (
          le→leb n s.key_image_data_completeness c,
          filter_some-filter _ (counts_at n) (values s.owned_tx_outs) (
              All-map (IsKnown s.key_image_data_completeness) _ (values s.owned_tx_outs)
                (λ txo k. tested s n txo c (omega (arith, m)) k) known),
          sum_values-zero (filter (counts_at n) (values s.owned_tx_outs)),
        )
        refl

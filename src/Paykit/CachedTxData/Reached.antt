-- ===== src/Paykit/CachedTxData/Reached.antt =====
-- Every state that the polls of fog/sample-paykit/src/cached_tx_data/mod.rs reach.
use fog.Prelude.{ℕ, ◌%◌, ◌≡◌, subst, inl, inr, Option, some, List, arith}
use fog.Prelude.Words.{u64_mod}
use fog.Prelude.Lists.{All}
use fog.Prelude.Map.{Eq}
use fog.Prelude.Queries.{filter}
use fog.Prelude.Result.{Result, ok, err, Holds}
use fog.View.Query.{TxOutRecord}
use fog.View.UserRngSet.{UserRngSet}
use fog.Paykit.KeyImages.{CheckKeyImagesResponse}
use fog.Paykit.CachedTxData.{
  CachedTxData, Scan, new, take_txos, images_of, poll_fog_for_key_images, get_balance,
  get_num_blocks, values,
}
use fog.Paykit.CachedTxData.Ledger.{IsConsistent, counts_at, total, get_balance-IsConsistent}
use fog.Paykit.CachedTxData.Steps.{IsGenuine, take_txos-IsConsistent}
use fog.Paykit.CachedTxData.Answers.{IsHonest, poll_fog_for_key_images-IsConsistent}

module _ {TxOut KeyImage MatchError : Type 0} ⦃eq : Eq KeyImage⦄ (LedgerError : Type 0)
    (spent : KeyImage → Option ℕ) (scan : Scan TxOut KeyImage MatchError) where
  -- The state after any polls of the two servers. `spent` is the ledger: the block in which a key image
  -- is spent. The view server's records and the key image server's answers are true of it.
  pub data Reached : CachedTxData TxOut KeyImage → Type 1 where
    initially : Reached (new TxOut KeyImage)
    polled_txos :
        {s : CachedTxData TxOut KeyImage} (records : List TxOutRecord) (rng_set : UserRngSet)
        → All (IsGenuine spent scan) records
        → Reached s
        → Reached (take_txos TxOut KeyImage scan records rng_set s)
    polled_key_images :
        {s s' : CachedTxData TxOut KeyImage}
        (check : List KeyImage → Result LedgerError (CheckKeyImagesResponse KeyImage))
        → Holds (IsHonest spent) (check (images_of TxOut KeyImage s))
        → poll_fog_for_key_images TxOut KeyImage check s ≡ some (ok s')
        → Reached s
        → Reached s'

  Reached-IsConsistent : (s : CachedTxData TxOut KeyImage) → Reached s → IsConsistent spent s
  unfolding new
  Reached-IsConsistent s initially = (omega arith, tt, tt)
  Reached-IsConsistent s (polled_txos {s = s₀} records rng_set g r) =
      take_txos-IsConsistent spent scan records rng_set s₀ g (Reached-IsConsistent s₀ r)
  Reached-IsConsistent s (polled_key_images {s = s₀} check h e r) =
      elim (poll_fog_for_key_images-IsConsistent spent check s₀ h (Reached-IsConsistent s₀ r)) [
        | inl (s', e', i) ↦ let same : s' ≡ s = cc in subst (λ x. IsConsistent spent x) same i
        | inr (x, e') ↦ cc
      ]

  -- In every state that polls reach whose answers are true of the ledger, with at most one result for
  -- a key image, and whose records are of outputs not spent up to their own block: the balance is
  -- computed without a failed assertion. It is the sum, as a `u64`, of the outputs in the cache that are
  -- in the ledger of the first `get_num_blocks` blocks and are not spent in those blocks.
  pub Reached-get_balance :
      (s : CachedTxData TxOut KeyImage)
      → Reached s
      → get_balance TxOut KeyImage s
        ≡ some (
          total (
                filter (counts_at spent (get_num_blocks TxOut KeyImage s)) (values s.owned_tx_outs))
              % u64_mod,
          get_num_blocks TxOut KeyImage s,
        )
  Reached-get_balance s r = get_balance-IsConsistent spent s (Reached-IsConsistent s r)

  -- In a state that such polls reach, a poll of the key images does not panic if the answer is true of
  -- the ledger and has at most one result for a key image; it ends with an error or in such a state.
  pub Reached-poll :
      (s : CachedTxData TxOut KeyImage)
      (check : List KeyImage → Result LedgerError (CheckKeyImagesResponse KeyImage))
      → Holds (IsHonest spent) (check (images_of TxOut KeyImage s))
      → Reached s
      → (r : Result LedgerError (CachedTxData TxOut KeyImage)) × (poll_fog_for_key_images TxOut
            KeyImage check s
          ≡ some r)
        × Holds Reached r
  Reached-poll s check h r =
      elim (poll_fog_for_key_images-IsConsistent spent check s h (Reached-IsConsistent s r)) [
        | inl (s', e, i) ↦ (ok s', e, polled_key_images check h e r)
        | inr (x, e) ↦ (err x, e, tt)
      ]

-- ===== src/Paykit/CachedTxData/Steps.antt =====
-- What the two polls of fog/sample-paykit/src/cached_tx_data/mod.rs keep of the cache.
use fog.Prelude.{
  ℕ, ◌+◌, ◌≤◌, ◌<◌, ◌≡◌, refl, min, ◌⊎◌, inl, inr, Option, List, [], ◌∷◌, Bool-cases, ltb, ltb→lt,
  ltb→le, arith,
}
use fog.Prelude.Words.{u64_mod, add64}
use fog.Prelude.Lists.{All}
use fog.Prelude.Map.{nat_eq}
use fog.Prelude.Result.{ok, Result-cases}
use fog.View.Query.{TxOutRecord}
use fog.View.UserRngSet.{UserRngSet}
use fog.Paykit.CachedTxData.{
  OwnedTxOut, CachedTxData, KeyImageStatus, spent_at, not_spent, values, Scan, owned_tx_out, own,
  consume_new_txo_records, take_txos, completeness, completeness_with,
}
use fog.Paykit.CachedTxData.Cache.{All-map, values-insert_ordered, insert_ordered-Ordered}
use fog.Paykit.CachedTxData.Ledger.{IsLater, Knows, IsKnown, IsConsistent}

counted : (b : ℕ) → (b < add64 b 1) ⊎ (u64_mod ≤ b + 1)
counted b = elim (Bool-cases (ltb (b + 1) u64_mod)) [
  | inl e ↦ inl (omega (arith, ltb→lt (b + 1) u64_mod e))
  | inr e ↦ inr (ltb→le (b + 1) u64_mod e)
]

module _ {TxOut KeyImage : Type 0} (spent : KeyImage → Option ℕ) where
  Knows-mono :
      (c c' : ℕ) (txo : OwnedTxOut TxOut KeyImage) (status : KeyImageStatus)
      → c' ≤ c
      → Knows spent c txo status
      → Knows spent c' txo status
  Knows-mono c c' txo (spent_at n) l e = e
  Knows-mono c c' txo (not_spent as_of) l (k, u, i) = (omega (arith, l, k), u, i)

  pub IsKnown-mono :
      (c c' : ℕ) (txo : OwnedTxOut TxOut KeyImage)
      → c' ≤ c
      → IsKnown spent c txo
      → IsKnown spent c' txo
  IsKnown-mono c c' txo l (later, k) = (later, Knows-mono c c' txo txo.status l k)

  -- A record of an output of the account tells the block in which the output appeared.
  abbrev pub IsGenuine :
      {MatchError : Type 0} → Scan TxOut KeyImage MatchError → TxOutRecord → Type 0
  IsGenuine scan rec =
      (tx_out : TxOut) (value : ℕ) (key_image : KeyImage)
      → scan rec ≡ ok (tx_out, value, key_image)
      → IsLater spent rec.block_index key_image

  own-IsConsistent :
      (s : CachedTxData TxOut KeyImage) (rec : TxOutRecord) (tx_out : TxOut) (value : ℕ)
      (key_image : KeyImage)
      → IsLater spent rec.block_index key_image
      → IsConsistent spent s
      → IsConsistent spent (
          own TxOut KeyImage s
            (owned_tx_out TxOut KeyImage rec (tx_out, value, key_image))
            (add64 rec.block_index 1))
  own-IsConsistent s rec tx_out value key_image later (m, o, known) =
      let as_of = add64 rec.block_index 1 in
      let c = min s.key_image_data_completeness as_of in
      (
        omega (arith, m),
        insert_ordered-Ordered 0 s.owned_tx_outs rec.tx_out_global_index _ (omega arith) refl o,
        values-insert_ordered (IsKnown spent c) s.owned_tx_outs rec.tx_out_global_index _
            (later, (omega arith, λ b e. omega (arith, later b e), counted rec.block_index))
            (All-map _ (IsKnown spent c) (values s.owned_tx_outs)
              (λ txo k. IsKnown-mono s.key_image_data_completeness c txo (omega arith) k) known),
      )

  pub consume-IsConsistent :
      {MatchError : Type 0} (scan : Scan TxOut KeyImage MatchError) (recs : List TxOutRecord)
      (s : CachedTxData TxOut KeyImage) (errors : List MatchError)
      → All (IsGenuine scan) recs
      → IsConsistent spent s
      → IsConsistent spent (consume_new_txo_records TxOut KeyImage scan recs s errors).0
  unfolding consume_new_txo_records
  consume-IsConsistent scan [] s errors g i = i
  consume-IsConsistent scan (rec ∷ recs) s errors (g, gs) i = elim (Result-cases (scan rec)) [
    | inl ((tx_out, value, key_image), e) ↦
        rw (e, consume_new_txo_records)
          (consume-IsConsistent scan recs _ errors gs
            (own-IsConsistent s rec tx_out value key_image (g tx_out value key_image e) i))
    | inr (x, e) ↦ rw (e, consume_new_txo_records) (consume-IsConsistent scan recs s _ gs i)
  ]

  -- The poll of the view server, whatever the set and the records that it returns.
  pub take_txos-IsConsistent :
      {MatchError : Type 0} (scan : Scan TxOut KeyImage MatchError) (recs : List TxOutRecord)
      (rng_set : UserRngSet) (s : CachedTxData TxOut KeyImage)
      → All (IsGenuine scan) recs
      → IsConsistent spent s
      → IsConsistent spent (take_txos TxOut KeyImage scan recs rng_set s)
  unfolding take_txos
  take_txos-IsConsistent scan recs rng_set s g i = consume-IsConsistent scan recs _ [] g i

  completeness-le :
      (txos : List (OwnedTxOut TxOut KeyImage)) (p : ℕ) → completeness TxOut KeyImage txos p ≤ p
  unfolding completeness
  completeness-le [] p = omega arith
  completeness-le (txo ∷ txos) p =
      omega (arith, completeness-le txos (completeness_with p txo.status), with_le txo.status)
    where
      with_le : (status : KeyImageStatus) → completeness_with p status ≤ p
      with_le (spent_at n) = omega arith
      with_le (not_spent as_of) = omega arith

  Knows-with :
      (p c : ℕ) (txo : OwnedTxOut TxOut KeyImage) (status : KeyImageStatus)
      → c ≤ completeness_with p status
      → Knows spent 0 txo status
      → Knows spent c txo status
  Knows-with p c txo (spent_at n) l e = e
  Knows-with p c txo (not_spent as_of) l (k, u, i) = (omega (arith, l), u, i)

  below :
      (xs : List (OwnedTxOut TxOut KeyImage)) (q : ℕ)
      → All (IsKnown spent 0) xs
      → All (IsKnown spent (completeness TxOut KeyImage xs q)) xs
  unfolding completeness
  below [] q h = tt
  below (x ∷ xs) q ((later, h), hs) = (
    (later, Knows-with q _ x x.status (completeness-le xs (completeness_with q x.status)) h),
    below xs (completeness_with q x.status) hs,
  )

  -- The new completeness is at most every count of blocks in which an output is not spent.
  pub completeness-IsKnown :
      (txos : List (OwnedTxOut TxOut KeyImage)) (p : ℕ)
      → All (IsKnown spent 0) txos
      → (completeness TxOut KeyImage txos p ≤ p)
        × All (IsKnown spent (completeness TxOut KeyImage txos p)) txos
  completeness-IsKnown txos p k = (completeness-le txos p, below txos p k)

-- ===== src/Oram/Roots.antt =====
-- fog/ocall_oram_storage/trusted/src/lib.rs: the trusted Merkle roots in `checkout`.
use fog.Prelude.{
  ℕ, zero, suc, ◌+◌, ◌-◌, ◌≤◌, ◌<◌, ◌≡◌, refl, false, ◌&&◌, inl, inr, Option, none, some, List, [],
  ◌∷◌, map, ◌==◌, Bool-cases, Option-cases, ltb, arith,
}
use fog.Prelude.Bytes.{Bytes}
use fog.Prelude.Lists.{length, take}
use fog.Oram.Untrusted.{UntrustedAllocation, checkout_oram_storage}
use fog.Oram.Storage.{
  Platform, OcallOramStorage, LastHash, Block, blocks_of, open_block, open_blocks, checkout_outside,
  position_below, checkout, with_treetop,
}

length-take : (n : ℕ) (xs : List ℕ) → length (take n xs) ≤ n
length-take zero xs = omega arith
length-take (suc n) [] = omega arith
length-take (suc n) (x ∷ xs) = omega (arith, length-take n xs)

module _ (p : Platform) where
  -- The storage with other roots.
  abbrev pub with_roots : List Bytes → OcallOramStorage p → OcallOramStorage p
  with_roots roots s = record s { trusted_merkle_roots = roots }

  -- A result whose storage has other roots.
  abbrev pub result_with_roots :
      List Bytes
      → Option (List (Bytes × Bytes) × OcallOramStorage p × UntrustedAllocation)
      → Option (List (Bytes × Bytes) × OcallOramStorage p × UntrustedAllocation)
  result_with_roots roots none = none
  result_with_roots roots (some (plains, s, u)) = some (plains, with_roots roots s, u)

  length-blocks_of :
      (indices : List ℕ) (items : List (Bytes × Bytes))
      → length (blocks_of p indices items) ≤ length indices
  length-blocks_of [] items = omega arith
  length-blocks_of (i ∷ is) [] = omega arith
  length-blocks_of (i ∷ is) (x ∷ xs) = omega (arith, length-blocks_of is xs)

  open_block-roots :
      (roots : List Bytes) (s : OcallOramStorage p) (first idx : ℕ) (block : Block p)
      (last : LastHash)
      → idx < first
      → open_block p (with_roots roots s) first idx block last ≡ open_block p s first idx block last
  unfolding open_block
  open_block-roots roots s first idx block last l =
      let low : (idx == first) ≡ false = ground (arith, l) in rw low refl

  open_blocks-roots :
      (roots : List Bytes) (s : OcallOramStorage p) (first idx : ℕ) (blocks : List (Block p))
      (last : LastHash)
      → idx + length blocks ≤ first
      → open_blocks p (with_roots roots s) first idx blocks last
        ≡ open_blocks p s first idx blocks last
  unfolding open_blocks
  open_blocks-roots roots s first idx [] last l = refl
  open_blocks-roots roots s first idx (b ∷ bs) last l =
      let one = open_block-roots roots s first idx b last (omega (arith, l)) in
      elim (Option-cases (open_block p s first idx b last)) [
        | inl e ↦ rw (one, e, open_blocks) refl
        | inr ((plain, scratch, hash), e) ↦
            rw
              (
                one,
                e,
                open_blocks-roots roots s first (idx + 1) bs (some hash) (omega (arith, l)),
                open_blocks,
              )
              refl
      ]

  length-items :
      (indices : List ℕ) (blocks : List (Block p)) (first : ℕ)
      → length blocks ≤ length indices
      → length indices ≤ first
      → 0 + length blocks ≤ first
  length-items indices blocks first a b = omega (arith, a, b)

  checkout_outside-roots :
      (roots : List Bytes) (s : OcallOramStorage p) (u : UntrustedAllocation) (first : ℕ)
      (indices : List ℕ)
      → length indices ≤ first
      → checkout_outside p (with_roots roots s) u first indices
        ≡ result_with_roots roots (checkout_outside p s u first indices)
  unfolding checkout_outside
  checkout_outside-roots roots s u first indices l =
      elim (Option-cases
        (checkout_oram_storage (map (λ index. index - s.treetop_max_count) indices) u)) [
          | inl e ↦ rw (e, checkout_outside) refl
          | inr ((items, u'), e) ↦
              let same = open_blocks-roots roots s first 0 (blocks_of p indices items) none (
                length-items indices (blocks_of p indices items) first
                  (length-blocks_of indices items) l) in
              elim (Option-cases (open_blocks p s first 0 (blocks_of p indices items) none)) [
                | inl f ↦ rw (e, same, f, checkout_outside) refl
                | inr ((plains, scratches), f) ↦ rw (e, same, f, checkout_outside) refl
              ]
        ]

  with_treetop-roots :
      (roots : List Bytes) (top : List (Bytes × Bytes))
      (r : Option (List (Bytes × Bytes) × OcallOramStorage p × UntrustedAllocation))
      → with_treetop p top (result_with_roots roots r)
        ≡ result_with_roots roots (with_treetop p top r)
  with_treetop-roots roots top none = refl
  with_treetop-roots roots top (some (plains, s, u)) = refl

  -- Whatever the storage, the path, what the untrusted side answers and the roots: with other trusted
  -- Merkle roots `checkout` panics in the same cases and returns the same blocks.
  pub checkout-roots :
      (roots : List Bytes) (s : OcallOramStorage p) (u : UntrustedAllocation) (index : ℕ)
      → checkout p (with_roots roots s) u index ≡ result_with_roots roots (checkout p s u index)
  unfolding checkout
  checkout-roots roots s u index = elim (Bool-cases (ltb 0 index && ltb index s.count)) [
    | inr e ↦ rw e refl
    | inl e ↦ elim (Option-cases (position_below s.treetop_max_count (p.parents index))) [
      | inl f ↦ rw (e, f) refl
      | inr (first, f) ↦ elim (Bool-cases (ltb 0 first)) [
        | inr g ↦ rw (e, f, g) refl
        | inl g ↦
            rw
              (
                e,
                f,
                g,
                checkout_outside-roots roots s u first (take first (p.parents index))
                    (length-take first (p.parents index)),
              )
              (with_treetop-roots roots _
                (checkout_outside p s u first (take first (p.parents index))))
      ]
    ]
  ]

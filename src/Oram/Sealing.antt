-- ===== src/Oram/Sealing.antt =====
-- fog/ocall_oram_storage/trusted/src/lib.rs: the loop of `checkout` undoes the loop of `checkin`.
use fog.Prelude.{
  ℕ, zero, suc, ◌+◌, ◌-◌, ◌≤◌, ◌<◌, ◌%◌, ◌≡◌, refl, sym, ap, ◌∙◌, true, false, inl, inr, none, some,
  List, [], ◌∷◌, ◌++◌, ◌==◌, Bool-cases, arith,
}
use fog.Prelude.Words.{u64_mod}
use fog.Prelude.Bytes.{Bytes, from_le_bytes, bytes_beq_iff}
use fog.Prelude.Lists.{All, length, take, drop, replicate, length-replicate}
use fog.Oram.ExtraMeta.{
  ExtraMeta, extra_meta_of_bytes, extra_meta_to_bytes, compute_block_hash,
  extra_meta_of_bytes-to_bytes, drop-append, take_prefix,
}
use fog.Oram.Storage.{
  Platform, OcallOramStorage, LastHash, child_matches, with_child, Block, extra_meta, is_empty,
  scratch_size, zeros, block_hash, hash_of, open_block, open_blocks, sealed_extra, seal_block,
  seal_blocks, head_scratch, tail_scratches, make_aes_nonce,
}

-- What the documentation of the cipher and of the hash says.
pub record CryptoLaws (p : Platform) : Type 0 where
  pub decrypt-encrypt :
      (key nonce : Bytes) (plain : Bytes × Bytes)
      → p.decrypt key nonce (p.encrypt key nonce plain) ≡ plain
  pub encrypt-length :
      (key nonce : Bytes) (plain : Bytes × Bytes)
      → length (p.encrypt key nonce plain).1 ≡ length plain.1
  pub blake2b-length : (bytes : Bytes) → length (p.blake2b bytes) ≡ 64

length-take : (n : ℕ) (xs : Bytes) → n ≤ length xs → length (take n xs) ≡ n
length-take zero xs h = refl
length-take (suc n) [] h = absurd (omega (arith, h))
length-take (suc n) (x ∷ xs) h = ap suc (length-take n xs (omega (arith, h)))

length-drop : (n : ℕ) (xs : Bytes) → length (drop n xs) ≡ length xs - n
length-drop zero xs = omega arith
length-drop (suc n) [] = omega arith
length-drop (suc n) (x ∷ xs) = omega (arith, length-drop n xs)

-- A hash of the block below has 16 bytes.
abbrev pub IsHash : LastHash → Type 0
IsHash none = Unit
IsHash (some (index, hash)) = length hash ≡ 16

abbrev IsExtra : ExtraMeta → Type 0
IsExtra e = (length e.left_child_hash ≡ 16) × (length e.right_child_hash ≡ 16)

with_child-IsExtra :
    (last : LastHash) (e : ExtraMeta) → IsHash last → IsExtra e → IsExtra (with_child last e)
unfolding with_child
with_child-IsExtra none e h i = i
with_child-IsExtra (some (index, hash)) e h (l, r) = elim (Bool-cases (index % 2 == 0)) [
  | inl f ↦ rw f (h, r)
  | inr f ↦ rw f (l, h)
]

with_child-block_ctr :
    (last : LastHash) (e : ExtraMeta) → (with_child last e).block_ctr ≡ e.block_ctr
unfolding with_child
with_child-block_ctr none e = refl
with_child-block_ctr (some (index, hash)) e = elim (Bool-cases (index % 2 == 0)) [
  | inl f ↦ rw f refl
  | inr f ↦ rw f refl
]

-- The hash that was put in is the one that is looked for.
child_matches-with_child :
    (last : LastHash) (e : ExtraMeta) (ctr : ℕ)
    → child_matches last (record (with_child last e) { block_ctr = ctr }) ≡ true
unfolding child_matches with_child
child_matches-with_child none e ctr = refl
child_matches-with_child (some (index, hash)) e ctr = elim (Bool-cases (index % 2 == 0)) [
  | inl f ↦ rw (f, (bytes_beq_iff hash hash).1 refl) refl
  | inr f ↦ rw (f, (bytes_beq_iff hash hash).1 refl) refl
]

drop-replicate : (n m : ℕ) → drop {A = ℕ} n (replicate (n + m) 0) ≡ replicate m 0
drop-replicate zero m = let e : 0 + m ≡ m = omega arith in rw e refl
drop-replicate (suc n) m =
    let e : suc n + m ≡ suc (n + m) = omega arith in rw e (drop-replicate n m)

zero_ctr : (extra_meta_of_bytes (replicate 40 0)).block_ctr ≡ 0
unfolding extra_meta_of_bytes from_le_bytes
zero_ctr = refl

module _ (p : Platform) where
  -- An entry of the scratch buffer has its size, and its counter can be counted up.
  abbrev pub IsReady : Bytes → Type 0
  IsReady scratch =
      (length scratch ≡ scratch_size p) × ((extra_meta p scratch).block_ctr + 1 < u64_mod)

  pub zeros-IsReady : IsReady (zeros (scratch_size p))
  zeros-IsReady = (
    length-replicate (scratch_size p) 0,
    omega (
      arith,
      ap (λ x. (extra_meta_of_bytes x).block_ctr) (drop-replicate p.meta_size 40),
      zero_ctr,
    ),
  )

  reopened :
      (t : OcallOramStorage p) (first idx index : ℕ) (e_data e_meta scratch : Bytes)
      (extra : ExtraMeta) (last : LastHash) (plain : Bytes × Bytes)
      → idx < first
      → is_empty p scratch ≡ false
      → extra_meta p scratch ≡ extra
      → take p.meta_size scratch ≡ e_meta
      → child_matches last extra ≡ true
      → p.decrypt t.aes_key (make_aes_nonce index extra.block_ctr) (e_data, e_meta) ≡ plain
      → open_block p t first idx (index, e_data, scratch) last
        ≡ some (
          plain,
          plain.1 ++ drop p.meta_size scratch,
          (index, block_hash p t (index, e_data, scratch)),
        )
  unfolding open_block
  reopened t first idx index e_data e_meta scratch extra last plain l e x m c d =
      let low : (idx == first) ≡ false = ground (arith, l) in rw (e, x, c, low, m, d) refl

  -- What stands after the metadata of a sealed block.
  abbrev Sealed : ExtraMeta → Bytes → Type 0
  Sealed extra scratch = (extra_meta p scratch ≡ extra) × (is_empty p scratch ≡ false)

  extended-Sealed :
      (e_meta : Bytes) (extra : ExtraMeta)
      → length e_meta ≡ p.meta_size
      → IsExtra extra
      → extra.block_ctr < u64_mod
      → 0 < extra.block_ctr
      → Sealed extra (e_meta ++ extra_meta_to_bytes extra)
  extended-Sealed e_meta extra len (l, r) small positive =
      let scratch = e_meta ++ extra_meta_to_bytes extra in
      let same : extra_meta p scratch ≡ extra =
        ap (λ x. extra_meta_of_bytes x)
          (drop-append e_meta (extra_meta_to_bytes extra) p.meta_size len)
        ∙ extra_meta_of_bytes-to_bytes extra small l r in
      (
        same,
        elim (Bool-cases (is_empty p scratch)) [
          | inr e ↦ e
          | inl e ↦
              let all_zero : scratch ≡ zeros (scratch_size p) =
                (bytes_beq_iff scratch (zeros (scratch_size p))).0 e in
              let ctr : extra.block_ctr ≡ 0 =
                ap (λ x. x.block_ctr) (sym same)
                ∙ ap (λ x. (extra_meta p x).block_ctr) all_zero
                ∙ ap (λ x. (extra_meta_of_bytes x).block_ctr) (drop-replicate p.meta_size 40)
                ∙ zero_ctr in
              absurd (omega (arith, ctr, positive))
        ],
      )

  extra_meta-IsExtra :
      (scratch : Bytes) → length scratch ≡ scratch_size p → IsExtra (extra_meta p scratch)
  unfolding extra_meta_of_bytes
  extra_meta-IsExtra scratch h =
      let rest = drop p.meta_size scratch in
      (
        length-take 16 (drop 8 rest)
            (omega (arith, length-drop 8 rest, length-drop p.meta_size scratch, h)),
        length-take 16 (drop 24 rest)
            (omega (arith, length-drop 24 rest, length-drop p.meta_size scratch, h)),
      )

  head_scratch-IsReady :
      (scratches : List Bytes) → All IsReady scratches → IsReady (head_scratch p scratches)
  head_scratch-IsReady [] a = zeros-IsReady
  head_scratch-IsReady (x ∷ xs) (h, a) = h

  tail_scratches-IsReady :
      (scratches : List Bytes) → All IsReady scratches → All IsReady (tail_scratches p scratches)
  tail_scratches-IsReady [] a = tt
  tail_scratches-IsReady (x ∷ xs) (h, a) = a

  module _ (laws : CryptoLaws p) where
    block_hash-length :
        (t : OcallOramStorage p) (block : Block p) → length (block_hash p t block) ≡ 16
    unfolding compute_block_hash
    block_hash-length t (index, e_data, scratch) =
        length-take 16 _ (omega (arith, laws.blake2b-length _))

    -- A block that was sealed is opened again.
    open_block-seal_block :
        (s t : OcallOramStorage p) (first idx index : ℕ) (plain : Bytes × Bytes) (scratch : Bytes)
        (last : LastHash)
        → t.aes_key ≡ s.aes_key
        → t.hash_key ≡ s.hash_key
        → idx < first
        → length plain.1 ≡ p.meta_size
        → IsReady scratch
        → IsHash last
        → (scratch' : Bytes) × (open_block p t first idx
              (seal_block p s index plain scratch last)
              last
            ≡ some (plain, scratch', hash_of p s (seal_block p s index plain scratch last)))
    unfolding seal_block
    open_block-seal_block s t first idx index plain scratch last k h l m (n, c) hash =
        let old = extra_meta p scratch in
        let extra = sealed_extra p last scratch in
        let ctr = with_child-block_ctr last old in
        let enc = p.encrypt s.aes_key (make_aes_nonce index extra.block_ctr) plain in
        let len = laws.encrypt-length s.aes_key (make_aes_nonce index extra.block_ctr) plain ∙ m in
        let (same, full) =
          extended-Sealed enc.1 extra len
            (with_child-IsExtra last old hash (extra_meta-IsExtra scratch n)) (omega arith)
            (omega (arith, ctr, c)) in
        let scratch' = enc.1 ++ extra_meta_to_bytes extra in
        (
          plain.1 ++ drop p.meta_size scratch',
          reopened t first idx index enc.0 enc.1 scratch' extra last plain l full same
                (take_prefix enc.1 (extra_meta_to_bytes extra) p.meta_size len)
                (child_matches-with_child last old _)
                (rw k (laws.decrypt-encrypt s.aes_key (make_aes_nonce index extra.block_ctr) plain))
              ∙ ap
                  (λ key. some (
                    plain,
                    plain.1 ++ drop p.meta_size scratch',
                    (index, compute_block_hash p.blake2b key enc.0 index scratch'),
                  ))
                  h,
        )

    -- The blocks that were sealed are opened again, each with its hash checked by the next one.
    pub open_blocks-seal_blocks :
        (s t : OcallOramStorage p) (first idx : ℕ) (indices : List ℕ)
        (plains : List (Bytes × Bytes)) (scratches : List Bytes) (last : LastHash)
        → t.aes_key ≡ s.aes_key
        → t.hash_key ≡ s.hash_key
        → idx + length indices ≤ first
        → length plains ≡ length indices
        → All (λ plain. length plain.1 ≡ p.meta_size) plains
        → All IsReady scratches
        → IsHash last
        → (scratches' : List Bytes) × (open_blocks p t first idx
              (seal_blocks p s indices plains scratches last).0
              last
            ≡ some (plains, scratches'))
    unfolding open_blocks seal_blocks
    open_blocks-seal_blocks s t first idx [] [] scratches last k h l n m r hash = ([], refl)
    open_blocks-seal_blocks s t first idx [] (x ∷ xs) scratches last k h l n m r hash =
        absurd (omega (arith, n))
    open_blocks-seal_blocks s t first idx (i ∷ is) [] scratches last k h l n m r hash =
        absurd (omega (arith, n))
    open_blocks-seal_blocks s t first idx (i ∷ is) (x ∷ xs) scratches last k h l n (m, ms) r hash =
        let block = seal_block p s i x (head_scratch p scratches) last in
        let (scratch', one) =
          open_block-seal_block s t first idx i x (head_scratch p scratches) last k h
            (omega (arith, l)) m (head_scratch-IsReady scratches r) hash in
        let (rest, more) =
          open_blocks-seal_blocks s t first (idx + 1) is xs (tail_scratches p scratches)
            (some (hash_of p s block)) k h (omega (arith, l)) (omega (arith, n)) ms
            (tail_scratches-IsReady scratches r) (block_hash-length s block) in
        (scratch' ∷ rest, rw (one, more, open_blocks) refl)

-- ===== src/Oram/RoundTrip.antt =====
-- fog/ocall_oram_storage: what is checked in is checked out, with the untrusted side of this
-- repository.
use fog.Prelude.{
  ℕ, zero, suc, ◌-◌, ◌/◌, ◌≤◌, ◌<◌, ◌≡◌, refl, sym, ap, subst, true, false, none, some, List, [],
  ◌∷◌, map, arith,
}
use fog.Prelude.Bytes.{Bytes}
use fog.Prelude.Lists.{All, length, take}
use fog.Oram.Untrusted.{UntrustedAllocation, checkout_oram_storage, checkin_oram_storage, put_all}
use fog.Oram.Storage.{
  Platform, OcallOramStorage, LastHash, Block, blocks_of, outside_index, open_blocks, seal_blocks,
  seal_block, tail_scratches, set_root, nth, checkout_outside, checkin_outside,
}
use fog.Oram.Path.{IsPath, root, step, IsPath-below}
use fog.Oram.Slots.{Falls, put_all-read}
use fog.Oram.Sealing.{CryptoLaws, IsReady, open_blocks-seal_blocks}

set_root-some :
    (roots : List Bytes) (n : ℕ) (new : Bytes)
    → n < length roots
    → (roots' : List Bytes) × (set_root roots n new ≡ some roots')
set_root-some [] n new h = absurd (omega (arith, h))
set_root-some (r ∷ rs) zero new h = (new ∷ rs, refl)
set_root-some (r ∷ rs) (suc n) new h =
    let (rs', e) = set_root-some rs n new (omega (arith, h)) in (r ∷ rs', rw e refl)

pub IsPath-Falls : {index : ℕ} {indices : List ℕ} → IsPath index indices → Falls indices
IsPath-Falls root = (tt, tt)
IsPath-Falls (step {index = i} {indices = xs} h path) =
    (below xs (IsPath-below path), IsPath-Falls path)
  where
    below : (ys : List ℕ) → All (λ j. j ≤ i / 2) ys → All (λ j. j < i) ys
    below [] a = tt
    below (y ∷ ys) (l, a) = (omega (arith, l, h), below ys a)

-- The indices that are sent are still in falling order.
pub Falls-sent :
    (t n : ℕ) (xs : List ℕ)
    → Falls xs
    → All (λ j. t ≤ j) (take n xs)
    → Falls (map (λ j. j - t) (take n xs))
Falls-sent t zero xs f a = tt
Falls-sent t (suc n) [] f a = tt
Falls-sent t (suc n) (x ∷ xs) (b, f) (l, a) = (shifted n xs b a, Falls-sent t n xs f a)
  where
    shifted :
        (m : ℕ) (ys : List ℕ)
        → All (λ j. j < x) ys
        → All (λ j. t ≤ j) (take m ys)
        → All (λ j. j < x - t) (map (λ j. j - t) (take m ys))
    shifted zero ys h k = tt
    shifted (suc m) [] h k = tt
    shifted (suc m) (y ∷ ys) (h, hs) (k, ks) = (omega (arith, h, k), shifted m ys hs ks)

module _ (p : Platform) where
  -- The blocks stand at the indices of the path, and the last hash is that of the last one.
  seal_blocks-indices :
      (s : OcallOramStorage p) (indices : List ℕ) (plains : List (Bytes × Bytes))
      (scratches : List Bytes) (last : LastHash)
      → length plains ≡ length indices
      → map (λ b. b.0) (seal_blocks p s indices plains scratches last).0 ≡ indices
  unfolding seal_blocks seal_block
  seal_blocks-indices s [] plains scratches last e = refl
  seal_blocks-indices s (i ∷ is) [] scratches last e = absurd (omega (arith, e))
  seal_blocks-indices s (i ∷ is) (x ∷ xs) scratches last e =
      ap (λ l. i ∷ l)
        (seal_blocks-indices s is xs (tail_scratches p scratches) _ (omega (arith, e)))

  seal_blocks-last :
      (s : OcallOramStorage p) (indices : List ℕ) (plains : List (Bytes × Bytes))
      (scratches : List Bytes) (last : LastHash) (n : ℕ)
      → length plains ≡ length indices
      → length indices ≡ suc n
      → (hash : Bytes) × ((seal_blocks p s indices plains scratches last).1
          ≡ some (nth indices n, hash))
  unfolding seal_blocks seal_block
  seal_blocks-last s [] plains scratches last n e l = absurd (omega (arith, l))
  seal_blocks-last s (i ∷ is) [] scratches last n e l = absurd (omega (arith, e))
  seal_blocks-last s (i ∷ []) (x ∷ xs) scratches last zero e l = (_, refl)
  seal_blocks-last s (i ∷ []) (x ∷ xs) scratches last (suc n) e l = absurd (omega (arith, l))
  seal_blocks-last s (i ∷ j ∷ is) (x ∷ xs) scratches last zero e l = absurd (omega (arith, l))
  seal_blocks-last s (i ∷ j ∷ is) (x ∷ xs) scratches last (suc n) e l =
      seal_blocks-last s (j ∷ is) xs (tail_scratches p scratches) _ n (omega (arith, e))
        (omega (arith, l))

  sent-indices :
      (s : OcallOramStorage p) (blocks : List (Block p))
      → map (λ x. x.0) (map (outside_index p s) blocks)
        ≡ map (λ j. j - s.treetop_max_count) (map (λ b. b.0) blocks)
  sent-indices s [] = refl
  sent-indices s (b ∷ bs) = ap (λ l. (b.0 - s.treetop_max_count) ∷ l) (sent-indices s bs)

  -- The indices and what was stored at them are the blocks.
  blocks_of-sent :
      (s : OcallOramStorage p) (blocks : List (Block p))
      → blocks_of p
          (map (λ b. b.0) blocks)
          (map {B = Bytes × Bytes} (λ x. (x.1, x.2)) (map (outside_index p s) blocks))
        ≡ blocks
  blocks_of-sent s [] = refl
  blocks_of-sent s (b ∷ bs) = ap (λ l. b ∷ l) (blocks_of-sent s bs)

  -- What was stored is what is read.
  read_back :
      (s : OcallOramStorage p) (blocks : List (Block p)) (indices : List ℕ) (f g : ℕ → Bytes)
      → map (λ b. b.0) blocks ≡ indices
      → Falls (map (λ j. j - s.treetop_max_count) indices)
      → blocks_of p indices (
          map {B = Bytes × Bytes}
            (λ j. (
              put_all (map (λ x. (x.0, x.1)) (map (outside_index p s) blocks)) f j,
              put_all (map (λ x. (x.0, x.2)) (map (outside_index p s) blocks)) g j,
            ))
            (map (λ j. j - s.treetop_max_count) indices))
        ≡ blocks
  read_back s blocks indices f g e =
      subst
        (λ is.
          Falls (map (λ j. j - s.treetop_max_count) is)
          → blocks_of p is (
              map {B = Bytes × Bytes}
                (λ j. (
                  put_all (map (λ x. (x.0, x.1)) (map (outside_index p s) blocks)) f j,
                  put_all (map (λ x. (x.0, x.2)) (map (outside_index p s) blocks)) g j,
                ))
                (map (λ j. j - s.treetop_max_count) is))
            ≡ blocks)
        e (λ falls. exact falls)
    where
      exact :
          Falls (map (λ j. j - s.treetop_max_count) (map (λ b. b.0) blocks))
          → blocks_of p (map (λ b. b.0) blocks) (
              map {B = Bytes × Bytes}
                (λ j. (
                  put_all (map (λ x. (x.0, x.1)) (map (outside_index p s) blocks)) f j,
                  put_all (map (λ x. (x.0, x.2)) (map (outside_index p s) blocks)) g j,
                ))
                (map (λ j. j - s.treetop_max_count) (map (λ b. b.0) blocks)))
            ≡ blocks
      exact falls =
          let same = sent-indices s blocks in
          let read =
            put_all-read (map (outside_index p s) blocks) f g
              (subst (λ is. Falls is) (sym same) falls) in
          rw (sym same, read) (blocks_of-sent s blocks)

  module _ (laws : CryptoLaws p) where
    -- The storage after the check-in of these blocks and roots, and the untrusted side.
    abbrev pub stored : OcallOramStorage p → List (Block p) → List Bytes → OcallOramStorage p
    stored s blocks roots = record s {
      trusted_merkle_roots = roots;
      meta_scratch_buffer = map (λ b. b.2) blocks;
    }

    abbrev pub kept :
        OcallOramStorage p → List (Block p) → UntrustedAllocation → UntrustedAllocation
    kept s blocks u = record u {
      data_items = put_all (map (λ x. (x.0, x.1)) (map (outside_index p s) blocks)) u.data_items;
      meta_items = put_all (map (λ x. (x.0, x.2)) (map (outside_index p s) blocks)) u.meta_items;
      checkout_flag = false;
    }

    checked_in :
        (s : OcallOramStorage p) (u : UntrustedAllocation) (indices : List ℕ)
        (plains : List (Bytes × Bytes)) (index : ℕ) (hash : Bytes) (roots : List Bytes)
        → (seal_blocks p s indices plains s.meta_scratch_buffer none).1 ≡ some (index, hash)
        → set_root s.trusted_merkle_roots index hash ≡ some roots
        → u.critical_section_flag ≡ false
        → u.checkout_flag ≡ true
        → checkin_outside p s u indices plains
          ≡ some (
            stored s (seal_blocks p s indices plains s.meta_scratch_buffer none).0 roots,
            kept s (seal_blocks p s indices plains s.meta_scratch_buffer none).0 u,
          )
    unfolding checkin_outside checkin_oram_storage
    checked_in s u indices plains index hash roots last set crit out =
        rw (last, set, crit, out, checkin_outside, checkin_oram_storage) refl

    checked_out :
        (t : OcallOramStorage p) (u : UntrustedAllocation) (first : ℕ) (indices : List ℕ)
        (blocks : List (Block p)) (plains : List (Bytes × Bytes)) (scratches : List Bytes)
        → u.critical_section_flag ≡ false
        → u.checkout_flag ≡ false
        → blocks_of p indices (
            map
              (λ j. (u.data_items j, u.meta_items j))
              (map (λ j. j - t.treetop_max_count) indices))
          ≡ blocks
        → open_blocks p t first 0 blocks none ≡ some (plains, scratches)
        → checkout_outside p t u first indices
          ≡ some (
            plains,
            record t { meta_scratch_buffer = scratches },
            record u { checkout_flag = true },
          )
    unfolding checkout_outside checkout_oram_storage
    checked_out t u first indices blocks plains scratches crit out read opens =
        rw (crit, out, read, opens, checkout_outside, checkout_oram_storage) refl

    -- The part that is not in the treetop is read as it was written.
    pub outside-round_trip :
        (s : OcallOramStorage p) (u : UntrustedAllocation) (n : ℕ) (indices : List ℕ)
        (plains : List (Bytes × Bytes))
        → length indices ≡ suc n
        → length plains ≡ length indices
        → All (λ plain. length plain.1 ≡ p.meta_size) plains
        → All (IsReady p) s.meta_scratch_buffer
        → nth indices n < length s.trusted_merkle_roots
        → Falls (map (λ j. j - s.treetop_max_count) indices)
        → u.critical_section_flag ≡ false
        → u.checkout_flag ≡ true
        → (blocks : List (Block p)) × (roots : List Bytes) × (checkin_outside p s u indices plains
            ≡ some (stored s blocks roots, kept s blocks u))
          × (s'' : OcallOramStorage p) × (u'' : UntrustedAllocation) × (checkout_outside p
                (stored s blocks roots)
                (kept s blocks u)
                (suc n)
                indices
              ≡ some (plains, s'', u''))
    outside-round_trip s u n indices plains l e m r bound falls crit out =
        let sealed = seal_blocks p s indices plains s.meta_scratch_buffer none in
        let (hash, last) = seal_blocks-last s indices plains s.meta_scratch_buffer none n e l in
        let (roots, set) = set_root-some s.trusted_merkle_roots (nth indices n) hash bound in
        let same = seal_blocks-indices s indices plains s.meta_scratch_buffer none e in
        let (scratches, opens) =
          open_blocks-seal_blocks p laws s (stored s sealed.0 roots) (suc n) 0 indices plains
            s.meta_scratch_buffer none refl refl (omega (arith, l)) e m r tt in
        (
          sealed.0,
          roots,
          checked_in s u indices plains (nth indices n) hash roots last set crit out,
          _,
          _,
          checked_out (stored s sealed.0 roots) (kept s sealed.0 u) (suc n) indices sealed.0 plains
              scratches crit refl
              (read_back s sealed.0 indices u.data_items u.meta_items same falls) opens,
        )

-- ===== src/Oram/CheckedIn.antt =====
-- fog/ocall_oram_storage: `checkin` and then `checkout` of a path, in the treetop and outside of it.
use fog.Prelude.{
  ℕ, zero, suc, ◌-◌, ◌*◌, ◌≤◌, ◌<◌, ◌≡◌, refl, sym, ap, subst, ◌∙◌, true, false, ◌&&◌, ◌⊎◌, inl,
  inr, some, List, [], ◌∷◌, ◌++◌, ltb, lt→ltb, eq→==, arith,
}
use fog.Prelude.Bytes.{Bytes}
use fog.Prelude.Lists.{All, length, take, drop}
use fog.Oram.Untrusted.{UntrustedAllocation}
use fog.Oram.Storage.{
  Platform, OcallOramStorage, Block, nth, checkout_outside, checkin_outside, checkout, checkin,
  position_below,
}
use fog.Oram.Path.{IsPath, IsPath-Split, IsPath-positive, Split, IsPath-unique}
use fog.Oram.Sealing.{CryptoLaws, IsReady}
use fog.Oram.RoundTrip.{IsPath-Falls, Falls-sent, outside-round_trip, stored, kept}

-- What the documentation of mc-oblivious says of the paths and of the storage on the heap.
pub record TreeLaws (p : Platform) : Type 0 where
  pub parents-IsPath : (index : ℕ) → 0 < index → IsPath index (p.parents index)
  pub heap_checkout-checkin :
      (h : p.Heap) (index : ℕ) (items : List (Bytes × Bytes))
      → length items ≡ length (p.parents index)
      → p.heap_checkout index (p.heap_checkin index items h) ≡ items

length-take {ℓ} : {A : Type ℓ} (n : ℕ) (xs : List A) → n ≤ length xs → length (take n xs) ≡ n
length-take zero xs h = refl
length-take (suc n) [] h = absurd (omega (arith, h))
length-take (suc n) (x ∷ xs) h = ap suc (length-take n xs (omega (arith, h)))

length-drop {ℓ} : {A : Type ℓ} (n : ℕ) (xs : List A) → length (drop n xs) ≡ length xs - n
length-drop zero xs = omega arith
length-drop (suc n) [] = omega arith
length-drop (suc n) (x ∷ xs) = omega (arith, length-drop n xs)

take-drop {ℓ} : {A : Type ℓ} (n : ℕ) (xs : List A) → take n xs ++ drop n xs ≡ xs
take-drop zero xs = refl
take-drop (suc n) [] = refl
take-drop (suc n) (x ∷ xs) = ap (λ l. x ∷ l) (take-drop n xs)

All-take {ℓ κ} : {A : Type ℓ} (P : A → Type κ) (n : ℕ) (xs : List A) → All P xs → All P (take n xs)
All-take P zero xs a = tt
All-take P (suc n) [] a = tt
All-take P (suc n) (x ∷ xs) (h, a) = (h, All-take P n xs a)

nth-take : (n : ℕ) (xs : List ℕ) → nth (take (suc n) xs) n ≡ nth xs n
nth-take zero [] = refl
nth-take zero (x ∷ xs) = refl
nth-take (suc n) [] = refl
nth-take (suc n) (x ∷ xs) = nth-take n xs

module _ (p : Platform) (laws : CryptoLaws p) (tree : TreeLaws p) where
  -- A storage as `new` makes it and the operations keep it: the treetop has two nodes or more, the
  -- roots are as many as `new` allocates, and what is left in the scratch buffer can be sealed again.
  abbrev pub IsStorage : OcallOramStorage p → Type 0
  IsStorage s =
      (2 ≤ s.treetop_max_count)
      × ((s.count ≤ s.treetop_max_count)
          ⊎ (length s.trusted_merkle_roots ≡ s.treetop_max_count * 2))
      × All (IsReady p) s.meta_scratch_buffer

  -- A checkout is open and no other thread is at work.
  abbrev pub IsOpen : UntrustedAllocation → Type 0
  IsOpen u = (u.critical_section_flag ≡ false) × (u.checkout_flag ≡ true)

  abbrev pub Read : OcallOramStorage p → UntrustedAllocation → ℕ → List (Bytes × Bytes) → Type 0
  Read s u index src =
      (s' : OcallOramStorage p) × (u' : UntrustedAllocation) × (checkin p s u index src
        ≡ some (s', u'))
      × (s'' : OcallOramStorage p) × (u'' : UntrustedAllocation) × (checkout p s' u' index
          ≡ some (src, s'', u''))

  -- All of the path is in the treetop.
  in_treetop :
      (s : OcallOramStorage p) (u : UntrustedAllocation) (index : ℕ) (src : List (Bytes × Bytes))
      → ltb 0 index && ltb index s.count ≡ true
      → length src ≡ length (p.parents index)
      → position_below s.treetop_max_count (p.parents index) ≡ some 0
      → p.heap_checkout
          (nth (p.parents index) 0)
          (p.heap_checkin (nth (p.parents index) 0) src s.treetop)
        ≡ src
      → Read s u index src
  unfolding checkin checkout
  in_treetop s u index src range len found heap = (
    record s { treetop = p.heap_checkin (nth (p.parents index) 0) src s.treetop },
    u,
    rw (range, eq→== (length src) (length (p.parents index)) len, found) refl,
    record s { treetop = p.heap_checkin (nth (p.parents index) 0) src s.treetop },
    u,
    rw (range, found, heap) refl,
  )

  -- A part of the path is outside.
  partly_outside :
      (s : OcallOramStorage p) (u : UntrustedAllocation) (index n : ℕ) (src : List (Bytes × Bytes))
      (heap : p.Heap)
      → heap ≡ p.heap_checkin (nth (p.parents index) (suc n)) (drop (suc n) src) s.treetop
      → ltb 0 index && ltb index s.count ≡ true
      → length src ≡ length (p.parents index)
      → position_below s.treetop_max_count (p.parents index) ≡ some (suc n)
      → p.heap_checkout (nth (p.parents index) (suc n)) heap ≡ drop (suc n) src
      → ((blocks : List (Block p)) × (roots : List Bytes) × (checkin_outside p
              (record s { treetop = heap })
              u
              (take (suc n) (p.parents index))
              (take (suc n) src)
            ≡ some (
              stored p laws (record s { treetop = heap }) blocks roots,
              kept p laws (record s { treetop = heap }) blocks u,
            ))
          × (s'' : OcallOramStorage p) × (u'' : UntrustedAllocation) × (checkout_outside p
                (stored p laws (record s { treetop = heap }) blocks roots)
                (kept p laws (record s { treetop = heap }) blocks u)
                (suc n)
                (take (suc n) (p.parents index))
              ≡ some (take (suc n) src, s'', u'')))
      → Read s u index src
  unfolding checkin checkout
  partly_outside s u index n src heap e range len found read (blocks, roots, wrote, s'', u'', got) =
      (
        stored p laws (record s { treetop = heap }) blocks roots,
        kept p laws (record s { treetop = heap }) blocks u,
        rw
            (
              range,
              eq→== (length src) (length (p.parents index)) len,
              found,
              sym e,
              wrote,
              lt→ltb 0 (suc n) (omega arith),
            )
            refl,
        s'',
        u'',
        rw (range, found, read, got, lt→ltb 0 (suc n) (omega arith), take-drop (suc n) src) refl,
      )

  first-Read :
      (s : OcallOramStorage p) (u : UntrustedAllocation) (index n : ℕ) (src : List (Bytes × Bytes))
      (split : Split s.treetop_max_count index (p.parents index))
      → split.first ≡ n
      → IsStorage s
      → 0 < index
      → index < s.count
      → length src ≡ length (p.parents index)
      → All (λ block. length block.1 ≡ p.meta_size) src
      → IsOpen u
      → p.heap_checkout
          (nth (p.parents index) n)
          (p.heap_checkin (nth (p.parents index) n) (drop n src) s.treetop)
        ≡ drop n src
      → Read s u index src
  first-Read s u index zero src split e (two, roots, ready) positive below len sizes open_u heap =
      in_treetop s u index src (rw (lt→ltb 0 index positive, lt→ltb index s.count below) refl) len
        (split.found ∙ ap some e) heap
  first-Read s u index (suc n) src split e (two, roots, ready) positive below len sizes (crit, out)
        heap =
      let path = p.parents index in
      let long : suc n ≤ length path = omega (arith, split.within, e) in
      let len_path : length (take (suc n) path) ≡ suc n = length-take (suc n) path long in
      let s' : OcallOramStorage p = record s {
        treetop = p.heap_checkin (nth path (suc n)) (drop (suc n) src) s.treetop;
      } in
      let enough : nth path n < length s.trusted_merkle_roots = elim roots [
        | inl h ↦ absurd (omega (arith, h, below, split.deep (omega (arith, e))))
        | inr h ↦ omega (arith, h, split.last n e)
      ] in
      partly_outside s u index n src
        (p.heap_checkin (nth path (suc n)) (drop (suc n) src) s.treetop) refl
        (rw (lt→ltb 0 index positive, lt→ltb index s.count below) refl) len
        (split.found ∙ ap some e) heap
        (outside-round_trip p laws s' u n (take (suc n) path) (take (suc n) src) len_path
          (omega (arith, len_path, length-take (suc n) src (omega (arith, len, long))))
          (All-take _ (suc n) src sizes) ready (omega (arith, enough, nth-take n path))
          (Falls-sent s.treetop_max_count (suc n) path
            (IsPath-Falls (tree.parents-IsPath index positive))
            (subst (λ k. All (λ j. s.treetop_max_count ≤ j) (take k path)) e split.outside))
          crit out)

  -- Whatever the path, the blocks and the bytes that the earlier checkout left: `checkin` of the blocks
  -- of a path returns, and `checkout` of the path then returns those blocks without a panic, whether
  -- the path is in the treetop or partly outside. Block counters are below 2^64 - 1, the storage is as
  -- `new` makes it, and the untrusted side is the one of this repository.
  pub checkin-checkout :
      (s : OcallOramStorage p) (u : UntrustedAllocation) (index : ℕ) (src : List (Bytes × Bytes))
      → IsStorage s
      → 0 < index
      → index < s.count
      → length src ≡ length (p.parents index)
      → All (λ block. length block.1 ≡ p.meta_size) src
      → IsOpen u
      → (s' : OcallOramStorage p) × (u' : UntrustedAllocation) × (checkin p s u index src
          ≡ some (s', u'))
        × (s'' : OcallOramStorage p) × (u'' : UntrustedAllocation) × (checkout p s' u' index
            ≡ some (src, s'', u''))
  checkin-checkout s u index src ok positive below len sizes open_u =
      let split = IsPath-Split s.treetop_max_count ok.0 (tree.parents-IsPath index positive) in
      let node = nth (p.parents index) split.first in
      let same = IsPath-unique split.top (tree.parents-IsPath node (IsPath-positive split.top)) in
      first-Read s u index split.first src split refl ok positive below len sizes open_u (
        tree.heap_checkout-checkin s.treetop node (drop split.first src) (
          omega (
            arith,
            ap length same,
            length-drop split.first src,
            length-drop split.first (p.parents index),
            len,
          )))

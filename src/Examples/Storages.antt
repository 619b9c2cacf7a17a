-- ===== src/Examples/Storages.antt =====
-- Runs of fog/ocall_oram_storage, with a model of the code of other repositories: a cipher that does
-- nothing, a hash that pads, a heap that is a function.
use fog.Prelude.{
  ℕ, zero, suc, ◌+◌, ◌/◌, ◌≤◌, ◌<◌, ◌≡◌, refl, subst, false, true, inl, inr, some, List, [], ◌∷◌,
  ◌++◌, ◌==◌, leb, leb→le, leb→lt, eq→==, Bool-cases, if◌then◌else◌, arith,
}
use fog.Prelude.Bytes.{Bytes}
use fog.Prelude.Lists.{length, length-append, length-replicate, take, replicate}
use fog.Oram.Untrusted.{UntrustedAllocation}
use fog.Oram.Storage.{Platform, OcallOramStorage, zeros, checkin, checkout}
use fog.Oram.Path.{IsPath, root, step}
use fog.Oram.Sealing.{CryptoLaws}
use fog.Oram.CheckedIn.{TreeLaws, IsStorage, checkin-checkout}
use fog.Oram.Roots.{with_roots, result_with_roots, checkout-roots}

-- The path, with fuel for its nodes.
abbrev path_from : ℕ → ℕ → List ℕ
path_from zero index = []
path_from (suc fuel) index = if leb index 1 then 1 ∷ [] else index ∷ path_from fuel (index / 2)

path_from-IsPath : (fuel index : ℕ) → 0 < index → index ≤ fuel → IsPath index (path_from fuel index)
path_from-IsPath zero index h l = absurd (omega (arith, h, l))
path_from-IsPath (suc fuel) index h l = elim (Bool-cases (leb index 1)) [
  | inl e ↦
      let one : 1 ≡ index = omega (arith, h, leb→le index 1 e) in
      rw e (subst (λ i. IsPath i (1 ∷ [])) one root)
  | inr e ↦
      let more : 1 < index = leb→lt index 1 e in
      rw e (
        step more
          (path_from-IsPath fuel (index / 2) (omega (arith, more)) (omega (arith, l, more))))
]

abbrev platform : Platform
platform = record {
  parents = λ index. path_from index index;
  blake2b = λ bytes. take 64 (bytes ++ replicate 64 0);
  encrypt = λ key nonce plain. plain;
  decrypt = λ key nonce sealed. sealed;
  Heap = ℕ → List (Bytes × Bytes);
  heap_new = λ count index. [];
  heap_checkout = λ index h. h index;
  heap_checkin = λ index items h j. if j == index then items else h j;
  data_size = 8;
  meta_size = 8;
}

take_enough : (n : ℕ) (xs : Bytes) → n ≤ length xs → length (take n xs) ≡ n
take_enough zero xs h = refl
take_enough (suc n) [] h = absurd (omega (arith, h))
take_enough (suc n) (x ∷ xs) h = omega (arith, take_enough n xs (omega (arith, h)))

crypto_laws : CryptoLaws platform
crypto_laws = record {
  decrypt-encrypt = λ key nonce plain. refl;
  encrypt-length = λ key nonce plain. refl;
  blake2b-length = λ bytes.
      take_enough 64 (bytes ++ replicate 64 0)
        (omega (arith, length-append bytes (replicate 64 0), length-replicate {A = ℕ} 64 0));
}

tree_laws : TreeLaws platform
tree_laws = record {
  parents-IsPath = λ index h. path_from-IsPath index index h (omega arith);
  heap_checkout-checkin = λ h index items e. rw (eq→== index index refl) refl;
}

-- Eight nodes, of which one is in the treetop.
abbrev storage : OcallOramStorage platform
storage = record {
  count = 8;
  treetop_max_count = 2;
  treetop = λ index. [];
  trusted_merkle_roots = zeros 16 ∷ zeros 16 ∷ zeros 16 ∷ zeros 16 ∷ [];
  meta_scratch_buffer = [];
  aes_key = 1 ∷ [];
  hash_key = 2 ∷ [];
}

abbrev open_allocation : UntrustedAllocation
open_allocation = record {
  count = 6;
  data_item_size = 8;
  meta_item_size = 48;
  data_items = λ index. zeros 8;
  meta_items = λ index. zeros 48;
  critical_section_flag = false;
  checkout_flag = true;
}

abbrev block : ℕ → Bytes × Bytes
block n = (replicate 8 n, replicate 8 (n + 1))

abbrev three_blocks : List (Bytes × Bytes)
three_blocks = block 3 ∷ block 5 ∷ block 7 ∷ []

storage-IsStorage : IsStorage platform crypto_laws tree_laws storage
storage-IsStorage = (omega arith, inr refl, tt)

checkin-checkout_example :
    (s' : OcallOramStorage platform) × (u' : UntrustedAllocation) × (checkin platform storage
        open_allocation 5 three_blocks
      ≡ some (s', u'))
    × (s'' : OcallOramStorage platform) × (u'' : UntrustedAllocation) × (checkout platform s' u' 5
        ≡ some (three_blocks, s'', u''))
checkin-checkout_example =
    checkin-checkout platform crypto_laws tree_laws storage open_allocation 5 three_blocks
      storage-IsStorage (omega arith) (omega arith) refl (refl, (refl, (refl, tt))) (refl, refl)

checkout-roots_example :
    checkout platform
      (with_roots platform (zeros 16 ∷ []) storage)
      (record open_allocation { checkout_flag = false })
      5
    ≡ result_with_roots platform
        (zeros 16 ∷ [])
        (checkout platform storage (record open_allocation { checkout_flag = false }) 5)
checkout-roots_example =
    checkout-roots platform (zeros 16 ∷ []) storage
      (record open_allocation { checkout_flag = false }) 5

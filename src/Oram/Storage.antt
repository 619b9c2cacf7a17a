-- ===== src/Oram/Storage.antt =====
-- fog/ocall_oram_storage/trusted/src/lib.rs: the enclave's side. The storage on the heap and the path
-- from a node to the root are code of mc-oblivious, and the cipher and the hash of other crates: they
-- are parameters. An array of bytes has the length of its type. `none` is a panic. The mutex around
-- the ocalls is left out.
use fog.Prelude.{
  ℕ, zero, suc, ◌+◌, ◌-◌, ◌*◌, ◌/◌, ◌%◌, ◌^◌, max, Bool, true, false, not, ◌&&◌, ◌||◌, Option, none,
  some, List, [], ◌∷◌, ◌++◌, map, ltb, leb, ◌==◌, if◌then◌else◌,
}
use Prim.Native.Nat.{bit_and}
use fog.Prelude.Words.{add64}
use fog.Prelude.Bytes.{Bytes, bytes_beq, to_le_bytes}
use fog.Prelude.Lists.{length, take, drop, replicate}
use fog.Oram.ExtraMeta.{
  ExtraMeta, extra_meta_size, extra_meta_of_bytes, extra_meta_to_bytes, compute_block_hash,
}
use fog.Oram.Untrusted.{UntrustedAllocation, checkout_oram_storage, checkin_oram_storage}

-- What the storage is built on: `TreeIndex::parents`, the hash, the stream cipher, with a key and a
-- nonce, over the data and then the metadata of a block, and the storage on the heap.
pub record Platform : Type 1 where
  pub parents : ℕ → List ℕ
  pub blake2b : Bytes → Bytes
  pub encrypt : Bytes → Bytes → Bytes × Bytes → Bytes × Bytes
  pub decrypt : Bytes → Bytes → Bytes × Bytes → Bytes × Bytes
  pub Heap : Type 0
  pub heap_new : ℕ → Heap
  pub heap_checkout : ℕ → Heap → List (Bytes × Bytes)
  pub heap_checkin : ℕ → List (Bytes × Bytes) → Heap → Heap
  pub data_size : ℕ
  pub meta_size : ℕ

abbrev pub zeros : ℕ → Bytes
zeros n = replicate n 0

unfoldable pub make_aes_nonce : ℕ → ℕ → Bytes
make_aes_nonce block_idx block_ctr = to_le_bytes 8 block_idx ++ to_le_bytes 8 block_ctr

-- `iter().position(|idx| idx < bound)`
unfoldable pub position_below : ℕ → List ℕ → Option ℕ
position_below bound [] = none
position_below bound (idx ∷ indices) =
    let rest = position_below bound indices in
    if ltb idx bound then some 0 else elim rest [ none ↦ none | some n ↦ some (suc n) ]

-- `indices[n]`, which is within the path here
abbrev pub nth : List ℕ → ℕ → ℕ
nth [] n = 0
nth (x ∷ xs) zero = x
nth (x ∷ xs) (suc n) = nth xs n

-- `roots[n]` and `roots[n] = root`, where `none` is out of bounds
abbrev pub root_at : List Bytes → ℕ → Option Bytes
root_at [] n = none
root_at (root ∷ roots) zero = some root
root_at (root ∷ roots) (suc n) = root_at roots n

abbrev pub set_root : List Bytes → ℕ → Bytes → Option (List Bytes)
set_root [] n new = none
set_root (root ∷ roots) zero new = some (new ∷ roots)
set_root (root ∷ roots) (suc n) new = elim (set_root roots n new) [
  | none ↦ none
  | some roots' ↦ some (root ∷ roots')
]

-- The hash of the block below, with its index.
abbrev pub LastHash : Type 0
LastHash = Option (ℕ × Bytes)

-- Whether the hash of the block below is the one that this block has of it.
unfoldable pub child_matches : LastHash → ExtraMeta → Bool
child_matches none extra_meta = true
child_matches (some (last_idx, last_hash)) extra_meta =
    if last_idx % 2 == 0
    then bytes_beq last_hash extra_meta.left_child_hash
    else bytes_beq last_hash extra_meta.right_child_hash

unfoldable pub with_child : LastHash → ExtraMeta → ExtraMeta
with_child none extra_meta = extra_meta
with_child (some (last_idx, last_hash)) extra_meta =
    if last_idx % 2 == 0
    then record extra_meta { left_child_hash = last_hash }
    else record extra_meta { right_child_hash = last_hash }

module _ (p : Platform) where
  pub record OcallOramStorage : Type 0 where
    pub count : ℕ
    pub treetop_max_count : ℕ
    pub treetop : p.Heap
    pub trusted_merkle_roots : List Bytes
    pub meta_scratch_buffer : List Bytes
    pub aes_key : Bytes
    pub hash_key : Bytes

  -- The size of an entry of the scratch buffer.
  abbrev pub scratch_size : ℕ
  scratch_size = p.meta_size + extra_meta_size

  -- `1 << log2` of a `u64` and the division by the size of a block
  abbrev pub treetop_limit : ℕ → ℕ
  treetop_limit threshold_log2 = max 2 (2 ^ (threshold_log2 % 64) / p.data_size)

  -- The keys come from the random number generator. What is allocated outside is returned as well.
  unfoldable pub new :
      (ℕ → Bytes) → ℕ → ℕ → Bytes → Bytes → Option (OcallOramStorage × Option UntrustedAllocation)
  new garbage threshold_log2 count aes_key hash_key =
      let treetop_max_count = treetop_limit threshold_log2 in
      if (count == 0) || not (bit_and count (count - 1) == 0)
      then none
      else if leb count treetop_max_count
      then some (
        record {
          count = count;
          treetop_max_count = treetop_max_count;
          treetop = p.heap_new count;
          trusted_merkle_roots = [];
          meta_scratch_buffer = [];
          aes_key = aes_key;
          hash_key = hash_key;
        },
        none,
      )
      else elim (fog.Oram.Untrusted.new garbage (count - treetop_max_count) p.data_size
          scratch_size) [
            | none ↦ none
            | some u ↦ some (
              record {
                count = count;
                treetop_max_count = treetop_max_count;
                treetop = p.heap_new treetop_max_count;
                trusted_merkle_roots = replicate (treetop_max_count * 2) (zeros 16);
                meta_scratch_buffer = [];
                aes_key = aes_key;
                hash_key = hash_key;
              },
              some u,
            )
          ]

  -- A block on its way: its index, its data and its entry of the scratch buffer.
  abbrev pub Block : Type 0
  Block = ℕ × Bytes × Bytes

  -- What a round of the loop of `checkout` leaves: the data and the metadata of the caller, the entry
  -- of the scratch buffer and the hash.
  abbrev pub Opened : Type 0
  Opened = (Bytes × Bytes) × Bytes × (ℕ × Bytes)

  abbrev pub block_hash : OcallOramStorage → Block → Bytes
  block_hash s (index, e_data, scratch) =
      compute_block_hash p.blake2b s.hash_key e_data index scratch

  abbrev pub extra_meta : Bytes → ExtraMeta
  extra_meta scratch = extra_meta_of_bytes (drop p.meta_size scratch)

  abbrev pub opened : OcallOramStorage → Block → Opened
  opened s (index, e_data, scratch) =
      let nonce = make_aes_nonce index (extra_meta scratch).block_ctr in
      let plain = p.decrypt s.aes_key nonce (e_data, take p.meta_size scratch) in
      (plain, plain.1 ++ drop p.meta_size scratch, (index, block_hash s (index, e_data, scratch)))

  abbrev pub empty_block : Block → Opened
  empty_block (index, e_data, scratch) =
      ((zeros p.data_size, zeros p.meta_size), scratch, (index, zeros 16))

  abbrev pub is_empty : Bytes → Bool
  is_empty scratch = bytes_beq scratch (zeros scratch_size)

  -- Whether the trusted root is another hash; the index is in bounds or the code panics.
  abbrev pub root_matches : OcallOramStorage → Block → Bool
  root_matches s (index, e_data, scratch) = elim (root_at s.trusted_merkle_roots index) [
    | none ↦ false
    | some root ↦ bytes_beq root (block_hash s (index, e_data, scratch))
  ]

  -- A round of the loop, at the position `idx` of the path.
  unfoldable pub open_block : OcallOramStorage → ℕ → ℕ → Block → LastHash → Option Opened
  open_block s first_treetop_index idx (index, e_data, scratch) last_hash =
      let block : Block = (index, e_data, scratch) in
      if is_empty scratch
      then some (empty_block block)
      else if child_matches last_hash (extra_meta scratch)
      then if (idx == first_treetop_index) && not (root_matches s block)
        then none
        else some (opened s block)
      else none

  -- The loop `for idx in 0..first_treetop_index` of `checkout`.
  unfoldable pub open_blocks :
      OcallOramStorage → ℕ → ℕ → List Block → LastHash → Option (List (Bytes × Bytes) × List Bytes)
  open_blocks s first_treetop_index idx [] last_hash = some ([], [])
  open_blocks s first_treetop_index idx (block ∷ blocks) last_hash =
      elim (open_block s first_treetop_index idx block last_hash) [
        | none ↦ none
        | some (plain, scratch, hash) ↦
            elim (open_blocks s first_treetop_index (idx + 1) blocks (some hash)) [
              | none ↦ none
              | some (plains, scratches) ↦ some (plain ∷ plains, scratch ∷ scratches)
            ]
      ]

  -- The indices with what came from outside.
  abbrev pub blocks_of : List ℕ → List (Bytes × Bytes) → List Block
  blocks_of [] items = []
  blocks_of (index ∷ indices) [] = []
  blocks_of (index ∷ indices) ((e_data, scratch) ∷ items) =
      (index, e_data, scratch) ∷ blocks_of indices items

  -- The part of `checkout` that is not in the treetop.
  unfoldable pub checkout_outside :
      OcallOramStorage
      → UntrustedAllocation
      → ℕ
      → List ℕ
      → Option (List (Bytes × Bytes) × OcallOramStorage × UntrustedAllocation)
  checkout_outside s u first_treetop_index indices =
      elim (checkout_oram_storage (map (λ index. index - s.treetop_max_count) indices) u) [
        | none ↦ none
        | some (items, u') ↦
            elim (open_blocks s first_treetop_index 0 (blocks_of indices items) none) [
              | none ↦ none
              | some (plains, scratches) ↦
                  some (plains, record s { meta_scratch_buffer = scratches }, u')
            ]
      ]

  -- A round of the loop of `checkin`: what goes outside, and the hash.
  abbrev pub sealed_extra : LastHash → Bytes → ExtraMeta
  sealed_extra last_hash scratch =
      let extra = with_child last_hash (extra_meta scratch) in
      record extra { block_ctr = add64 extra.block_ctr 1 }

  unfoldable pub seal_block : OcallOramStorage → ℕ → Bytes × Bytes → Bytes → LastHash → Block
  seal_block s index plain scratch last_hash =
      let extra = sealed_extra last_hash scratch in
      let (e_data, e_meta) = p.encrypt s.aes_key (make_aes_nonce index extra.block_ctr) plain in
      (index, e_data, e_meta ++ extra_meta_to_bytes extra)

  -- The entry of the scratch buffer, which `resize_with` fills with zeros where there is none.
  abbrev pub head_scratch : List Bytes → Bytes
  head_scratch [] = zeros scratch_size
  head_scratch (scratch ∷ scratches) = scratch

  abbrev pub tail_scratches : List Bytes → List Bytes
  tail_scratches [] = []
  tail_scratches (scratch ∷ scratches) = scratches

  abbrev pub hash_of : OcallOramStorage → Block → ℕ × Bytes
  hash_of s block = (block.0, block_hash s block)

  -- The loop of `checkin`, with the last hash at its end.
  unfoldable pub seal_blocks :
      OcallOramStorage
      → List ℕ
      → List (Bytes × Bytes)
      → List Bytes
      → LastHash
      → List Block × LastHash
  seal_blocks s [] plains scratches last_hash = ([], last_hash)
  seal_blocks s (index ∷ indices) [] scratches last_hash = ([], last_hash)
  seal_blocks s (index ∷ indices) (plain ∷ plains) scratches last_hash =
      let block = seal_block s index plain (head_scratch scratches) last_hash in
      let (blocks, last) =
        seal_blocks s indices plains (tail_scratches scratches) (some (hash_of s block)) in
      (block ∷ blocks, last)

  -- The last hash becomes a trusted root.
  abbrev pub with_root : OcallOramStorage → LastHash → Option OcallOramStorage
  with_root s none = none
  with_root s (some (last_idx, last_hash)) =
      elim (set_root s.trusted_merkle_roots last_idx last_hash) [
        | none ↦ none
        | some roots ↦ some (record s { trusted_merkle_roots = roots })
      ]

  abbrev pub outside_index : OcallOramStorage → Block → ℕ × Bytes × Bytes
  outside_index s (index, e_data, scratch) = (index - s.treetop_max_count, e_data, scratch)

  -- The part of `checkin` that is not in the treetop.
  unfoldable pub checkin_outside :
      OcallOramStorage
      → UntrustedAllocation
      → List ℕ
      → List (Bytes × Bytes)
      → Option (OcallOramStorage × UntrustedAllocation)
  checkin_outside s u indices plains =
      let (blocks, last) = seal_blocks s indices plains s.meta_scratch_buffer none in
      elim (with_root s last) [
        | none ↦ none
        | some s' ↦ elim (checkin_oram_storage (map (outside_index s) blocks) u) [
          | none ↦ none
          | some u' ↦ some (record s' { meta_scratch_buffer = map (λ b. b.2) blocks }, u')
        ]
      ]

  abbrev pub with_treetop :
      List (Bytes × Bytes)
      → Option (List (Bytes × Bytes) × OcallOramStorage × UntrustedAllocation)
      → Option (List (Bytes × Bytes) × OcallOramStorage × UntrustedAllocation)
  with_treetop top none = none
  with_treetop top (some (plains, s, u)) = some (plains ++ top, s, u)

  -- The blocks of the path, from the node up.
  unfoldable pub checkout :
      OcallOramStorage
      → UntrustedAllocation
      → ℕ
      → Option (List (Bytes × Bytes) × OcallOramStorage × UntrustedAllocation)
  checkout s u index =
      if ltb 0 index && ltb index s.count
      then elim (position_below s.treetop_max_count (p.parents index)) [
        | none ↦ none
        | some first_treetop_index ↦
            let top = p.heap_checkout (nth (p.parents index) first_treetop_index) s.treetop in
            let outside =
              checkout_outside s u first_treetop_index
                (take first_treetop_index (p.parents index)) in
            if ltb 0 first_treetop_index then with_treetop top outside else some (top, s, u)
      ]
      else none

  unfoldable pub checkin :
      OcallOramStorage
      → UntrustedAllocation
      → ℕ
      → List (Bytes × Bytes)
      → Option (OcallOramStorage × UntrustedAllocation)
  checkin s u index src =
      if ltb 0 index && ltb index s.count && (length src == length (p.parents index))
      then elim (position_below s.treetop_max_count (p.parents index)) [
        | none ↦ none
        | some first_treetop_index ↦
            let s' = record s {
              treetop =
                  p.heap_checkin (nth (p.parents index) first_treetop_index)
                    (drop first_treetop_index src) s.treetop;
            } in
            let outside =
              checkin_outside s' u (take first_treetop_index (p.parents index))
                (take first_treetop_index src) in
            if ltb 0 first_treetop_index then outside else some (s', u)
      ]
      else none

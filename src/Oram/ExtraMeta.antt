-- ===== src/Oram/ExtraMeta.antt =====
-- fog/ocall_oram_storage/trusted/src/extra_meta.rs: what is stored after the metadata of a block, and
-- the hash of a block. Blake2b is a parameter.
use fog.Prelude.{
  ℕ, zero, suc, ◌+◌, ◌<◌, ◌^◌, ◌≡◌, refl, sym, ap, ◌∙◌, subst, List, [], ◌∷◌, ◌++◌, arith,
}
use fog.Prelude.Bytes.{
  Bytes, to_le_bytes, from_le_bytes, length-to_le_bytes, from_le_bytes-to_le_bytes,
}
use fog.Prelude.Lists.{length, take, drop, take-append}

abbrev pub extra_meta_size : ℕ
extra_meta_size = 40

pub record ExtraMeta : Type 0 where
  pub block_ctr : ℕ
  pub left_child_hash : Bytes
  pub right_child_hash : Bytes

-- The length of the slice is that of its type, 40.
unfoldable pub extra_meta_of_bytes : Bytes → ExtraMeta
extra_meta_of_bytes src = record {
  block_ctr = from_le_bytes (take 8 src);
  left_child_hash = take 16 (drop 8 src);
  right_child_hash = take 16 (drop 24 src);
}

unfoldable pub extra_meta_to_bytes : ExtraMeta → Bytes
extra_meta_to_bytes src =
    to_le_bytes 8 src.block_ctr ++ (src.left_child_hash ++ src.right_child_hash)

-- `b"oram"`
abbrev oram_prefix : Bytes
oram_prefix = b'o' ∷ b'r' ∷ b'a' ∷ b'm' ∷ []

-- The hash of what the five calls of `update` feed.
unfoldable pub compute_block_hash : (Bytes → Bytes) → Bytes → Bytes → ℕ → Bytes → Bytes
compute_block_hash blake2b hash_key e_data block_idx extended_metadata = take 16 (
    blake2b
      (oram_prefix ++ (hash_key ++ (e_data ++ (to_le_bytes 8 block_idx ++ extended_metadata)))))

pub drop-append {ℓ} : {A : Type ℓ} (xs ys : List A) (n : ℕ) → length xs ≡ n → drop n (xs ++ ys) ≡ ys
drop-append xs ys n e = subst (λ k. drop k (xs ++ ys) ≡ ys) e (exact xs)
  where
    exact : (zs : List _) → drop (length zs) (zs ++ ys) ≡ ys
    exact [] = refl
    exact (z ∷ zs) = exact zs

pub take_prefix {ℓ} : {A : Type ℓ} (xs ys : List A) (n : ℕ) → length xs ≡ n → take n (xs ++ ys) ≡ xs
take_prefix xs ys n e = subst (λ k. take k (xs ++ ys) ≡ xs) e (take-append xs ys)

drop-nil {ℓ} : {A : Type ℓ} (n : ℕ) → drop {A = A} n [] ≡ []
drop-nil zero = refl
drop-nil (suc n) = refl

drop_more {ℓ} : {A : Type ℓ} (m n : ℕ) (xs : List A) → drop (n + m) xs ≡ drop m (drop n xs)
drop_more m zero xs = let e : 0 + m ≡ m = omega arith in rw e refl
drop_more m (suc n) [] = let e : suc n + m ≡ suc (n + m) = omega arith in rw e (sym (drop-nil m))
drop_more m (suc n) (x ∷ xs) =
    let e : suc n + m ≡ suc (n + m) = omega arith in rw e (drop_more m n xs)

take_exact {ℓ} : {A : Type ℓ} (xs : List A) → take (length xs) xs ≡ xs
take_exact [] = refl
take_exact (x ∷ xs) = ap (λ t. x ∷ t) (take_exact xs)

pub take_all {ℓ} : {A : Type ℓ} (xs : List A) (n : ℕ) → length xs ≡ n → take n xs ≡ xs
take_all xs n e = subst (λ k. take k xs ≡ xs) e (take_exact xs)

-- What is written is read back.
pub extra_meta_of_bytes-to_bytes :
    (e : ExtraMeta)
    → e.block_ctr < 2 ^ 64
    → length e.left_child_hash ≡ 16
    → length e.right_child_hash ≡ 16
    → extra_meta_of_bytes (extra_meta_to_bytes e) ≡ e
unfolding extra_meta_of_bytes extra_meta_to_bytes
extra_meta_of_bytes-to_bytes e c l r =
    let ctr = to_le_bytes 8 e.block_ctr in
    let hashes = e.left_child_hash ++ e.right_child_hash in
    let n : length ctr ≡ 8 = length-to_le_bytes 8 e.block_ctr in
    let left_part : drop 8 (ctr ++ hashes) ≡ hashes = drop-append ctr hashes 8 n in
    let right_part : drop 24 (ctr ++ hashes) ≡ e.right_child_hash =
      drop_more 16 8 (ctr ++ hashes)
      ∙ ap (λ xs. drop 16 xs) left_part
      ∙ drop-append e.left_child_hash e.right_child_hash 16 l in
    rw
      (
        take_prefix ctr hashes 8 n,
        left_part,
        right_part,
        from_le_bytes-to_le_bytes e.block_ctr c,
        take_prefix e.left_child_hash e.right_child_hash 16 l,
        take_all e.right_child_hash 16 r,
      )
      refl

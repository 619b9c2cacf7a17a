-- ===== src/KexRng/Core.antt =====
-- fog/kex_rng/src/traits.rs, versioned/kexrng20201124.rs, lib.rs and error.rs. Blake2b and the key
-- exchange are code of other crates, so they are parameters.
use fog.Prelude.{ℕ, ◌≡◌, [], ◌∷◌, ◌++◌}
use fog.Prelude.Bytes.{Bytes, to_le_bytes}
use fog.Prelude.Lists.{length, take}
use fog.Prelude.Result.{Result}

-- trait KexRngCore
pub record KexRngCore : Type 0 where
  pub output_size : ℕ
  pub version_id : ℕ
  pub prf : Bytes → ℕ → Bytes

-- `b"20201124"`
abbrev pub prefix : Bytes
prefix = b'2' ∷ b'0' ∷ b'2' ∷ b'0' ∷ b'1' ∷ b'1' ∷ b'2' ∷ b'4' ∷ []

-- The hash of what the three calls of `update` feed, split after 16 bytes.
unfoldable pub prf : (Bytes → Bytes) → Bytes → ℕ → Bytes
prf blake2b secret counter = take 16 (blake2b (prefix ++ (secret ++ to_le_bytes 8 counter)))

abbrev pub kex_rng_20201124 : (Bytes → Bytes) → KexRngCore
kex_rng_20201124 blake2b = record { output_size = 16; version_id = 0; prf = prf blake2b }

pub data KeyError : Type 0 where
  algorithm_mismatch : KeyError
  length_mismatch : ℕ → ℕ → KeyError
  invalid_public_key : KeyError

pub data Error : Type 0 where
  key : KeyError → Error
  unknown_version : ℕ → Error

pub record KexRngPubkey : Type 0 where
  pub public_key : Bytes
  pub version : ℕ

pub record StoredRng : Type 0 where
  pub secret : Bytes
  pub buffer : Bytes
  pub counter : ℕ
  pub version : ℕ

-- trait Kex of mc_crypto_keys. `secret_size` is the size of a public key's representation.
pub record Kex : Type 1 where
  pub Private : Type 0
  pub Public : Type 0
  pub to_public : Private → Public
  pub to_bytes : Public → Bytes
  pub of_bytes : Bytes → Result KeyError Public
  pub key_exchange : Private → Public → Bytes
  pub secret_size : ℕ

-- What the documentation of a key exchange promises.
pub record KexLaws (k : Kex) : Type 0 where
  pub agree :
      (a b : k.Private) → k.key_exchange a (k.to_public b) ≡ k.key_exchange b (k.to_public a)
  pub round_trip : (p : k.Public) → k.of_bytes (k.to_bytes p) ≡ Result.ok p
  pub sized : (a : k.Private) (p : k.Public) → length (k.key_exchange a p) ≡ k.secret_size

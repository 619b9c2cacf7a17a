-- ===== src/Examples/Models.antt =====
-- Models of the code of other repositories, which show that what is assumed of it can hold: a map in
-- a list, a key exchange in numbers, a hash that pads its input.
use fog.Prelude.{
  ℕ, ◌*◌, ◌%◌, ◌≡◌, refl, ap, inl, inr, Bool, false, [], ◌∷◌, ◌++◌, arith, if◌then◌else◌,
  Bool-cases,
}
use fog.Prelude.Bytes.{Bytes, bytes_eq, bytes_beq, bytes_beq_iff}
use fog.Prelude.Lists.{length, replicate}
use fog.Prelude.Map.{Map, get, insert, get-insert}
use fog.Prelude.Result.{Result, ok, err}
use fog.Oblivious.{ObliviousMap, ObliviousMapLaws, Code, invalid_key, IsValidKey, hit, value_or}
use fog.KexRng.Core.{KexRngCore, Kex, KexLaws, KeyError, invalid_public_key, kex_rng_20201124}

abbrev is_zero : Bytes → Bool
is_zero k = bytes_beq k (replicate (length k) 0)

abbrev pub list_read : Map Bytes Bytes → Bytes → Bytes → Code × Bytes
list_read m k output =
    if is_zero k then (invalid_key, output) else (hit (get m k), value_or (get m k) output)

abbrev pub list_write : Map Bytes Bytes → Bytes → Bytes → Code × Map Bytes Bytes
list_write m k v = if is_zero k then (invalid_key, m) else (hit (get m k), insert m k v)

abbrev pub list_access :
    Map Bytes Bytes
    → Bytes
    → Bytes
    → (Code → Bytes → Bytes × Bytes)
    → Code × Bytes × Map Bytes Bytes
list_access m k d f =
    let (v, output) = f (hit (get m k)) (value_or (get m k) d) in
    if is_zero k then (invalid_key, output, m) else (hit (get m k), output, insert m k v)

abbrev pub list_map : ObliviousMap
list_map = record {
  Map = Map Bytes Bytes;
  create = λ n. [];
  lookup = get;
  len = length;
  capacity = λ m. 100;
  read = list_read;
  vartime_write = list_write;
  access_and_insert = list_access;
}

not_zero : (k : Bytes) → IsValidKey k → is_zero k ≡ false
not_zero k v = elim (Bool-cases (is_zero k)) [
  | inl e ↦ absurd (v ((bytes_beq_iff k _).0 e))
  | inr e ↦ e
]

pub list_map_laws : ObliviousMapLaws list_map
unfolding get
list_map_laws = record {
  lookup-create = λ n k. refl;
  read-valid = λ m k o v. rw (not_zero k v);
  read-invalid = λ m k o e. rw ((bytes_beq_iff k _).1 e);
  write-code = λ m k v h. inl (rw (not_zero k h));
  write-invalid = λ m k v e. rw ((bytes_beq_iff k _).1 e);
  lookup-write = λ m k v j h ne. rw (not_zero k h) (get-insert m k j v);
  access-code = λ m k d f h. inl (rw (not_zero k h));
  access-output = λ m k d f h ne. rw (not_zero k h);
  lookup-access = λ m k d f j h ne. rw (not_zero k h) (get-insert m k j _);
}

abbrev one_byte : Bytes → Result KeyError ℕ
one_byte (n ∷ []) = ok n
one_byte _ = err invalid_public_key

abbrev pub number_kex : Kex
number_kex = record {
  Private = ℕ;
  Public = ℕ;
  to_public = λ a. a;
  to_bytes = λ p. p ∷ [];
  of_bytes = one_byte;
  key_exchange = λ a p. ((a * p) % 251) ∷ [];
  secret_size = 1;
}

pub number_kex_laws : KexLaws number_kex
number_kex_laws = record {
  agree = λ a b. ap (λ n. (n % 251) ∷ []) (omega arith);
  round_trip = λ p. refl;
  sized = λ a p. refl;
}

abbrev pub padded : Bytes → Bytes
padded bytes = bytes ++ replicate 64 0

abbrev pub core : KexRngCore
core = kex_rng_20201124 padded

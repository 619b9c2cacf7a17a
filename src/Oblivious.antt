-- ===== src/Oblivious.antt =====
-- The oblivious map of mc_oblivious_traits, which both enclaves store records in and which is code of
-- another repository: an interface with the behaviour that its documentation gives. `lookup` is the
-- view of a map by which that behaviour is stated. A run may overflow at any insertion of a new key,
-- and then nothing is said about the map.
use fog.Prelude.{ℕ, ◌≡◌, ◌≢◌, ◌⊎◌, Option, none, some, if◌then◌else◌}
use fog.Prelude.Bytes.{Bytes, bytes_beq}
use fog.Prelude.Lists.{length, replicate}

pub data Code : Type 0 where
  found not_found overflow invalid_key : Code

-- `f` is the callback of `access_and_insert`: from the status code and the old value, the new value
-- and the output that the closure keeps.
pub record ObliviousMap : Type 1 where
  pub Map : Type 0
  pub create : ℕ → Map
  pub lookup : Map → Bytes → Option Bytes
  pub len : Map → ℕ
  pub capacity : Map → ℕ
  pub read : Map → Bytes → Bytes → Code × Bytes
  pub vartime_write : Map → Bytes → Bytes → Code × Map
  pub access_and_insert : Map → Bytes → Bytes → (Code → Bytes → Bytes × Bytes) → Code × Bytes × Map

-- The key of all zeroes is not allowed.
abbrev pub IsValidKey : Bytes → Type 0
IsValidKey key = key ≢ replicate (length key) 0

abbrev pub hit : Option Bytes → Code
hit none = not_found
hit (some v) = found

abbrev pub value_or : Option Bytes → Bytes → Bytes
value_or none d = d
value_or (some v) d = v

pub record ObliviousMapLaws (o : ObliviousMap) : Type 0 where
  pub lookup-create : (n : ℕ) (k : Bytes) → o.lookup (o.create n) k ≡ none
  -- A miss leaves the output buffer alone.
  pub read-valid :
      (m : o.Map) (k output : Bytes)
      → IsValidKey k
      → o.read m k output ≡ (hit (o.lookup m k), value_or (o.lookup m k) output)
  pub read-invalid :
      (m : o.Map) (k output : Bytes)
      → k ≡ replicate (length k) 0
      → o.read m k output ≡ (invalid_key, output)
  -- A write reports whether the key was there, unless it overflows, as only a new key can.
  pub write-code :
      (m : o.Map) (k v : Bytes)
      → IsValidKey k
      → ((o.vartime_write m k v).0 ≡ hit (o.lookup m k))
        ⊎ (((o.vartime_write m k v).0 ≡ overflow) × (o.lookup m k ≡ none))
  pub write-invalid :
      (m : o.Map) (k v : Bytes)
      → k ≡ replicate (length k) 0
      → o.vartime_write m k v ≡ (invalid_key, m)
  pub lookup-write :
      (m : o.Map) (k v j : Bytes)
      → IsValidKey k
      → (o.vartime_write m k v).0 ≢ overflow
      → o.lookup (o.vartime_write m k v).1 j ≡ (if bytes_beq k j then some v else o.lookup m j)
  pub access-code :
      (m : o.Map) (k d : Bytes) (f : Code → Bytes → Bytes × Bytes)
      → IsValidKey k
      → ((o.access_and_insert m k d f).0 ≡ hit (o.lookup m k))
        ⊎ (((o.access_and_insert m k d f).0 ≡ overflow) × (o.lookup m k ≡ none))
  -- The callback gets the stored value, or the default, and what it makes of it is stored.
  pub access-output :
      (m : o.Map) (k d : Bytes) (f : Code → Bytes → Bytes × Bytes)
      → IsValidKey k
      → (o.access_and_insert m k d f).0 ≢ overflow
      → (o.access_and_insert m k d f).1 ≡ (f (hit (o.lookup m k)) (value_or (o.lookup m k) d)).1
  pub lookup-access :
      (m : o.Map) (k d : Bytes) (f : Code → Bytes → Bytes × Bytes) (j : Bytes)
      → IsValidKey k
      → (o.access_and_insert m k d f).0 ≢ overflow
      → o.lookup (o.access_and_insert m k d f).2 j ≡ (
          if bytes_beq k j
          then some (f (hit (o.lookup m k)) (value_or (o.lookup m k) d)).0
          else o.lookup m j)

-- ===== src/KexRng/Stored.antt =====
-- The stored form of a generator of buffered.rs.
use fog.Prelude.{◌≡◌, arith}
use fog.Prelude.Lists.{length}
use fog.Prelude.Result.{ok}
use fog.KexRng.Core.{KexRngCore, Kex, StoredRng}
use fog.KexRng.Buffered.{
  BufferedKexRng, v0, to_stored, of_stored, versioned_of_stored, versioned_to_stored,
}

module _ (core : KexRngCore) (k : Kex) where
  -- A generator whose secret and buffer have the sizes of its version is read back from its stored
  -- form, counter and buffered output included.
  pub versioned_of_stored-versioned_to_stored :
      (r : BufferedKexRng)
      → length r.secret ≡ k.secret_size
      → length r.buffer ≡ core.output_size
      → versioned_of_stored core k (versioned_to_stored core k (v0 r)) ≡ ok (v0 r)
  unfolding versioned_of_stored versioned_to_stored to_stored of_stored
  versioned_of_stored-versioned_to_stored r s b = ground arith

  -- A stored form that is accepted has the version and the two sizes that are asked for, and is the
  -- stored form of the result.
  pub versioned_of_stored-ok :
      (src : StoredRng) (r : BufferedKexRng)
      → versioned_of_stored core k src ≡ ok (v0 r)
      → (src.version ≡ core.version_id)
        × (length src.buffer ≡ core.output_size)
        × (length src.secret ≡ k.secret_size)
        × (versioned_to_stored core k (v0 r) ≡ src)
  unfolding versioned_of_stored versioned_to_stored to_stored of_stored
  versioned_of_stored-ok src r h = (ground arith, ground arith, ground arith, ground arith)

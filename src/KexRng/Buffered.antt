-- ===== src/KexRng/Buffered.antt =====
-- fog/kex_rng/src/versioned/buffered.rs and versioned/macros.rs: a core with a counter and the last
-- output. Iterating clones the generator, so the caller's one does not advance.
use fog.Prelude.{ℕ, zero, suc, List, [], ◌∷◌, ◌==◌, if◌then◌else◌}
use fog.Prelude.Words.{add64}
use fog.Prelude.Bytes.{Bytes}
use fog.Prelude.Lists.{length}
use fog.Prelude.Result.{Result, ok, err, ◌>>=◌, map_err}
use fog.KexRng.Core.{
  KexRngCore, Kex, KexRngPubkey, StoredRng, KeyError, algorithm_mismatch, length_mismatch, Error,
  key, unknown_version,
}

pub record BufferedKexRng : Type 0 where
  pub secret : Bytes
  pub counter : ℕ
  pub buffer : Bytes

abbrev pub peek : BufferedKexRng → Bytes
peek r = r.buffer

abbrev pub index : BufferedKexRng → ℕ
index r = r.counter

unfoldable pub advance : KexRngCore → BufferedKexRng → BufferedKexRng
advance core r = record r {
  counter = add64 r.counter 1;
  buffer = core.prf r.secret (add64 r.counter 1);
}

unfoldable pub from_secret : KexRngCore → Bytes → BufferedKexRng
from_secret core secret = record { secret = secret; counter = 0; buffer = core.prf secret 0 }

-- `Iterator::next`
unfoldable pub next : KexRngCore → BufferedKexRng → Bytes × BufferedKexRng
next core r = (peek r, advance core r)

-- `rng.clone().take(n).collect()`
unfoldable pub take_outputs : KexRngCore → ℕ → BufferedKexRng → List Bytes
take_outputs core zero r = []
take_outputs core (suc n) r = let (output, r') = next core r in output ∷ take_outputs core n r'

module _ (core : KexRngCore) (k : Kex) where
  open k use {Private, Public, to_public, to_bytes, of_bytes, key_exchange, secret_size}

  unfoldable pub from_public_key : Public → KexRngPubkey
  from_public_key public = record { public_key = to_bytes public; version = core.version_id }

  -- `pubkey.new_secret(rng)` draws an ephemeral private key, which is an argument here.
  unfoldable pub new_from_ephemeral_static : Private → Public → KexRngPubkey × BufferedKexRng
  new_from_ephemeral_static ephemeral pubkey =
      (from_public_key (to_public ephemeral), from_secret core (key_exchange ephemeral pubkey))

  unfoldable pub new_from_static_static : Private → Public → KexRngPubkey × BufferedKexRng
  new_from_static_static our_private their_pubkey = (
    from_public_key (to_public our_private),
    from_secret core (key_exchange our_private their_pubkey),
  )

  unfoldable pub try_from_kex_pubkey : KexRngPubkey → Private → Result Error BufferedKexRng
  try_from_kex_pubkey pubkey our_private =
      if pubkey.version == core.version_id
      then (do
        public ← map_err key (of_bytes pubkey.public_key)
        ok (from_secret core (key_exchange our_private public)))
      else err (key algorithm_mismatch)

  unfoldable pub to_stored : BufferedKexRng → StoredRng
  to_stored r = record {
    version = core.version_id;
    secret = r.secret;
    buffer = r.buffer;
    counter = r.counter;
  }

  unfoldable pub of_stored : StoredRng → Result KeyError BufferedKexRng
  of_stored src =
      if src.version == core.version_id
      then if length src.buffer == core.output_size
        then if length src.secret == secret_size
          then ok (record { secret = src.secret; counter = src.counter; buffer = src.buffer })
          else err (length_mismatch (length src.secret) secret_size)
        else err (length_mismatch (length src.buffer) core.output_size)
      else err algorithm_mismatch

-- VersionedKexRng, with the one version that the macro is called with.
pub data VersionedKexRng : Type 0 where
  v0 : BufferedKexRng → VersionedKexRng

abbrev pub inner : VersionedKexRng → BufferedKexRng
inner (v0 r) = r

module _ (core : KexRngCore) (k : Kex) where
  unfoldable pub versioned_try_from_kex_pubkey :
      KexRngPubkey → k.Private → Result Error VersionedKexRng
  versioned_try_from_kex_pubkey pubkey private_key =
      if pubkey.version == core.version_id
      then (do r ← try_from_kex_pubkey core k pubkey private_key; ok (v0 r))
      else err (unknown_version pubkey.version)

  unfoldable pub versioned_of_stored : StoredRng → Result Error VersionedKexRng
  versioned_of_stored src =
      if src.version == core.version_id
      then (do r ← map_err key (of_stored core k src); ok (v0 r))
      else err (unknown_version src.version)

  unfoldable pub versioned_to_stored : VersionedKexRng → StoredRng
  versioned_to_stored (v0 r) = to_stored core k r

unfoldable pub versioned_advance : KexRngCore → VersionedKexRng → VersionedKexRng
versioned_advance core (v0 r) = v0 (advance core r)

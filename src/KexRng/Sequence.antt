-- ===== src/KexRng/Sequence.antt =====
-- The outputs that a generator of buffered.rs gives, and that both sides of a key exchange agree.
use fog.Prelude.{ℕ, zero, suc, ◌+◌, ◌%◌, ◌≡◌, refl, ap, ◌∙◌, List, [], ◌∷◌, arith, eq→==}
use fog.Prelude.Words.{u64_mod, add64}
use fog.Prelude.Bytes.{Bytes}
use fog.Prelude.Result.{ok}
use fog.KexRng.Core.{KexRngCore, Kex, KexLaws}
use fog.KexRng.Buffered.{
  BufferedKexRng, v0, advance, from_secret, next, take_outputs, from_public_key,
  new_from_ephemeral_static, new_from_static_static, try_from_kex_pubkey,
  versioned_try_from_kex_pubkey,
}

-- The generator of a secret after `n` outputs.
abbrev pub at_output : KexRngCore → Bytes → ℕ → BufferedKexRng
at_output core secret n = record {
  secret = secret;
  counter = n % u64_mod;
  buffer = core.prf secret (n % u64_mod);
}

-- The `n` outputs from output `i` on, one for each counter value.
abbrev pub outputs_from : KexRngCore → Bytes → ℕ → ℕ → List Bytes
outputs_from core secret i zero = []
outputs_from core secret i (suc n) =
    core.prf secret (i % u64_mod) ∷ outputs_from core secret (i + 1) n

abbrev pub advance_by : KexRngCore → ℕ → BufferedKexRng → BufferedKexRng
advance_by core zero r = r
advance_by core (suc n) r = advance_by core n (advance core r)

module _ (core : KexRngCore) (secret : Bytes) where
  pub advance-at_output :
      (n : ℕ) → advance core (at_output core secret n) ≡ at_output core secret (n + 1)
  unfolding advance
  advance-at_output n =
      ap (λ c. record { secret = secret; counter = c; buffer = core.prf secret c }) wraps
    where
      wraps : add64 (n % u64_mod) 1 ≡ (n + 1) % u64_mod
      wraps = omega arith

  advance_by-at_output :
      (n i : ℕ) → advance_by core n (at_output core secret i) ≡ at_output core secret (i + n)
  advance_by-at_output zero i = ap (at_output core secret) (omega arith)
  advance_by-at_output (suc n) i =
      ap (advance_by core n) (advance-at_output i)
      ∙ advance_by-at_output n (i + 1)
      ∙ ap (at_output core secret) (omega arith)

  take_outputs-at_output :
      (n i : ℕ) → take_outputs core n (at_output core secret i) ≡ outputs_from core secret i n
  unfolding take_outputs next
  take_outputs-at_output zero i = refl
  take_outputs-at_output (suc n) i =
      ap (λ r. core.prf secret (i % u64_mod) ∷ take_outputs core n r) (advance-at_output i)
      ∙ ap (λ rest. core.prf secret (i % u64_mod) ∷ rest) (take_outputs-at_output n (i + 1))

  -- After any number of advances of a new generator, the index is that number, and the next outputs
  -- are the values of the function at the consecutive counters from it on, all modulo 2^64.
  pub take_outputs-advance_by :
      (i n : ℕ)
      → let r = advance_by core i (from_secret core secret) in
        (r.counter ≡ i % u64_mod) × (take_outputs core n r ≡ outputs_from core secret i n)
  unfolding from_secret
  take_outputs-advance_by i n =
      let e : advance_by core i (from_secret core secret) ≡ at_output core secret i =
        advance_by-at_output i 0 ∙ ap (at_output core secret) (omega arith) in
      (
        ap (λ (r : BufferedKexRng). r.counter) e,
        ap (take_outputs core n) e ∙ take_outputs-at_output n i,
      )

module _ (core : KexRngCore) (k : Kex) (laws : KexLaws k) where
  open k use {Private, Public, to_public, to_bytes, of_bytes, key_exchange}

  -- A client that is given the public half of a new generator builds the same generator from its own
  -- private key, whether the other side used a static or an ephemeral key.
  pub versioned_try_from_kex_pubkey-agrees :
      (server client : Private)
      → let (pubkey, rng) = new_from_static_static core k server (to_public client) in
        let (pubkey', rng') = new_from_ephemeral_static core k server (to_public client) in
        (versioned_try_from_kex_pubkey core k pubkey client ≡ ok (v0 rng))
        × (versioned_try_from_kex_pubkey core k pubkey' client ≡ ok (v0 rng'))
  unfolding new_from_static_static new_from_ephemeral_static versioned_try_from_kex_pubkey
      try_from_kex_pubkey from_public_key
  versioned_try_from_kex_pubkey-agrees server client = (
    simp (eq→== core.version_id core.version_id refl, laws.round_trip, laws.agree client server),
    simp (eq→== core.version_id core.version_id refl, laws.round_trip, laws.agree client server),
  )

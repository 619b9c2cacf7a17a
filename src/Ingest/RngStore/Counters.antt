-- ===== src/Ingest/RngStore/Counters.antt =====
-- Each user's outputs of rng_store.rs follow one another without a gap or a repetition.
use fog.Prelude.{
  ℕ, ◌<◌, ◌≡◌, ◌≢◌, refl, sym, ap, subst, ◌∙◌, Bool, true, false, Option, none, some, [], ◌∷◌,
  arith, if◌then◌else◌,
}
use fog.Prelude.Words.{u64_mod, add64}
use fog.Prelude.Bytes.{Bytes, to_le_bytes, from_le_bytes, from_le_bytes-to_le_bytes, bytes_beq}
use fog.Oblivious.{
  ObliviousMap, ObliviousMapLaws, Code, found, not_found, overflow, invalid_key, IsValidKey,
  value_or,
}
use fog.KexRng.Core.{KexRngCore}
use fog.Ingest.RngStore.{RngStore, flip_first, zeroes, count_up, is_overflow, next_rng_output}

-- The bytes of a curve point: what the flipped bytes are not all zero of.
abbrev pub IsSecret : Bytes → Type 0
IsSecret [] = ⊥
IsSecret (b ∷ bs) = (b < 256) × IsValidKey (flip_first (b ∷ bs))

flip_first-beq :
    (a b : Bytes)
    → IsSecret a
    → IsSecret b
    → bytes_beq (flip_first a) (flip_first b) ≡ bytes_beq a b
flip_first-beq [] b h k = absurd h
flip_first-beq (x ∷ xs) [] h k = absurd k
flip_first-beq (x ∷ xs) (y ∷ ys) h k = ground arith

flip_first-valid : (a : Bytes) → IsSecret a → IsValidKey (flip_first a)
flip_first-valid [] h = absurd h
flip_first-valid (x ∷ xs) h = h.1

not_overflow : (c : Code) → is_overflow c ≡ false → c ≢ overflow
not_overflow found h e = cc
not_overflow not_found h e = cc
not_overflow overflow h e = cc
not_overflow invalid_key h e = cc

-- The counter that a stored value stands for.
abbrev pub count_in : Option Bytes → ℕ
count_in none = 0
count_in (some v) = from_le_bytes v

count_in-value_or : (v : Option Bytes) → from_le_bytes (value_or v zeroes) ≡ count_in v
unfolding from_le_bytes
count_in-value_or none = refl
count_in-value_or (some v) = refl

count_in-if :
    (b : Bool) (n : ℕ) (v : Option Bytes)
    → n < u64_mod
    → count_in (if b then some (to_le_bytes 8 n) else v) ≡ (if b then n else count_in v)
count_in-if true n v h = from_le_bytes-to_le_bytes n h
count_in-if false n v h = refl

-- The counter that the store holds for a user.
unfoldable pub count : (o : ObliviousMap) → RngStore o → Bytes → ℕ
count o s secret = elim s.omap [ none ↦ 0 | some m ↦ count_in (o.lookup m (flip_first secret)) ]

-- What a call of `next_rng_output` that does not overflow does.
pub record Draws (o : ObliviousMap) (core : KexRngCore) (secret : Bytes) (s : RngStore o)
    (output : Bytes) (s' : RngStore o) : Type 0 where
  pub drawn : output ≡ core.prf secret (count o s secret)
  pub counts :
      (j : Bytes)
      → IsSecret j
      → count o s' j ≡ (if bytes_beq secret j then add64 (count o s secret) 1 else count o s j)

module _ (o : ObliviousMap) (laws : ObliviousMapLaws o) (core : KexRngCore) where
  access_draws :
      (m : o.Map) (secret : Bytes)
      → let r = o.access_and_insert m (flip_first secret) zeroes (count_up core secret) in
        IsSecret secret
        → is_overflow r.0 ≡ false
        → (r.1 ≡ core.prf secret (count_in (o.lookup m (flip_first secret))))
          × ((j : Bytes)
              → IsSecret j
              → count_in (o.lookup r.2 (flip_first j)) ≡ (
                  if bytes_beq secret j
                  then add64 (count_in (o.lookup m (flip_first secret))) 1
                  else count_in (o.lookup m (flip_first j))))
  access_draws m secret v h =
      let key = flip_first secret in
      let f = count_up core secret in
      let valid = flip_first-valid secret v in
      let ne = not_overflow _ h in
      (
        laws.access-output m key zeroes f valid ne
            ∙ ap (core.prf secret) (count_in-value_or (o.lookup m key)),
        λ j jv.
            ap count_in (laws.lookup-access m key zeroes f (flip_first j) valid ne)
            ∙ rw (count_in-value_or (o.lookup m key), flip_first-beq secret j v jv)
                (count_in-if (bytes_beq secret j) (add64 (count_in (o.lookup m key)) 1)
                  (o.lookup m (flip_first j)) (omega arith)),
      )

  Draws-some :
      (m : o.Map) (c : ℕ) (secret : Bytes)
      → let s : RngStore o = record { omap = some m; desired_capacity = c } in
        let r = o.access_and_insert m (flip_first secret) zeroes (count_up core secret) in
        IsSecret secret
        → is_overflow r.0 ≡ false
        → Draws o core secret s r.1 (record s { omap = some r.2 })
  unfolding count
  Draws-some m c secret v h =
      let d = access_draws m secret v h in record { drawn = d.0; counts = d.1 }

  -- A call on a store that holds a map does not panic, and the new store holds a map. If it is made for
  -- a curve point and reports no overflow, it returns the value of the function at the user's counter,
  -- adds one to that counter modulo 2^64, and leaves the counters of all other users alone.
  pub next_rng_output-Draws :
      (secret : Bytes) (s : RngStore o) (m : o.Map)
      → s.omap ≡ some m
      → (overflowed : Bool) × (output : Bytes) × (s' : RngStore o) × (m' : o.Map) × (next_rng_output
            o core secret s
          ≡ some ((overflowed, output), s'))
        × (s'.omap ≡ some m')
        × (IsSecret secret → overflowed ≡ false → Draws o core secret s output s')
  unfolding next_rng_output
  next_rng_output-Draws secret s m e =
      let r = o.access_and_insert m (flip_first secret) zeroes (count_up core secret) in
      let at_m : RngStore o = record s { omap = some m } in
      let same : at_m ≡ s = ap (λ (om : Option o.Map). record s { omap = om }) (sym e) in
      (
        is_overflow r.0,
        r.1,
        record s { omap = some r.2 },
        r.2,
        ap (next_rng_output o core secret) (sym same),
        refl,
        λ v h.
            subst (λ t. Draws o core secret t r.1 (record s { omap = some r.2 })) same
              (Draws-some m s.desired_capacity secret v h),
      )

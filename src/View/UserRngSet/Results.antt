-- ===== src/View/UserRngSet/Results.antt =====
-- The loop of `ingest_tx_out_search_results` of user_rng_set.rs over all generators.
use fog.Prelude.{
  ℕ, suc, ◌<◌, ◌≡◌, refl, ap, sym, subst, eq_of_some, ◌∙◌, ◌⊎◌, inl, inr, none, some, [], ◌∷◌,
  arith, Option-cases,
}
use fog.Prelude.Bytes.{Bytes, bytes_eq}
use fog.Prelude.Lists.{length, In, here, there}
use fog.Prelude.Map.{Map, get, Unique}
use fog.Prelude.Result.{Result}
use fog.KexRng.Core.{KexRngCore}
use fog.KexRng.Buffered.{VersionedKexRng, inner, peek}
use fog.View.UserRngSet.{RecoveryError, Decryption, decrypt_tx_out_result, Progress, drain_all}
use fog.View.UserRngSet.Drain.{SubMap, advances, total, Noted, Drained, drain-Drained}

module _ {BoxError R : Type 0} (core : KexRngCore) (d : Decryption BoxError R) where
  -- A generator, before and after: `m` has the results, `left` those that stay unmatched. It advanced
  -- over keys with a result, whose outcome is noted, up to a key with none.
  abbrev pub Moved :
      Map Bytes Bytes → Progress BoxError R → VersionedKexRng → VersionedKexRng → Type 0
  Moved m p' rng rng' =
      (n : ℕ) × (rng' ≡ advances core n rng)
      × (get p'.tx_result_map (peek (inner rng')) ≡ none)
      × ((i : ℕ)
          → i < n
          → (ciphertext : Bytes) × (get m (peek (inner (advances core i rng))) ≡ some ciphertext)
            × Noted core d (decrypt_tx_out_result BoxError R d ciphertext) p')

  abbrev pub AllMoved :
      Map Bytes Bytes
      → Progress BoxError R
      → Map Bytes VersionedKexRng
      → Map Bytes VersionedKexRng
      → Type 0
  AllMoved m p' [] [] = Unit
  AllMoved m p' [] (x ∷ xs) = ⊥
  AllMoved m p' (x ∷ xs) [] = ⊥
  AllMoved m p' ((nonce, rng) ∷ rngs) ((nonce', rng') ∷ rngs') =
      (nonce' ≡ nonce) × Moved m p' rng rng' × AllMoved m p' rngs rngs'

  SubMap-none :
      (m' m : Map Bytes Bytes) → SubMap m' m → (k : Bytes) → get m k ≡ none → get m' k ≡ none
  SubMap-none m' m s k h = elim (Option-cases (get m' k)) [
    | inl e ↦ e
    | inr (c, e) ↦ let e' = s k c e in cc
  ]

  -- A generator passed the key on its way over keys of the map.
  abbrev pub Passed :
      Map Bytes Bytes → Map Bytes VersionedKexRng → Map Bytes VersionedKexRng → Bytes → Type 0
  Passed m rngs rngs' key =
      (nonce : Bytes) × (rng : VersionedKexRng) × (n : ℕ) × (i : ℕ) × ((i < n)
        × In (nonce, rng) rngs
        × In (nonce, advances core n rng) rngs'
        × (peek (inner (advances core i rng)) ≡ key)
        × ((j : ℕ) → j < n → (c : Bytes) × (get m (peek (inner (advances core j rng))) ≡ some c)))

  -- What the loop over the generators does.
  pub record DrainedAll (rngs : Map Bytes VersionedKexRng) (p : Progress BoxError R)
      (rngs' : Map Bytes VersionedKexRng) (p' : Progress BoxError R) : Type 0 where
    pub moved : AllMoved p.tx_result_map p' rngs rngs'
    pub sub : SubMap p'.tx_result_map p.tx_result_map
    pub counted :
        Unique p.tx_result_map → Unique p'.tx_result_map × (total core d p' ≡ total core d p)
    pub removed :
        (key ciphertext : Bytes)
        → get p.tx_result_map key ≡ some ciphertext
        → (get p'.tx_result_map key ≡ some ciphertext) ⊎ Passed p.tx_result_map rngs rngs' key
    pub answered :
        (key ciphertext : Bytes)
        → get p.tx_result_map key ≡ some ciphertext
        → (get p'.tx_result_map key ≡ some ciphertext)
          ⊎ Noted core d (decrypt_tx_out_result BoxError R d ciphertext) p'
    pub keeps : (r : Result (RecoveryError BoxError R) R) → Noted core d r p → Noted core d r p'
    pub origin :
        (r : Result (RecoveryError BoxError R) R)
        → Noted core d r p'
        → Noted core d r p
          ⊎ ((key : Bytes) × (ciphertext : Bytes) × (get p.tx_result_map key ≡ some ciphertext)
              × (decrypt_tx_out_result BoxError R d ciphertext ≡ r))

  AllMoved-mono :
      (m m₀ : Map Bytes Bytes) (p' : Progress BoxError R) (rngs rngs' : Map Bytes VersionedKexRng)
      → SubMap m m₀
      → AllMoved m p' rngs rngs'
      → AllMoved m₀ p' rngs rngs'
  AllMoved-mono m m₀ p' [] [] s a = tt
  AllMoved-mono m m₀ p' [] (x ∷ xs) s a = absurd a
  AllMoved-mono m m₀ p' (x ∷ xs) [] s a = absurd a
  AllMoved-mono m m₀ p' ((nonce, rng) ∷ rngs) ((nonce', rng') ∷ rngs') s
        (e, (n, adv, gap, each), rest) =
      (
        e,
        (n, adv, gap, λ i lt. let (c, g, noted) = each i lt in (c, s _ c g, noted)),
        AllMoved-mono m m₀ p' rngs rngs' s rest,
      )

  DrainedAll-cons :
      (nonce : Bytes) (rng rng' : VersionedKexRng) (rngs rngs' : Map Bytes VersionedKexRng)
      (p q r : Progress BoxError R)
      → Drained core d rng p rng' q
      → DrainedAll rngs q rngs' r
      → DrainedAll ((nonce, rng) ∷ rngs) p ((nonce, rng') ∷ rngs') r
  DrainedAll-cons nonce rng rng' rngs rngs' p q r a b = record {
    moved = (
      refl,
      (
        a.steps,
        a.advanced,
        SubMap-none r.tx_result_map q.tx_result_map b.sub (peek (inner rng')) a.gap,
        λ i lt.
            let (c, g, noted) = a.matched i lt in
            (c, g, b.keeps (decrypt_tx_out_result BoxError R d c) noted),
      ),
      AllMoved-mono q.tx_result_map p.tx_result_map r rngs rngs' a.sub b.moved,
    );
    sub = λ k c h. a.sub k c (b.sub k c h);
    counted = λ u. let (u', t) = a.counted u in let (u'', t') = b.counted u' in (u'', t' ∙ t);
    removed = λ k c h. elim (a.removed k c h) [
      | inr (i, lt, e) ↦ inr (
        nonce,
        rng,
        a.steps,
        i,
        (
          lt,
          here refl,
          here (ap (λ x. (nonce, x)) a.advanced),
          e,
          λ j l. let (x, g, noted) = a.matched j l in (x, g),
        ),
      )
      | inl h' ↦ elim (b.removed k c h') [
        | inl h'' ↦ inl h''
        | inr (m, x, n, i, (lt, f, g, e, each)) ↦ inr (
          m,
          x,
          n,
          i,
          (lt, there f, there g, e, λ j l. let (y, s) = each j l in (y, a.sub _ y s)),
        )
      ]
    ];
    answered = λ k c h. elim (a.removed k c h) [
      | inl h' ↦ b.answered k c h'
      | inr (i, lt, e) ↦
          let (c', g, noted) = a.matched i lt in
          let same : c' ≡ c =
            eq_of_some (sym g ∙ subst (λ j. get p.tx_result_map j ≡ some c) (sym e) h) in
          inr (
            b.keeps (decrypt_tx_out_result BoxError R d c)
              (subst (λ x. Noted core d (decrypt_tx_out_result BoxError R d x) q) same noted))
    ];
    keeps = λ x h. b.keeps x (a.keeps x h);
    origin = λ x h. elim (b.origin x h) [
      | inl h' ↦ a.origin x h'
      | inr (k, c, g, e) ↦ inr (k, c, a.sub k c g, e)
    ];
  }

  pub drain_all-DrainedAll :
      (rngs : Map Bytes VersionedKexRng) (p : Progress BoxError R)
      → (rngs' : Map Bytes VersionedKexRng) × (p' : Progress BoxError R) × (drain_all BoxError R
            core d rngs p
          ≡ some (rngs', p'))
        × DrainedAll rngs p rngs' p'
  unfolding drain_all
  drain_all-DrainedAll [] p = (
    [],
    p,
    refl,
    record {
      moved = tt;
      sub = λ k c h. h;
      counted = λ u. (u, refl);
      removed = λ k c h. inl h;
      answered = λ k c h. inl h;
      keeps = λ r h. h;
      origin = λ r h. inl h;
    },
  )
  drain_all-DrainedAll ((nonce, rng) ∷ rngs) p =
      let (rng', q, ret, a) =
        drain-Drained core d (suc (length p.tx_result_map)) rng p (omega arith) in
      let (rngs', r, ret', b) = drain_all-DrainedAll rngs q in
      (
        (nonce, rng') ∷ rngs',
        r,
        rw (ret, ret', drain_all) refl,
        DrainedAll-cons nonce rng rng' rngs rngs' p q r a b,
      )

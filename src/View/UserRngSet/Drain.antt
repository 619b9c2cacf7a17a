-- ===== src/View/UserRngSet/Drain.antt =====
-- The inner loop of `ingest_tx_out_search_results` of user_rng_set.rs, for one generator.
use fog.Prelude.{
  ℕ, zero, suc, ◌+◌, ◌<◌, ◌≡◌, refl, ap, ◌⊎◌, inl, inr, none, some, [], ◌∷◌, ◌∙◌, arith,
  Option-cases, Bool-cases,
}
use fog.Prelude.Bytes.{Bytes, bytes_eq, bytes_beq, bytes_beq_iff}
use fog.Prelude.Lists.{
  length, length-append, In, here, there, In-append_left, In-append_right, In-append,
}
use fog.Prelude.Map.{
  Map, get, remove, get-remove, Unique, remove-Unique, length-remove, length-remove-lt,
}
use fog.Prelude.Result.{Result, ok, err}
use fog.KexRng.Core.{KexRngCore}
use fog.KexRng.Buffered.{VersionedKexRng, inner, peek, versioned_advance}
use fog.View.UserRngSet.{
  RecoveryError, Decryption, decrypt_tx_out_result, Progress, push, match_one, drain,
}

-- Every entry of `m'` is one of `m`.
abbrev pub SubMap : Map Bytes Bytes → Map Bytes Bytes → Type 0
SubMap m' m = (key ciphertext : Bytes) → get m' key ≡ some ciphertext → get m key ≡ some ciphertext

In-single {ℓ} : {A : Type ℓ} {a x : A} → In a (x ∷ []) → x ≡ a
In-single (here e) = e
In-single (there i) = elim i [ ]

unfoldable pub advances : KexRngCore → ℕ → VersionedKexRng → VersionedKexRng
advances core zero rng = rng
advances core (suc n) rng = advances core n (versioned_advance core rng)

remove-SubMap : (m : Map Bytes Bytes) (k : Bytes) → SubMap (remove m k) m
remove-SubMap m k key c h = ground (arith, get-remove m k key)

module _ {BoxError R : Type 0} (core : KexRngCore) (d : Decryption BoxError R) where
  -- Search keys left over, records and errors together.
  abbrev pub total : Progress BoxError R → ℕ
  total p = length p.successes + length p.failures + length p.tx_result_map

  -- The outcome of a decryption was written down.
  abbrev pub Noted : Result (RecoveryError BoxError R) R → Progress BoxError R → Type 0
  Noted (ok txo) p = In txo p.successes
  Noted (err e) p = In e p.failures

  Noted-map :
      (q : Result (RecoveryError BoxError R) R) (p : Progress BoxError R) (m : Map Bytes Bytes)
      → Noted q p
      → Noted q (record p { tx_result_map = m })
  Noted-map (ok t) p m h = h
  Noted-map (err e) p m h = h

  Noted-push :
      (r : Result (RecoveryError BoxError R) R) (p : Progress BoxError R)
      → Noted r (push BoxError R r p)
  Noted-push (ok txo) p = In-append_right p.successes _ (here refl)
  Noted-push (err e) p = In-append_right p.failures _ (here refl)

  Noted-keep :
      (q r : Result (RecoveryError BoxError R) R) (p : Progress BoxError R)
      → Noted q p
      → Noted q (push BoxError R r p)
  Noted-keep (ok t) (ok txo) p i = In-append_left p.successes _ i
  Noted-keep (ok t) (err e) p i = i
  Noted-keep (err e) (ok txo) p i = i
  Noted-keep (err e) (err e') p i = In-append_left p.failures _ i

  map-push :
      (r : Result (RecoveryError BoxError R) R) (p : Progress BoxError R)
      → (push BoxError R r p).tx_result_map ≡ p.tx_result_map
  map-push (ok t) p = refl
  map-push (err e) p = refl

  total-push :
      (r : Result (RecoveryError BoxError R) R) (p : Progress BoxError R)
      → total (push BoxError R r p) ≡ total p + 1
  total-push (ok t) p = omega (arith, length-append p.successes (t ∷ []))
  total-push (err e) p = omega (arith, length-append p.failures (e ∷ []))

  Noted-origin :
      (q r : Result (RecoveryError BoxError R) R) (p : Progress BoxError R)
      → Noted q (push BoxError R r p)
      → Noted q p ⊎ (r ≡ q)
  Noted-origin (ok t) (ok txo) p i = elim (In-append p.successes (txo ∷ []) i) [
    | inl j ↦ inl j
    | inr j ↦ inr (ap ok (In-single j))
  ]
  Noted-origin (ok t) (err e) p i = inl i
  Noted-origin (err e) (ok txo) p i = inl i
  Noted-origin (err e) (err e') p i = elim (In-append p.failures (e' ∷ []) i) [
    | inl j ↦ inl j
    | inr j ↦ inr (ap err (In-single j))
  ]

  -- What the loop does to one generator: it advances over the keys that have a result, notes what
  -- becomes of each, and stops at the first key that has none.
  pub record Drained (rng : VersionedKexRng) (p : Progress BoxError R) (rng' : VersionedKexRng)
      (p' : Progress BoxError R) : Type 0 where
    pub steps : ℕ
    pub advanced : rng' ≡ advances core steps rng
    pub gap : get p'.tx_result_map (peek (inner rng')) ≡ none
    pub sub : SubMap p'.tx_result_map p.tx_result_map
    pub counted : Unique p.tx_result_map → Unique p'.tx_result_map × (total p' ≡ total p)
    pub matched :
        (i : ℕ)
        → i < steps
        → (ciphertext : Bytes) × (get p.tx_result_map (peek (inner (advances core i rng)))
            ≡ some ciphertext)
          × Noted (decrypt_tx_out_result BoxError R d ciphertext) p'
    pub removed :
        (key ciphertext : Bytes)
        → get p.tx_result_map key ≡ some ciphertext
        → (get p'.tx_result_map key ≡ some ciphertext)
          ⊎ ((i : ℕ) × (i < steps) × (peek (inner (advances core i rng)) ≡ key))
    pub keeps : (r : Result (RecoveryError BoxError R) R) → Noted r p → Noted r p'
    pub origin :
        (r : Result (RecoveryError BoxError R) R)
        → Noted r p'
        → Noted r p
          ⊎ ((key : Bytes) × (ciphertext : Bytes) × (get p.tx_result_map key ≡ some ciphertext)
              × (decrypt_tx_out_result BoxError R d ciphertext ≡ r))

  match_one-map :
      (c : Bytes) (rng : VersionedKexRng) (p : Progress BoxError R)
      → (match_one BoxError R d c rng p).tx_result_map ≡ remove p.tx_result_map (peek (inner rng))
  match_one-map c rng p = map-push (decrypt_tx_out_result BoxError R d c) _

  Drained-step :
      (c : Bytes) (rng : VersionedKexRng) (p : Progress BoxError R) {rng' : VersionedKexRng}
      {p' : Progress BoxError R}
      → get p.tx_result_map (peek (inner rng)) ≡ some c
      → Drained (versioned_advance core rng) (match_one BoxError R d c rng p) rng' p'
      → Drained rng p rng' p'
  unfolding advances
  Drained-step c rng p {rng'} {p'} e a =
      let key = peek (inner rng) in
      let r = decrypt_tx_out_result BoxError R d c in
      let p₁ : Progress BoxError R = record p { tx_result_map = remove p.tx_result_map key } in
      let smaller : SubMap (match_one BoxError R d c rng p).tx_result_map p.tx_result_map =
        rw (match_one-map c rng p) (remove-SubMap p.tx_result_map key) in
      record {
        steps = suc a.steps;
        advanced = a.advanced;
        gap = a.gap;
        sub = λ k x h. smaller k x (a.sub k x h);
        counted = λ u.
            let (u', t) =
              a.counted (rw (match_one-map c rng p) (remove-Unique p.tx_result_map key u)) in
            (u', omega (arith, t, total-push r p₁, length-remove p.tx_result_map key c u e));
        matched = elim [
          | zero ↦ λ lt. (c, e, a.keeps r (Noted-push r p₁))
          | suc j ↦ λ lt. let (x, g, n) = a.matched j (omega arith) in (x, smaller _ x g, n)
        ];
        removed = λ k x h. elim (Bool-cases (bytes_beq key k)) [
          | inl f ↦ inr (0, omega arith, (bytes_beq_iff key k).0 f)
          | inr f ↦
              let there_is : get (remove p.tx_result_map key) k ≡ some x =
                get-remove p.tx_result_map key k ∙ rw f h in
              elim (a.removed k x (rw (match_one-map c rng p) there_is)) [
                | inl g ↦ inl g
                | inr (j, lt, g) ↦ inr (suc j, omega (arith, lt), g)
              ]
        ];
        keeps = λ q h. a.keeps q (Noted-keep q r p₁ (Noted-map q p (remove p.tx_result_map key) h));
        origin = λ q h. elim (a.origin q h) [
          | inr (k, x, g, e') ↦ inr (k, x, smaller k x g, e')
          | inl n ↦ elim (Noted-origin q r p₁ n) [
            | inl n' ↦ inl (Noted-map q p₁ p.tx_result_map n')
            | inr e' ↦ inr (key, c, e, e')
          ]
        ];
      }

  Drained-stop :
      (rng : VersionedKexRng) (p : Progress BoxError R)
      → get p.tx_result_map (peek (inner rng)) ≡ none
      → Drained rng p rng p
  unfolding advances
  Drained-stop rng p e = record {
    steps = 0;
    advanced = refl;
    gap = e;
    sub = λ k c h. h;
    counted = λ u. (u, refl);
    matched = λ i lt. absurd (omega arith);
    removed = λ k c h. inl h;
    keeps = λ r h. h;
    origin = λ r h. inl h;
  }

  -- With more fuel than entries the loop ends.
  pub drain-Drained :
      (fuel : ℕ) (rng : VersionedKexRng) (p : Progress BoxError R)
      → length p.tx_result_map < fuel
      → (rng' : VersionedKexRng) × (p' : Progress BoxError R) × (drain BoxError R core d fuel rng p
          ≡ some (rng', p'))
        × Drained rng p rng' p'
  unfolding drain
  drain-Drained zero rng p lt = absurd (omega arith)
  drain-Drained (suc fuel) rng p lt =
      let key = peek (inner rng) in
      elim (Option-cases (get p.tx_result_map key)) [
        | inl e ↦ (rng, p, rw (e, drain) refl, Drained-stop rng p e)
        | inr (c, e) ↦
            let (rng', p', ret, a) =
              drain-Drained fuel (versioned_advance core rng) (match_one BoxError R d c rng p) (
                rw (match_one-map c rng p)
                  (omega (arith, length-remove-lt p.tx_result_map key c e))) in
            (rng', p', rw (e, drain) ret, Drained-step c rng p e a)
      ]

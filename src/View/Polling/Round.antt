-- ===== src/View/Polling/Round.antt =====
-- How far the generators of a client can still advance in the rounds of
-- fog/view/protocol/src/polling.rs.
use fog.Prelude.{
  ℕ, zero, suc, ◌+◌, ◌-◌, ◌≤◌, ◌<◌, ◌≡◌, refl, sym, ap, subst, ◌∙◌, ◌⊎◌, inl, inr, none, some, List,
  [], ◌∷◌, map, ltb, ltb→lt, ltb→le, Bool-cases, arith,
}
use fog.Prelude.Words.{u64_mod, add64-no_wrap}
use fog.Prelude.Bytes.{Bytes, bytes_eq, bytes_beq, bytes_beq_iff}
use fog.Prelude.Lists.{All, length}
use fog.Prelude.Map.{Map, get, Unique}
use fog.Prelude.Queries.{filter}
use fog.KexRng.Core.{KexRngCore}
use fog.KexRng.Buffered.{VersionedKexRng, v0, inner, peek, index, advance, versioned_advance}
use fog.View.UserRngSet.{Decryption, Progress}
use fog.View.UserRngSet.Drain.{advances}
use fog.View.UserRngSet.Results.{AllMoved}
use fog.View.Polling.{is_dead, dead_rngs, next_multiplier}

module _ (core : KexRngCore) where
  index-advances :
      (n : ℕ) (rng : VersionedKexRng)
      → index (inner rng) + n < u64_mod
      → index (inner (advances core n rng)) ≡ index (inner rng) + n
  unfolding advances versioned_advance advance
  index-advances zero (v0 r) h = omega arith
  index-advances (suc n) (v0 r) h =
      let one = add64-no_wrap r.counter 1 (omega (arith, h)) in
      omega (arith, one, index-advances n (v0 (advance core r)) (omega (arith, one, h)))

  pub advances-add :
      (n k : ℕ) (rng : VersionedKexRng)
      → advances core k (advances core n rng) ≡ advances core (n + k) rng
  unfolding advances
  advances-add zero k rng = let e : 0 + k ≡ k = omega arith in rw e refl
  advances-add (suc n) k rng =
      let e : suc n + k ≡ suc (n + k) = omega arith in
      rw e (advances-add n k (versioned_advance core rng))

  module _ (Stored : Bytes → Type 0) where
    -- After `n` more outputs comes one that the server does not have, long before the counter wraps.
    abbrev pub Stops : VersionedKexRng → ℕ → Type 0
    Stops rng n =
        (Stored (peek (inner (advances core n rng))) → ⊥) × (index (inner rng) + n + 1000 < u64_mod)

    -- The generators can advance by `total` outputs together.
    abbrev pub Dry : ℕ → Map Bytes VersionedKexRng → Type 0
    Dry total [] = Unit
    Dry total ((nonce, rng) ∷ rngs) =
        (n : ℕ) × (m : ℕ) × ((n + m ≤ total) × Stops rng n × Dry m rngs)

    pub moved_by :
        (n k : ℕ) (rng : VersionedKexRng)
        → Stops rng n
        → ((i : ℕ) → i < k → Stored (peek (inner (advances core i rng))))
        → (k ≤ n)
          × (index (inner (advances core k rng)) ≡ index (inner rng) + k)
          × Stops (advances core k rng) (n - k)
    moved_by n k rng (dry, small) served =
        let within : k ≤ n = elim (Bool-cases (ltb n k)) [
          | inl e ↦ absurd (dry (served n (ltb→lt n k e)))
          | inr e ↦ ltb→le n k e
        ] in
        let at = index-advances k rng (omega (arith, within, small)) in
        let back : k + (n - k) ≡ n = omega (arith, within) in
        (
          within,
          at,
          (
            λ s. dry (
                subst (λ j. Stored (peek (inner (advances core j rng)))) back
                  (subst (λ r. Stored (peek (inner r))) (advances-add k (n - k) rng) s)),
            omega (arith, at, within, small),
          ),
        )

    pub is_dead-moved :
        (old : Map Bytes VersionedKexRng) (multiplier k : ℕ) (nonce : Bytes)
        (rng rng' : VersionedKexRng)
        → get old nonce ≡ some rng
        → index (inner rng') ≡ index (inner rng) + k
        → index (inner rng) + multiplier < u64_mod
        → is_dead old multiplier (nonce, rng')
          ≡ ltb (index (inner rng) + k) (index (inner rng) + multiplier)
    unfolding is_dead
    is_dead-moved old multiplier k nonce rng rng' g i small =
        rw (g, i, add64-no_wrap (index (inner rng)) multiplier small, is_dead) refl

    -- The generators that came so far, and whether all of them are dead.
    abbrev pub Further : Map Bytes VersionedKexRng → ℕ → ℕ → Map Bytes VersionedKexRng → Type 0
    Further old multiplier total rngs' =
        (total' : ℕ) × (total' ≤ total)
        × Dry total' rngs'
        × ((length (filter (is_dead old multiplier) rngs') ≡ length rngs') ⊎ (total' < total))

    Further-cons :
        (old : Map Bytes VersionedKexRng) (multiplier total n m k : ℕ) (nonce : Bytes)
        (rng rng' : VersionedKexRng) (rngs' : Map Bytes VersionedKexRng)
        → 0 < multiplier
        → multiplier ≤ 1000
        → n + m ≤ total
        → get old nonce ≡ some rng
        → k ≤ n
        → index (inner rng') ≡ index (inner rng) + k
        → index (inner rng) + n + 1000 < u64_mod
        → Stops rng' (n - k)
        → Further old multiplier m rngs'
        → Further old multiplier total ((nonce, rng') ∷ rngs')
    unfolding filter
    Further-cons old multiplier total n m k nonce rng rng' rngs' lo hi l g le i small stops
          (m', le', dry, outcome) =
        let dead = is_dead-moved old multiplier k nonce rng rng' g i (omega (arith, hi, small)) in
        (
          (n - k) + m',
          omega (arith, le, le', l),
          (n - k, m', (omega arith, stops, dry)),
          elim (Bool-cases (ltb (index (inner rng) + k) (index (inner rng) + multiplier))) [
            | inr e ↦ inr (omega (arith, ltb→le _ _ e, lo, le, le', l))
            | inl e ↦ elim outcome [
              | inl all ↦ inl (rw (dead, e) (ap suc all))
              | inr less ↦ inr (omega (arith, less, le, l))
            ]
          ],
        )

    -- One round: all generators are dead, or together they have less far to go.
    Further-AllMoved :
        {BoxError R : Type 0} (d : Decryption BoxError R) (old : Map Bytes VersionedKexRng)
        (multiplier : ℕ) (m : Map Bytes Bytes) (left : Progress BoxError R)
        (rngs rngs' : Map Bytes VersionedKexRng) (total : ℕ)
        → 0 < multiplier
        → multiplier ≤ 1000
        → ((key ciphertext : Bytes) → get m key ≡ some ciphertext → Stored key)
        → All (λ e. get old e.0 ≡ some e.1) rngs
        → AllMoved core d m left rngs rngs'
        → Dry total rngs
        → Further old multiplier total rngs'
    unfolding filter
    Further-AllMoved d old multiplier m left [] [] total lo hi stored g a dry =
        (total, omega arith, tt, inl refl)
    Further-AllMoved d old multiplier m left [] (x ∷ xs) total lo hi stored g a dry = absurd a
    Further-AllMoved d old multiplier m left (x ∷ xs) [] total lo hi stored g a dry = absurd a
    Further-AllMoved d old multiplier m left ((nonce, rng) ∷ rngs) ((nonce', rng') ∷ rngs') total lo
          hi stored (g, gs) (e, (k, adv, gap, each), rest) (n, t, (l, stops, dry)) =
        let (le, i, stops') =
          moved_by n k rng stops (λ j lt. let (c, f, w) = each j lt in stored _ c f) in
        Further-cons old multiplier total n t k nonce' rng rng' rngs' lo hi l
          (subst (λ x. get old x ≡ some rng) (sym e) g) le
          (subst (λ r. index (inner r) ≡ index (inner rng) + k) (sym adv) i) stops.1
          (subst (λ r. Stops r (n - k)) (sym adv) stops')
          (Further-AllMoved d old multiplier m left rngs rngs' t lo hi stored gs rest dry)

length-names {ℓ κ} :
    {A : Type ℓ} {B : Type κ} (f : A → B) (xs : List A) → length (map f xs) ≡ length xs
length-names f [] = refl
length-names f (x ∷ xs) = ap suc (length-names f xs)

get-cons :
    (j : Bytes) (w : VersionedKexRng) (m : Map Bytes VersionedKexRng) (key : Bytes)
    (v : VersionedKexRng)
    → get m j ≡ none
    → get m key ≡ some v
    → get ((j, w) ∷ m) key ≡ some v
unfolding get
get-cons j w m key v none_there there_is = elim (Bool-cases (bytes_beq j key)) [
  | inr e ↦ rw e there_is
  | inl e ↦
      let same : j ≡ key = (bytes_beq_iff j key).0 e in
      let clash : none ≡ some v =
        sym none_there ∙ subst (λ x. get m x ≡ some v) (sym same) there_is in
      cc
]

get-head :
    (j : Bytes) (w : VersionedKexRng) (m : Map Bytes VersionedKexRng) → get ((j, w) ∷ m) j ≡ some w
unfolding get
get-head j w m = rw ((bytes_beq_iff j j).1 refl) refl

-- Where no nonce stands twice, every generator is found under its nonce.
pub Unique-get :
    (rngs : Map Bytes VersionedKexRng) → Unique rngs → All (λ e. get rngs e.0 ≡ some e.1) rngs
Unique-get [] u = tt
Unique-get ((j, w) ∷ m) (fresh, u) = (get-head j w m, keep m (Unique-get m u))
  where
    keep :
        (xs : Map Bytes VersionedKexRng)
        → All (λ e. get m e.0 ≡ some e.1) xs
        → All (λ e. get ((j, w) ∷ m) e.0 ≡ some e.1) xs
    keep [] a = tt
    keep (x ∷ xs) (h, a) = (get-cons j w m x.0 x.1 fresh h, keep xs a)

AllMoved-get :
    {BoxError R : Type 0} (core : KexRngCore) (d : Decryption BoxError R) (m : Map Bytes Bytes)
    (left : Progress BoxError R) (rngs rngs' : Map Bytes VersionedKexRng) (key : Bytes)
    → AllMoved core d m left rngs rngs'
    → get rngs key ≡ none
    → get rngs' key ≡ none
unfolding get
AllMoved-get core d m left [] [] key a h = refl
AllMoved-get core d m left [] (x ∷ xs) key a h = absurd a
AllMoved-get core d m left (x ∷ xs) [] key a h = absurd a
AllMoved-get core d m left ((j, w) ∷ rngs) ((j', w') ∷ rngs') key (e, moved, rest) h =
    elim (Bool-cases (bytes_beq j key)) [
      | inl f ↦ let bad = rw f at h in cc
      | inr f ↦ rw (e, f) (AllMoved-get core d m left rngs rngs' key rest (rw f at h))
    ]

-- The nonces stay.
pub AllMoved-Unique :
    {BoxError R : Type 0} (core : KexRngCore) (d : Decryption BoxError R) (m : Map Bytes Bytes)
    (left : Progress BoxError R) (rngs rngs' : Map Bytes VersionedKexRng)
    → AllMoved core d m left rngs rngs'
    → Unique rngs
    → Unique rngs'
AllMoved-Unique core d m left [] [] a u = tt
AllMoved-Unique core d m left [] (x ∷ xs) a u = absurd a
AllMoved-Unique core d m left (x ∷ xs) [] a u = absurd a
AllMoved-Unique core d m left ((j, w) ∷ rngs) ((j', w') ∷ rngs') (e, moved, rest) (fresh, u) = (
  AllMoved-get core d m left rngs rngs' j' rest (subst (λ x. get rngs x ≡ none) (sym e) fresh),
  AllMoved-Unique core d m left rngs rngs' rest u,
)

-- Either every generator is dead after the round, or together they have less far to go.
pub round-Further :
    {BoxError R : Type 0} (core : KexRngCore) (Stored : Bytes → Type 0) (d : Decryption BoxError R)
    (multiplier : ℕ) (m : Map Bytes Bytes) (left : Progress BoxError R)
    (rngs rngs' : Map Bytes VersionedKexRng) (total : ℕ)
    → 0 < multiplier
    → multiplier ≤ 1000
    → ((key ciphertext : Bytes) → get m key ≡ some ciphertext → Stored key)
    → Unique rngs
    → AllMoved core d m left rngs rngs'
    → Dry core Stored total rngs
    → (total' : ℕ) × (total' ≤ total)
      × Dry core Stored total' rngs'
      × ((length (dead_rngs rngs multiplier rngs') ≡ length rngs') ⊎ (total' < total))
unfolding dead_rngs
round-Further core Stored d multiplier m left rngs rngs' total lo hi stored u a dry =
    let (total', le, dry', outcome) =
      Further-AllMoved core Stored d rngs multiplier m left rngs rngs' total lo hi stored
        (Unique-get rngs u) a dry in
    (
      total',
      le,
      dry',
      elim outcome [
        | inl e ↦ inl (length-names (λ x. x.0) (filter (is_dead rngs multiplier) rngs') ∙ e)
        | inr h ↦ inr h
      ],
    )

pub next_multiplier-range :
    (multiplier : ℕ)
    → 0 < multiplier
    → multiplier ≤ 1000
    → (0 < next_multiplier multiplier) × (next_multiplier multiplier ≤ 1000)
unfolding next_multiplier
next_multiplier-range multiplier lo hi = ground (arith, lo, hi)

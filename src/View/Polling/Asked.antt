-- ===== src/View/Polling/Asked.antt =====
-- The search keys of a round of fog/view/protocol/src/polling.rs, and generators whose outputs differ.
use fog.Prelude.{
  ℕ, zero, suc, ◌+◌, ◌<◌, ◌≡◌, refl, sym, ap, subst, ◌∙◌, inl, inr, false, some, List, [], ◌∷◌,
  Bool-cases, eq_of_some, arith,
}
use fog.Prelude.Bytes.{Bytes, bytes_eq, bytes_beq}
use fog.Prelude.Lists.{All, In, here, there, In-append, In-append_left, In-append_right}
use fog.Prelude.Map.{Map, get, Unique}
use fog.Prelude.Queries.{any}
use fog.KexRng.Core.{KexRngCore}
use fog.Prelude.Words.{u64_mod}
use fog.KexRng.Buffered.{
  VersionedKexRng, v0, inner, peek, index, advance, next, take_outputs, versioned_advance,
}
use fog.View.UserRngSet.{Decryption, Progress}
use fog.View.UserRngSet.Drain.{advances}
use fog.View.UserRngSet.Results.{Moved, AllMoved}
use fog.View.Polling.{keys_of}
use fog.View.Polling.Round.{Unique-get, advances-add}

abbrev pub Rngs : Type 0
Rngs = Map Bytes VersionedKexRng

-- An entry is found under its nonce.
pub In-get :
    (rngs : Rngs) (nonce : Bytes) (rng : VersionedKexRng)
    → Unique rngs
    → In (nonce, rng) rngs
    → get rngs nonce ≡ some rng
In-get rngs nonce rng u i = pick rngs i (Unique-get rngs u)
  where
    pick :
        (xs : Rngs)
        → In (nonce, rng) xs
        → All (λ e. get rngs e.0 ≡ some e.1) xs
        → get rngs nonce ≡ some rng
    pick [] j a = elim j [ ]
    pick (x ∷ xs) (here e) (h, a) = subst (λ t. get rngs t.0 ≡ some t.1) e h
    pick (x ∷ xs) (there j) (h, a) = pick xs j a

pub In-same :
    (rngs : Rngs) (nonce : Bytes) (rng rng' : VersionedKexRng)
    → Unique rngs
    → In (nonce, rng) rngs
    → In (nonce, rng') rngs
    → rng ≡ rng'
In-same rngs nonce rng rng' u i j =
    eq_of_some (sym (In-get rngs nonce rng u i) ∙ In-get rngs nonce rng' u j)

module _ (core : KexRngCore) where
  -- The `i`-th output from here.
  abbrev pub output : ℕ → VersionedKexRng → Bytes
  output i rng = peek (inner (advances core i rng))

  pub take_outputs-In :
      (n i : ℕ) (rng : VersionedKexRng)
      → i < n
      → In (output i rng) (take_outputs core n (inner rng))
  unfolding take_outputs next advances versioned_advance
  take_outputs-In zero i rng h = absurd (omega (arith, h))
  take_outputs-In (suc n) zero (v0 r) h = here refl
  take_outputs-In (suc n) (suc i) (v0 r) h =
      there (take_outputs-In n i (v0 (advance core r)) (omega (arith, h)))

  In-take_outputs :
      (n : ℕ) (rng : VersionedKexRng) (key : Bytes)
      → In key (take_outputs core n (inner rng))
      → (i : ℕ) × ((i < n) × (output i rng ≡ key))
  unfolding take_outputs next advances versioned_advance
  In-take_outputs zero rng key j = elim j [ ]
  In-take_outputs (suc n) (v0 r) key (here e) = (0, (omega arith, e))
  In-take_outputs (suc n) (v0 r) key (there j) =
      let (i, (lt, e)) = In-take_outputs n (v0 (advance core r)) key j in
      (suc i, (omega (arith, lt), e))

  -- The outputs of a generator that is not dead are asked for.
  pub keys_of-In :
      (multiplier i : ℕ) (dead : List Bytes) (rngs : Rngs) (nonce : Bytes) (rng : VersionedKexRng)
      → In (nonce, rng) rngs
      → any (bytes_beq nonce) dead ≡ false
      → i < multiplier
      → In (output i rng) (keys_of core multiplier dead rngs)
  keys_of-In multiplier i dead [] nonce rng j e lt = elim j [ ]
  keys_of-In multiplier i dead ((m, x) ∷ rngs) nonce rng (there j) e lt =
      In-append_right _ (keys_of core multiplier dead rngs)
        (keys_of-In multiplier i dead rngs nonce rng j e lt)
  keys_of-In multiplier i dead ((m, x) ∷ rngs) nonce rng (here s) e lt =
      let alive : any (bytes_beq m) dead ≡ false =
        subst (λ t. any (bytes_beq t) dead ≡ false) (sym (ap (λ t. t.0) s)) e in
      rw alive (
        In-append_left (take_outputs core multiplier (inner x)) (keys_of core multiplier dead rngs)
          (subst (λ t. In (output i t) (take_outputs core multiplier (inner x))) (ap (λ t. t.1) s)
            (take_outputs-In multiplier i x lt)))

  -- Nothing else is asked for.
  pub In-keys_of :
      (multiplier : ℕ) (dead : List Bytes) (rngs : Rngs) (key : Bytes)
      → In key (keys_of core multiplier dead rngs)
      → (nonce : Bytes) × (rng : VersionedKexRng) × (i : ℕ) × (In (nonce, rng) rngs
          × (any (bytes_beq nonce) dead ≡ false)
          × (output i rng ≡ key)
          × (i < multiplier))
  In-keys_of multiplier dead [] key j = elim j [ ]
  In-keys_of multiplier dead ((m, x) ∷ rngs) key j = elim (Bool-cases (any (bytes_beq m) dead)) [
    | inl e ↦
        let (nonce, rng, i, (k, a, o, l)) = In-keys_of multiplier dead rngs key (rw e at j) in
        (nonce, rng, i, (there k, a, o, l))
    | inr e ↦
        elim (In-append (take_outputs core multiplier (inner x)) (keys_of core multiplier dead rngs)
          (rw e at j)) [
            | inl here_is ↦
                let (i, (lt, o)) = In-take_outputs multiplier x key here_is in
                (m, x, i, (here refl, e, o, lt))
            | inr later ↦
                let (nonce, rng, i, (k, a, o, l)) = In-keys_of multiplier dead rngs key later in
                (nonce, rng, i, (there k, a, o, l))
          ]
  ]

  -- No two generators have an output in common, and none gives one twice, before a counter wraps.
  abbrev pub Apart : Rngs → Type 0
  Apart rngs =
      (nonce nonce' : Bytes) (rng rng' : VersionedKexRng) (i j : ℕ)
      → index (inner rng) + i < u64_mod
      → index (inner rng') + j < u64_mod
      → In (nonce, rng) rngs
      → In (nonce', rng') rngs
      → output i rng ≡ output j rng'
      → (nonce ≡ nonce') × (rng ≡ rng') × (i ≡ j)

  -- Where a generator came from.
  pub AllMoved-In :
      {BoxError R : Type 0} (d : Decryption BoxError R) (m : Map Bytes Bytes)
      (left : Progress BoxError R) (rngs rngs' : Rngs) (nonce : Bytes) (rng' : VersionedKexRng)
      → AllMoved core d m left rngs rngs'
      → In (nonce, rng') rngs'
      → (rng : VersionedKexRng) × (In (nonce, rng) rngs × Moved core d m left rng rng')
  AllMoved-In d m left [] [] nonce rng' a i = elim i [ ]
  AllMoved-In d m left [] (x ∷ xs) nonce rng' a i = absurd a
  AllMoved-In d m left (x ∷ xs) [] nonce rng' a i = absurd a
  AllMoved-In d m left ((k, y) ∷ rngs) ((k', y') ∷ rngs') nonce rng' (e, moved, rest) (there i) =
      let (rng, (j, h)) = AllMoved-In d m left rngs rngs' nonce rng' rest i in (rng, (there j, h))
  AllMoved-In d m left ((k, y) ∷ rngs) ((k', y') ∷ rngs') nonce rng' (e, moved, rest) (here s) = (
    y,
    (
      here (ap (λ t. (t, y)) (sym e ∙ ap (λ t. t.0) s)),
      subst (λ t. Moved core d m left y t) (ap (λ t. t.1) s) moved,
    ),
  )

  output-advances :
      (n i : ℕ) (rng rng' : VersionedKexRng)
      → rng' ≡ advances core n rng
      → output (n + i) rng ≡ output i rng'
  output-advances n i rng rng' e =
      ap (λ r. peek (inner r)) (sym (advances-add core n i rng)) ∙ ap (λ r. output i r) (sym e)

  Apart-advances :
      (rngs rngs' : Rngs)
      → Unique rngs'
      → Apart rngs
      → (nonce nonce' : Bytes) (x x' y y' : VersionedKexRng) (i j n n' : ℕ) → In (nonce, y) rngs
      → In (nonce', y') rngs
      → x ≡ advances core n y
      → x' ≡ advances core n' y'
      → index (inner x) ≡ index (inner y) + n
      → index (inner x') ≡ index (inner y') + n'
      → index (inner x) + i < u64_mod
      → index (inner x') + j < u64_mod
      → In (nonce, x) rngs'
      → In (nonce', x') rngs'
      → output i x ≡ output j x'
      → (nonce ≡ nonce') × (x ≡ x') × (i ≡ j)
  Apart-advances rngs rngs' u apart nonce nonce' x x' y y' i j n n' g g' adv adv' at at' lt lt' h h'
        e =
      let (same, from, count) =
        apart nonce nonce' y y' (n + i) (n' + j) (omega (arith, at, lt)) (omega (arith, at', lt')) g
          g' (output-advances n i y x adv ∙ e ∙ sym (output-advances n' j y' x' adv')) in
      let to : x ≡ x' =
        In-same rngs' nonce x x' u h (subst (λ t. In (t, x') rngs') (sym same) h') in
      let (same', from', steps) =
        apart nonce nonce' y y' n n' (omega (arith, at, lt)) (omega (arith, at', lt')) g g'
          (ap (λ r. peek (inner r)) (sym adv ∙ to ∙ adv')) in
      (same, to, omega (arith, count, steps))

  -- Generators stay apart when they advance.
  pub AllMoved-Apart :
      {BoxError R : Type 0} (d : Decryption BoxError R) (m : Map Bytes Bytes)
      (left : Progress BoxError R) (rngs rngs' : Rngs)
      → AllMoved core d m left rngs rngs'
      → Unique rngs'
      → ((nonce : Bytes) (y x : VersionedKexRng)
          → In (nonce, y) rngs
          → (moved : Moved core d m left y x) → index (inner x) ≡ index (inner y) + moved.0)
      → Apart rngs
      → Apart rngs'
  AllMoved-Apart d m left rngs rngs' a u counts apart nonce nonce' x x' i j lt lt' h h' e =
      let (y, (g, (n, adv, gap, each))) = AllMoved-In d m left rngs rngs' nonce x a h in
      let (y', (g', (n', adv', gap', each'))) = AllMoved-In d m left rngs rngs' nonce' x' a h' in
      Apart-advances rngs rngs' u apart nonce nonce' x x' y y' i j n n' g g' adv adv'
        (counts nonce y x g (n, adv, gap, each)) (counts nonce' y' x' g' (n', adv', gap', each')) lt
        lt' h h' e

-- ===== src/Prelude/Rows.antt =====
-- Tables whose rows do not conflict with each other, and what the queries do to them.
use mathlib.Core.Path.{◌≡◌, refl}
use mathlib.Core.Logic.{inl, inr}
use mathlib.Core.Bool.{Bool, true, false, ◌&&◌, ◌||◌}
use mathlib.Core.List.{List, [], ◌∷◌, ◌++◌}
use native.Mathlib.Omega.{arith}
use fog.Prelude.Tests.{Bool-cases}
use fog.Prelude.Lists.{In, here, there}
use fog.Prelude.Queries.{any, filter, update}

module _ {ℓ} {A : Type ℓ} where
  -- No row conflicts with one before it.
  abbrev pub Distinct : (A → A → Bool) → List A → Type 0
  Distinct c [] = Unit
  Distinct c (x ∷ xs) = (any (λ r. c r x) xs ≡ false) × Distinct c xs

  pub any-append : (p : A → Bool) (xs ys : List A) → any p (xs ++ ys) ≡ any p xs || any p ys
  unfolding any
  any-append p [] ys = refl
  any-append p (x ∷ xs) ys = ground (arith, any-append p xs ys)

  pub Distinct-append :
      (c : A → A → Bool) (xs : List A) (new : A)
      → any (c new) xs ≡ false
      → Distinct c xs
      → Distinct c (xs ++ (new ∷ []))
  unfolding any
  Distinct-append c [] new h d = (refl, tt)
  Distinct-append c (x ∷ xs) new h d =
      ground (arith, any-append (λ r. c r x) xs (new ∷ []), Distinct-append c xs new)

  pub any-update :
      (p q : A → Bool) (f : A → A) (xs : List A)
      → ((x : A) → q (f x) ≡ q x)
      → any q (update p f xs) ≡ any q xs
  unfolding any update
  any-update p q f [] h = refl
  any-update p q f (x ∷ xs) h = ground (arith, h x, any-update p q f xs h)

  any-ext : (p q : A → Bool) (xs : List A) → ((x : A) → p x ≡ q x) → any p xs ≡ any q xs
  unfolding any
  any-ext p q [] h = refl
  any-ext p q (x ∷ xs) h = ground (arith, h x, any-ext p q xs h)

  -- An update that leaves alone what the conflicts are about.
  pub Distinct-update :
      (c : A → A → Bool) (p : A → Bool) (f : A → A) (xs : List A)
      → ((x y : A) → c (f x) y ≡ c x y)
      → ((x y : A) → c x (f y) ≡ c x y)
      → Distinct c xs
      → Distinct c (update p f xs)
  unfolding any update
  Distinct-update c p f [] hl hr d = tt
  Distinct-update c p f (x ∷ xs) hl hr d = (
    elim (Bool-cases (p x)) [
      | inl e ↦
          rw
            (
              e,
              any-update p (λ r. c r (f x)) f xs (λ y. hl y (f x)),
              any-ext (λ r. c r (f x)) (λ r. c r x) xs (λ r. hr r x),
            )
            d.0
      | inr e ↦ rw (e, any-update p (λ r. c r x) f xs (λ y. hl y x)) d.0
    ],
    Distinct-update c p f xs hl hr d.1,
  )

  pub any-filter : (p q : A → Bool) (xs : List A) → any q xs ≡ false → any q (filter p xs) ≡ false
  unfolding any filter
  any-filter p q [] h = refl
  any-filter p q (x ∷ xs) h = ground (arith, any-filter p q xs)

  pub Distinct-filter :
      (c : A → A → Bool) (p : A → Bool) (xs : List A) → Distinct c xs → Distinct c (filter p xs)
  unfolding any filter
  Distinct-filter c p [] d = tt
  Distinct-filter c p (x ∷ xs) d =
      ground (arith, any-filter p (λ r. c r x) xs, Distinct-filter c p xs)

  pub filter-empty : (p : A → Bool) (xs : List A) → any p xs ≡ false → filter p xs ≡ []
  unfolding any filter
  filter-empty p [] h = refl
  filter-empty p (x ∷ xs) h = ground (arith, filter-empty p xs)

  pub filter-append :
      (p : A → Bool) (xs ys : List A) → filter p (xs ++ ys) ≡ filter p xs ++ filter p ys
  unfolding filter
  filter-append p [] ys = refl
  filter-append p (x ∷ xs) ys = ground (arith, filter-append p xs ys)

  pub filter-and :
      (p q : A → Bool) (xs : List A) → filter (λ x. p x && q x) xs ≡ filter q (filter p xs)
  unfolding filter
  filter-and p q [] = refl
  filter-and p q (x ∷ xs) = elim (Bool-cases (p x)) [
    | inl e ↦ rw (e, filter-and p q xs) refl
    | inr e ↦ rw (e, filter-and p q xs) refl
  ]

  -- An update that leaves alone what is selected by.
  pub filter-update :
      (p c : A → Bool) (f : A → A) (xs : List A)
      → ((x : A) → p (f x) ≡ p x)
      → filter p (update c f xs) ≡ update c f (filter p xs)
  unfolding filter update
  filter-update p c f [] h = refl
  filter-update p c f (x ∷ xs) h = elim (Bool-cases (p x)) [
    | inl e ↦ elim (Bool-cases (c x)) [
      | inl g ↦ rw (e, g, h x, e, filter-update p c f xs h) refl
      | inr g ↦ rw (e, g, e, filter-update p c f xs h) refl
    ]
    | inr e ↦ elim (Bool-cases (c x)) [
      | inl g ↦ rw (e, g, h x, e, filter-update p c f xs h) refl
      | inr g ↦ rw (e, g, e, filter-update p c f xs h) refl
    ]
  ]

  pub update-none : (c : A → Bool) (f : A → A) (xs : List A) → any c xs ≡ false → update c f xs ≡ xs
  unfolding any update
  update-none c f [] h = refl
  update-none c f (x ∷ xs) h = ground (arith, update-none c f xs)

  pub filter-head :
      (p : A → Bool) (xs : List A) (y : A) (ys : List A) → filter p xs ≡ y ∷ ys → p y ≡ true
  unfolding filter
  filter-head p [] y ys h = cc
  filter-head p (x ∷ xs) y ys h = elim (Bool-cases (p x)) [
    | inl e ↦ ground arith
    | inr e ↦ ground (arith, filter-head p xs y ys)
  ]

  pub any_none :
      (p q : A → Bool) (xs : List A)
      → ((x : A) → p x ≡ true → q x ≡ false)
      → any q (filter p xs) ≡ false
  unfolding any filter
  any_none p q [] h = refl
  any_none p q (x ∷ xs) h = ground (arith, h x, any_none p q xs h)

  pub filter-any : (p : A → Bool) (xs : List A) → filter p xs ≡ [] → any p xs ≡ false
  unfolding any filter
  filter-any p [] h = refl
  filter-any p (x ∷ xs) h = ground (arith, filter-any p xs)

  pub any-of_filter :
      (p : A → Bool) (xs : List A) (y : A) (ys : List A) → filter p xs ≡ y ∷ ys → any p xs ≡ true
  unfolding any filter
  any-of_filter p [] y ys h = cc
  any-of_filter p (x ∷ xs) y ys h = ground (arith, any-of_filter p xs y ys)

  -- A row is there after the update of those that were found.
  pub In-update :
      (p : A → Bool) (f : A → A) (xs : List A)
      → any p xs ≡ true
      → (y : A) × (p y ≡ true) × In (f y) (update p f xs)
  unfolding any update
  In-update p f [] h = cc
  In-update p f (x ∷ xs) h = elim (Bool-cases (p x)) [
    | inl e ↦ (x, e, rw e (here refl))
    | inr e ↦ let (y, q, i) = In-update p f xs (rw e at h) in (y, q, rw e (there i))
  ]

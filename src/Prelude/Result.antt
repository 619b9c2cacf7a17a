-- ===== src/Prelude/Result.antt =====
-- `Result` of the Rust library, its `do` blocks and `?`.
use mathlib.Core.Path.{◌≡◌, refl, subst}
use mathlib.Core.Logic.{◌⊎◌, inl, inr}

-- `Result<A, E>`.
pub data Result {ℓ κ} (E : Type ℓ) (A : Type κ) : Type (ℓ ⊔ κ) where
  ok : A → Result E A
  err : E → Result E A

infixl 5 ◌>>=◌ ◌>>◌
abbrev pub ◌>>=◌ {ℓ κ μ} :
    {E : Type ℓ} {A : Type κ} {B : Type μ} → Result E A → (A → Result E B) → Result E B
ok a >>= f = f a
err e >>= f = err e

abbrev pub ◌>>◌ {ℓ κ μ} :
    {E : Type ℓ} {A : Type κ} {B : Type μ} → Result E A → Result E B → Result E B
m >> k = m >>= λ _. k

-- `map_err`, which `?` does by `From`
abbrev pub map_err {ℓ κ μ} :
    {E : Type ℓ} {F : Type κ} {A : Type μ} → (E → F) → Result E A → Result F A
map_err f (ok a) = ok a
map_err f (err e) = err (f e)

pub Result-cases {ℓ κ} :
    {E : Type ℓ} {A : Type κ} (r : Result E A) → ((a : A) × (r ≡ ok a)) ⊎ ((e : E) × (r ≡ err e))
Result-cases (ok a) = inl (a, refl)
Result-cases (err e) = inr (e, refl)

-- The value, when there is one, has the property.
abbrev pub Holds {ℓ κ μ} : {E : Type ℓ} {A : Type κ} → (A → Type μ) → Result E A → Type μ
Holds P (ok a) = P a
Holds P (err e) = Unit

pub Holds-bind {ℓ κ μ ν ρ} :
    {E : Type ℓ} {A : Type κ} {B : Type μ} (P : A → Type ν) (Q : B → Type ρ) (m : Result E A)
    (f : A → Result E B)
    → Holds P m
    → ((a : A) → P a → Holds Q (f a))
    → Holds Q (m >>= f)
Holds-bind P Q (ok a) f h k = k a h
Holds-bind P Q (err e) f h k = tt

pub of_Holds {ℓ κ μ} :
    {E : Type ℓ} {A : Type κ} (P : A → Type μ) {m : Result E A} {a : A} → Holds P m → m ≡ ok a → P a
of_Holds P h e = subst (λ m. Holds P m) e h

pub Holds-mono {ℓ κ μ ν} :
    {E : Type ℓ} {A : Type κ} {P : A → Type μ} {Q : A → Type ν} (m : Result E A)
    → ((a : A) → P a → Q a)
    → Holds P m
    → Holds Q m
Holds-mono (ok a) k h = k a h
Holds-mono (err e) k h = tt

-- A result that is `ok` is `ok` of its value.
pub Holds-ok {ℓ κ} : {E : Type ℓ} {A : Type κ} (m : Result E A) → Holds (λ a. m ≡ ok a) m
Holds-ok (ok a) = refl
Holds-ok (err e) = tt

-- Nothing is claimed.
pub Holds-any {ℓ κ} : {E : Type ℓ} {A : Type κ} (m : Result E A) → Holds (λ _. Unit {0}) m
Holds-any (ok a) = tt
Holds-any (err e) = tt

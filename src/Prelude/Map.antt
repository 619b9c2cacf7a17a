-- ===== src/Prelude/Map.antt =====
-- `HashMap` as an association list in some order. Every statement ranges over all lists, so it
-- holds whatever the order in which the hash map is iterated.
use fog.Prelude.Lists.{length}
use mathlib.Core.Path.{◌≡◌, refl}
use mathlib.Core.Logic.{◌↔◌}
use mathlib.Core.Bool.{Bool, true}
use mathlib.Core.Option.{Option, none, some}
use mathlib.Core.List.{List, [], ◌∷◌}
use native.Mathlib.Omega.{arith}
use Prim.Native.Nat.{ℕ, ◌+◌, ◌≤◌, ◌<◌}
use fog.Prelude.Tests.{◌==◌ as nat_beq, if◌then◌else◌, ==→eq, eq→==}

-- Equality of keys.
pub record Eq {ℓ} (K : Type ℓ) : Type ℓ where
  pub beq : K → K → Bool
  pub beq_iff : (a b : K) → (beq a b ≡ true) ↔ (a ≡ b)

abbrev pub Map {ℓ κ} : Type ℓ → Type κ → Type (ℓ ⊔ κ)
Map K V = List (K × V)

pub nat_beq_iff : (a b : ℕ) → (nat_beq a b ≡ true) ↔ (a ≡ b)
nat_beq_iff a b = (==→eq a b, eq→== a b)

instance abbrev pub nat_eq : Eq ℕ
nat_eq = record { beq = nat_beq; beq_iff = nat_beq_iff }

module _ {ℓ κ} {K : Type ℓ} {V : Type κ} ⦃e : Eq K⦄ where
  -- `HashMap::get`
  unfoldable pub get : Map K V → K → Option V
  get [] k = none
  get ((j, v) ∷ m) k = if e.beq j k then some v else get m k

  -- `HashMap::insert`, without the value that it returns, which is `get m k`
  unfoldable pub insert : Map K V → K → V → Map K V
  insert [] k v = (k, v) ∷ []
  insert ((j, w) ∷ m) k v = if e.beq j k then (j, v) ∷ m else (j, w) ∷ insert m k v

  -- `HashMap::remove`, without the value that it returns, which is `get m k`
  unfoldable pub remove : Map K V → K → Map K V
  remove [] k = []
  remove ((j, w) ∷ m) k = let rest = remove m k in if e.beq j k then rest else (j, w) ∷ rest

  pub get-insert :
      (m : Map K V) (k j : K) (v : V)
      → get (insert m k v) j ≡ (if e.beq k j then some v else get m j)
  unfolding get insert
  get-insert [] k j v = refl
  get-insert ((i, w) ∷ m) k j v =
      ground (arith, e.beq_iff i k, e.beq_iff i j, e.beq_iff k j, get-insert m k j v)

  pub get-remove :
      (m : Map K V) (k j : K) → get (remove m k) j ≡ (if e.beq k j then none else get m j)
  unfolding get remove
  get-remove [] k j = ground arith
  get-remove ((i, w) ∷ m) k j =
      ground (arith, e.beq_iff i k, e.beq_iff i j, e.beq_iff k j, get-remove m k j)

  -- No key stands twice.
  abbrev pub Unique : Map K V → Type κ
  Unique [] = Unit
  Unique ((j, v) ∷ m) = (get m j ≡ none) × Unique m

  pub insert-Unique : (m : Map K V) (k : K) (v : V) → Unique m → Unique (insert m k v)
  unfolding insert get
  insert-Unique [] k v u = (refl, tt)
  insert-Unique ((j, w) ∷ m) k v u =
      ground (arith, e.beq_iff j k, e.beq_iff k j, get-insert m k j v, insert-Unique m k v u.1)

  pub remove-Unique : (m : Map K V) (k : K) → Unique m → Unique (remove m k)
  unfolding remove
  remove-Unique [] k u = tt
  remove-Unique ((j, w) ∷ m) k u = ground (arith, get-remove m k j, remove-Unique m k u.1)

  pub length-remove-le : (m : Map K V) (k : K) → length (remove m k) ≤ length m
  unfolding remove
  length-remove-le [] k = omega arith
  length-remove-le ((j, w) ∷ m) k = ground (arith, length-remove-le m k)

  -- Removing a key that is there makes the map shorter.
  pub length-remove-lt :
      (m : Map K V) (k : K) (v : V) → get m k ≡ some v → length (remove m k) < length m
  unfolding remove get
  length-remove-lt [] k v h = cc
  length-remove-lt ((j, w) ∷ m) k v h = ground (arith, length-remove-le m k, length-remove-lt m k v)

  length-remove_absent : (m : Map K V) (k : K) → get m k ≡ none → length (remove m k) ≡ length m
  unfolding remove get
  length-remove_absent [] k h = refl
  length-remove_absent ((j, w) ∷ m) k h = ground (arith, length-remove_absent m k)

  pub length-remove :
      (m : Map K V) (k : K) (v : V)
      → Unique m
      → get m k ≡ some v
      → length (remove m k) + 1 ≡ length m
  unfolding remove get
  length-remove [] k v u h = cc
  length-remove ((j, w) ∷ m) k v u h =
      ground (arith, e.beq_iff j k, length-remove_absent m k, length-remove m k v u.1)
